-- ===== src/EthernetHeader/Laws.antt =====
-- ethernet_header.cc: parsing what was serialized.
use cs144_introduction_to_co.Prelude.{ℕ, ◌^◌, ◌<◌, ◌≡◌, List, ◌++◌, arith, ltb, false}
use cs144_introduction_to_co.Buffer
use cs144_introduction_to_co.Parser.{NetParser, no_error, unparse_int}
use cs144_introduction_to_co.Parser.Laws.{Ready, size_left, u8-unparse, u16-unparse}
use cs144_introduction_to_co.EthernetHeader.{
  EthernetAddress, EthernetHeader, parse_address, serialize_address, parse, serialize,
  header_length,
}

-- Each field is a byte.
abbrev pub IsAddress : EthernetAddress → Type 0
IsAddress a =
    (a.byte0 < 2 ^ 8)
    × (a.byte1 < 2 ^ 8)
    × (a.byte2 < 2 ^ 8)
    × (a.byte3 < 2 ^ 8)
    × (a.byte4 < 2 ^ 8)
    × (a.byte5 < 2 ^ 8)

pub parse_address-serialize_address :
    (p : NetParser) (a : EthernetAddress) (rest : List ℕ)
    → Ready p (serialize_address a ++ rest)
    → IsAddress a
    → (q : NetParser) × (parse_address p ≡ (a, q)) × Ready q rest
unfolding parse_address serialize_address unparse_int
parse_address-serialize_address p a rest r (h0, h1, h2, h3, h4, h5) =
    let (p1, e0, r1) = u8-unparse p a.byte0 _ r h0 in
    let (p2, e1, r2) = u8-unparse p1 a.byte1 _ r1 h1 in
    let (p3, e2, r3) = u8-unparse p2 a.byte2 _ r2 h2 in
    let (p4, e3, r4) = u8-unparse p3 a.byte3 _ r3 h3 in
    let (p5, e4, r5) = u8-unparse p4 a.byte4 _ r4 h4 in
    let (p6, e5, r6) = u8-unparse p5 a.byte5 rest r5 h5 in (p6, rw (e0, e1, e2, e3, e4, e5), r6)

abbrev pub IsHeader : EthernetHeader → Type 0
IsHeader h = IsAddress h.dst × IsAddress h.src × (h.ether_type < 2 ^ 16)

-- The serialized fields are parsed to the header that they came from, whatever it held before, and
-- exactly what follows them is left.
pub parse-serialize_ethernet :
    (old h : EthernetHeader) (p : NetParser) (rest : List ℕ)
    → IsHeader h
    → Ready p (serialize h ++ rest)
    → (q : NetParser) × (parse old p ≡ (no_error, h, q)) × Ready q rest
unfolding parse serialize serialize_address unparse_int
parse-serialize_ethernet old h p rest (hd, hs, ht) r =
    let (p1, e1, r1) =
      parse_address-serialize_address p h.dst
        (serialize_address h.src ++ unparse_int 2 h.ether_type ++ rest) r hd in
    let (p2, e2, r2) =
      parse_address-serialize_address p1 h.src (unparse_int 2 h.ether_type ++ rest) r1 hs in
    let (q, e3, r3) = u16-unparse p2 h.ether_type rest r2 ht in
    let n = size_left p (serialize h) rest r in
    let t : ltb (Buffer.size p.buffer) header_length ≡ false = ground arith in
    (q, rw (e1, e2, e3, t, r3.error), r3)
