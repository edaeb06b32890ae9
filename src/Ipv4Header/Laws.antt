-- ===== src/Ipv4Header/Laws.antt =====
-- ipv4_header.cc: parsing what was serialized.
use cs144_introduction_to_co.Prelude.{
  ℕ, ◌+◌, ◌-◌, ◌*◌, ◌/◌, ◌%◌, ◌^◌, ◌<◌, ◌≤◌, ◌≡◌, refl, ap, subst, ◌∙◌, List, ◌++◌, take, take-all,
  take-append, append-nil, replicate, append_assoc, arith, ltb, length, length-append, true, false,
  ◌==◌, some,
}
use cs144_introduction_to_co.Buffer.{str}
use cs144_introduction_to_co.Buffer
use cs144_introduction_to_co.InternetChecksum
use cs144_introduction_to_co.Parser.{NetParser, no_error, unparse_int, u8, u16, u32}
use cs144_introduction_to_co.Parser.Laws.{
  Ready, size_left, u8-unparse, u16-unparse, u32-unparse, remove_prefix-append,
}
use cs144_introduction_to_co.TcpHeader.{bit, resize}
use cs144_introduction_to_co.TcpHeader.Laws.{masked_lem, length-replicate}
use cs144_introduction_to_co.Ipv4Header.{
  Ipv4Header, first_byte, fo_val, assign, header_length, parse_fields, serialize_fields, parse,
  serialize, check_fields, header_checksum,
}

-- Each field fits its width.
pub record IsHeader (h : Ipv4Header) : Type 0 where
  pub ver : h.ver < 2 ^ 4
  pub hlen : h.hlen < 2 ^ 4
  pub tos : h.tos < 2 ^ 8
  pub len : h.len < 2 ^ 16
  pub id : h.id < 2 ^ 16
  pub offset : h.offset < 0x2000
  pub ttl : h.ttl < 2 ^ 8
  pub proto : h.proto < 2 ^ 8
  pub cksum : h.cksum < 2 ^ 16
  pub src : h.src < 2 ^ 32
  pub dst : h.dst < 2 ^ 32

-- Ten reads in a row.
steps :
    (p p1 p2 p3 p4 p5 p6 p7 p8 p9 q : NetParser) (v1 v2 v3 v4 v5 v6 v7 v8 v9 v : ℕ)
    → u8 p ≡ (v1, p1)
    → u8 p1 ≡ (v2, p2)
    → u16 p2 ≡ (v3, p3)
    → u16 p3 ≡ (v4, p4)
    → u16 p4 ≡ (v5, p5)
    → u8 p5 ≡ (v6, p6)
    → u8 p6 ≡ (v7, p7)
    → u16 p7 ≡ (v8, p8)
    → u32 p8 ≡ (v9, p9)
    → u32 p9 ≡ (v, q)
    → parse_fields p ≡ (assign v1 v2 v3 v4 v5 v6 v7 v8 v9 v, q)
unfolding parse_fields
steps p p1 p2 p3 p4 p5 p6 p7 p8 p9 q v1 v2 v3 v4 v5 v6 v7 v8 v9 v e1 e2 e3 e4 e5 e6 e7 e8 e9 e =
    rw (e1, e2, e3, e4, e5, e6, e7, e8, e9, e)

fo_val_lem :
    (h : Ipv4Header)
    → IsHeader h
    → (fo_val h < 2 ^ 16)
      × (bit 0x4000 (fo_val h) ≡ h.df)
      × (bit 0x2000 (fo_val h) ≡ h.mf)
      × (fo_val h % 0x2000 ≡ h.offset)
unfolding fo_val
fo_val_lem h k =
    let (d, d1, db) = masked_lem 0x4000 h.df in
    let (m, m1, mb) = masked_lem 0x2000 h.mf in
    (
      omega (arith, k.offset),
      ap (λ n. n == 1) (omega (arith, k.offset)) ∙ db,
      ap (λ n. n == 1) (omega (arith, k.offset)) ∙ mb,
      omega (arith, k.offset),
    )

assign_lem :
    (h : Ipv4Header)
    → IsHeader h
    → assign (first_byte h) h.tos h.len h.id (fo_val h) h.ttl h.proto h.cksum h.src h.dst ≡ h
unfolding assign first_byte
assign_lem h k =
    let (small, d, m, o) = fo_val_lem h k in
    let v : ((h.ver * 2 ^ 4) % 2 ^ 8 + h.hlen % 2 ^ 4) / 2 ^ 4 ≡ h.ver =
      omega (arith, k.ver, k.hlen) in
    let l : ((h.ver * 2 ^ 4) % 2 ^ 8 + h.hlen % 2 ^ 4) % 2 ^ 4 ≡ h.hlen =
      omega (arith, k.ver, k.hlen) in
    rw (v, l, d, m, o)

first_byte_small : (h : Ipv4Header) → IsHeader h → first_byte h < 2 ^ 8
unfolding first_byte
first_byte_small h k = omega (arith, k.ver, k.hlen)

parse_fields_lem :
    (h : Ipv4Header) (p : NetParser) (rest : List ℕ)
    → IsHeader h
    → Ready p (serialize_fields h ++ rest)
    → (q : NetParser) × (parse_fields p ≡ (h, q)) × Ready q rest
unfolding serialize_fields unparse_int
parse_fields_lem h p rest k r =
    let (p1, e1, r1) = u8-unparse p (first_byte h) _ r (first_byte_small h k) in
    let (p2, e2, r2) = u8-unparse p1 h.tos _ r1 k.tos in
    let (p3, e3, r3) = u16-unparse p2 h.len _ r2 k.len in
    let (p4, e4, r4) = u16-unparse p3 h.id _ r3 k.id in
    let (p5, e5, r5) = u16-unparse p4 (fo_val h) _ r4 (fo_val_lem h k).0 in
    let (p6, e6, r6) = u8-unparse p5 h.ttl _ r5 k.ttl in
    let (p7, e7, r7) = u8-unparse p6 h.proto _ r6 k.proto in
    let (p8, e8, r8) = u16-unparse p7 h.cksum _ r7 k.cksum in
    let (p9, e9, r9) = u32-unparse p8 h.src _ r8 k.src in
    let (q, e, s) = u32-unparse p9 h.dst rest r9 k.dst in
    (
      q,
      steps p p1 p2 p3 p4 p5 p6 p7 p8 p9 q _ _ _ _ _ _ _ _ _ _ e1 e2 e3 e4 e5 e6 e7 e8 e9 e
          ∙ ap (λ x. (x, q)) (assign_lem h k),
      s,
    )

length-serialize_fields : (h : Ipv4Header) → length (serialize_fields h) ≡ 20
unfolding serialize_fields unparse_int
length-serialize_fields h = refl

abbrev padding : Ipv4Header → List ℕ
padding h = replicate (h.hlen * 4 - header_length) 0

resized :
    (h : Ipv4Header)
    → 5 ≤ h.hlen
    → resize (4 * h.hlen) (serialize_fields h) ≡ serialize_fields h ++ padding h
resized h five =
    let l = length-serialize_fields h in
    let t : take (4 * h.hlen) (serialize_fields h) ≡ serialize_fields h =
      take-all (4 * h.hlen) (serialize_fields h) (omega arith) in
    let n : 4 * h.hlen - length (serialize_fields h) ≡ h.hlen * 4 - header_length = omega arith in
    rw (t, n)

serialize_padded :
    (h : Ipv4Header) (bytes : List ℕ)
    → serialize h ≡ some bytes
    → (h.ver ≡ 4) × (5 ≤ h.hlen) × (bytes ≡ serialize_fields h ++ padding h)
unfolding serialize
serialize_padded h bytes e =
    let five : 5 ≤ h.hlen = ground arith in
    let b : bytes ≡ resize (4 * h.hlen) (serialize_fields h) = ground arith in
    (ground arith, five, b ∙ resized h five)

take-prefix : (xs ys : List ℕ) (n : ℕ) → length xs ≡ n → take n (xs ++ ys) ≡ xs
take-prefix xs ys n e =
    let z : n - length xs ≡ 0 = omega arith in
    take-append n xs ys ∙ rw (take-all n xs (omega arith), z) (append-nil xs)

-- A header whose fields fit their widths, with the length of its datagram and such a checksum that
-- its serialized bytes have the checksum zero, is parsed to itself from those bytes without
-- error, whatever it held before, and exactly what follows its padding is left.
pub parse-serialize_ipv4 :
    (old h : Ipv4Header) (p : NetParser) (bytes rest : List ℕ)
    → IsHeader h
    → serialize h ≡ some bytes
    → InternetChecksum.value (InternetChecksum.add (InternetChecksum.initial 0) bytes) ≡ 0
    → length bytes + length rest ≡ h.len
    → Ready p (bytes ++ rest)
    → (q : NetParser) × (parse old p ≡ (no_error, h, q)) × Ready q rest
unfolding parse check_fields header_checksum
parse-serialize_ipv4 old h p bytes rest k e c l r =
    let (ver, five, b) = serialize_padded h bytes e in
    let split : bytes ++ rest ≡ serialize_fields h ++ (padding h ++ rest) =
      ap (λ x. x ++ rest) b ∙ append_assoc (serialize_fields h) (padding h) rest in
    let (p1, e1, r1) = parse_fields_lem h p (padding h ++ rest) k (subst (Ready p) split r) in
    let pad = length-replicate (h.hlen * 4 - header_length) 0 in
    let (q, e2, r2) =
      remove_prefix-append p1 (h.hlen * 4 - header_length) (padding h) rest r1 pad in
    let n = size_left p bytes rest r in
    let m : length bytes ≡ 4 * h.hlen = omega (
      arith,
      ap length b,
      length-append (serialize_fields h) (padding h),
      length-serialize_fields h,
      pad,
    ) in
    let t1 : ltb (Buffer.size p.buffer) (4 * h.hlen) ≡ false = ground arith in
    let t2 : (h.ver == 4) ≡ true = ground arith in
    let t3 : ltb h.hlen 5 ≡ false = ground arith in
    let t4 : (Buffer.size p.buffer == h.len) ≡ true = ground arith in
    let t5 : ltb (Buffer.size p.buffer) header_length ≡ false = ground arith in
    let t6 : take (4 * h.hlen) (str p.buffer) ≡ bytes =
      ap (take (4 * h.hlen)) r.left ∙ take-prefix bytes rest (4 * h.hlen) m in
    (q, rw (e1, e2, t1, t2, t3, t4, t5, r2.error, t6, c), r2)
