-- ===== src/ArpMessage/Laws.antt =====
-- arp_message.cc: parsing what was serialized.
use cs144_introduction_to_co.Prelude.{
  ℕ, ◌^◌, ◌<◌, ◌≡◌, refl, ap, List, length, ◌++◌, arith, ltb, Bool-cases, inl, inr, true, false,
  none, some, ◌∙◌,
}
use cs144_introduction_to_co.Buffer.{Buffer, str}
use cs144_introduction_to_co.Buffer
use cs144_introduction_to_co.Buffer.Laws.{IsValid}
use cs144_introduction_to_co.Parser.{NetParser, no_error, start, unparse_int}
use cs144_introduction_to_co.Parser.Laws.{Ready, size_left, u8-unparse, u16-unparse, u32-unparse}
use cs144_introduction_to_co.EthernetHeader.{serialize_address}
use cs144_introduction_to_co.EthernetHeader.Laws.{IsAddress, parse_address-serialize_address}
use cs144_introduction_to_co.ArpMessage.{
  ArpMessage, supported, parse_kind, parse_addresses, parse, serialize, message_length,
}

-- Each field fits its width.
pub record IsMessage (m : ArpMessage) : Type 0 where
  pub hardware_type : m.hardware_type < 2 ^ 16
  pub protocol_type : m.protocol_type < 2 ^ 16
  pub hardware_address_size : m.hardware_address_size < 2 ^ 8
  pub protocol_address_size : m.protocol_address_size < 2 ^ 8
  pub opcode : m.opcode < 2 ^ 16
  pub sender_ethernet_address : IsAddress m.sender_ethernet_address
  pub sender_ip_address : m.sender_ip_address < 2 ^ 32
  pub target_ethernet_address : IsAddress m.target_ethernet_address
  pub target_ip_address : m.target_ip_address < 2 ^ 32

abbrev kind_bytes : ArpMessage → List ℕ
kind_bytes m =
    unparse_int 2 m.hardware_type
    ++ unparse_int 2 m.protocol_type
    ++ unparse_int 1 m.hardware_address_size
    ++ unparse_int 1 m.protocol_address_size
    ++ unparse_int 2 m.opcode

abbrev address_bytes : ArpMessage → List ℕ
address_bytes m =
    serialize_address m.sender_ethernet_address
    ++ unparse_int 4 m.sender_ip_address
    ++ serialize_address m.target_ethernet_address
    ++ unparse_int 4 m.target_ip_address

abbrev with_kind : ArpMessage → ArpMessage → ArpMessage
with_kind old m = record old {
  hardware_type = m.hardware_type;
  protocol_type = m.protocol_type;
  hardware_address_size = m.hardware_address_size;
  protocol_address_size = m.protocol_address_size;
  opcode = m.opcode;
}

parse_kind_lem :
    (old m : ArpMessage) (p : NetParser) (rest : List ℕ)
    → IsMessage m
    → Ready p (kind_bytes m ++ rest)
    → (q : NetParser) × (parse_kind old p ≡ (with_kind old m, q)) × Ready q rest
unfolding parse_kind unparse_int
parse_kind_lem old m p rest h r =
    let (p1, e0, r1) = u16-unparse p m.hardware_type _ r h.hardware_type in
    let (p2, e1, r2) = u16-unparse p1 m.protocol_type _ r1 h.protocol_type in
    let (p3, e2, r3) = u8-unparse p2 m.hardware_address_size _ r2 h.hardware_address_size in
    let (p4, e3, r4) = u8-unparse p3 m.protocol_address_size _ r3 h.protocol_address_size in
    let (p5, e4, r5) = u16-unparse p4 m.opcode rest r4 h.opcode in (p5, rw (e0, e1, e2, e3, e4), r5)

parse_addresses_lem :
    (old m : ArpMessage) (p : NetParser) (rest : List ℕ)
    → IsMessage m
    → Ready p (address_bytes m ++ rest)
    → (q : NetParser) × (parse_addresses (with_kind old m) p ≡ (m, q)) × Ready q rest
unfolding parse_addresses unparse_int serialize_address
parse_addresses_lem old m p rest h r =
    let (p1, e0, r1) =
      parse_address-serialize_address p m.sender_ethernet_address _ r h.sender_ethernet_address in
    let (p2, e1, r2) = u32-unparse p1 m.sender_ip_address _ r1 h.sender_ip_address in
    let (p3, e2, r3) =
      parse_address-serialize_address p2 m.target_ethernet_address _ r2 h.target_ethernet_address in
    let (p4, e3, r4) = u32-unparse p3 m.target_ip_address rest r3 h.target_ip_address in
    (p4, rw (e0, e1, e2, e3), r4)

parse_message :
    (old m : ArpMessage) (buffer : Buffer) (rest : List ℕ)
    → IsMessage m
    → supported m ≡ true
    → IsValid buffer
    → str buffer ≡ kind_bytes m ++ (address_bytes m ++ rest)
    → parse old buffer ≡ (no_error, m)
unfolding parse start supported serialize_address unparse_int
parse_message old m buffer rest h s v e =
    let p : NetParser = record { buffer = buffer; error = no_error } in
    let r : Ready p (kind_bytes m ++ (address_bytes m ++ rest)) = record {
      error = refl;
      left = e;
      valid = v;
    } in
    let n = size_left p (kind_bytes m ++ address_bytes m) rest r in
    let (p1, e1, r1) = parse_kind_lem old m p (address_bytes m ++ rest) h r in
    let (p2, e2, r2) = parse_addresses_lem old m p1 rest h r1 in
    let t : ltb (Buffer.size buffer) message_length ≡ false = ground arith in
    rw (e1, e2, t, s, r2.error)

serialize-supported :
    (m : ArpMessage) → supported m ≡ true → serialize m ≡ some (kind_bytes m ++ address_bytes m)
unfolding serialize serialize_address unparse_int
serialize-supported m s = rw s

serialize_unsupported : (m : ArpMessage) → supported m ≡ false → serialize m ≡ none
unfolding serialize
serialize_unsupported m s = rw s

bytes_of_message :
    (m : ArpMessage) (bytes : List ℕ)
    → supported m ≡ true
    → serialize m ≡ some bytes
    → bytes ≡ kind_bytes m ++ address_bytes m
bytes_of_message m bytes s k = let z = serialize-supported m s in cc

pub length-serialize_arp :
    (m : ArpMessage) (bytes : List ℕ) → serialize m ≡ some bytes → length bytes ≡ 28
unfolding serialize_address unparse_int
length-serialize_arp m bytes k = elim (Bool-cases (supported m)) [
  | inr f ↦ let z = serialize_unsupported m f in cc
  | inl s ↦ rw (bytes_of_message m bytes s k) refl
]

-- A message whose fields fit their widths, once serialized, is parsed to itself from any buffer
-- that begins with those bytes, whatever the message object held before.
pub parse-serialize_arp :
    (old m : ArpMessage) (buffer : Buffer) (bytes rest : List ℕ)
    → IsMessage m
    → serialize m ≡ some bytes
    → IsValid buffer
    → str buffer ≡ bytes ++ rest
    → parse old buffer ≡ (no_error, m)
unfolding serialize_address unparse_int
parse-serialize_arp old m buffer bytes rest h k v e = elim (Bool-cases (supported m)) [
  | inr f ↦ let z = serialize_unsupported m f in cc
  | inl s ↦
      parse_message old m buffer rest h s v (e ∙ ap (λ b. b ++ rest) (bytes_of_message m bytes s k))
]
