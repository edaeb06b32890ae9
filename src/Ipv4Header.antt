-- ===== src/Ipv4Header.antt =====
-- tcp_helpers/ipv4_header.hh and ipv4_header.cc: the header of an IPv4 datagram.
use cs144_introduction_to_co.Prelude.{
  ℕ, Bool, true, false, not, ◌+◌, ◌-◌, ◌*◌, ◌/◌, ◌%◌, ◌^◌, List, ◌++◌, Option, none, some, take,
  ltb, ◌==◌, if◌then◌else◌,
}
use cs144_introduction_to_co.Prelude.Words.{add32}
use cs144_introduction_to_co.Buffer.{str}
use cs144_introduction_to_co.Buffer
use cs144_introduction_to_co.InternetChecksum
use cs144_introduction_to_co.Parser.{
  NetParser, ParseResult, no_error, bad_checksum, packet_too_short, wrong_ip_version,
  header_too_short, truncated_packet, is_error, u8, u16, u32, unparse_u8, unparse_u16, unparse_u32,
}
use cs144_introduction_to_co.Parser
use cs144_introduction_to_co.TcpHeader.{bit, masked, resize}
pub mod Laws

pub record Ipv4Header : Type 0 where
  pub ver : ℕ
  pub hlen : ℕ
  pub tos : ℕ
  pub len : ℕ
  pub id : ℕ
  pub df : Bool
  pub mf : Bool
  pub offset : ℕ
  pub ttl : ℕ
  pub proto : ℕ
  pub cksum : ℕ
  pub src : ℕ
  pub dst : ℕ

abbrev pub header_length : ℕ
header_length = 20

abbrev pub proto_tcp : ℕ
proto_tcp = 6

-- `IPv4Header{}`.
abbrev pub default_header : Ipv4Header
default_header = record {
  ver = 4;
  hlen = 5;
  tos = 0;
  len = 0;
  id = 0;
  df = true;
  mf = false;
  offset = 0;
  ttl = 128;
  proto = proto_tcp;
  cksum = 0;
  src = 0;
  dst = 0;
}

-- The header of the integers that are read.
unfoldable pub assign : ℕ → ℕ → ℕ → ℕ → ℕ → ℕ → ℕ → ℕ → ℕ → ℕ → Ipv4Header
assign first_byte tos len id fo_val ttl proto cksum src dst = record {
  ver = first_byte / 2 ^ 4;
  hlen = first_byte % 2 ^ 4;
  tos = tos;
  len = len;
  id = id;
  df = bit 0x4000 fo_val;
  mf = bit 0x2000 fo_val;
  offset = fo_val % 0x2000;
  ttl = ttl;
  proto = proto;
  cksum = cksum;
  src = src;
  dst = dst;
}

unfoldable pub parse_fields : NetParser → Ipv4Header × NetParser
parse_fields p =
    let (first_byte, p1) = u8 p in
    let (tos, p2) = u8 p1 in
    let (len, p3) = u16 p2 in
    let (id, p4) = u16 p3 in
    let (fo_val, p5) = u16 p4 in
    let (ttl, p6) = u8 p5 in
    let (proto, p7) = u8 p6 in
    let (cksum, p8) = u16 p7 in
    let (src, p9) = u32 p8 in
    let (dst, p10) = u32 p9 in (assign first_byte tos len id fo_val ttl proto cksum src dst, p10)

-- The checksum of the first `4 * hlen` bytes.
unfoldable pub header_checksum : Ipv4Header → List ℕ → ℕ
header_checksum h original =
    InternetChecksum.value
      (InternetChecksum.add (InternetChecksum.initial 0) (take (4 * h.hlen) original))

-- The checks after the fields: the result, and the parser after them.
unfoldable pub check_fields : Ipv4Header → NetParser → NetParser → ParseResult × NetParser
check_fields h original p =
    let q = Parser.remove_prefix p (h.hlen * 4 - header_length) in
    let data_size = Buffer.size original.buffer in
    if ltb data_size (4 * h.hlen)
    then (packet_too_short, p)
    else if not (h.ver == 4)
    then (wrong_ip_version, p)
    else if ltb h.hlen 5
    then (header_too_short, p)
    else if not (data_size == h.len)
    then (truncated_packet, p)
    else if is_error q.error
    then (q.error, q)
    else if not (header_checksum h (str original.buffer) == 0)
    then (bad_checksum, q)
    else (no_error, q)

-- The result, and the header and the parser after the call.
unfoldable pub parse : Ipv4Header → NetParser → ParseResult × Ipv4Header × NetParser
parse old p =
    let (h, q) = parse_fields p in
    let (result, r) = check_fields h p q in
    if ltb (Buffer.size p.buffer) header_length then (packet_too_short, old, p) else (result, h, r)

unfoldable pub first_byte : Ipv4Header → ℕ
first_byte h = (h.ver * 2 ^ 4) % 2 ^ 8 + h.hlen % 2 ^ 4

-- `|` of numbers that share no bit is their sum.
unfoldable pub fo_val : Ipv4Header → ℕ
fo_val h = masked 0x4000 h.df + masked 0x2000 h.mf + h.offset % 0x2000

unfoldable pub serialize_fields : Ipv4Header → List ℕ
serialize_fields h =
    unparse_u8 (first_byte h)
    ++ unparse_u8 h.tos
    ++ unparse_u16 h.len
    ++ unparse_u16 h.id
    ++ unparse_u16 (fo_val h)
    ++ unparse_u8 h.ttl
    ++ unparse_u8 h.proto
    ++ unparse_u16 h.cksum
    ++ unparse_u32 h.src
    ++ unparse_u32 h.dst

-- `none` where the source throws.
unfoldable pub serialize : Ipv4Header → Option (List ℕ)
serialize h =
    if not (h.ver == 4)
    then none
    else if ltb (4 * h.hlen) header_length
    then none
    else some (resize (4 * h.hlen) (serialize_fields h))

-- `len - 4 * hlen`, as a `uint16_t`.
unfoldable pub payload_length : Ipv4Header → ℕ
payload_length h = (h.len + 2 ^ 16 - 4 * h.hlen) % 2 ^ 16

unfoldable pub pseudo_cksum : Ipv4Header → ℕ
pseudo_cksum h =
    let src = add32 (h.src / 2 ^ 16) (h.src % 2 ^ 16) in
    let dst = add32 (h.dst / 2 ^ 16) (h.dst % 2 ^ 16) in
    add32 (add32 (add32 src dst) h.proto) (payload_length h)
