-- ===== src/TcpHeader.antt =====
-- tcp_helpers/tcp_header.hh and tcp_header.cc: the fields of a TCP header, each a word or a flag.
use cs144_introduction_to_co.Prelude.{
  ℕ, Bool, true, false, not, ◌+◌, ◌-◌, ◌*◌, ◌/◌, ◌%◌, ◌^◌, List, ◌++◌, Option, none, some, take,
  length, replicate, ltb, ◌==◌, ◌&&◌, if◌then◌else◌,
}
use cs144_introduction_to_co.WrappingIntegers.{WrappingInt32}
use cs144_introduction_to_co.WrappingIntegers
use cs144_introduction_to_co.Parser.{
  NetParser, ParseResult, header_too_short, u8, u16, u32, unparse_u8, unparse_u16, unparse_u32,
}
use cs144_introduction_to_co.Parser
pub mod Laws

pub record TcpHeader : Type 0 where
  pub sport : ℕ
  pub dport : ℕ
  pub seqno : WrappingInt32
  pub ackno : WrappingInt32
  pub doff : ℕ
  pub urg : Bool
  pub ack : Bool
  pub psh : Bool
  pub rst : Bool
  pub syn : Bool
  pub fin : Bool
  pub win : ℕ
  pub cksum : ℕ
  pub uptr : ℕ

-- The header of a `TCPHeader{}`.
abbrev pub default_header : TcpHeader
default_header = record {
  sport = 0;
  dport = 0;
  seqno = record { raw_value = 0 };
  ackno = record { raw_value = 0 };
  doff = 5;
  urg = false;
  ack = false;
  psh = false;
  rst = false;
  syn = false;
  fin = false;
  win = 0;
  cksum = 0;
  uptr = 0;
}

-- A byte's bit of value `mask`, a power of two.
abbrev pub bit : ℕ → ℕ → Bool
bit mask b = (b / mask) % 2 == 1

abbrev pub masked : ℕ → Bool → ℕ
masked mask true = mask
masked mask false = 0

-- The flags' byte: `|` of distinct powers of two is their sum.
unfoldable pub flags_byte : TcpHeader → ℕ
flags_byte h =
    masked 32 h.urg
    + masked 16 h.ack
    + masked 8 h.psh
    + masked 4 h.rst
    + masked 2 h.syn
    + masked 1 h.fin

abbrev pub header_length : ℕ
header_length = 20

-- The header of the integers that are read.
unfoldable pub assign : ℕ → ℕ → ℕ → ℕ → ℕ → ℕ → ℕ → ℕ → ℕ → TcpHeader
assign sport dport seqno ackno offset fl_b win cksum uptr = record {
  sport = sport;
  dport = dport;
  seqno = WrappingIntegers.make seqno;
  ackno = WrappingIntegers.make ackno;
  doff = offset / 2 ^ 4;
  urg = bit 32 fl_b;
  ack = bit 16 fl_b;
  psh = bit 8 fl_b;
  rst = bit 4 fl_b;
  syn = bit 2 fl_b;
  fin = bit 1 fl_b;
  win = win;
  cksum = cksum;
  uptr = uptr;
}

-- The fields, all but the options.
unfoldable pub parse_fields : NetParser → TcpHeader × NetParser
parse_fields p =
    let (sport, p1) = u16 p in
    let (dport, p2) = u16 p1 in
    let (seqno, p3) = u32 p2 in
    let (ackno, p4) = u32 p3 in
    let (offset, p5) = u8 p4 in
    let (fl_b, p6) = u8 p5 in
    let (win, p7) = u16 p6 in
    let (cksum, p8) = u16 p7 in
    let (uptr, p9) = u16 p8 in (assign sport dport seqno ackno offset fl_b win cksum uptr, p9)

-- The result, and the header and the parser after the call; every field is assigned.
unfoldable pub parse : NetParser → ParseResult × TcpHeader × NetParser
parse p =
    let (h, q) = parse_fields p in
    let r = Parser.remove_prefix q (h.doff * 4 - header_length) in
    if ltb h.doff 5 then (header_too_short, h, q) else (r.error, h, r)

-- `std::string::resize`.
abbrev pub resize : ℕ → List ℕ → List ℕ
resize n s = take n s ++ replicate (n - length s) 0

unfoldable pub serialize_fields : TcpHeader → List ℕ
serialize_fields h =
    unparse_u16 h.sport
    ++ unparse_u16 h.dport
    ++ unparse_u32 h.seqno.raw_value
    ++ unparse_u32 h.ackno.raw_value
    ++ unparse_u8 ((h.doff * 2 ^ 4) % 2 ^ 8)
    ++ unparse_u8 (flags_byte h)
    ++ unparse_u16 h.win
    ++ unparse_u16 h.cksum
    ++ unparse_u16 h.uptr

-- `none` where the source throws.
unfoldable pub serialize : TcpHeader → Option (List ℕ)
serialize h = if ltb h.doff 5 then none else some (resize (4 * h.doff) (serialize_fields h))

abbrev same_flag : Bool → Bool → Bool
same_flag true b = b
same_flag false b = not b

-- `operator==`: the ports and the checksum are not compared.
unfoldable pub same_header : TcpHeader → TcpHeader → Bool
same_header a b =
    WrappingIntegers.equal a.seqno b.seqno
    && WrappingIntegers.equal a.ackno b.ackno
    && a.doff == b.doff
    && same_flag a.urg b.urg
    && same_flag a.ack b.ack
    && same_flag a.psh b.psh
    && same_flag a.rst b.rst
    && same_flag a.syn b.syn
    && same_flag a.fin b.fin
    && a.win == b.win
    && a.uptr == b.uptr
