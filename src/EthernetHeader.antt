-- ===== src/EthernetHeader.antt =====
-- tcp_helpers/ethernet_header.hh and ethernet_header.cc: addresses and the header of a frame.
use cs144_introduction_to_co.Prelude.{ℕ, List, [], ◌++◌, ltb, Bool, ◌&&◌, ◌==◌, if◌then◌else◌}
use cs144_introduction_to_co.Buffer
use cs144_introduction_to_co.Parser.{
  NetParser, ParseResult, packet_too_short, u8, u16, unparse_u8, unparse_u16,
}
pub mod Laws

-- `std::array<uint8_t, 6>`.
pub record EthernetAddress : Type 0 where
  pub byte0 : ℕ
  pub byte1 : ℕ
  pub byte2 : ℕ
  pub byte3 : ℕ
  pub byte4 : ℕ
  pub byte5 : ℕ

abbrev pub filled : ℕ → EthernetAddress
filled b = record { byte0 = b; byte1 = b; byte2 = b; byte3 = b; byte4 = b; byte5 = b }

abbrev pub ethernet_broadcast : EthernetAddress
ethernet_broadcast = filled 0xff

-- `==` of two arrays.
unfoldable pub same_address : EthernetAddress → EthernetAddress → Bool
same_address a b =
    a.byte0 == b.byte0
    && a.byte1 == b.byte1
    && a.byte2 == b.byte2
    && a.byte3 == b.byte3
    && a.byte4 == b.byte4
    && a.byte5 == b.byte5

pub record EthernetHeader : Type 0 where
  pub dst : EthernetAddress
  pub src : EthernetAddress
  pub ether_type : ℕ

abbrev pub header_length : ℕ
header_length = 14

abbrev pub type_ipv4 : ℕ
type_ipv4 = 0x800

abbrev pub type_arp : ℕ
type_arp = 0x806

-- The loop `for (auto &byte : address) byte = p.u8()`.
unfoldable pub parse_address : NetParser → EthernetAddress × NetParser
parse_address p0 =
    let (byte0, p1) = u8 p0 in
    let (byte1, p2) = u8 p1 in
    let (byte2, p3) = u8 p2 in
    let (byte3, p4) = u8 p3 in
    let (byte4, p5) = u8 p4 in
    let (byte5, p6) = u8 p5 in
    (
      record {
        byte0 = byte0;
        byte1 = byte1;
        byte2 = byte2;
        byte3 = byte3;
        byte4 = byte4;
        byte5 = byte5;
      },
      p6,
    )

-- The result, and the header and the parser after the call.
unfoldable pub parse : EthernetHeader → NetParser → ParseResult × EthernetHeader × NetParser
parse h p =
    let (dst, p1) = parse_address p in
    let (src, p2) = parse_address p1 in
    let (ether_type, p3) = u16 p2 in
    if ltb (Buffer.size p.buffer) header_length
    then (packet_too_short, h, p)
    else (p3.error, record { dst = dst; src = src; ether_type = ether_type }, p3)

unfoldable pub serialize_address : EthernetAddress → List ℕ
serialize_address a =
    unparse_u8 a.byte0
    ++ unparse_u8 a.byte1
    ++ unparse_u8 a.byte2
    ++ unparse_u8 a.byte3
    ++ unparse_u8 a.byte4
    ++ unparse_u8 a.byte5

unfoldable pub serialize : EthernetHeader → List ℕ
serialize h = serialize_address h.dst ++ serialize_address h.src ++ unparse_u16 h.ether_type
