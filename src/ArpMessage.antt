-- ===== src/ArpMessage.antt =====
-- tcp_helpers/arp_message.hh and arp_message.cc: the requests and replies of ARP.
use cs144_introduction_to_co.Prelude.{
  ℕ, List, ◌++◌, Option, none, some, ltb, Bool, ◌&&◌, ◌||◌, ◌==◌, not, if◌then◌else◌,
}
use cs144_introduction_to_co.Buffer.{Buffer}
use cs144_introduction_to_co.Buffer
use cs144_introduction_to_co.Parser.{
  NetParser, ParseResult, packet_too_short, unsupported, start, u8, u16, u32, unparse_u8,
  unparse_u16, unparse_u32,
}
use cs144_introduction_to_co.EthernetHeader.{
  EthernetAddress, filled, parse_address, serialize_address, type_ipv4,
}
pub mod Laws

pub record ArpMessage : Type 0 where
  pub hardware_type : ℕ
  pub protocol_type : ℕ
  pub hardware_address_size : ℕ
  pub protocol_address_size : ℕ
  pub opcode : ℕ
  pub sender_ethernet_address : EthernetAddress
  pub sender_ip_address : ℕ
  pub target_ethernet_address : EthernetAddress
  pub target_ip_address : ℕ

abbrev pub message_length : ℕ
message_length = 28

abbrev pub type_ethernet : ℕ
type_ethernet = 1

abbrev pub opcode_request : ℕ
opcode_request = 1

abbrev pub opcode_reply : ℕ
opcode_reply = 2

-- `ARPMessage{}`.
abbrev pub blank : ArpMessage
blank = record {
  hardware_type = type_ethernet;
  protocol_type = type_ipv4;
  hardware_address_size = 6;
  protocol_address_size = 4;
  opcode = 0;
  sender_ethernet_address = filled 0;
  sender_ip_address = 0;
  target_ethernet_address = filled 0;
  target_ip_address = 0;
}

unfoldable pub supported : ArpMessage → Bool
supported m =
    m.hardware_type == type_ethernet
    && m.protocol_type == type_ipv4
    && m.hardware_address_size == 6
    && m.protocol_address_size == 4
    && (m.opcode == opcode_request || m.opcode == opcode_reply)

-- The five fields that `supported` reads.
unfoldable pub parse_kind : ArpMessage → NetParser → ArpMessage × NetParser
parse_kind m p =
    let (hardware_type, p1) = u16 p in
    let (protocol_type, p2) = u16 p1 in
    let (hardware_address_size, p3) = u8 p2 in
    let (protocol_address_size, p4) = u8 p3 in
    let (opcode, p5) = u16 p4 in
    (
      record m {
        hardware_type = hardware_type;
        protocol_type = protocol_type;
        hardware_address_size = hardware_address_size;
        protocol_address_size = protocol_address_size;
        opcode = opcode;
      },
      p5,
    )

-- The sender's and the target's addresses.
unfoldable pub parse_addresses : ArpMessage → NetParser → ArpMessage × NetParser
parse_addresses m p =
    let (sender, p1) = parse_address p in
    let (sender_ip, p2) = u32 p1 in
    let (target, p3) = parse_address p2 in
    let (target_ip, p4) = u32 p3 in
    (
      record m {
        sender_ethernet_address = sender;
        sender_ip_address = sender_ip;
        target_ethernet_address = target;
        target_ip_address = target_ip;
      },
      p4,
    )

-- The result, and the message after the call.
unfoldable pub parse : ArpMessage → Buffer → ParseResult × ArpMessage
parse m buffer =
    let (kind, p) = parse_kind m (start buffer) in
    let (message, q) = parse_addresses kind p in
    if ltb (Buffer.size buffer) message_length
    then (packet_too_short, m)
    else if not (supported kind)
    then (unsupported, kind)
    else (q.error, message)

-- `none` where the source throws.
unfoldable pub serialize : ArpMessage → Option (List ℕ)
serialize m =
    if not (supported m)
    then none
    else some (
        unparse_u16 m.hardware_type
        ++ unparse_u16 m.protocol_type
        ++ unparse_u8 m.hardware_address_size
        ++ unparse_u8 m.protocol_address_size
        ++ unparse_u16 m.opcode
        ++ serialize_address m.sender_ethernet_address
        ++ unparse_u32 m.sender_ip_address
        ++ serialize_address m.target_ethernet_address
        ++ unparse_u32 m.target_ip_address)
