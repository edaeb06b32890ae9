-- ===== src/CodecExamples.antt =====
-- Tests of the parsers and serializers of util/ and tcp_helpers/, and their theorems on small headers.
use cs144_introduction_to_co.Prelude.{
  ℕ, ◌+◌, ◌%◌, ◌^◌, ◌<◌, ◌≡◌, ◌↔◌, ◌⊎◌, refl, arith, List, [], ◌∷◌, ◌++◌, true, false, none, some,
  ◌==◌,
}
use cs144_introduction_to_co.Buffer.{Buffer, str}
use cs144_introduction_to_co.Buffer
use cs144_introduction_to_co.BufferList.{BufferList, concatenate, concat}
use cs144_introduction_to_co.BufferList
use cs144_introduction_to_co.InternetChecksum.{InternetChecksum, value, fold, add_byte}
use cs144_introduction_to_co.InternetChecksum
use cs144_introduction_to_co.InternetChecksum.Laws.{value_lem}
use cs144_introduction_to_co.Parser.{
  NetParser, ParseResult, no_error, packet_too_short, bad_checksum, is_error, start, unparse_int,
  parse_int, int_of_bytes, check_size, u8, u16, u32,
}
use cs144_introduction_to_co.Parser
use cs144_introduction_to_co.Parser.Laws.{Ready}
use cs144_introduction_to_co.EthernetHeader.{
  EthernetAddress, EthernetHeader, filled, header_length, serialize_address,
}
use cs144_introduction_to_co.EthernetHeader
use cs144_introduction_to_co.EthernetFrame.{EthernetFrame}
use cs144_introduction_to_co.EthernetFrame
use cs144_introduction_to_co.ArpMessage.{ArpMessage}
use cs144_introduction_to_co.ArpMessage
use cs144_introduction_to_co.ArpMessage.Laws.{IsMessage}
use cs144_introduction_to_co.WrappingIntegers
use cs144_introduction_to_co.TcpHeader.{TcpHeader, serialize_fields, default_header, flags_byte}
use cs144_introduction_to_co.TcpHeader
use cs144_introduction_to_co.TcpHeader.Laws.{parse-serialize_tcp}
use cs144_introduction_to_co.TcpSegment.{TcpSegment, default_segment}
use cs144_introduction_to_co.TcpSegment
use cs144_introduction_to_co.TcpSegment.Laws.{segment_result}
use cs144_introduction_to_co.Ipv4Header.{Ipv4Header, pseudo_cksum, proto_tcp, payload_length}
use cs144_introduction_to_co.Ipv4Header
use cs144_introduction_to_co.Ipv4Header.Laws.{parse-serialize_ipv4}
use cs144_introduction_to_co.Ipv4Datagram.{Ipv4Datagram}
use cs144_introduction_to_co.Ipv4Datagram
use cs144_introduction_to_co.TcpOverIp.{
  Adapter, is_foreign, bind, from_peer, filter_segment, unwrap_tcp_in_ip,
}
use cs144_introduction_to_co.TcpOverIp.Laws.{Unwrapped, unwrap_tcp_in_ip_sound}

abbrev odd_sum : InternetChecksum
odd_sum = record { sum = 0x2fffd; parity = false }

value_lem_example :
    (value odd_sum < 2 ^ 16)
    × ((value odd_sum + 0x2fffd) % 0xffff ≡ 0)
    × ((value odd_sum ≡ 0xffff) ↔ (odd_sum.sum ≡ 0))
value_lem_example = value_lem odd_sum (omega arith)

abbrev request : ArpMessage
request = record (ArpMessage.blank) {
  opcode = 1;
  sender_ethernet_address = filled 2;
  sender_ip_address = 0x0a000001;
  target_ip_address = 0x0a000002;
}

abbrev request_bytes : List ℕ
request_bytes =
    0 ∷ 1 ∷ 8 ∷ 0 ∷ 6 ∷ 4 ∷ 0 ∷ 1 ∷ 2 ∷ 2 ∷ 2 ∷ 2 ∷ 2 ∷ 2 ∷ 10 ∷ 0 ∷ 0 ∷ 1 ∷ 0 ∷ 0 ∷ 0 ∷ 0 ∷ 0 ∷ 0
    ∷ 10 ∷ 0 ∷ 0 ∷ 2 ∷ []

request-serialize : ArpMessage.serialize request ≡ some request_bytes
unfolding ArpMessage.serialize ArpMessage.supported serialize_address unparse_int
request-serialize = refl

abbrev buffer_of : List ℕ → Buffer
buffer_of s = record { storage = some s; starting_offset = 0 }

request-IsMessage : IsMessage request
request-IsMessage = record {
  hardware_type = omega arith;
  protocol_type = omega arith;
  hardware_address_size = omega arith;
  protocol_address_size = omega arith;
  opcode = omega arith;
  sender_ethernet_address =
      (omega arith, omega arith, omega arith, omega arith, omega arith, omega arith);
  sender_ip_address = omega arith;
  target_ethernet_address =
      (omega arith, omega arith, omega arith, omega arith, omega arith, omega arith);
  target_ip_address = omega arith;
}

left_request : str (buffer_of (request_bytes ++ 9 ∷ [])) ≡ request_bytes ++ 9 ∷ []
unfolding str
left_request = refl

abbrev frame : EthernetFrame
frame = record {
  header = record { dst = filled 255; src = filled 2; ether_type = 0x806 };
  payload = record { buffers = buffer_of (7 ∷ 8 ∷ []) ∷ [] };
}

abbrev frame_bytes : List ℕ
frame_bytes = 255 ∷ 255 ∷ 255 ∷ 255 ∷ 255 ∷ 255 ∷ 2 ∷ 2 ∷ 2 ∷ 2 ∷ 2 ∷ 2 ∷ 8 ∷ 6 ∷ 7 ∷ 8 ∷ []

frame-serialize : str (buffer_of frame_bytes) ≡ concatenate (EthernetFrame.serialize frame)
unfolding str concatenate concat EthernetFrame.serialize EthernetHeader.serialize serialize_address
    unparse_int BufferList.append BufferList.of_string BufferList.empty BufferList.of_buffer
    Buffer.of_string
frame-serialize = refl

three_bytes : Buffer.size (buffer_of (1 ∷ 2 ∷ 3 ∷ [])) < header_length
unfolding Buffer.size str
three_bytes = omega arith

abbrev syn_header : TcpHeader
syn_header = record default_header {
  sport = 1000;
  dport = 80;
  seqno = record { raw_value = 7 };
  doff = 6;
  syn = true;
}

abbrev syn_bytes : List ℕ
syn_bytes =
    3 ∷ 232 ∷ 0 ∷ 80 ∷ 0 ∷ 0 ∷ 0 ∷ 7 ∷ 0 ∷ 0 ∷ 0 ∷ 0 ∷ 96 ∷ 2 ∷ 0 ∷ 0 ∷ 0 ∷ 0 ∷ 0 ∷ 0 ∷ 0 ∷ 0 ∷ 0
    ∷ 0 ∷ []

syn_header-serialize : TcpHeader.serialize syn_header ≡ some syn_bytes
unfolding TcpHeader.serialize serialize_fields flags_byte unparse_int
syn_header-serialize = refl

abbrev parser_of : List ℕ → NetParser
parser_of s = record { buffer = buffer_of s; error = no_error }

left_syn : str (buffer_of (syn_bytes ++ 5 ∷ [])) ≡ syn_bytes ++ 5 ∷ []
unfolding str
left_syn = refl

parse-serialize_tcp_example :
    (q : NetParser) × (TcpHeader.parse (parser_of (syn_bytes ++ 5 ∷ []))
      ≡ (no_error, syn_header, q))
    × Ready q (5 ∷ [])
parse-serialize_tcp_example =
    parse-serialize_tcp syn_header (parser_of (syn_bytes ++ 5 ∷ [])) syn_bytes (5 ∷ [])
      (record {
        sport = omega arith;
        dport = omega arith;
        seqno = omega arith;
        ackno = omega arith;
        doff = omega arith;
        win = omega arith;
        cksum = omega arith;
        uptr = omega arith;
      })
      syn_header-serialize
      (record { error = refl; left = left_syn; valid = (omega arith, omega arith) })

-- The words of this header sum to 0xffff.
abbrev ip_header : Ipv4Header
ip_header = record (Ipv4Header.default_header) {
  len = 21;
  cksum = 0x65e1;
  src = 0x0a000001;
  dst = 0x0a000002;
  ttl = 1;
}

abbrev ip_bytes : List ℕ
ip_bytes =
    69 ∷ 0 ∷ 0 ∷ 21 ∷ 0 ∷ 0 ∷ 64 ∷ 0 ∷ 1 ∷ 6 ∷ 101 ∷ 225 ∷ 10 ∷ 0 ∷ 0 ∷ 1 ∷ 10 ∷ 0 ∷ 0 ∷ 2 ∷ []

ip_header-serialize : Ipv4Header.serialize ip_header ≡ some ip_bytes
unfolding Ipv4Header.serialize Ipv4Header.serialize_fields Ipv4Header.first_byte Ipv4Header.fo_val
    unparse_int
ip_header-serialize = refl

ip_header-checksum : value (InternetChecksum.add (InternetChecksum.initial 0) ip_bytes) ≡ 0
unfolding value InternetChecksum.add add_byte InternetChecksum.initial fold
ip_header-checksum = refl

left_ip : str (buffer_of (ip_bytes ++ 5 ∷ [])) ≡ ip_bytes ++ 5 ∷ []
unfolding str
left_ip = refl

parse-serialize_ipv4_example :
    (q : NetParser) × (Ipv4Header.parse Ipv4Header.default_header (parser_of (ip_bytes ++ 5 ∷ []))
      ≡ (no_error, ip_header, q))
    × Ready q (5 ∷ [])
parse-serialize_ipv4_example =
    parse-serialize_ipv4 Ipv4Header.default_header ip_header (parser_of (ip_bytes ++ 5 ∷ []))
      ip_bytes (5 ∷ [])
      (record {
        ver = omega arith;
        hlen = omega arith;
        tos = omega arith;
        len = omega arith;
        id = omega arith;
        offset = omega arith;
        ttl = omega arith;
        proto = omega arith;
        cksum = omega arith;
        src = omega arith;
        dst = omega arith;
      })
      ip_header-serialize ip_header-checksum (omega arith)
      (record { error = refl; left = left_ip; valid = (omega arith, omega arith) })

-- The same datagram with another time to live: the header's parser reports the bad checksum, the
-- datagram's parser does not.
abbrev spoilt_bytes : List ℕ
spoilt_bytes =
    69 ∷ 0 ∷ 0 ∷ 21 ∷ 0 ∷ 0 ∷ 64 ∷ 0 ∷ 9 ∷ 6 ∷ 101 ∷ 225 ∷ 10 ∷ 0 ∷ 0 ∷ 1 ∷ 10 ∷ 0 ∷ 0 ∷ 2 ∷ 5 ∷ []

spoilt_header :
    (Ipv4Header.parse Ipv4Header.default_header (start (buffer_of spoilt_bytes))).0 ≡ bad_checksum
unfolding Ipv4Header.parse Ipv4Header.parse_fields Ipv4Header.assign Ipv4Header.check_fields
    Ipv4Header.header_checksum start u8 u16 u32 parse_int int_of_bytes check_size
    Parser.remove_prefix Buffer.remove_prefix Buffer.size str value InternetChecksum.add add_byte
    InternetChecksum.initial fold
spoilt_header = refl

spoilt_datagram : (Ipv4Datagram.parse Ipv4Datagram.blank (buffer_of spoilt_bytes)).0 ≡ no_error
unfolding Ipv4Datagram.parse Ipv4Header.parse Ipv4Header.parse_fields Ipv4Header.assign
    Ipv4Header.check_fields Ipv4Header.header_checksum payload_length start u8 u16 u32 parse_int
    int_of_bytes check_size Parser.remove_prefix Buffer.remove_prefix Buffer.size str value
    InternetChecksum.add add_byte InternetChecksum.initial fold BufferList.of_buffer BufferList.size
    BufferList.sizes
spoilt_datagram = refl

segment_result_example :
    ((value (InternetChecksum.add (InternetChecksum.initial 29) (str (buffer_of syn_bytes))) == 0)
        ≡ false)
      × (TcpSegment.parse default_segment (buffer_of syn_bytes) 29
          ≡ (bad_checksum, default_segment))
    ⊎ ((value (InternetChecksum.add (InternetChecksum.initial 29) (str (buffer_of syn_bytes))) == 0)
        ≡ true)
      × (((TcpSegment.parse default_segment (buffer_of syn_bytes) 29).0 ≡ no_error)
          ⊎ ((TcpSegment.parse default_segment (buffer_of syn_bytes) 29).0 ≡ packet_too_short))
segment_result_example = segment_result default_segment (buffer_of syn_bytes) 29

abbrev segment_bytes : List ℕ
segment_bytes =
    3 ∷ 232 ∷ 0 ∷ 80 ∷ 0 ∷ 0 ∷ 0 ∷ 7 ∷ 0 ∷ 0 ∷ 0 ∷ 0 ∷ 80 ∷ 2 ∷ 0 ∷ 0 ∷ 171 ∷ 161 ∷ 0 ∷ 0 ∷ []

abbrev arriving : Ipv4Datagram
arriving = record {
  header = record (Ipv4Header.default_header) { len = 40; src = 1; dst = 2 };
  payload = record { buffers = buffer_of segment_bytes ∷ [] };
}

abbrev arrived : TcpSegment
arrived = record {
  header = record syn_header { doff = 5; cksum = 43937 };
  payload = record { storage = none; starting_offset = 20 };
}

abbrev server : Adapter
server = record {
  source = record { ip = 0; port = 80 };
  destination = record { ip = 0; port = 0 };
  listening = true;
}

abbrev connected : Adapter
connected = record {
  source = record { ip = 2; port = 80 };
  destination = record { ip = 1; port = 1000 };
  listening = false;
}

server-unwrap : unwrap_tcp_in_ip server arriving ≡ some (some arrived, connected)
unfolding unwrap_tcp_in_ip is_foreign filter_segment from_peer bind TcpSegment.parse TcpHeader.parse
    TcpHeader.parse_fields TcpHeader.assign WrappingIntegers.make pseudo_cksum payload_length start
    u8 u16 u32 parse_int int_of_bytes check_size Parser.remove_prefix Buffer.remove_prefix
    Buffer.size str value InternetChecksum.add add_byte InternetChecksum.initial fold
    BufferList.to_buffer default_segment
server-unwrap = refl

unwrap_tcp_in_ip_sound_example : Unwrapped server connected arriving (some arrived)
unwrap_tcp_in_ip_sound_example =
    unwrap_tcp_in_ip_sound server connected arriving (some arrived) server-unwrap
