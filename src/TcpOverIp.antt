-- ===== src/TcpOverIp.antt =====
-- tcp_helpers/tcp_over_ip.hh and tcp_over_ip.cc, with the configuration of tcp_config.hh and the
-- state of fd_adapter.hh: segments in datagrams, and the filter on those that arrive.
-- An `Address` is its 32-bit number and its port.
use cs144_introduction_to_co.Prelude.{
  ℕ, ◌+◌, ◌*◌, ◌%◌, ◌^◌, Bool, true, false, not, ◌&&◌, ◌==◌, Option, none, some, if◌then◌else◌,
}
use cs144_introduction_to_co.Buffer.{Buffer}
use cs144_introduction_to_co.Buffer
use cs144_introduction_to_co.BufferList.{BufferList}
use cs144_introduction_to_co.BufferList
use cs144_introduction_to_co.Parser.{ParseResult, is_error}
use cs144_introduction_to_co.TcpSegment.{TcpSegment, default_segment}
use cs144_introduction_to_co.TcpSegment
use cs144_introduction_to_co.Ipv4Header
use cs144_introduction_to_co.Ipv4Header.{default_header, pseudo_cksum, proto_tcp}
use cs144_introduction_to_co.Ipv4Datagram.{Ipv4Datagram}
pub mod Laws

pub record Endpoint : Type 0 where
  pub ip : ℕ
  pub port : ℕ

-- `TCPOverIPv4Adapter`: the addresses of its `FdAdapterConfig`, and the flag `_listen`.
pub record Adapter : Type 0 where
  pub source : Endpoint
  pub destination : Endpoint
  pub listening : Bool

-- The four tests before the segment is parsed, of which the first two hold while listening.
unfoldable pub is_foreign : Adapter → Ipv4Datagram → Bool
is_foreign a d =
    if not a.listening && not (d.header.dst == a.source.ip)
    then true
    else if not a.listening && not (d.header.src == a.destination.ip)
    then true
    else not (d.header.proto == proto_tcp)

-- The peer of a connection that was listening.
unfoldable pub bind : Adapter → Ipv4Datagram → TcpSegment → Adapter
bind a d seg = record a {
  source = record { ip = d.header.dst; port = a.source.port };
  destination = record { ip = d.header.src; port = seg.header.sport };
  listening = false;
}

-- The last test of `unwrap_tcp_in_ip`.
unfoldable pub from_peer : Adapter → TcpSegment → Option TcpSegment × Adapter
from_peer a seg = if not (seg.header.sport == a.destination.port) then (none, a) else (some seg, a)

-- The tests on the segment's ports and flags, after it was parsed.
unfoldable pub filter_segment : Adapter → Ipv4Datagram → TcpSegment → Option TcpSegment × Adapter
filter_segment a d seg =
    if not (seg.header.dport == a.source.port)
    then (none, a)
    else if a.listening
    then (if seg.header.syn && not seg.header.rst then from_peer (bind a d seg) seg else (none, a))
    else from_peer a seg

abbrev pub accept_parsed :
    Adapter → Ipv4Datagram → ParseResult × TcpSegment → Option TcpSegment × Adapter
accept_parsed a d (result, seg) = if is_error result then (none, a) else filter_segment a d seg

abbrev pub accept_payload :
    Adapter → Ipv4Datagram → Option Buffer → Option (Option TcpSegment × Adapter)
accept_payload a d none = none
accept_payload a d (some payload) =
    some (accept_parsed a d (TcpSegment.parse default_segment payload (pseudo_cksum d.header)))

-- The segment, if it is for the connection, and the adapter after the call. The whole is `none`
-- where the conversion of the payload to one `Buffer` throws.
unfoldable pub unwrap_tcp_in_ip : Adapter → Ipv4Datagram → Option (Option TcpSegment × Adapter)
unwrap_tcp_in_ip a d =
    if is_foreign a d then some (none, a) else accept_payload a d (BufferList.to_buffer d.payload)

-- The ports that `wrap_tcp_in_ip` writes into its argument.
unfoldable pub with_ports : Adapter → TcpSegment → TcpSegment
with_ports a seg = record seg {
  header = record (seg.header) { sport = a.source.port; dport = a.destination.port };
}

-- The header of the datagram; its length is cut to a `uint16_t`.
unfoldable pub header_for : Adapter → TcpSegment → Ipv4Header.Ipv4Header
header_for a seg = record default_header {
  src = a.source.ip;
  dst = a.destination.ip;
  len = (default_header.hlen * 4 + seg.header.doff * 4 + Buffer.size seg.payload) % 2 ^ 16;
}

abbrev pub datagram : Ipv4Header.Ipv4Header → Option BufferList → Option Ipv4Datagram
datagram h none = none
datagram h (some payload) = some (record { header = h; payload = payload })

-- `none` where the source throws.
unfoldable pub wrap_tcp_in_ip : Adapter → TcpSegment → Option Ipv4Datagram
wrap_tcp_in_ip a seg =
    let out = with_ports a seg in
    let h = header_for a out in datagram h (TcpSegment.serialize out (pseudo_cksum h))
