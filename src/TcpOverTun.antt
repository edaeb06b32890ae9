-- ===== src/TcpOverTun.antt =====
-- tcp_helpers/tuntap_adapter.hh: TCP segments in the datagrams of a TUN device. What the device reads is
-- an argument, and what is written to it the result.
use cs144_introduction_to_co.Prelude.{Option, none, some, if◌then◌else◌}
use cs144_introduction_to_co.Buffer.{Buffer}
use cs144_introduction_to_co.BufferList.{BufferList}
use cs144_introduction_to_co.Parser.{ParseResult, is_error}
use cs144_introduction_to_co.Ipv4Datagram.{Ipv4Datagram}
use cs144_introduction_to_co.Ipv4Datagram
use cs144_introduction_to_co.TcpSegment.{TcpSegment}
use cs144_introduction_to_co.TcpOverIp.{Adapter, wrap_tcp_in_ip, unwrap_tcp_in_ip}

abbrev pub take_parsed : Adapter → ParseResult × Ipv4Datagram → Option (Option TcpSegment × Adapter)
take_parsed a (result, dgram) = if is_error result then some (none, a) else unwrap_tcp_in_ip a dgram

-- `none` where the source throws.
unfoldable pub read : Adapter → Buffer → Option (Option TcpSegment × Adapter)
read a bytes = take_parsed a (Ipv4Datagram.parse Ipv4Datagram.blank bytes)

abbrev pub serialized : Option Ipv4Datagram → Option BufferList
serialized none = none
serialized (some dgram) = Ipv4Datagram.serialize dgram

unfoldable pub write : Adapter → TcpSegment → Option BufferList
write a seg = serialized (wrap_tcp_in_ip a seg)
