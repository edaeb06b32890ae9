-- ===== src/TcpOverUdp.antt =====
-- tcp_helpers/fd_adapter.hh and fd_adapter.cc: TCP segments in UDP datagrams. What the socket receives
-- is an argument, and what it sends the result.
use cs144_introduction_to_co.Prelude.{
  Bool, false, not, ◌&&◌, Option, none, some, ◌==◌, if◌then◌else◌,
}
use cs144_introduction_to_co.Buffer.{Buffer}
use cs144_introduction_to_co.BufferList.{BufferList}
use cs144_introduction_to_co.Parser.{ParseResult, is_error}
use cs144_introduction_to_co.TcpSegment.{TcpSegment, default_segment}
use cs144_introduction_to_co.TcpSegment
use cs144_introduction_to_co.TcpOverIp.{Adapter, Endpoint, with_ports}

-- `==` of two addresses.
unfoldable pub same_endpoint : Endpoint → Endpoint → Bool
same_endpoint a b = a.ip == b.ip && a.port == b.port

-- The first segment that opens a connection sets the peer.
unfoldable pub settle : Adapter → Endpoint → TcpSegment → Option TcpSegment × Adapter
settle a from seg =
    if a.listening
    then (if seg.header.syn && not seg.header.rst
        then (some seg, record a { destination = from; listening = false })
        else (none, a))
    else (some seg, a)

abbrev pub settle_parsed :
    Adapter → Endpoint → ParseResult × TcpSegment → Option TcpSegment × Adapter
settle_parsed a from (result, seg) = if is_error result then (none, a) else settle a from seg

-- A datagram of the socket: where it comes from, and its payload.
unfoldable pub read : Adapter → Endpoint → Buffer → Option TcpSegment × Adapter
read a from payload =
    if not a.listening && not (same_endpoint from a.destination)
    then (none, a)
    else settle_parsed a from (TcpSegment.parse default_segment payload 0)

abbrev pub addressed_to : Endpoint → Option BufferList → Option (Endpoint × BufferList)
addressed_to destination none = none
addressed_to destination (some payload) = some (destination, payload)

-- What is sent, and where to; `none` where the source throws.
unfoldable pub write : Adapter → TcpSegment → Option (Endpoint × BufferList)
write a seg = addressed_to a.destination (TcpSegment.serialize (with_ports a seg) 0)
