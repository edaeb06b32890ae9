-- ===== src/TcpOverEthernet.antt =====
-- tcp_helpers/tuntap_adapter.hh and tuntap_adapter.cc: TCP segments over a network interface. What the
-- TAP device reads is an argument, and what is written to it a list, oldest first.
use cs144_introduction_to_co.Prelude.{
  ℕ, Option, none, some, List, [], ◌∷◌, ◌++◌, map, if◌then◌else◌,
}
use cs144_introduction_to_co.Buffer.{Buffer}
use cs144_introduction_to_co.BufferList.{BufferList}
use cs144_introduction_to_co.Parser.{ParseResult, is_error}
use cs144_introduction_to_co.EthernetHeader.{EthernetAddress}
use cs144_introduction_to_co.EthernetFrame.{EthernetFrame}
use cs144_introduction_to_co.EthernetFrame
use cs144_introduction_to_co.Ipv4Datagram.{Ipv4Datagram}
use cs144_introduction_to_co.TcpSegment.{TcpSegment}
use cs144_introduction_to_co.TcpOverIp.{Adapter, wrap_tcp_in_ip, unwrap_tcp_in_ip}
use cs144_introduction_to_co.NetworkInterface.{NetworkInterface, Outcome, make_interface}
use cs144_introduction_to_co.NetworkInterface

pub record EthernetAdapter : Type 0 where
  pub adapter : Adapter
  pub interface : NetworkInterface
  pub next_hop : ℕ
  pub written : List BufferList

-- A dummy frame is written first.
unfoldable pub make_adapter : Adapter → EthernetAddress → ℕ → ℕ → EthernetAdapter
make_adapter adapter eth_address ip_address next_hop = record {
  adapter = adapter;
  interface = make_interface eth_address ip_address;
  next_hop = next_hop;
  written = EthernetFrame.serialize EthernetFrame.blank ∷ [];
}

-- The loop over `frames_out`, which it empties.
unfoldable pub send_pending : EthernetAdapter → EthernetAdapter
send_pending a = record a {
  written = a.written ++ map EthernetFrame.serialize a.interface.frames_out;
  interface = record (a.interface) { frames_out = [] };
}

abbrev pub pending : EthernetAdapter → Outcome NetworkInterface → Outcome EthernetAdapter
pending a (Outcome.returns n) = Outcome.returns (send_pending (record a { interface = n }))
pending a Outcome.throws = Outcome.throws
pending a (Outcome.undefined n) = Outcome.undefined (record a { interface = n })

abbrev pub unwrapped :
    EthernetAdapter
    → Option (Option TcpSegment × Adapter)
    → Outcome (EthernetAdapter × Option TcpSegment)
unwrapped a none = Outcome.throws
unwrapped a (some (seg, adapter)) = Outcome.returns (record a { adapter = adapter }, seg)

abbrev pub take_datagram :
    EthernetAdapter → Option Ipv4Datagram → Outcome (EthernetAdapter × Option TcpSegment)
take_datagram a none = Outcome.returns (a, none)
take_datagram a (some dgram) = unwrapped a (unwrap_tcp_in_ip a.adapter dgram)

abbrev pub take_received :
    EthernetAdapter
    → Outcome (NetworkInterface × Option Ipv4Datagram)
    → Outcome (EthernetAdapter × Option TcpSegment)
take_received a (Outcome.returns (n, dgram)) =
    take_datagram (send_pending (record a { interface = n })) dgram
take_received a Outcome.throws = Outcome.throws
take_received a (Outcome.undefined (n, dgram)) =
    Outcome.undefined (record a { interface = n }, none)

abbrev pub take_frame :
    EthernetAdapter → ParseResult × EthernetFrame → Outcome (EthernetAdapter × Option TcpSegment)
take_frame a (result, frame) =
    if is_error result
    then Outcome.returns (a, none)
    else take_received a (NetworkInterface.recv_frame a.interface frame)

-- `bytes` is what the device reads.
unfoldable pub read : EthernetAdapter → Buffer → Outcome (EthernetAdapter × Option TcpSegment)
read a bytes = take_frame a (EthernetFrame.parse EthernetFrame.blank bytes)

unfoldable pub tick : EthernetAdapter → ℕ → Outcome EthernetAdapter
tick a ms = pending a (NetworkInterface.tick a.interface ms)

abbrev pub send_wrapped : EthernetAdapter → Option Ipv4Datagram → Outcome EthernetAdapter
send_wrapped a none = Outcome.throws
send_wrapped a (some dgram) =
    pending a (NetworkInterface.send_datagram a.interface dgram a.next_hop)

unfoldable pub write : EthernetAdapter → TcpSegment → Outcome EthernetAdapter
write a seg = send_wrapped a (wrap_tcp_in_ip a.adapter seg)
