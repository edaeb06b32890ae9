-- ===== src/NetworkInterface/Examples.antt =====
-- Tests of network_interface.cc: alice sends bob a datagram.
use cs144_introduction_to_co.Prelude.{◌≡◌, refl, arith, some, inr}
use cs144_introduction_to_co.BufferList
use cs144_introduction_to_co.BufferList.{BufferList}
use cs144_introduction_to_co.EthernetHeader.{filled, ethernet_broadcast, type_arp}
use cs144_introduction_to_co.Ipv4Header.{default_header}
use cs144_introduction_to_co.Ipv4Header
use cs144_introduction_to_co.Ipv4Datagram.{Ipv4Datagram}
use cs144_introduction_to_co.Ipv4Datagram
use cs144_introduction_to_co.NetworkInterface.{
  NetworkInterface, Outcome, make_interface, send_datagram, tick, framed, minus_one,
}
use cs144_introduction_to_co.NetworkInterface.Sound.{IsSound, make_interface-IsSound}
use cs144_introduction_to_co.NetworkInterface.Runs.{
  Step, Breaks, here, next, Reach-IsSound_interface, breaks-MapsAgree,
}
use cs144_introduction_to_co.NetworkInterface.Clock.{Ticks, tick_lem, tick_expired}
use cs144_introduction_to_co.NetworkInterface.Sound.{MapsAgree}
use cs144_introduction_to_co.NetworkInterface.Sending.{Sent, send_datagram_lem}
use cs144_introduction_to_co.NetworkInterface.Exchange.{
  Exchange, exchange, asked_by, asks_first, request_bytes,
}

abbrev alice : NetworkInterface
alice = make_interface (filled 2) 10

abbrev bob : NetworkInterface
bob = make_interface (filled 3) 11

abbrev letter : Ipv4Datagram
letter = record Ipv4Datagram.blank {
  header = record default_header { len = 20; src = 10; dst = 11 };
}

letter_bytes : (payload : BufferList) × (Ipv4Datagram.serialize letter ≡ some payload)
unfolding Ipv4Datagram.serialize Ipv4Header.serialize Ipv4Header.payload_length BufferList.size
    BufferList.empty Ipv4Datagram.with_checksum
letter_bytes = (_, refl)

-- Alice after the call, while the request is out.
abbrev asking : NetworkInterface
asking =
    asked_by alice 11 letter
      (framed alice ethernet_broadcast type_arp (BufferList.of_string (request_bytes alice 11).0))

asked_once : send_datagram alice letter 11 ≡ Outcome.returns asking
unfolding make_interface
asked_once =
    asks_first alice 11 letter (request_bytes alice 11).0 refl refl (request_bytes alice 11).1

Reach-IsSound_interface_example : IsSound asking
Reach-IsSound_interface_example =
    Reach-IsSound_interface (filled 2) 10 asking (next here (Step.send letter 11 asked_once))

asking-IsSound : IsSound asking
asking-IsSound =
    Reach-IsSound_interface (filled 2) 10 asking (next here (Step.send letter 11 asked_once))

-- The request expires after more than five seconds.
unanswered : (m : NetworkInterface) × (tick asking 6000 ≡ Outcome.undefined m)
unfolding make_interface
unanswered =
    tick_expired asking 6000 11 minus_one asking-IsSound (omega arith) refl
      (inr ((omega arith, omega arith), omega arith))

breaks-MapsAgree_example : MapsAgree unanswered.0
breaks-MapsAgree_example =
    breaks-MapsAgree (filled 2) 10 asking unanswered.0 (next here (Step.send letter 11 asked_once))
      (Breaks.wait 6000 (omega arith) unanswered.1)

send_datagram_lem_example : Sent asking letter 11 (send_datagram asking letter 11)
send_datagram_lem_example = send_datagram_lem asking letter 11 asking-IsSound

tick_lem_example : Ticks asking 100 (tick asking 100)
tick_lem_example = tick_lem asking 100 asking-IsSound (omega arith)

exchange_example : Exchange alice bob letter letter_bytes.0
unfolding make_interface
exchange_example =
    exchange alice bob letter letter_bytes.0
      ((omega arith, omega arith, omega arith, omega arith, omega arith, omega arith), omega arith)
      ((omega arith, omega arith, omega arith, omega arith, omega arith, omega arith), omega arith)
      (make_interface-IsSound (filled 3) 11) refl refl refl tt letter_bytes.1
