-- ===== src/Router/Interfaces.antt =====
-- router.hh and router.cc: the interfaces of a router, and the datagrams that it moves between them.
use cs144_introduction_to_co.Prelude.{
  ℕ, suc, zero, Option, none, some, List, [], ◌∷◌, ◌++◌, get_elem?, set, length,
}
use cs144_introduction_to_co.EthernetFrame.{EthernetFrame}
use cs144_introduction_to_co.Ipv4Datagram.{Ipv4Datagram}
use cs144_introduction_to_co.NetworkInterface.{NetworkInterface, Outcome}
use cs144_introduction_to_co.NetworkInterface
use cs144_introduction_to_co.Router.{RouteElem, Forward, route_one_datagram}

-- The queue is a list, oldest first.
pub record AsyncNetworkInterface : Type 0 where
  pub interface : NetworkInterface
  pub datagrams_out : List Ipv4Datagram

abbrev queued :
    AsyncNetworkInterface → NetworkInterface × Option Ipv4Datagram → AsyncNetworkInterface
queued a (n, none) = record a { interface = n }
queued a (n, some dgram) = record { interface = n; datagrams_out = a.datagrams_out ++ dgram ∷ [] }

abbrev keep :
    AsyncNetworkInterface
    → Outcome (NetworkInterface × Option Ipv4Datagram)
    → Outcome AsyncNetworkInterface
keep a (Outcome.returns r) = Outcome.returns (queued a r)
keep a Outcome.throws = Outcome.throws
keep a (Outcome.undefined (n, dgram)) = Outcome.undefined (record a { interface = n })

-- The frame goes to the interface, and what it returns to the queue.
unfoldable pub recv_frame : AsyncNetworkInterface → EthernetFrame → Outcome AsyncNetworkInterface
recv_frame a frame = keep a (NetworkInterface.recv_frame a.interface frame)

pub record Router : Type 0 where
  pub interfaces : List AsyncNetworkInterface
  pub routes : List RouteElem

-- The router, and the index of the interface.
unfoldable pub add_interface : Router → AsyncNetworkInterface → Router × ℕ
add_interface r a = (record r { interfaces = r.interfaces ++ a ∷ [] }, length r.interfaces)

abbrev pub put : Router → ℕ → AsyncNetworkInterface → Outcome NetworkInterface → Outcome Router
put r i a (Outcome.returns n) =
    Outcome.returns (record r { interfaces = set r.interfaces i (record a { interface = n }) })
put r i a Outcome.throws = Outcome.throws
put r i a (Outcome.undefined n) =
    Outcome.undefined (record r { interfaces = set r.interfaces i (record a { interface = n }) })

-- `at` throws where there is no such interface.
abbrev pub send_on : Router → Forward → Ipv4Datagram → Option AsyncNetworkInterface → Outcome Router
send_on r f dgram none = Outcome.throws
send_on r f dgram (some a) =
    put r f.interface_num a (NetworkInterface.send_datagram a.interface dgram f.next_hop)

abbrev pub forward : Router → Ipv4Datagram → Option Forward → Outcome Router
forward r dgram none = Outcome.returns r
forward r dgram (some f) =
    send_on r f (record dgram { header = record (dgram.header) { ttl = f.ttl } })
      (get_elem? r.interfaces f.interface_num)

-- `route_one_datagram`, by the decision of the table.
unfoldable pub route_datagram : Router → Ipv4Datagram → Outcome Router
route_datagram r dgram =
    forward r dgram (route_one_datagram r.routes dgram.header.dst dgram.header.ttl)

abbrev pub then_router : Outcome Router → (Router → Outcome Router) → Outcome Router
then_router (Outcome.returns r) k = k r
then_router Outcome.throws k = Outcome.throws
then_router (Outcome.undefined r) k = Outcome.undefined r

-- The inner loop, over the datagrams of one interface: nothing that it calls adds to the queue.
unfoldable pub route_queue : Router → List Ipv4Datagram → Outcome Router
route_queue r [] = Outcome.returns r
route_queue r (dgram ∷ rest) = then_router (route_datagram r dgram) (λ q. route_queue q rest)

abbrev pub emptied : ℕ → Router → Option AsyncNetworkInterface → Outcome Router
emptied i r none = Outcome.returns r
emptied i r (some a) =
    Outcome.returns (record r { interfaces = set r.interfaces i (record a { datagrams_out = [] }) })

abbrev pub route_interface : Router → ℕ → Option AsyncNetworkInterface → Outcome Router
route_interface r i none = Outcome.returns r
route_interface r i (some a) =
    then_router (route_queue r a.datagrams_out) (λ q. emptied i q (get_elem? q.interfaces i))

-- The outer loop, from the interface `i` on, with `n` interfaces to go.
unfoldable pub route_from : Router → ℕ → ℕ → Outcome Router
route_from r i zero = Outcome.returns r
route_from r i (suc n) =
    then_router (route_interface r i (get_elem? r.interfaces i)) (λ q. route_from q (suc i) n)

unfoldable pub route : Router → Outcome Router
route r = route_from r 0 (length r.interfaces)
