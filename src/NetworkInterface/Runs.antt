-- ===== src/NetworkInterface/Runs.antt =====
-- network_interface.cc: any sequence of calls of an interface.
use cs144_introduction_to_co.Prelude.{ℕ, ◌<◌, ◌^◌, ◌≡◌, subst, Option}
use cs144_introduction_to_co.EthernetHeader.{EthernetAddress}
use cs144_introduction_to_co.EthernetFrame.{EthernetFrame}
use cs144_introduction_to_co.Ipv4Datagram.{Ipv4Datagram}
use cs144_introduction_to_co.NetworkInterface.{
  NetworkInterface, Outcome, make_interface, send_datagram, recv_frame, tick,
}
use cs144_introduction_to_co.NetworkInterface.Sound.{
  OnReturn, OnUndefined, IsSound, MapsAgree, make_interface-IsSound, send_datagram-IsSound,
}
use cs144_introduction_to_co.NetworkInterface.Learn.{recv_frame-IsSound}
use cs144_introduction_to_co.NetworkInterface.Clock.{tick-IsSound, tick-MapsAgree}
use cs144_introduction_to_co.NetworkInterface.Ready.{recv_frame-MapsAgree, send_datagram_defined}

-- The calls that return.
pub data Step : NetworkInterface → NetworkInterface → Type 0 where
  send :
      {n m : NetworkInterface} (dgram : Ipv4Datagram) (next_hop : ℕ)
      → send_datagram n dgram next_hop ≡ Outcome.returns m
      → Step n m
  recv :
      {n m : NetworkInterface} (frame : EthernetFrame) (dgram : Option Ipv4Datagram)
      → recv_frame n frame ≡ Outcome.returns (m, dgram)
      → Step n m
  wait : {n m : NetworkInterface} (ms : ℕ) → ms < 2 ^ 30 → tick n ms ≡ Outcome.returns m → Step n m

pub data Reach (n : NetworkInterface) : NetworkInterface → Type 0 where
  here : Reach n n
  next : {m k : NetworkInterface} → Reach n m → Step m k → Reach n k

Step-IsSound : {n m : NetworkInterface} → Step n m → IsSound n → IsSound m
Step-IsSound {n} {m} (send dgram next_hop e) h =
    subst (OnReturn IsSound) e (send_datagram-IsSound n dgram next_hop h)
Step-IsSound {n} {m} (recv frame dgram e) h =
    subst (OnReturn (λ (r : NetworkInterface × Option Ipv4Datagram). IsSound r.0)) e
      (recv_frame-IsSound n frame h)
Step-IsSound {n} {m} (wait ms k e) h = subst (OnReturn IsSound) e (tick-IsSound n ms h k)

every : {n m : NetworkInterface} → Reach n m → IsSound n → IsSound m
every here h = h
every (next r st) h = Step-IsSound st (every r h)

-- From a new interface on, after any number of calls, all of which return, with ticks of less than 2^30
-- milliseconds: an address is known exactly while its mapping is younger than thirty seconds, every other status is
-- that of a request of at most five seconds, and each waiting datagram waits for the reply to such
-- a request.
pub Reach-IsSound_interface :
    (ethernet_address : EthernetAddress) (ip_address : ℕ) (n : NetworkInterface)
    → Reach (make_interface ethernet_address ip_address) n
    → IsSound n
Reach-IsSound_interface ethernet_address ip_address n r =
    every r (make_interface-IsSound ethernet_address ip_address)

-- The calls whose behaviour becomes undefined, with the state then reached.
pub data Breaks : NetworkInterface → NetworkInterface → Type 0 where
  send :
      {n m : NetworkInterface} (dgram : Ipv4Datagram) (next_hop : ℕ)
      → send_datagram n dgram next_hop ≡ Outcome.undefined m
      → Breaks n m
  recv :
      {n m : NetworkInterface} (frame : EthernetFrame) (dgram : Option Ipv4Datagram)
      → recv_frame n frame ≡ Outcome.undefined (m, dgram)
      → Breaks n m
  wait :
      {n m : NetworkInterface} (ms : ℕ) → ms < 2 ^ 30 → tick n ms ≡ Outcome.undefined m → Breaks n m

breaks_agree : {n m : NetworkInterface} → Breaks n m → IsSound n → MapsAgree m
breaks_agree {n} {m} (send dgram next_hop e) h =
    absurd (subst (OnUndefined (λ k. ⊥)) e (send_datagram_defined n dgram next_hop))
breaks_agree {n} {m} (recv frame dgram e) h =
    subst (OnUndefined (λ (r : NetworkInterface × Option Ipv4Datagram). MapsAgree r.0)) e
      (recv_frame-MapsAgree n frame h)
breaks_agree {n} {m} (wait ms k e) h = subst (OnUndefined MapsAgree) e (tick-MapsAgree n ms h k)

-- After any number of calls of a new interface that return, the behaviour of one more call becomes
-- undefined, at the erasure of an expired entry or of a datagram that waited, with ticks of less
-- than 2^30 milliseconds: in the state then reached the two maps agree, that is, an address is known exactly while its mapping is younger
-- than thirty seconds, and every other status is that of a request of at most five seconds.
pub breaks-MapsAgree :
    (ethernet_address : EthernetAddress) (ip_address : ℕ) (n m : NetworkInterface)
    → Reach (make_interface ethernet_address ip_address) n
    → Breaks n m
    → MapsAgree m
breaks-MapsAgree ethernet_address ip_address n m r b =
    breaks_agree b (Reach-IsSound_interface ethernet_address ip_address n r)
