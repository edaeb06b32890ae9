-- ===== src/Router/Total.antt =====
-- router.cc: `route` as a whole.
use cs144_introduction_to_co.Prelude.{ℕ, ◌<◌, ◌≡◌, true, some, get_elem?, length}
use cs144_introduction_to_co.Ipv4Datagram.{Ipv4Datagram}
use cs144_introduction_to_co.NetworkInterface.{NetworkInterface, Outcome}
use cs144_introduction_to_co.Router.{RouteElem}
use cs144_introduction_to_co.Router.Interfaces.{AsyncNetworkInterface, Router}
use cs144_introduction_to_co.Prelude.{has_value, All}
use cs144_introduction_to_co.Ipv4Datagram
use cs144_introduction_to_co.NetworkInterface
use cs144_introduction_to_co.NetworkInterface.Sound.{IsSound}

-- The call returns, with a state that has the property.
abbrev pub Returns : {A : Type 0} → (A → Type 0) → Outcome A → Type 0
Returns P (Outcome.returns a) = P a
Returns P Outcome.throws = ⊥
Returns P (Outcome.undefined a) = ⊥

-- A datagram that can be serialized, whatever its time to live.
abbrev pub IsSendable : Ipv4Datagram → Type 0
IsSendable d =
    (ttl : ℕ)
    → has_value (Ipv4Datagram.serialize (record d { header = record (d.header) { ttl = ttl } }))
      ≡ true

abbrev pub IsFit : AsyncNetworkInterface → Type 0
IsFit a = IsSound a.interface × All IsSendable a.datagrams_out

-- Every route leads to an interface of the router, whose maps agree, and every datagram that waits can
-- be serialized.
pub record IsReady (r : Router) : Type 0 where
  pub targets :
      (i : ℕ) (e : RouteElem)
      → get_elem? r.routes i ≡ some e
      → e.interface_num < length r.interfaces
  pub fit : (j : ℕ) (a : AsyncNetworkInterface) → get_elem? r.interfaces j ≡ some a → IsFit a
