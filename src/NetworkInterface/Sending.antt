-- ===== src/NetworkInterface/Sending.antt =====
-- network_interface.cc: the branches of `send_datagram`.
use cs144_introduction_to_co.Prelude.{
  ℕ, ◌≡◌, ◌⊎◌, inl, inr, refl, arith, true, Option, none, some, List, [], ◌∷◌, ◌++◌,
}
use cs144_introduction_to_co.Prelude.Maps.{lookup, assign}
use cs144_introduction_to_co.BufferList.{BufferList}
use cs144_introduction_to_co.BufferList
use cs144_introduction_to_co.EthernetHeader.{
  EthernetAddress, ethernet_broadcast, type_ipv4, type_arp,
}
use cs144_introduction_to_co.ArpMessage.{ArpMessage, opcode_request, opcode_reply}
use cs144_introduction_to_co.ArpMessage
use cs144_introduction_to_co.Ipv4Datagram.{Ipv4Datagram}
use cs144_introduction_to_co.Ipv4Datagram
use cs144_introduction_to_co.NetworkInterface.{
  NetworkInterface, Outcome, send_datagram, send_by, send_known, send_unknown, is_negative,
  minus_one, arp_request, framed, push_frame, stage,
}
use cs144_introduction_to_co.NetworkInterface.Sound.{IsPending, Entry, IsSound}

-- What `send_datagram` does where the next hop's address is known, and where no request is out.
abbrev pub SendsFrame :
    NetworkInterface → Ipv4Datagram → EthernetAddress → Outcome NetworkInterface → Type 0
SendsFrame n dgram a o =
    (Ipv4Datagram.serialize dgram ≡ none) × (o ≡ Outcome.throws)
    ⊎ ((payload : BufferList) × (Ipv4Datagram.serialize dgram ≡ some payload)
        × (o ≡ Outcome.returns (push_frame n (framed n a type_ipv4 payload))))

abbrev pub Asks : NetworkInterface → Ipv4Datagram → ℕ → Outcome NetworkInterface → Type 0
Asks n dgram next_hop o =
    (bytes : List ℕ) × (ArpMessage.serialize (arp_request n next_hop) ≡ some bytes)
    × (o
        ≡ Outcome.returns (record n {
          map_status = assign next_hop minus_one n.map_status;
          dgram_stage = n.dgram_stage ++ (next_hop, dgram) ∷ [];
          frames_out =
              n.frames_out
              ++ framed n ethernet_broadcast type_arp (BufferList.of_string bytes) ∷ [];
        }))

sends_frame :
    (n : NetworkInterface) (dgram : Ipv4Datagram) (a : EthernetAddress)
    (payload : Option BufferList)
    → Ipv4Datagram.serialize dgram ≡ payload
    → SendsFrame n dgram a (send_known n a payload)
sends_frame n dgram a none e = inl (e, refl)
sends_frame n dgram a (some payload) e = inr (payload, e, refl)

asks :
    (n : NetworkInterface) (dgram : Ipv4Datagram) (next_hop : ℕ)
    → Asks n dgram next_hop (send_unknown n next_hop dgram none)
unfolding send_unknown arp_request ArpMessage.serialize ArpMessage.supported
asks n dgram next_hop = (_, refl, refl)

-- The branches, by what is known of the next hop.
abbrev pub Sent : NetworkInterface → Ipv4Datagram → ℕ → Outcome NetworkInterface → Type 0
Sent n dgram next_hop o =
    ((a : EthernetAddress) × (lookup next_hop n.addr_map ≡ some a) × SendsFrame n dgram a o)
    ⊎ (lookup next_hop n.addr_map ≡ none)
      × ((lookup next_hop n.map_status ≡ none) × Asks n dgram next_hop o
          ⊎ ((status : ℕ) × (lookup next_hop n.map_status ≡ some status)
              × IsPending status
              × (o ≡ Outcome.returns (stage n next_hop dgram))))

waits :
    (n : NetworkInterface) (dgram : Ipv4Datagram) (next_hop status : ℕ)
    → is_negative status ≡ true
    → send_unknown n next_hop dgram (some status) ≡ Outcome.returns (stage n next_hop dgram)
unfolding send_unknown
waits n dgram next_hop status e = rw e refl

unknown_branches :
    (n : NetworkInterface) (dgram : Ipv4Datagram) (next_hop : ℕ) (s : Option ℕ)
    → lookup next_hop n.addr_map ≡ none
    → lookup next_hop n.map_status ≡ s
    → Entry none s
    → Sent n dgram next_hop (send_unknown n next_hop dgram s)
unknown_branches n dgram next_hop none a e h = inr (a, inl (e, asks n dgram next_hop))
unknown_branches n dgram next_hop (some status) a e (lo, hi) =
    inr (a, inr (status, e, (lo, hi), waits n dgram next_hop status (ground arith)))

branches :
    (n : NetworkInterface) (dgram : Ipv4Datagram) (next_hop : ℕ) (a : Option EthernetAddress)
    → lookup next_hop n.addr_map ≡ a
    → Entry a (lookup next_hop n.map_status)
    → Sent n dgram next_hop (send_by n dgram next_hop a)
branches n dgram next_hop none e h =
    unknown_branches n dgram next_hop (lookup next_hop n.map_status) e refl h
branches n dgram next_hop (some a) e h =
    inl (a, e, sends_frame n dgram a (Ipv4Datagram.serialize dgram) refl)

-- Where the maps agree: a datagram for a known address leaves at once, in one frame to it, unless it
-- cannot be serialized, which throws; the first for an unknown address waits, and one ARP request
-- for that address goes to all; another waits with no second request. No blank frame is ever sent.
pub send_datagram_lem :
    (n : NetworkInterface) (dgram : Ipv4Datagram) (next_hop : ℕ)
    → IsSound n
    → Sent n dgram next_hop (send_datagram n dgram next_hop)
unfolding send_datagram
send_datagram_lem n dgram next_hop h =
    branches n dgram next_hop (lookup next_hop n.addr_map) refl (h.entries next_hop)
