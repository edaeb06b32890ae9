-- ===== src/NetworkInterface/Ready.antt =====
-- network_interface.cc: the state in which the behaviour of `recv_frame` becomes undefined.
use cs144_introduction_to_co.Prelude.{
  ℕ, ◌≡◌, inl, inr, refl, arith, Bool, true, false, ◌&&◌, Option, none, some, List, [], ◌∷◌, ◌++◌,
  ◌==◌, if◌then◌else◌, Bool-cases,
}
use cs144_introduction_to_co.Prelude.Maps.{lookup}
use cs144_introduction_to_co.Buffer.{Buffer}
use cs144_introduction_to_co.BufferList
use cs144_introduction_to_co.BufferList.{BufferList}
use cs144_introduction_to_co.Parser.{ParseResult, is_error}
use cs144_introduction_to_co.EthernetHeader.{EthernetAddress, same_address, type_ipv4, type_arp}
use cs144_introduction_to_co.EthernetFrame.{EthernetFrame}
use cs144_introduction_to_co.ArpMessage.{ArpMessage, opcode_request}
use cs144_introduction_to_co.ArpMessage
use cs144_introduction_to_co.Ipv4Datagram.{Ipv4Datagram}
use cs144_introduction_to_co.Ipv4Datagram
use cs144_introduction_to_co.NetworkInterface.{
  NetworkInterface, Outcome, send_datagram, send_by, send_known, send_unknown, send_request,
  arp_request, is_negative, send_staged, send_stage_datagram, erase_sent, is_ready, learn,
  handle_arp, send_reply, arp_reply, then_stage, no_datagram, accept_datagram, recv_ipv4, recv_arp,
  recv_frame,
}
use cs144_introduction_to_co.NetworkInterface.Sound.{
  OnReturn, OnUndefined, Entry, IsSound, MapsAgree,
}
use cs144_introduction_to_co.NetworkInterface.Learn.{
  IsLearning, IsSound-IsLearning, handle_arp-IsLearning,
}

learning-MapsAgree : (n : NetworkInterface) → IsLearning n → MapsAgree n
learning-MapsAgree n h = record {
  addresses_sorted = h.addresses_sorted;
  statuses_sorted = h.statuses_sorted;
  entries = h.entries;
  statuses = h.statuses;
}

-- The maps are all that it reads.
abbrev SameMaps : NetworkInterface → NetworkInterface → Type 0
SameMaps n m = (m.addr_map ≡ n.addr_map) × (m.map_status ≡ n.map_status)

same-MapsAgree : (n m : NetworkInterface) → MapsAgree n → SameMaps n m → MapsAgree m
same-MapsAgree n m h (a, b) = record {
  addresses_sorted = rw a h.addresses_sorted;
  statuses_sorted = rw b h.statuses_sorted;
  entries = λ ip. rw (a, b) (h.entries ip);
  statuses = rw b h.statuses;
}

-- A status that is not below zero has an address.
mapped :
    (a : Option EthernetAddress) (o : Option ℕ)
    → Entry a o
    → is_ready o ≡ true
    → (b : EthernetAddress) × (a ≡ some b)
mapped none none h e = absurd (cc e)
mapped none (some s) (lo, hi) e = absurd (ground arith)
mapped (some a) o h e = (a, refl)

known_keeps_maps :
    (n : NetworkInterface) (stage : List (ℕ × Ipv4Datagram)) (a : EthernetAddress)
    (payload : Option BufferList)
    → OnUndefined (SameMaps n) (erase_sent stage (send_known n a payload))
known_keeps_maps n stage a none = tt
known_keeps_maps n stage a (some payload) = (refl, refl)

agreeing :
    (n : NetworkInterface)
    → MapsAgree n
    → (o : Outcome NetworkInterface) → OnUndefined (SameMaps n) o
    → OnUndefined MapsAgree o
agreeing n h (Outcome.returns m) s = tt
agreeing n h Outcome.throws s = tt
agreeing n h (Outcome.undefined m) s = same-MapsAgree n m h s

-- A waiting datagram that is sent goes to an address that is known.
send_staged-MapsAgree :
    (n : NetworkInterface) (passed rest : List (ℕ × Ipv4Datagram))
    → MapsAgree n
    → OnUndefined MapsAgree (send_staged n passed rest)
unfolding send_staged send_datagram
send_staged-MapsAgree n passed [] h = tt
send_staged-MapsAgree n passed ((hop, d) ∷ rest) h =
    elim (Bool-cases (is_ready (lookup hop n.map_status))) [
      | inl e ↦
          let (a, known) =
            mapped (lookup hop n.addr_map) (lookup hop n.map_status) (h.entries hop) e in
          rw (e, known)
            (agreeing n h (erase_sent (passed ++ rest) (send_known n a (Ipv4Datagram.serialize d)))
              (known_keeps_maps n (passed ++ rest) a (Ipv4Datagram.serialize d)))
      | inr e ↦ rw e (send_staged-MapsAgree n (passed ++ (hop, d) ∷ []) rest h)
    ]

abbrev FirstAgrees : NetworkInterface × Option Ipv4Datagram → Type 0
FirstAgrees r = MapsAgree r.0

no_datagram_agrees :
    (o : Outcome NetworkInterface)
    → OnUndefined MapsAgree o
    → OnUndefined FirstAgrees (no_datagram o)
no_datagram_agrees (Outcome.returns n) h = tt
no_datagram_agrees Outcome.throws h = tt
no_datagram_agrees (Outcome.undefined n) h = h

then_stage_agrees :
    (o : Outcome NetworkInterface)
    → OnReturn IsLearning o
    → OnUndefined MapsAgree o
    → OnUndefined FirstAgrees (then_stage o)
unfolding send_stage_datagram
then_stage_agrees (Outcome.returns n) h k =
    no_datagram_agrees (send_stage_datagram n)
      (send_staged-MapsAgree n [] n.dgram_stage (learning-MapsAgree n h))
then_stage_agrees Outcome.throws h k = tt
then_stage_agrees (Outcome.undefined n) h k = k

-- A reply is sent, or an exception leaves the call.
reply_returns :
    (n : NetworkInterface) (b : Bool) (dst : EthernetAddress) (bytes : Option (List ℕ))
    → OnUndefined MapsAgree (if b then send_reply n dst bytes else Outcome.returns n)
reply_returns n true dst none = tt
reply_returns n true dst (some bytes) = tt
reply_returns n false dst bytes = tt

handle_arp_returns :
    (n : NetworkInterface) (result : ParseResult) (msg : ArpMessage)
    → OnUndefined MapsAgree (handle_arp n (result, msg))
unfolding handle_arp
handle_arp_returns n result msg =
    let m : NetworkInterface = if is_error result then n else learn n msg in
    reply_returns m (msg.opcode == opcode_request && msg.target_ip_address == n.ip_address)
      msg.sender_ethernet_address (ArpMessage.serialize (arp_reply n msg))

accepts_agree :
    (n : NetworkInterface) (r : ParseResult × Ipv4Datagram)
    → IsSound n
    → OnUndefined FirstAgrees (accept_datagram n r)
accepts_agree n (result, dgram) h = elim (Bool-cases (is_error result)) [
  | inl e ↦ rw e (then_stage_agrees (Outcome.returns n) (IsSound-IsLearning n h) tt)
  | inr e ↦ rw e tt
]

recv_ipv4_agrees :
    (n : NetworkInterface) (payload : Option Buffer)
    → IsSound n
    → OnUndefined FirstAgrees (recv_ipv4 n payload)
unfolding recv_ipv4
recv_ipv4_agrees n none h = tt
recv_ipv4_agrees n (some payload) h =
    accepts_agree n (Ipv4Datagram.parse Ipv4Datagram.blank payload) h

recv_arp_agrees :
    (n : NetworkInterface) (payload : Option Buffer)
    → IsSound n
    → OnUndefined FirstAgrees (recv_arp n payload)
unfolding recv_arp
recv_arp_agrees n none h = tt
recv_arp_agrees n (some payload) h =
    let (result, msg) = ArpMessage.parse ArpMessage.blank payload in
    then_stage_agrees (handle_arp n (result, msg)) (handle_arp-IsLearning n result msg h)
      (handle_arp_returns n result msg)

known_defined :
    (n : NetworkInterface) (a : EthernetAddress) (payload : Option BufferList)
    → OnUndefined (λ m. ⊥) (send_known n a payload)
known_defined n a none = tt
known_defined n a (some payload) = tt

request_defined :
    (n : NetworkInterface) (next_hop : ℕ) (dgram : Ipv4Datagram) (bytes : Option (List ℕ))
    → OnUndefined (λ m. ⊥) (send_request n next_hop dgram bytes)
request_defined n next_hop dgram none = tt
request_defined n next_hop dgram (some bytes) = tt

unknown_defined :
    (n : NetworkInterface) (next_hop : ℕ) (dgram : Ipv4Datagram) (status : Option ℕ)
    → OnUndefined (λ m. ⊥) (send_unknown n next_hop dgram status)
unfolding send_unknown
unknown_defined n next_hop dgram none =
    request_defined n next_hop dgram (ArpMessage.serialize (arp_request n next_hop))
unknown_defined n next_hop dgram (some status) = elim (Bool-cases (is_negative status)) [
  | inl e ↦ rw e tt
  | inr e ↦ rw e tt
]

by_defined :
    (n : NetworkInterface) (dgram : Ipv4Datagram) (next_hop : ℕ) (a : Option EthernetAddress)
    → OnUndefined (λ m. ⊥) (send_by n dgram next_hop a)
by_defined n dgram next_hop none = unknown_defined n next_hop dgram (lookup next_hop n.map_status)
by_defined n dgram next_hop (some a) = known_defined n a (Ipv4Datagram.serialize dgram)

-- `send_datagram` returns or throws, whatever the state.
pub send_datagram_defined :
    (n : NetworkInterface) (dgram : Ipv4Datagram) (next_hop : ℕ)
    → OnUndefined (λ m. ⊥) (send_datagram n dgram next_hop)
unfolding send_datagram
send_datagram_defined n dgram next_hop = by_defined n dgram next_hop (lookup next_hop n.addr_map)

-- Where `recv_frame` erases a datagram that waited, the maps agree.
pub recv_frame-MapsAgree :
    (n : NetworkInterface) (frame : EthernetFrame)
    → IsSound n
    → OnUndefined
        (λ (r : NetworkInterface × Option Ipv4Datagram). MapsAgree r.0)
        (recv_frame n frame)
unfolding recv_frame
recv_frame-MapsAgree n frame h =
    let ours : Bool =
      frame.header.ether_type == type_ipv4 && same_address frame.header.dst n.ethernet_address in
    elim (Bool-cases ours) [
      | inl e ↦ rw e (recv_ipv4_agrees n (BufferList.to_buffer frame.payload) h)
      | inr e ↦ elim (Bool-cases (frame.header.ether_type == type_arp)) [
        | inl a ↦ rw (e, a) (recv_arp_agrees n (BufferList.to_buffer frame.payload) h)
        | inr a ↦ rw (e, a) (then_stage_agrees (Outcome.returns n) (IsSound-IsLearning n h) tt)
      ]
    ]
