-- ===== src/NetworkInterface/Learn.antt =====
-- network_interface.cc: what an arriving frame leaves.
use cs144_introduction_to_co.Prelude.{
  ℕ, ◌≡◌, inl, inr, refl, sym, subst, arith, Bool, true, false, ◌&&◌, Option, none, some, List, [],
  ◌∷◌, ◌++◌, ◌==◌, if◌then◌else◌, Bool-cases, All,
}
use cs144_introduction_to_co.Prelude.Maps.{
  lookup, assign, lookup-assign_self, lookup-assign_other, All-assign, IsSorted, assign-IsSorted,
}
use cs144_introduction_to_co.Buffer.{Buffer}
use cs144_introduction_to_co.BufferList
use cs144_introduction_to_co.Parser.{ParseResult, is_error}
use cs144_introduction_to_co.EthernetHeader.{EthernetAddress, same_address, type_ipv4, type_arp}
use cs144_introduction_to_co.EthernetFrame.{EthernetFrame}
use cs144_introduction_to_co.ArpMessage.{ArpMessage, opcode_request}
use cs144_introduction_to_co.ArpMessage
use cs144_introduction_to_co.Ipv4Datagram.{Ipv4Datagram}
use cs144_introduction_to_co.Ipv4Datagram
use cs144_introduction_to_co.NetworkInterface.{
  NetworkInterface, Outcome, send_datagram, send_staged, send_stage_datagram, erase_sent, is_ready,
  learn, handle_arp, send_reply, arp_reply, then_stage, no_datagram, accept_datagram, recv_ipv4,
  recv_arp, recv_frame,
}
use cs144_introduction_to_co.NetworkInterface.Sound.{
  OnReturn, weaken, IsStatus, Entry, Waits, IsSound,
}

-- The maps agree, and each datagram waits unless its mapping has just come.
pub record IsLearning (n : NetworkInterface) : Type 0 where
  pub addresses_sorted : IsSorted n.addr_map
  pub statuses_sorted : IsSorted n.map_status
  pub entries : (ip : ℕ) → Entry (lookup ip n.addr_map) (lookup ip n.map_status)
  pub statuses : All (λ e. IsStatus e.1) n.map_status
  pub waiting :
      All
        (λ d. is_ready (lookup d.0 n.map_status) ≡ false → Waits (lookup d.0 n.map_status))
        n.dgram_stage

never_returns :
    (P : NetworkInterface → Type 0) (stage : List (ℕ × Ipv4Datagram)) (o : Outcome NetworkInterface)
    → OnReturn P (erase_sent stage o)
never_returns P stage (Outcome.returns n) = tt
never_returns P stage Outcome.throws = tt
never_returns P stage (Outcome.undefined n) = tt

-- The loop returns only if it has sent nothing.
pub send_staged_lem :
    (n : NetworkInterface) (passed rest : List (ℕ × Ipv4Datagram))
    → OnReturn
        (λ m. (m ≡ n) × All (λ d. is_ready (lookup d.0 n.map_status) ≡ false) rest)
        (send_staged n passed rest)
unfolding send_staged
send_staged_lem n passed [] = (refl, tt)
send_staged_lem n passed ((hop, d) ∷ rest) =
    elim (Bool-cases (is_ready (lookup hop n.map_status))) [
      | inl e ↦ rw e (never_returns _ (passed ++ rest) (send_datagram n d hop))
      | inr e ↦ rw e (
          weaken (send_staged n (passed ++ (hop, d) ∷ []) rest) (λ m (q, h). (q, (refl, h)))
            (send_staged_lem n (passed ++ (hop, d) ∷ []) rest))
    ]

none_ready :
    (m : List (ℕ × ℕ)) (ds : List (ℕ × Ipv4Datagram))
    → All (λ d. is_ready (lookup d.0 m) ≡ false → Waits (lookup d.0 m)) ds
    → All (λ d. is_ready (lookup d.0 m) ≡ false) ds
    → All (λ d. Waits (lookup d.0 m)) ds
none_ready m [] h k = tt
none_ready m (d ∷ ds) (f, h) (e, k) = (f e, none_ready m ds h k)

still_out :
    (m : List (ℕ × ℕ)) (ds : List (ℕ × Ipv4Datagram))
    → All (λ d. Waits (lookup d.0 m)) ds
    → All (λ d. is_ready (lookup d.0 m) ≡ false → Waits (lookup d.0 m)) ds
still_out m [] h = tt
still_out m (d ∷ ds) (w, h) = (λ e. w, still_out m ds h)

pub IsSound-IsLearning : (n : NetworkInterface) → IsSound n → IsLearning n
IsSound-IsLearning n h = record {
  addresses_sorted = h.addresses_sorted;
  statuses_sorted = h.statuses_sorted;
  entries = h.entries;
  statuses = h.statuses;
  waiting = still_out n.map_status n.dgram_stage h.waiting;
}

pub stage-IsSound : (n : NetworkInterface) → IsLearning n → OnReturn IsSound (send_stage_datagram n)
unfolding send_stage_datagram
stage-IsSound n h =
    weaken (send_staged n [] n.dgram_stage)
      (λ m (e, k). subst IsSound (sym e) (record {
        addresses_sorted = h.addresses_sorted;
        statuses_sorted = h.statuses_sorted;
        entries = h.entries;
        statuses = h.statuses;
        waiting = none_ready n.map_status n.dgram_stage h.waiting k;
      }))
      (send_staged_lem n [] n.dgram_stage)

-- A mapping that has come is ready; the others wait as before.
after_mapping :
    (k : ℕ) (m : List (ℕ × ℕ)) (ds : List (ℕ × Ipv4Datagram))
    → All (λ d. Waits (lookup d.0 m)) ds
    → All (λ d. is_ready (lookup d.0 (assign k 0 m)) ≡ false → Waits (lookup d.0 (assign k 0 m))) ds
after_mapping k m [] h = tt
after_mapping k m ((hop, d) ∷ ds) (w, h) = elim (Bool-cases (hop == k)) [
  | inl e ↦
      let same : hop ≡ k = ground arith in
      let ready : is_ready (lookup k (assign k 0 m)) ≡ true = rw (lookup-assign_self k 0 m) refl in
      (
        subst (λ i. is_ready (lookup i (assign k 0 m)) ≡ false → Waits (lookup i (assign k 0 m)))
            (sym same) (λ f. absurd (cc ready)),
        after_mapping k m ds h,
      )
  | inr e ↦ (λ f. rw (lookup-assign_other k hop 0 m (ground arith)) w, after_mapping k m ds h)
]

pub learn-IsLearning :
    (n : NetworkInterface) (msg : ArpMessage) → IsSound n → IsLearning (learn n msg)
unfolding learn
learn-IsLearning n msg h =
    let k = msg.sender_ip_address in
    let a = msg.sender_ethernet_address in
    record {
      addresses_sorted = assign-IsSorted k a n.addr_map h.addresses_sorted;
      statuses_sorted = assign-IsSorted k 0 n.map_status h.statuses_sorted;
      entries = λ ip. elim (Bool-cases (ip == k)) [
        | inl e ↦
            let same : ip ≡ k = ground arith in
            subst
              (λ i. Entry (lookup i (assign k a n.addr_map)) (lookup i (assign k 0 n.map_status)))
              (sym same)
              (rw (lookup-assign_self k a n.addr_map, lookup-assign_self k 0 n.map_status)
                (omega arith))
        | inr e ↦
            rw
              (
                lookup-assign_other k ip a n.addr_map (ground arith),
                lookup-assign_other k ip 0 n.map_status (ground arith),
              )
              (h.entries ip)
      ];
      statuses = All-assign (λ e. IsStatus e.1) k 0 n.map_status (inl (omega arith)) h.statuses;
      waiting = after_mapping k n.map_status n.dgram_stage h.waiting;
    }

replies :
    (n : NetworkInterface) (dst : EthernetAddress) (bytes : Option (List ℕ))
    → IsLearning n
    → OnReturn IsLearning (send_reply n dst bytes)
replies n dst none h = tt
replies n dst (some bytes) h = record {
  addresses_sorted = h.addresses_sorted;
  statuses_sorted = h.statuses_sorted;
  entries = h.entries;
  statuses = h.statuses;
  waiting = h.waiting;
}

handle_by :
    (n m : NetworkInterface) (b : Bool) (dst : EthernetAddress) (bytes : Option (List ℕ))
    → IsLearning m
    → OnReturn IsLearning (if b then send_reply m dst bytes else Outcome.returns m)
handle_by n m true dst bytes h = replies m dst bytes h
handle_by n m false dst bytes h = h

chosen :
    (b : Bool) (x y : NetworkInterface)
    → IsLearning x
    → IsLearning y
    → IsLearning (if b then x else y)
chosen true x y h k = h
chosen false x y h k = k

pub handle_arp-IsLearning :
    (n : NetworkInterface) (result : ParseResult) (msg : ArpMessage)
    → IsSound n
    → OnReturn IsLearning (handle_arp n (result, msg))
unfolding handle_arp
handle_arp-IsLearning n result msg h =
    let m : NetworkInterface = if is_error result then n else learn n msg in
    handle_by n m (msg.opcode == opcode_request && msg.target_ip_address == n.ip_address)
      msg.sender_ethernet_address (ArpMessage.serialize (arp_reply n msg))
      (chosen (is_error result) n (learn n msg) (IsSound-IsLearning n h) (learn-IsLearning n msg h))

no_datagram_lem :
    (P : NetworkInterface → Type 0) (o : Outcome NetworkInterface)
    → OnReturn P o
    → OnReturn (λ (r : NetworkInterface × Option Ipv4Datagram). P r.0) (no_datagram o)
no_datagram_lem P (Outcome.returns n) h = h
no_datagram_lem P Outcome.throws h = tt
no_datagram_lem P (Outcome.undefined n) h = tt

abbrev FirstSound : NetworkInterface × Option Ipv4Datagram → Type 0
FirstSound r = IsSound r.0

then_stage_lem :
    (o : Outcome NetworkInterface) → OnReturn IsLearning o → OnReturn FirstSound (then_stage o)
then_stage_lem (Outcome.returns n) h =
    no_datagram_lem IsSound (send_stage_datagram n) (stage-IsSound n h)
then_stage_lem Outcome.throws h = tt
then_stage_lem (Outcome.undefined n) h = tt

accepts :
    (n : NetworkInterface) (r : ParseResult × Ipv4Datagram)
    → IsSound n
    → OnReturn FirstSound (accept_datagram n r)
accepts n (result, dgram) h = elim (Bool-cases (is_error result)) [
  | inl e ↦ rw e (then_stage_lem (Outcome.returns n) (IsSound-IsLearning n h))
  | inr e ↦ rw e h
]

recv_ipv4-FirstSound :
    (n : NetworkInterface) (payload : Option Buffer)
    → IsSound n
    → OnReturn FirstSound (recv_ipv4 n payload)
unfolding recv_ipv4
recv_ipv4-FirstSound n none h = tt
recv_ipv4-FirstSound n (some payload) h =
    accepts n (Ipv4Datagram.parse Ipv4Datagram.blank payload) h

recv_arp-FirstSound :
    (n : NetworkInterface) (payload : Option Buffer)
    → IsSound n
    → OnReturn FirstSound (recv_arp n payload)
unfolding recv_arp
recv_arp-FirstSound n none h = tt
recv_arp-FirstSound n (some payload) h =
    let (result, msg) = ArpMessage.parse ArpMessage.blank payload in
    then_stage_lem (handle_arp n (result, msg)) (handle_arp-IsLearning n result msg h)

pub recv_frame-IsSound :
    (n : NetworkInterface) (frame : EthernetFrame)
    → IsSound n
    → OnReturn (λ (r : NetworkInterface × Option Ipv4Datagram). IsSound r.0) (recv_frame n frame)
unfolding recv_frame
recv_frame-IsSound n frame h =
    let ours : Bool =
      frame.header.ether_type == type_ipv4 && same_address frame.header.dst n.ethernet_address in
    elim (Bool-cases ours) [
      | inl e ↦ rw e (recv_ipv4-FirstSound n (BufferList.to_buffer frame.payload) h)
      | inr e ↦ elim (Bool-cases (frame.header.ether_type == type_arp)) [
        | inl a ↦ rw (e, a) (recv_arp-FirstSound n (BufferList.to_buffer frame.payload) h)
        | inr a ↦ rw (e, a) (then_stage_lem (Outcome.returns n) (IsSound-IsLearning n h))
      ]
    ]
