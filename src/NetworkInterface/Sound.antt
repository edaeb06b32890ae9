-- ===== src/NetworkInterface/Sound.antt =====
-- network_interface.cc: when the two maps and the waiting datagrams agree.
use cs144_introduction_to_co.Prelude.{
  ℕ, ◌-◌, ◌^◌, ◌<◌, ◌≡◌, ◌⊎◌, inl, inr, refl, sym, subst, arith, true, false, Option, none, some,
  List, [], ◌∷◌, ◌++◌, ◌==◌, Bool-cases, All, All-append,
}
use cs144_introduction_to_co.Prelude.Maps.{
  lookup, assign, lookup-assign_self, lookup-assign_other, All-assign, IsSorted, assign-IsSorted,
}
use cs144_introduction_to_co.EthernetHeader.{EthernetAddress}
use cs144_introduction_to_co.ArpMessage.{ArpMessage}
use cs144_introduction_to_co.ArpMessage
use cs144_introduction_to_co.Ipv4Datagram.{Ipv4Datagram}
use cs144_introduction_to_co.Ipv4Datagram
use cs144_introduction_to_co.BufferList.{BufferList}
use cs144_introduction_to_co.NetworkInterface.{
  NetworkInterface, Outcome, send_datagram, send_by, send_known, send_unknown, send_request,
  send_staged, is_negative, is_ready, minus_one, arp_request, make_interface,
}

-- A property of the state in which the behaviour of a call becomes undefined.
abbrev pub OnUndefined : {A : Type 0} → (A → Type 0) → Outcome A → Type 0
OnUndefined P (Outcome.returns a) = Unit
OnUndefined P Outcome.throws = Unit
OnUndefined P (Outcome.undefined a) = P a

-- A property of the state that a call returns with.
abbrev pub OnReturn : {A : Type 0} → (A → Type 0) → Outcome A → Type 0
OnReturn P (Outcome.returns a) = P a
OnReturn P Outcome.throws = Unit
OnReturn P (Outcome.undefined a) = Unit

pub weaken :
    {A : Type 0} {P Q : A → Type 0} (o : Outcome A)
    → ((a : A) → P a → Q a)
    → OnReturn P o
    → OnReturn Q o
weaken (Outcome.returns a) f h = f a h
weaken Outcome.throws f h = tt
weaken (Outcome.undefined a) f h = tt

-- The status of a request that is not older than five seconds.
abbrev pub IsPending : ℕ → Type 0
IsPending status = (2 ^ 32 - 5001 < status) × (status < 2 ^ 32)

abbrev pub IsStatus : ℕ → Type 0
IsStatus status = (status < 30000) ⊎ IsPending status

-- An address is known exactly while its status is an age below thirty seconds; otherwise there is
-- no status, or that of a request.
abbrev pub Entry : Option EthernetAddress → Option ℕ → Type 0
Entry none none = Unit
Entry none (some status) = IsPending status
Entry (some a) none = ⊥
Entry (some a) (some status) = status < 30000

abbrev pub Waits : Option ℕ → Type 0
Waits none = ⊥
Waits (some status) = IsPending status

-- The two maps agree: each is in the order of its keys, an address is known exactly while its status
-- is the age of a mapping younger than thirty seconds, and every other status is that of a request
-- of at most five.
pub record MapsAgree (n : NetworkInterface) : Type 0 where
  pub addresses_sorted : IsSorted n.addr_map
  pub statuses_sorted : IsSorted n.map_status
  pub entries : (ip : ℕ) → Entry (lookup ip n.addr_map) (lookup ip n.map_status)
  pub statuses : All (λ e. IsStatus e.1) n.map_status

-- They agree, and each waiting datagram waits for the reply to a request.
pub record IsSound (n : NetworkInterface) : Type 0 where
  pub addresses_sorted : IsSorted n.addr_map
  pub statuses_sorted : IsSorted n.map_status
  pub entries : (ip : ℕ) → Entry (lookup ip n.addr_map) (lookup ip n.map_status)
  pub statuses : All (λ e. IsStatus e.1) n.map_status
  pub waiting : All (λ d. Waits (lookup d.0 n.map_status)) n.dgram_stage

pub pending_not_ready : (o : Option ℕ) → Waits o → is_ready o ≡ false
pending_not_ready none h = absurd h
pending_not_ready (some status) (lo, hi) = ground arith

-- While every datagram waits for a reply, none is sent.
pub send_staged_none :
    (n : NetworkInterface) (passed rest : List (ℕ × Ipv4Datagram))
    → All (λ d. Waits (lookup d.0 n.map_status)) rest
    → send_staged n passed rest ≡ Outcome.returns n
unfolding send_staged
send_staged_none n passed [] h = refl
send_staged_none n passed ((hop, d) ∷ rest) (w, h) =
    let e = pending_not_ready (lookup hop n.map_status) w in
    rw e (send_staged_none n (passed ++ (hop, d) ∷ []) rest h)

pub make_interface-IsSound : (a : EthernetAddress) (ip : ℕ) → IsSound (make_interface a ip)
unfolding make_interface
make_interface-IsSound a ip = record {
  addresses_sorted = tt;
  statuses_sorted = tt;
  entries = λ k. tt;
  statuses = tt;
  waiting = tt;
}

after_request :
    (hop : ℕ) (m : List (ℕ × ℕ)) (ds : List (ℕ × Ipv4Datagram))
    → All (λ d. Waits (lookup d.0 m)) ds
    → All (λ d. Waits (lookup d.0 (assign hop minus_one m))) ds
after_request hop m [] h = tt
after_request hop m ((k, d) ∷ ds) (w, h) =
    let pending : IsPending minus_one = (omega arith, omega arith) in
    elim (Bool-cases (k == hop)) [
      | inl e ↦
          let same : k ≡ hop = ground arith in
          (
            subst (λ i. Waits (lookup i (assign hop minus_one m))) (sym same)
                (rw (lookup-assign_self hop minus_one m) pending),
            after_request hop m ds h,
          )
      | inr e ↦
          (rw (lookup-assign_other hop k minus_one m (ground arith)) w, after_request hop m ds h)
    ]

requested :
    (n : NetworkInterface) (next_hop : ℕ) (dgram : Ipv4Datagram) (bytes : Option (List ℕ))
    → IsSound n
    → lookup next_hop n.addr_map ≡ none
    → lookup next_hop n.map_status ≡ none
    → OnReturn IsSound (send_request n next_hop dgram bytes)
requested n next_hop dgram none h a s = tt
requested n next_hop dgram (some bytes) h a s =
    let pending : IsPending minus_one = (omega arith, omega arith) in
    let self = lookup-assign_self next_hop minus_one n.map_status in
    record {
      addresses_sorted = h.addresses_sorted;
      statuses_sorted = assign-IsSorted next_hop minus_one n.map_status h.statuses_sorted;
      entries = λ ip. elim (Bool-cases (ip == next_hop)) [
        | inl e ↦
            let same : ip ≡ next_hop = ground arith in
            subst
              (λ k. Entry (lookup k n.addr_map) (lookup k (assign next_hop minus_one n.map_status)))
              (sym same) (rw (a, self) pending)
        | inr e ↦
            let other = lookup-assign_other next_hop ip minus_one n.map_status (ground arith) in
            rw other (h.entries ip)
      ];
      statuses =
          All-assign (λ e. IsStatus e.1) next_hop minus_one n.map_status (inr pending) h.statuses;
      waiting =
          All-append (λ d. Waits (lookup d.0 (assign next_hop minus_one n.map_status)))
            n.dgram_stage ((next_hop, dgram) ∷ [])
            (after_request next_hop n.map_status n.dgram_stage h.waiting) (rw self pending, tt);
    }

staged :
    (n : NetworkInterface) (next_hop status : ℕ) (dgram : Ipv4Datagram)
    → IsSound n
    → lookup next_hop n.map_status ≡ some status
    → IsPending status
    → IsSound (record n { dgram_stage = n.dgram_stage ++ (next_hop, dgram) ∷ [] })
staged n next_hop status dgram h s p = record {
  addresses_sorted = h.addresses_sorted;
  statuses_sorted = h.statuses_sorted;
  entries = h.entries;
  statuses = h.statuses;
  waiting =
      All-append (λ d. Waits (lookup d.0 n.map_status)) n.dgram_stage ((next_hop, dgram) ∷ [])
        h.waiting (rw s p, tt);
}

entry_unknown :
    (n : NetworkInterface) (ip status : ℕ)
    → IsSound n
    → lookup ip n.addr_map ≡ none
    → lookup ip n.map_status ≡ some status
    → IsPending status
entry_unknown n ip status h a s =
    subst (λ o. Entry o (some status)) a (subst (Entry (lookup ip n.addr_map)) s (h.entries ip))

sends_known :
    (n : NetworkInterface) (a : EthernetAddress) (payload : Option BufferList)
    → IsSound n
    → OnReturn IsSound (send_known n a payload)
sends_known n a none h = tt
sends_known n a (some payload) h = record {
  addresses_sorted = h.addresses_sorted;
  statuses_sorted = h.statuses_sorted;
  entries = h.entries;
  statuses = h.statuses;
  waiting = h.waiting;
}

sends_unknown :
    (n : NetworkInterface) (next_hop : ℕ) (dgram : Ipv4Datagram) (status : Option ℕ)
    → IsSound n
    → lookup next_hop n.addr_map ≡ none
    → lookup next_hop n.map_status ≡ status
    → OnReturn IsSound (send_unknown n next_hop dgram status)
unfolding send_unknown
sends_unknown n next_hop dgram none h a s =
    requested n next_hop dgram (ArpMessage.serialize (arp_request n next_hop)) h a s
sends_unknown n next_hop dgram (some status) h a s =
    let p = entry_unknown n next_hop status h a s in
    let e : is_negative status ≡ true = ground arith in rw e (staged n next_hop status dgram h s p)

sends_by :
    (n : NetworkInterface) (dgram : Ipv4Datagram) (next_hop : ℕ) (a : Option EthernetAddress)
    → IsSound n
    → lookup next_hop n.addr_map ≡ a
    → OnReturn IsSound (send_by n dgram next_hop a)
sends_by n dgram next_hop none h e =
    sends_unknown n next_hop dgram (lookup next_hop n.map_status) h e refl
sends_by n dgram next_hop (some a) h e = sends_known n a (Ipv4Datagram.serialize dgram) h

pub send_datagram-IsSound :
    (n : NetworkInterface) (dgram : Ipv4Datagram) (next_hop : ℕ)
    → IsSound n
    → OnReturn IsSound (send_datagram n dgram next_hop)
unfolding send_datagram
send_datagram-IsSound n dgram next_hop h =
    sends_by n dgram next_hop (lookup next_hop n.addr_map) h refl
