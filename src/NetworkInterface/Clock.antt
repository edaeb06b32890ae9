-- ===== src/NetworkInterface/Clock.antt =====
-- network_interface.cc: what the passing of time does to the ARP cache.
use cs144_introduction_to_co.Prelude.{
  ℕ, ◌^◌, ◌<◌, ◌≡◌, ◌≢◌, ◌⊎◌, ◌∙◌, if◌then◌else◌, inl, inr, refl, ap, sym, subst, arith, true,
  Option, none, some, List, [], ◌∷◌, ◌==◌, Bool-cases, All, get_elem?,
}
use cs144_introduction_to_co.Prelude.Maps.{
  lookup, erase, IsSorted, lookup-erase_self, lookup-erase_other, erase-IsSorted,
}
use cs144_introduction_to_co.EthernetHeader.{EthernetAddress}
use cs144_introduction_to_co.NetworkInterface.{
  NetworkInterface, Outcome, send_stage_datagram, tick, tick_entries, stage_after, is_negative,
}
use cs144_introduction_to_co.NetworkInterface.Sound.{
  OnReturn, OnUndefined, Entry, Waits, IsSound, MapsAgree, send_staged_none,
}
use cs144_introduction_to_co.NetworkInterface.Expiry.{
  Older, Expiring, Erases, Ages, tick_entries-Ages,
}

still_pending : (ms : ℕ) (o p : Option ℕ) → Waits o → Older ms o p → Waits p
still_pending ms none p w h = absurd w
still_pending ms (some s) none w h = absurd h
still_pending ms (some s) (some t) (lo, hi) (inl (f, e, g)) = absurd (omega arith)
still_pending ms (some s) (some t) w (inr (a, b, c)) = c

still_waiting :
    (ms : ℕ) (m st : List (ℕ × ℕ)) {A : Type 0} (ds : List (ℕ × A))
    → ((ip : ℕ) → Older ms (lookup ip m) (lookup ip st))
    → All (λ (d : ℕ × A). Waits (lookup d.0 m)) ds
    → All (λ (d : ℕ × A). Waits (lookup d.0 st)) ds
still_waiting ms m st [] f h = tt
still_waiting ms m st (d ∷ ds) f (w, h) =
    (still_pending ms (lookup d.0 m) (lookup d.0 st) w (f d.0), still_waiting ms m st ds f h)

unmapped : (a : Option EthernetAddress) (s : ℕ) → is_negative s ≡ true → Entry a (some s) → a ≡ none
unmapped none s e h = refl
unmapped (some a) s e h = absurd (ground arith)

still_mapped :
    (ms : ℕ) (a : Option EthernetAddress) (s t : Option ℕ) → Entry a s → Older ms s t → Entry a t
still_mapped ms none none none e h = tt
still_mapped ms none none (some t) e h = absurd h
still_mapped ms none (some s) none e h = absurd h
still_mapped ms none (some s) (some t) (lo, hi) (inl (f, g, q)) = absurd (omega arith)
still_mapped ms none (some s) (some t) e (inr (p, g, q)) = q
still_mapped ms (some a) none t e h = absurd e
still_mapped ms (some a) (some s) none e h = absurd h
still_mapped ms (some a) (some s) (some t) e (inl (f, g, q)) = q
still_mapped ms (some a) (some s) (some t) e (inr ((lo, hi), g, q)) = absurd (omega arith)

-- The address goes with its status.
address_gone :
    (ad : List (ℕ × EthernetAddress)) (ip s : ℕ)
    → IsSorted ad
    → Entry (lookup ip ad) (some s)
    → lookup ip (if is_negative s then ad else erase ip ad) ≡ none
address_gone ad ip s sorted h = elim (Bool-cases (is_negative s)) [
  | inr e ↦ rw e (lookup-erase_self ip ad sorted)
  | inl e ↦ rw e (unmapped (lookup ip ad) s e h)
]

other_addresses :
    (ad : List (ℕ × EthernetAddress)) (ip s k : ℕ)
    → k ≢ ip
    → lookup k (if is_negative s then ad else erase ip ad) ≡ lookup k ad
other_addresses ad ip s k h = elim (Bool-cases (is_negative s)) [
  | inl e ↦ rw e refl
  | inr e ↦ rw e (lookup-erase_other ip k ad h)
]

remaining-IsSorted :
    (ad : List (ℕ × EthernetAddress)) (ip s : ℕ)
    → IsSorted ad
    → IsSorted (if is_negative s then ad else erase ip ad)
remaining-IsSorted ad ip s h = elim (Bool-cases (is_negative s)) [
  | inl e ↦ rw e h
  | inr e ↦ rw e (erase-IsSorted ip ad h)
]

still_agrees :
    (ms ip k : ℕ) (n m : NetworkInterface)
    → IsSound n
    → k ≢ ip
    → lookup k m.addr_map ≡ lookup k n.addr_map
    → (k ≡ ip)
      ⊎ Older ms (lookup k n.map_status) (lookup k m.map_status)
      ⊎ (lookup k m.map_status ≡ lookup k n.map_status)
    → Entry (lookup k m.addr_map) (lookup k m.map_status)
still_agrees ms ip k n m h other a (inl e) = absurd (other e)
still_agrees ms ip k n m h other a (inr (inl old)) = rw a (
    still_mapped ms (lookup k n.addr_map) (lookup k n.map_status) (lookup k m.map_status)
      (h.entries k) old)
still_agrees ms ip k n m h other a (inr (inr same)) = rw (a, same) (h.entries k)

-- Where an entry expires, its status and its address are erased together, and the maps agree on the
-- rest.
erased-MapsAgree :
    (ms ip s : ℕ) (n m : NetworkInterface)
    → IsSound n
    → lookup ip n.map_status ≡ some s
    → m.addr_map ≡ (if is_negative s then n.addr_map else erase ip n.addr_map)
    → Erases ms ip n.map_status m.map_status
    → (lookup ip m.addr_map ≡ none) × MapsAgree m
erased-MapsAgree ms ip s n m h at o d =
    let gone : lookup ip m.addr_map ≡ none = rw o (
      address_gone n.addr_map ip s h.addresses_sorted
        (subst (Entry (lookup ip n.addr_map)) at (h.entries ip))) in
    let none_left : Entry (lookup ip m.addr_map) (lookup ip m.map_status) = rw (gone, d.gone) tt in
    (
      gone,
      record {
        addresses_sorted = rw o (remaining-IsSorted n.addr_map ip s h.addresses_sorted);
        statuses_sorted = d.sorted;
        entries = λ k. elim (Bool-cases (k == ip)) [
          | inl e ↦
              let same : ip ≡ k = ground arith in
              subst (λ i. Entry (lookup i m.addr_map) (lookup i m.map_status)) same none_left
          | inr e ↦
              let other : k ≢ ip = ground arith in
              still_agrees ms ip k n m h other
                (ap (lookup k) o ∙ other_addresses n.addr_map ip s k other) (d.others k)
        ];
        statuses = d.statuses;
      },
    )

-- What a tick of `ms` may end with: nothing but the ages has changed, and the state is sound again;
-- or some entry has expired, and the behaviour is undefined. Its status and its address were then
-- erased, every other status is older or still the same, and the two maps agree.
abbrev pub Ticks : NetworkInterface → ℕ → Outcome NetworkInterface → Type 0
Ticks n ms (Outcome.returns m) =
    (m ≡ record n { map_status = m.map_status })
    × ((ip : ℕ) → Older ms (lookup ip n.map_status) (lookup ip m.map_status))
    × IsSound m
Ticks n ms Outcome.throws = ⊥
Ticks n ms (Outcome.undefined m) =
    (i : ℕ) × (ip : ℕ) × (s : ℕ) × (get_elem? n.map_status i ≡ some (ip, s))
    × Expiring ms s
    × (m ≡ record n {
      map_status = m.map_status;
      addr_map = if is_negative s then n.addr_map else erase ip n.addr_map;
    })
    × Erases ms ip n.map_status m.map_status
    × (lookup ip m.addr_map ≡ none)
    × MapsAgree m

stages :
    (n : NetworkInterface) (ms : ℕ) (o : Outcome (List (ℕ × ℕ) × List (ℕ × EthernetAddress)))
    → IsSound n
    → Ages ms n.addr_map n.map_status o
    → Ticks n ms (stage_after n o)
unfolding send_stage_datagram
stages n ms (Outcome.returns (st, out)) h (e, g, up, sorted, f) =
    let m : NetworkInterface = record n { map_status = st; addr_map = out } in
    let w = still_waiting ms n.map_status st n.dgram_stage f h.waiting in
    let same : m ≡ record n { map_status = st } =
      ap (λ a. record n { map_status = st; addr_map = a }) e in
    subst (Ticks n ms) (sym (send_staged_none m [] n.dgram_stage w)) (
      same,
      f,
      record {
        addresses_sorted = rw e h.addresses_sorted;
        statuses_sorted = sorted;
        entries = λ ip. rw e (
            still_mapped ms (lookup ip n.addr_map) (lookup ip n.map_status) (lookup ip st)
              (h.entries ip) (f ip));
        statuses = g;
        waiting = w;
      },
    )
stages n ms Outcome.throws h k = k
stages n ms (Outcome.undefined (st, out)) h (i, ip, s, g, x, at, o, up, d) =
    let m : NetworkInterface = record n { map_status = st; addr_map = out } in
    let (gone, agrees) = erased-MapsAgree ms ip s n m h at o d in
    (i, ip, s, g, x, ap (λ a. record n { map_status = st; addr_map = a }) o, d, gone, agrees)

-- Time passes over an interface whose maps agree, by less than 2^30 milliseconds at once: either it
-- does nothing but add to the age of every mapping and request, none of which expires, and the
-- maps agree again; or some entry of the map has expired, and the call ends in undefined behaviour,
-- with the status and the address of that entry erased, every other status older or still the same,
-- and the two maps in agreement. It never throws and sends nothing.
pub tick_lem : (n : NetworkInterface) (ms : ℕ) → IsSound n → ms < 2 ^ 30 → Ticks n ms (tick n ms)
unfolding tick
tick_lem n ms h k =
    stages n ms (tick_entries ms n.addr_map n.map_status) h
      (tick_entries-Ages ms n.addr_map n.map_status k h.statuses_sorted h.statuses)

no_age : (ms s : ℕ) (t : Option ℕ) → Expiring ms s → Older ms (some s) t → ⊥
no_age ms s none x h = h
no_age ms s (some t) (inl (a, b)) (inl (c, d, e)) = omega arith
no_age ms s (some t) (inl (a, b)) (inr ((c, d), e, f)) = omega arith
no_age ms s (some t) (inr ((a, b), c)) (inl (d, e, f)) = omega arith
no_age ms s (some t) (inr ((a, b), c)) (inr ((d, e), f, (g, i))) = omega arith

undefined_by :
    (n : NetworkInterface) (ms ip s : ℕ) (o : Outcome NetworkInterface)
    → lookup ip n.map_status ≡ some s
    → Expiring ms s
    → Ticks n ms o
    → (m : NetworkInterface) × (o ≡ Outcome.undefined m)
undefined_by n ms ip s (Outcome.returns m) e x (same, f, g) = absurd (
    no_age ms s (lookup ip m.map_status) x
      (subst (λ t. Older ms t (lookup ip m.map_status)) e (f ip)))
undefined_by n ms ip s Outcome.throws e x h = absurd h
undefined_by n ms ip s (Outcome.undefined m) e x h = (m, refl)

-- Whenever a mapping becomes thirty seconds old or a request more than five, the tick erases the
-- entry under the iterator of its loop, and the behaviour is undefined.
pub tick_expired :
    (n : NetworkInterface) (ms ip s : ℕ)
    → IsSound n
    → ms < 2 ^ 30
    → lookup ip n.map_status ≡ some s
    → Expiring ms s
    → (m : NetworkInterface) × (tick n ms ≡ Outcome.undefined m)
tick_expired n ms ip s h k e x = undefined_by n ms ip s (tick n ms) e x (tick_lem n ms h k)

by_outcome :
    (n : NetworkInterface) (ms : ℕ) (o : Outcome NetworkInterface)
    → Ticks n ms o
    → OnReturn IsSound o
by_outcome n ms (Outcome.returns m) (e, f, h) = h
by_outcome n ms Outcome.throws h = tt
by_outcome n ms (Outcome.undefined m) h = tt

agrees_by :
    (n : NetworkInterface) (ms : ℕ) (o : Outcome NetworkInterface)
    → Ticks n ms o
    → OnUndefined MapsAgree o
agrees_by n ms (Outcome.returns m) h = tt
agrees_by n ms Outcome.throws h = tt
agrees_by n ms (Outcome.undefined m) (i, ip, s, g, x, same, d, gone, agrees) = agrees

pub tick-MapsAgree :
    (n : NetworkInterface) (ms : ℕ) → IsSound n → ms < 2 ^ 30 → OnUndefined MapsAgree (tick n ms)
tick-MapsAgree n ms h k = agrees_by n ms (tick n ms) (tick_lem n ms h k)

pub tick-IsSound :
    (n : NetworkInterface) (ms : ℕ) → IsSound n → ms < 2 ^ 30 → OnReturn IsSound (tick n ms)
tick-IsSound n ms h k = by_outcome n ms (tick n ms) (tick_lem n ms h k)
