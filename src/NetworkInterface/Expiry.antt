-- ===== src/NetworkInterface/Expiry.antt =====
-- network_interface.cc: the loop of `tick` over the statuses.
use cs144_introduction_to_co.Prelude.{
  ℕ, zero, suc, ◌+◌, ◌-◌, ◌^◌, ◌≤◌, ◌<◌, ◌≡◌, ◌⊎◌, if◌then◌else◌, inl, inr, refl, arith, true,
  false, Option, none, some, List, [], ◌∷◌, ◌==◌, Bool-cases, All, get_elem?,
}
use cs144_introduction_to_co.Prelude.Maps.{lookup, erase, IsSorted, Above, lookup-Above}
use cs144_introduction_to_co.EthernetHeader.{EthernetAddress}
use cs144_introduction_to_co.NetworkInterface.{
  Outcome, tick_entries, keep_entry, aged, expires, is_negative,
}
use cs144_introduction_to_co.NetworkInterface.Sound.{IsPending, IsStatus}

-- A status that is `ms` older and has not expired: a mapping below thirty seconds, a request of at
-- most five.
abbrev pub Older : ℕ → Option ℕ → Option ℕ → Type 0
Older ms none none = Unit
Older ms none (some t) = ⊥
Older ms (some s) none = ⊥
Older ms (some s) (some t) =
    (s < 30000) × (t ≡ s + ms) × (t < 30000) ⊎ IsPending s × (t + ms ≡ s) × IsPending t

-- A status that expires within `ms`.
abbrev pub Expiring : ℕ → ℕ → Type 0
Expiring ms s = (s < 30000) × (30000 ≤ s + ms) ⊎ IsPending s × (s ≤ (2 ^ 32 - 5001) + ms)

-- What a tick of `ms` has done to the statuses `m` when it erases that of `ip`: it leaves those that
-- come later as they were.
pub record Erases (ms ip : ℕ) (m st : List (ℕ × ℕ)) : Type 0 where
  pub gone : lookup ip st ≡ none
  pub others : (k : ℕ) → (k ≡ ip) ⊎ Older ms (lookup k m) (lookup k st) ⊎ (lookup k st ≡ lookup k m)
  pub sorted : IsSorted st
  pub statuses : All (λ e. IsStatus e.1) st

-- What the loop over the statuses `m` may end with.
abbrev pub Ages :
    ℕ
    → List (ℕ × EthernetAddress)
    → List (ℕ × ℕ)
    → Outcome (List (ℕ × ℕ) × List (ℕ × EthernetAddress))
    → Type 0
Ages ms ad m (Outcome.returns (st, out)) =
    (out ≡ ad)
    × All (λ e. IsStatus e.1) st
    × ((j : ℕ) → Above j m → Above j st)
    × IsSorted st
    × ((ip : ℕ) → Older ms (lookup ip m) (lookup ip st))
Ages ms ad m Outcome.throws = ⊥
Ages ms ad m (Outcome.undefined (st, out)) =
    (i : ℕ) × (ip : ℕ) × (s : ℕ) × (get_elem? m i ≡ some (ip, s))
    × Expiring ms s
    × (lookup ip m ≡ some s)
    × (out ≡ (if is_negative s then ad else erase ip ad))
    × ((j : ℕ) → Above j m → (j < ip) × Above j st)
    × Erases ms ip m st

keeps :
    (ms : ℕ) (ad : List (ℕ × EthernetAddress)) (j s : ℕ) (m : List (ℕ × ℕ))
    (o : Outcome (List (ℕ × ℕ) × List (ℕ × EthernetAddress)))
    → Older ms (some s) (some (aged ms s))
    → IsStatus (aged ms s)
    → Above j m
    → Ages ms ad m o
    → Ages ms ad ((j, s) ∷ m) (keep_entry (j, aged ms s) o)
keeps ms ad j s m (Outcome.returns (st, out)) old status low (e, g, up, sorted, h) = (
  e,
  (status, g),
  λ i (lt, a). (lt, up i a),
  (up j low, sorted),
  λ ip. elim (Bool-cases (ip == j)) [ inl q ↦ rw q old | inr q ↦ rw q (h ip) ],
)
keeps ms ad j s m Outcome.throws old status low h = h
keeps ms ad j s m (Outcome.undefined (st, out)) old status low (i, ip, t, g, x, at, o, up, d) =
    let (lt, above) = up j low in
    let later : (ip == j) ≡ false = ground arith in
    (
      suc i,
      ip,
      t,
      g,
      x,
      rw later at,
      o,
      λ k (l, a). ((up k a).0, (l, (up k a).1)),
      record {
        gone = rw later d.gone;
        others = λ k. elim (Bool-cases (k == j)) [
          | inl q ↦ rw q (inr (inl old))
          | inr q ↦ rw q (d.others k)
        ];
        sorted = (above, d.sorted);
        statuses = (status, d.statuses);
      },
    )

aged_lem :
    (ms s : ℕ)
    → ms < 2 ^ 30
    → IsStatus s
    → expires s (aged ms s) ≡ false
    → Older ms (some s) (some (aged ms s))
unfolding expires aged
aged_lem ms s h (inl f) e = inl (ground arith)
aged_lem ms s h (inr (lo, hi)) e = inr (ground arith)

expires_lem : (ms s : ℕ) → ms < 2 ^ 30 → IsStatus s → expires s (aged ms s) ≡ true → Expiring ms s
unfolding expires aged
expires_lem ms s h (inl f) e = inl (ground arith)
expires_lem ms s h (inr (lo, hi)) e = inr (ground arith)

Older-IsStatus : (ms s t : ℕ) → Older ms (some s) (some t) → IsStatus t
Older-IsStatus ms s t (inl (a, b, c)) = inl c
Older-IsStatus ms s t (inr (a, b, c)) = inr c

erases :
    (ms j s : ℕ) (m : List (ℕ × ℕ))
    → Above j m
    → IsSorted m
    → All (λ e. IsStatus e.1) m
    → Erases ms j ((j, s) ∷ m) m
erases ms j s m low sorted k = record {
  gone = lookup-Above j m low;
  others = λ i. elim (Bool-cases (i == j)) [
    | inl q ↦ inl (ground arith)
    | inr q ↦ inr (inr (rw q refl))
  ];
  sorted = sorted;
  statuses = k;
}

pub tick_entries-Ages :
    (ms : ℕ) (ad : List (ℕ × EthernetAddress)) (m : List (ℕ × ℕ))
    → ms < 2 ^ 30
    → IsSorted m
    → All (λ e. IsStatus e.1) m
    → Ages ms ad m (tick_entries ms ad m)
unfolding tick_entries
tick_entries-Ages ms ad [] h sorted k = (refl, tt, λ i a. tt, tt, λ ip. tt)
tick_entries-Ages ms ad ((j, s) ∷ m) h (low, sorted) (q, k) =
    let here : (j == j) ≡ true = ground arith in
    elim (Bool-cases (expires s (aged ms s))) [
      | inl e ↦ rw e (
        zero,
        j,
        s,
        refl,
        expires_lem ms s h q e,
        rw here refl,
        refl,
        λ i (l, a). (l, a),
        erases ms j s m low sorted k,
      )
      | inr e ↦
          let old = aged_lem ms s h q e in
          rw e (
            keeps ms ad j s m (tick_entries ms ad m) old (Older-IsStatus ms s (aged ms s) old) low
              (tick_entries-Ages ms ad m h sorted k))
    ]
