-- ===== src/Prelude/Maps.antt =====
-- `std::map` with numbers as keys: a list of its entries in the order of the keys.
use Prim.Native.Nat.{ℕ, ◌<◌}
use mathlib.Core.Path.{◌≡◌, refl, subst}
use mathlib.Core.Bool.{false}
use mathlib.Core.Logic.{◌≢◌, inl, inr}
use mathlib.Core.List.{List, [], ◌∷◌}
use mathlib.Core.Option.{Option, none, some}
use native.Mathlib.Omega.{arith}
use cs144_introduction_to_co.Prelude.Tests.{ltb, ◌==◌, if◌then◌else◌, Bool-cases}
use cs144_introduction_to_co.Prelude.Lists.{All}

module _ {ℓ} {A : Type ℓ} where
  abbrev pub lookup : ℕ → List (ℕ × A) → Option A
  lookup k [] = none
  lookup k ((j, v) ∷ m) = if k == j then some v else lookup k m

  -- `m[k] = v`.
  abbrev pub assign : ℕ → A → List (ℕ × A) → List (ℕ × A)
  assign k v [] = (k, v) ∷ []
  assign k v ((j, w) ∷ m) =
      if k == j then (k, v) ∷ m else if ltb k j then (k, v) ∷ (j, w) ∷ m else (j, w) ∷ assign k v m

  abbrev pub erase : ℕ → List (ℕ × A) → List (ℕ × A)
  erase k [] = []
  erase k ((j, w) ∷ m) = if k == j then m else (j, w) ∷ erase k m

  pub lookup-assign_self : (k : ℕ) (v : A) (m : List (ℕ × A)) → lookup k (assign k v m) ≡ some v
  lookup-assign_self k v [] = ground arith
  lookup-assign_self k v ((j, w) ∷ m) = ground (arith, lookup-assign_self k v m)

  pub lookup-assign_other :
      (k i : ℕ) (v : A) (m : List (ℕ × A)) → i ≢ k → lookup i (assign k v m) ≡ lookup i m
  lookup-assign_other k i v [] h = ground arith
  lookup-assign_other k i v ((j, w) ∷ m) h = ground (arith, lookup-assign_other k i v m h)

  pub All-assign {κ} :
      (P : ℕ × A → Type κ) (k : ℕ) (v : A) (m : List (ℕ × A))
      → P (k, v)
      → All P m
      → All P (assign k v m)
  All-assign P k v [] p h = (p, tt)
  All-assign P k v ((j, w) ∷ m) p (q, h) = elim (Bool-cases (k == j)) [
    | inl e ↦ rw e (p, h)
    | inr e ↦ elim (Bool-cases (ltb k j)) [
      | inl l ↦ rw (e, l) (p, (q, h))
      | inr g ↦ rw (e, g) (q, All-assign P k v m p h)
    ]
  ]

  -- All keys are above `k`.
  abbrev pub Above : ℕ → List (ℕ × A) → Type 0
  Above k [] = Unit
  Above k ((j, v) ∷ m) = (k < j) × Above k m

  -- The entries stand in the order of their keys, each key once.
  abbrev pub IsSorted : List (ℕ × A) → Type 0
  IsSorted [] = Unit
  IsSorted ((j, v) ∷ m) = Above j m × IsSorted m

  Above-trans : (i k : ℕ) (m : List (ℕ × A)) → i < k → Above k m → Above i m
  Above-trans i k [] l h = tt
  Above-trans i k ((j, v) ∷ m) l (p, h) = (omega arith, Above-trans i k m l h)

  Above-assign : (i k : ℕ) (v : A) (m : List (ℕ × A)) → i < k → Above i m → Above i (assign k v m)
  Above-assign i k v [] l h = (l, tt)
  Above-assign i k v ((j, w) ∷ m) l (p, h) = elim (Bool-cases (k == j)) [
    | inl e ↦ rw e (l, h)
    | inr e ↦ elim (Bool-cases (ltb k j)) [
      | inl b ↦ rw (e, b) (l, (p, h))
      | inr b ↦ rw (e, b) (p, Above-assign i k v m l h)
    ]
  ]

  pub assign-IsSorted : (k : ℕ) (v : A) (m : List (ℕ × A)) → IsSorted m → IsSorted (assign k v m)
  assign-IsSorted k v [] h = (tt, tt)
  assign-IsSorted k v ((j, w) ∷ m) (p, h) = elim (Bool-cases (k == j)) [
    | inl e ↦ let same : j ≡ k = ground arith in rw e (subst (λ i. Above i m) same p, h)
    | inr e ↦ elim (Bool-cases (ltb k j)) [
      | inl b ↦ let lt : k < j = ground arith in rw (e, b) ((lt, Above-trans k j m lt p), (p, h))
      | inr b ↦ rw (e, b) (Above-assign j k v m (ground arith) p, assign-IsSorted k v m h)
    ]
  ]

  pub lookup-Above : (k : ℕ) (m : List (ℕ × A)) → Above k m → lookup k m ≡ none
  lookup-Above k [] h = refl
  lookup-Above k ((j, w) ∷ m) (p, h) =
      let e : (k == j) ≡ false = ground arith in rw e (lookup-Above k m h)

  pub lookup-erase_self : (k : ℕ) (m : List (ℕ × A)) → IsSorted m → lookup k (erase k m) ≡ none
  lookup-erase_self k [] h = refl
  lookup-erase_self k ((j, w) ∷ m) (p, h) = elim (Bool-cases (k == j)) [
    | inl e ↦
        let same : j ≡ k = ground arith in rw e (lookup-Above k m (subst (λ i. Above i m) same p))
    | inr e ↦ rw (e, e) (lookup-erase_self k m h)
  ]

  Above-erase : (i k : ℕ) (m : List (ℕ × A)) → Above i m → Above i (erase k m)
  Above-erase i k [] h = tt
  Above-erase i k ((j, w) ∷ m) (p, h) = elim (Bool-cases (k == j)) [
    | inl e ↦ rw e h
    | inr e ↦ rw e (p, Above-erase i k m h)
  ]

  pub erase-IsSorted : (k : ℕ) (m : List (ℕ × A)) → IsSorted m → IsSorted (erase k m)
  erase-IsSorted k [] h = tt
  erase-IsSorted k ((j, w) ∷ m) (p, h) = elim (Bool-cases (k == j)) [
    | inl e ↦ rw e h
    | inr e ↦ rw e (Above-erase j k m p, erase-IsSorted k m h)
  ]

  pub lookup-erase_other : (k i : ℕ) (m : List (ℕ × A)) → i ≢ k → lookup i (erase k m) ≡ lookup i m
  lookup-erase_other k i [] h = refl
  lookup-erase_other k i ((j, w) ∷ m) h = ground (arith, lookup-erase_other k i m h)
