-- ===== src/StreamReassembler/Slices.antt =====
-- Pieces of a byte stream, the specification side of stream_reassembler.cc: `s i` is the byte at
-- index `i` of the stream that the peer sends.
use cs144_introduction_to_co.Prelude.{
  ℕ, zero, suc, ◌+◌, ◌-◌, ◌≤◌, ◌≡◌, refl, ap, arith, List, [], ◌∷◌, ◌++◌, length, take, drop, min,
}

abbrev pub slice : (ℕ → ℕ) → ℕ → ℕ → List ℕ
slice s i zero = []
slice s i (suc n) = s i ∷ slice s (suc i) n

module _ (s : ℕ → ℕ) where
  pub length-slice : (i n : ℕ) → length (slice s i n) ≡ n
  length-slice i zero = refl
  length-slice i (suc n) = ap suc (length-slice (suc i) n)

  -- Slices that meet make one slice.
  pub slice-append : (i j m n : ℕ) → j ≡ i + m → slice s i m ++ slice s j n ≡ slice s i (m + n)
  slice-append i j zero n e =
      let start : j ≡ i = omega arith in let size : 0 + n ≡ n = omega arith in rw (start, size)
  slice-append i j (suc m) n e =
      let size : suc m + n ≡ suc (m + n) = omega arith in
      rw size (ap (◌∷◌ (s i)) (slice-append (suc i) j m n (omega arith)))

  pub drop-slice : (i k n : ℕ) → k ≤ n → drop k (slice s i n) ≡ slice s (i + k) (n - k)
  drop-slice i zero n h =
      let start : i + 0 ≡ i = omega arith in let size : n - 0 ≡ n = omega arith in rw (start, size)
  drop-slice i (suc k) zero h = absurd (omega arith)
  drop-slice i (suc k) (suc n) h =
      let start : i + suc k ≡ suc i + k = omega arith in
      let size : suc n - suc k ≡ n - k = omega arith in
      rw (start, size) (drop-slice (suc i) k n (omega arith))

  pub take-slice : (i k n : ℕ) → take k (slice s i n) ≡ slice s i (min k n)
  take-slice i zero n = let size : min 0 n ≡ 0 = omega arith in rw size
  take-slice i (suc k) zero = let size : min (suc k) 0 ≡ 0 = omega arith in rw size
  take-slice i (suc k) (suc n) =
      let size : min (suc k) (suc n) ≡ suc (min k n) = omega arith in
      rw size (ap (◌∷◌ (s i)) (take-slice (suc i) k n))
