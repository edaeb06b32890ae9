-- ===== src/StreamReassembler/Blocks.antt =====
-- stream_reassembler.cc: the set of blocks.
use cs144_introduction_to_co.Prelude.{
  ℕ, suc, ◌+◌, ◌≤◌, ◌<◌, ◌≡◌, refl, ap, arith, List, [], ◌∷◌, ◌++◌, Bool, true, false, ◌&&◌, ◌||◌,
  dec_lt, ltb, leb, All,
}
use cs144_introduction_to_co.StreamReassembler.{BlockNode, lower_bound, split_last, insert}
use cs144_introduction_to_co.StreamReassembler.Merge.{IsPiece, end_of}

-- The number of bytes in the blocks.
abbrev pub total : List BlockNode → ℕ
total [] = 0
total (b ∷ bs) = b.length + total bs

-- Whether some block holds the byte at index `p`.
abbrev pub holds : BlockNode → ℕ → Bool
holds b p = leb b.begin p && ltb p (end_of b)

abbrev pub covers : List BlockNode → ℕ → Bool
covers [] p = false
covers (b ∷ bs) p = holds b p || covers bs p

pub total-append : (xs ys : List BlockNode) → total (xs ++ ys) ≡ total xs + total ys
total-append [] ys = omega arith
total-append (b ∷ xs) ys = omega (arith, total-append xs ys)

pub covers-append :
    (xs ys : List BlockNode) (p : ℕ) → covers (xs ++ ys) p ≡ (covers xs p || covers ys p)
covers-append [] ys p = refl
covers-append (b ∷ xs) ys p = ground (arith, covers-append xs ys p)

-- No block reaches beyond the index `w`.
abbrev pub Within : ℕ → List BlockNode → Type 0
Within w [] = Unit {0}
Within w (b ∷ bs) = (end_of b ≤ w) × Within w bs

pub Within-append :
    (w : ℕ) (xs ys : List BlockNode) → Within w xs → Within w ys → Within w (xs ++ ys)
Within-append w [] ys h k = k
Within-append w (b ∷ xs) ys h k = (h.0, Within-append w xs ys h.1 k)

pub Within-split :
    (w : ℕ) (xs ys : List BlockNode) → Within w (xs ++ ys) → Within w xs × Within w ys
Within-split w [] ys h = (tt, h)
Within-split w (b ∷ xs) ys h = let (l, r) = Within-split w xs ys h.1 in ((h.0, l), r)

-- The least index at which a block may begin after the blocks of a list.
abbrev pub bound : ℕ → List BlockNode → ℕ
bound lo [] = lo
bound lo (b ∷ bs) = bound (suc (end_of b)) bs

pub bound-append :
    (lo : ℕ) (xs : List BlockNode) (b : BlockNode) → bound lo (xs ++ b ∷ []) ≡ suc (end_of b)
bound-append lo [] b = refl
bound-append lo (x ∷ xs) b = bound-append (suc (end_of x)) xs b

module _ (s : ℕ → ℕ) where
  -- Pieces of the stream from `lo` on, in order, with a gap between any two.
  abbrev pub Above : ℕ → List BlockNode → Type 0
  Above lo [] = Unit {0}
  Above lo (b ∷ bs) = (lo ≤ b.begin) × IsPiece s b × Above (suc (end_of b)) bs

  pub Above-mono : (lo hi : ℕ) (bs : List BlockNode) → lo ≤ hi → Above hi bs → Above lo bs
  Above-mono lo hi [] h a = tt
  Above-mono lo hi (b ∷ bs) h a = (omega (arith, a.0), a.1, a.2)

  pub Above-append :
      (lo : ℕ) (xs ys : List BlockNode) → Above lo xs → Above (bound lo xs) ys → Above lo (xs ++ ys)
  Above-append lo [] ys a c = c
  Above-append lo (b ∷ xs) ys a c = (a.0, a.1, Above-append (suc (end_of b)) xs ys a.2 c)

  pub Above-left : (lo : ℕ) (xs ys : List BlockNode) → Above lo (xs ++ ys) → Above lo xs
  Above-left lo [] ys a = tt
  Above-left lo (b ∷ xs) ys a = (a.0, a.1, Above-left (suc (end_of b)) xs ys a.2)

  pub Above-right : (lo : ℕ) (xs ys : List BlockNode) → Above lo (xs ++ ys) → Above (bound lo xs) ys
  Above-right lo [] ys a = a
  Above-right lo (b ∷ xs) ys a = Above-right (suc (end_of b)) xs ys a.2

  -- The bound only moves up along sorted blocks.
  pub le-bound : (lo : ℕ) (xs : List BlockNode) → Above lo xs → lo ≤ bound lo xs
  le-bound lo [] a = omega arith
  le-bound lo (b ∷ xs) a = omega (arith, a.0, le-bound (suc (end_of b)) xs a.2)

  -- Erasing a block leaves the others sorted.
  pub erase-Above :
      (lo : ℕ) (xs : List BlockNode) (b : BlockNode) (ys : List BlockNode)
      → Above lo (xs ++ b ∷ ys)
      → Above lo (xs ++ ys)
  erase-Above lo [] b ys a = Above-mono lo (suc (end_of b)) ys (omega (arith, a.0)) a.2
  erase-Above lo (x ∷ xs) b ys a = (a.0, a.1, erase-Above (suc (end_of x)) xs b ys a.2)

  -- Blocks beyond an index do not hold it.
  pub Above-covers : (p : ℕ) (bs : List BlockNode) → Above (suc p) bs → covers bs p ≡ false
  Above-covers p [] a = refl
  Above-covers p (b ∷ bs) a = ground (
    arith,
    a.0,
    Above-covers p bs (Above-mono (suc p) (suc (end_of b)) bs (omega (arith, a.0)) a.2),
  )

  -- Every block before one of the set begins before it.
  pub Above-below :
      (lo : ℕ) (xs : List BlockNode) (b : BlockNode) (ys : List BlockNode)
      → Above lo (xs ++ b ∷ ys)
      → All (λ c. c.begin < b.begin) xs
  Above-below lo [] b ys a = tt
  Above-below lo (x ∷ xs) b ys a = (
    omega (
      arith,
      (Above-right (suc (end_of x)) xs (b ∷ ys) a.2).0,
      le-bound (suc (end_of x)) xs (Above-left (suc (end_of x)) xs (b ∷ ys) a.2),
    ),
    Above-below (suc (end_of x)) xs b ys a.2,
  )

  -- What `lower_bound` finds: the set cut at `elm`.
  pub record Cut (elm : BlockNode) (bs xs ys : List BlockNode) : Type 0 where
    pub whole : xs ++ ys ≡ bs
    pub below : All (λ b. b.begin < elm.begin) xs
    pub from : Above elm.begin ys

  pub lower_bound-Cut :
      (elm : BlockNode) (lo : ℕ) (bs : List BlockNode)
      → Above lo bs
      → let (xs, ys) = lower_bound elm bs in Cut elm bs xs ys
  unfolding lower_bound
  lower_bound-Cut elm lo [] a = record { whole = refl; below = tt; from = tt }
  lower_bound-Cut elm lo (b ∷ bs) a =
      let c = lower_bound-Cut elm (suc (end_of b)) bs a.2 in
      elim (dec_lt b.begin elm.begin) [
        | yes h ↦
            let e : ltb b.begin elm.begin ≡ true = ground arith in
            rw e (record { whole = ap (◌∷◌ b) c.whole; below = (h, c.below); from = c.from })
        | no h ↦
            let e : ltb b.begin elm.begin ≡ false = ground arith in
            rw e (record { whole = refl; below = tt; from = (omega arith, a.1, a.2) })
      ]

  pub lower_bound-append :
      (elm : BlockNode) (xs ys : List BlockNode)
      → All (λ b. b.begin < elm.begin) xs
      → Above elm.begin ys
      → lower_bound elm (xs ++ ys) ≡ (xs, ys)
  unfolding lower_bound
  lower_bound-append elm [] [] h a = refl
  lower_bound-append elm [] (y ∷ ys) h a = ground (arith, a.0)
  lower_bound-append elm (x ∷ xs) ys h a = ground (arith, lower_bound-append elm xs ys h.1 a, h.0)

  -- A block goes between those that begin before it and those that begin after it.
  pub insert-append :
      (elm : BlockNode) (xs ys : List BlockNode)
      → All (λ b. b.begin < elm.begin) xs
      → Above (suc elm.begin) ys
      → insert elm (xs ++ ys) ≡ xs ++ elm ∷ ys
  unfolding insert
  insert-append elm [] [] h a = refl
  insert-append elm [] (y ∷ ys) h a = ground (arith, a.0)
  insert-append elm (x ∷ xs) ys h a = ground (arith, insert-append elm xs ys h.1 a, h.0)

pub split_last_lem :
    (b : BlockNode) (bs : List BlockNode)
    → let (front, last) = split_last b bs in front ++ last ∷ [] ≡ b ∷ bs
unfolding split_last
split_last_lem b [] = refl
split_last_lem b (c ∷ cs) = ap (◌∷◌ b) (split_last_lem c cs)
