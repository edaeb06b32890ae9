-- ===== src/StreamReassembler/Rounds.antt =====
-- stream_reassembler.cc: the rounds of the merging loops.
use cs144_introduction_to_co.Prelude.{
  ℕ, ◌+◌, ◌%◌, ◌^◌, ◌≤◌, ◌<◌, ◌≡◌, refl, ap, ◌∙◌, arith, List, ◌∷◌, ◌++◌, length, length-append,
}
use cs144_introduction_to_co.StreamReassembler.{BlockNode, Merging, absorb, merge_block}
use cs144_introduction_to_co.StreamReassembler.Merge.{IsPiece, end_of, Joins}
use cs144_introduction_to_co.StreamReassembler.Blocks.{
  total, covers, Within, Within-append, Within-split, total-append, covers-append, le-bound, Above,
  Above-left, Above-right, erase-Above,
}

-- `extra` is what `_unassembled_byte` counts beside the bytes of the blocks.
module _ (s : ℕ → ℕ) (lo extra : ℕ) where
  -- The new block and the others are pieces of the stream from `lo` on, and their bytes are counted.
  pub record IsSound (m : Merging) : Type 0 where
    pub sorted : Above s lo m.blocks
    pub piece : IsPiece s m.elm
    pub low : lo ≤ m.elm.begin
    pub counted : m.unassembled < 2 ^ 64
    pub sum : (extra + m.elm.length + total m.blocks) % 2 ^ 64 ≡ m.unassembled

  -- What the loops keep of the blocks: the set of indices that they hold.
  pub record Keeps (m n : Merging) : Type 0 where
    pub same : (p : ℕ) → covers (n.elm ∷ n.blocks) p ≡ covers (m.elm ∷ m.blocks) p
    pub within : (w : ℕ) → Within w (m.elm ∷ m.blocks) → Within w (n.elm ∷ n.blocks)
    pub fewer : length n.blocks ≤ length m.blocks
    pub starts : n.elm.begin ≤ m.elm.begin
    pub ends : end_of m.elm ≤ end_of n.elm

  pub Keeps-refl : (m : Merging) → Keeps m m
  Keeps-refl m = record {
    same = λ p. refl;
    within = λ w h. h;
    fewer = omega arith;
    starts = omega arith;
    ends = omega arith;
  }

  pub Keeps-trans : {m n o : Merging} → Keeps m n → Keeps n o → Keeps m o
  Keeps-trans a b = record {
    same = λ p. b.same p ∙ a.same p;
    within = λ w h. b.within w (a.within w h);
    fewer = omega (arith, a.fewer, b.fewer);
    starts = omega (arith, a.starts, b.starts);
    ends = omega (arith, a.ends, b.ends);
  }

  -- One round: the block `b` of the set is merged into `elm` and erased.
  module _ (m : Merging) (xs : List BlockNode) (b : BlockNode) (ys : List BlockNode)
      (snd : IsSound m) (whole : xs ++ b ∷ ys ≡ m.blocks)
      (j : Joins s m.elm b (merge_block m.elm b)) where
    abbrev next : Merging
    next = absorb m (merge_block m.elm b).1 (xs ++ ys) (merge_block m.elm b).0

    parts : Above s lo (xs ++ b ∷ ys)
    parts = rw whole snd.sorted

    totals : total m.blocks ≡ total xs + (b.length + total ys)
    totals = rw (← whole) (total-append xs (b ∷ ys))

    above_lo : lo ≤ b.begin
    above_lo = omega (
      arith,
      (Above-right s lo xs (b ∷ ys) parts).0,
      le-bound s lo xs (Above-left s lo xs (b ∷ ys) parts),
    )

    pub absorb-IsSound : IsSound next
    absorb-IsSound = record {
      sorted = erase-Above s lo xs b ys parts;
      piece = j.piece;
      low = omega (arith, j.first, above_lo, snd.low);
      counted = omega arith;
      sum = omega (arith, j.saved, totals, total-append xs ys, snd.sum, snd.counted);
    }

    covers-round : (p : ℕ) → covers (next.elm ∷ next.blocks) p ≡ covers (m.elm ∷ m.blocks) p
    covers-round p =
        rw (← whole, covers-append xs (b ∷ ys) p, covers-append xs ys p)
          (ground (arith, j.first, j.last, j.meets, j.meets'))

    round-Within : (w : ℕ) → Within w (m.elm ∷ m.blocks) → Within w (next.elm ∷ next.blocks)
    round-Within w h =
        let (l, r) = Within-split w xs (b ∷ ys) (rw whole h.1) in
        (omega (arith, j.last, h.0, r.0), Within-append w xs ys l r.1)

    pub absorb-Keeps : Keeps m next
    absorb-Keeps = record {
      same = covers-round;
      within = round-Within;
      fewer = omega (arith, ap length whole, length-append xs (b ∷ ys), length-append xs ys);
      starts = omega (arith, j.first);
      ends = omega (arith, j.last);
    }
