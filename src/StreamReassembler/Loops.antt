-- ===== src/StreamReassembler/Loops.antt =====
-- stream_reassembler.cc: the two merging loops of `push_substring`.
use cs144_introduction_to_co.Prelude.{
  ℕ, zero, suc, ◌≤◌, ◌<◌, ◌≡◌, refl, sym, ap, subst, ◌∙◌, arith, List, [], ◌∷◌, ◌++◌, length, inl,
  inr, dec_le, All, length-append, append_assoc,
}
use cs144_introduction_to_co.StreamReassembler.{
  BlockNode, Merging, absorb, lower_bound, split_last, merge_block, merge_next, merge_prev,
}
use cs144_introduction_to_co.StreamReassembler.Merge.{end_of, Joins, Refuses, merge_block_lem}
use cs144_introduction_to_co.StreamReassembler.Blocks.{
  bound, bound-append, Above, Above-below, Above-mono, Above-right, Cut, lower_bound-Cut,
  lower_bound-append, split_last_lem,
}
use cs144_introduction_to_co.StreamReassembler.Rounds.{
  IsSound, Keeps, Keeps-refl, Keeps-trans, absorb-IsSound, absorb-Keeps,
}

module _ (s : ℕ → ℕ) (lo extra : ℕ) where
  -- Where a loop ends: the state is sound, holds the same bytes, and there is a gap after `elm`.
  pub record EndsNext (m n : Merging) : Type 0 where
    pub sound : IsSound s lo extra n
    pub keeps : Keeps s lo extra m n
    pub gap_after : Above s (suc (end_of n.elm)) (lower_bound n.elm n.blocks).1

  cut :
      (m : Merging)
      → IsSound s lo extra m
      → (xs ys : List BlockNode) → lower_bound m.elm m.blocks ≡ (xs, ys)
      → Cut s m.elm m.blocks xs ys
  cut m snd xs ys e = let c = lower_bound-Cut s m.elm lo m.blocks snd.sorted in rw e at c

  no_blocks :
      (elm : BlockNode) (hi : ℕ) (bs : List BlockNode)
      → length bs ≤ 0
      → Above s hi (lower_bound elm bs).1
  unfolding lower_bound
  no_blocks elm hi [] h = tt
  no_blocks elm hi (b ∷ bs) h = absurd (omega arith)

  next_case :
      (fuel : ℕ) (m : Merging) (xs ys : List BlockNode)
      → IsSound s lo extra m
      → length m.blocks ≤ suc fuel
      → lower_bound m.elm m.blocks ≡ (xs, ys)
      → ((n : Merging)
          → IsSound s lo extra n
          → length n.blocks ≤ fuel
          → EndsNext n (merge_next fuel n))
      → EndsNext m (merge_next (suc fuel) m)
  unfolding merge_next
  next_case fuel m xs [] snd h e ih =
      rw e (record { sound = snd; keeps = Keeps-refl s lo extra m; gap_after = rw e tt })
  next_case fuel m xs (b ∷ ys) snd h e ih =
      let c = cut m snd xs (b ∷ ys) e in
      let right = c.from in
      elim (merge_block_lem s m.elm b snd.piece right.1) [
        | inl r ↦
            rw (e, r.refused)
              (record {
                sound = snd;
                keeps = Keeps-refl s lo extra m;
                gap_after = rw e (ground (arith, r.apart, right.0), right.1, right.2);
              })
        | inr j ↦
            let step = absorb-Keeps s lo extra m xs b ys snd c.whole j in
            let rest =
              ih (absorb m (merge_block m.elm b).1 (xs ++ ys) (merge_block m.elm b).0)
                (absorb-IsSound s lo extra m xs b ys snd c.whole j)
                (omega
                  (arith, ap length c.whole, length-append xs (b ∷ ys), length-append xs ys)) in
            rw (e, j.happened)
              (record {
                sound = rest.sound;
                keeps = Keeps-trans s lo extra step rest.keeps;
                gap_after = rest.gap_after;
              })
      ]

  pub merge_next-Ends :
      (fuel : ℕ) (m : Merging)
      → IsSound s lo extra m
      → length m.blocks ≤ fuel
      → EndsNext m (merge_next fuel m)
  unfolding merge_next
  merge_next-Ends zero m snd h = record {
    sound = snd;
    keeps = Keeps-refl s lo extra m;
    gap_after = no_blocks m.elm (suc (end_of m.elm)) m.blocks h;
  }
  merge_next-Ends (suc fuel) m snd h =
      next_case fuel m (lower_bound m.elm m.blocks).0 (lower_bound m.elm m.blocks).1 snd h refl
        (merge_next-Ends fuel)

  -- Where the second loop ends: a gap on both sides.
  pub record EndsPrev (m n : Merging) : Type 0 where
    pub sound : IsSound s lo extra n
    pub keeps : Keeps s lo extra m n
    pub gap_after : Above s (suc (end_of n.elm)) (lower_bound n.elm n.blocks).1
    pub gap_before : bound lo (lower_bound n.elm n.blocks).0 ≤ n.elm.begin

  no_blocks_before :
      (elm : BlockNode) (bs : List BlockNode)
      → length bs ≤ 0
      → lo ≤ elm.begin
      → bound lo (lower_bound elm bs).0 ≤ elm.begin
  unfolding lower_bound
  no_blocks_before elm [] h low = low
  no_blocks_before elm (b ∷ bs) h low = absurd (omega arith)

  All-last :
      (P : BlockNode → Type 0) (xs : List BlockNode) (b : BlockNode) → All P (xs ++ b ∷ []) → P b
  All-last P [] b h = h.0
  All-last P (x ∷ xs) b h = All-last P xs b h.1

  -- One round at the block `last`, the last one that begins before `elm`.
  module _ (m : Merging) (front : List BlockNode) (last : BlockNode) (ys : List BlockNode)
      (snd : IsSound s lo extra m) (c : Cut s m.elm m.blocks (front ++ last ∷ []) ys)
      (after : Above s (suc (end_of m.elm)) ys) where
    whole : front ++ last ∷ ys ≡ m.blocks
    whole = sym (append_assoc front (last ∷ []) ys) ∙ c.whole

    parts : Above s lo (front ++ last ∷ ys)
    parts = rw whole snd.sorted

    at_last : Above s (bound lo front) (last ∷ ys)
    at_last = Above-right s lo front (last ∷ ys) parts

    earlier : last.begin < m.elm.begin
    earlier = All-last (λ b. b.begin < m.elm.begin) front last c.below

    before_refused :
        Refuses m.elm last (merge_block m.elm last) → bound lo (front ++ last ∷ []) ≤ m.elm.begin
    before_refused r = rw (bound-append lo front last) (ground (arith, r.apart, earlier))

    joined_after :
        (j : Joins s m.elm last (merge_block m.elm last))
        → Above s (suc (end_of (merge_block m.elm last).1)) ys
    joined_after j = elim (dec_le (end_of m.elm) (end_of last)) [
      | yes h ↦ Above-mono s _ (suc (end_of last)) ys (omega (arith, j.last)) at_last.2
      | no h ↦ Above-mono s _ (suc (end_of m.elm)) ys (omega (arith, j.last)) after
    ]

    joined_cut :
        (j : Joins s m.elm last (merge_block m.elm last))
        → lower_bound (merge_block m.elm last).1 (front ++ ys) ≡ (front, ys)
    joined_cut j =
        let e : (merge_block m.elm last).1.begin ≡ last.begin = omega (arith, j.first, earlier) in
        lower_bound-append s (merge_block m.elm last).1 front ys
          (rw e (Above-below s lo front last ys parts))
          (rw e (Above-mono s last.begin (suc (end_of last)) ys (omega arith) at_last.2))

  prev_case :
      (fuel : ℕ) (m : Merging) (xs ys : List BlockNode)
      → IsSound s lo extra m
      → length m.blocks ≤ suc fuel
      → lower_bound m.elm m.blocks ≡ (xs, ys)
      → Above s (suc (end_of m.elm)) ys
      → ((n : Merging)
          → IsSound s lo extra n
          → length n.blocks ≤ fuel
          → Above s (suc (end_of n.elm)) (lower_bound n.elm n.blocks).1
          → EndsPrev n (merge_prev fuel n))
      → EndsPrev m (merge_prev (suc fuel) m)
  unfolding merge_prev
  prev_case fuel m [] ys snd h e after ih = rw e (record {
    sound = snd;
    keeps = Keeps-refl s lo extra m;
    gap_after = rw e after;
    gap_before = rw e snd.low;
  })
  prev_case fuel m (b ∷ bs) ys snd h e after ih =
      let front = (split_last b bs).0 in
      let last = (split_last b bs).1 in
      let c : Cut s m.elm m.blocks (front ++ last ∷ []) ys =
        rw (split_last_lem b bs) (cut m snd (b ∷ bs) ys e) in
      let w = whole m front last ys snd c after in
      elim (merge_block_lem s m.elm last snd.piece (at_last m front last ys snd c after).1) [
        | inl r ↦
            rw (e, r.refused)
              (record {
                sound = snd;
                keeps = Keeps-refl s lo extra m;
                gap_after = rw e after;
                gap_before = rw e (
                    subst (λ bs'. bound lo bs' ≤ m.elm.begin) (split_last_lem b bs)
                      (before_refused m front last ys snd c after r));
              })
        | inr j ↦
            let rest =
              ih (absorb m (merge_block m.elm last).1 (front ++ ys) (merge_block m.elm last).0)
                (absorb-IsSound s lo extra m front last ys snd w j)
                (omega
                  (arith, ap length w, length-append front (last ∷ ys), length-append front ys))
                (rw (joined_cut m front last ys snd c after j)
                  (joined_after m front last ys snd c after j)) in
            rw (e, j.happened)
              (record {
                sound = rest.sound;
                keeps =
                    Keeps-trans s lo extra (absorb-Keeps s lo extra m front last ys snd w j)
                      rest.keeps;
                gap_after = rest.gap_after;
                gap_before = rest.gap_before;
              })
      ]

  pub merge_prev-Ends :
      (fuel : ℕ) (m : Merging)
      → IsSound s lo extra m
      → length m.blocks ≤ fuel
      → Above s (suc (end_of m.elm)) (lower_bound m.elm m.blocks).1
      → EndsPrev m (merge_prev fuel m)
  unfolding merge_prev
  merge_prev-Ends zero m snd h after = record {
    sound = snd;
    keeps = Keeps-refl s lo extra m;
    gap_after = after;
    gap_before = no_blocks_before m.elm m.blocks h snd.low;
  }
  merge_prev-Ends (suc fuel) m snd h after =
      prev_case fuel m (lower_bound m.elm m.blocks).0 (lower_bound m.elm m.blocks).1 snd h refl
        after (merge_prev-Ends fuel)
