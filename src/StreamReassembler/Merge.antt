-- ===== src/StreamReassembler/Merge.antt =====
-- stream_reassembler.cc: `merge_block` on two pieces of one stream.
use cs144_introduction_to_co.Prelude.{
  ℕ, ◌+◌, ◌-◌, ◌^◌, ◌≤◌, ◌<◌, ◌≡◌, refl, sym, ap, ◌∙◌, arith, ◌++◌, length, drop, min, max, true,
  false, ◌⊎◌, inl, inr, dec_lt, dec_le,
}
use cs144_introduction_to_co.StreamReassembler.{BlockNode, join, merge_block, is_nonneg, minus_one}
use cs144_introduction_to_co.StreamReassembler.Slices.{
  slice, slice-append, drop-slice, length-slice,
}

abbrev pub end_of : BlockNode → ℕ
end_of b = b.begin + b.length

-- The block holds the bytes of the stream at its place, below 2^63.
pub record IsPiece (s : ℕ → ℕ) (b : BlockNode) : Type 0 where
  pub content : b.bytes ≡ slice s b.begin b.length
  pub in_range : b.begin + b.length < 2 ^ 63

-- A merge that happened: the blocks overlap or touch, and the new block spans both.
pub record Joins (s : ℕ → ℕ) (a b : BlockNode) (r : ℕ × BlockNode) : Type 0 where
  pub happened : is_nonneg r.0 ≡ true
  pub meets : b.begin ≤ end_of a
  pub meets' : a.begin ≤ end_of b
  pub piece : IsPiece s r.1
  pub first : r.1.begin ≡ min a.begin b.begin
  pub last : end_of r.1 ≡ max (end_of a) (end_of b)
  pub saved : r.0 + r.1.length ≡ a.length + b.length

-- A merge that was refused: there is a gap between the blocks.
pub record Refuses (a b : BlockNode) (r : ℕ × BlockNode) : Type 0 where
  pub refused : is_nonneg r.0 ≡ false
  pub apart : (end_of a < b.begin) ⊎ (end_of b < a.begin)

module _ (s : ℕ → ℕ) where
  -- The bytes of two pieces that meet, the overlap left out of the second.
  join_content :
      (x y : BlockNode)
      → IsPiece s x
      → IsPiece s y
      → x.begin ≤ y.begin
      → y.begin ≤ end_of x
      → end_of x ≤ end_of y
      → x.bytes ++ drop (end_of x - y.begin) y.bytes
        ≡ slice s x.begin (x.length + (y.length - (end_of x - y.begin)))
  join_content x y p q le meet longer =
      rw (p.content, q.content, drop-slice s y.begin (end_of x - y.begin) y.length (omega arith))
        (slice-append s x.begin (y.begin + (end_of x - y.begin)) x.length
          (y.length - (end_of x - y.begin)) (omega arith))

  -- The block that `merge_block` builds of two that overlap or touch.
  spliced : BlockNode → BlockNode → BlockNode
  spliced x y =
      let bytes = x.bytes ++ drop (end_of x - y.begin) y.bytes in
      record { begin = x.begin; length = length bytes; bytes = bytes }

  length-spliced :
      (x y : BlockNode)
      → IsPiece s x
      → IsPiece s y
      → x.begin ≤ y.begin
      → y.begin ≤ end_of x
      → end_of x ≤ end_of y
      → (spliced x y).length ≡ x.length + (y.length - (end_of x - y.begin))
  unfolding spliced
  length-spliced x y p q le meet longer =
      ap length (join_content x y p q le meet longer)
      ∙ length-slice s x.begin (x.length + (y.length - (end_of x - y.begin)))

  spliced-Joins :
      (x y : BlockNode)
      → IsPiece s x
      → IsPiece s y
      → x.begin ≤ y.begin
      → y.begin ≤ end_of x
      → end_of x ≤ end_of y
      → Joins s x y (end_of x - y.begin, spliced x y)
  unfolding spliced
  spliced-Joins x y p q le meet longer =
      let n = length-spliced x y p q le meet longer in
      record {
        happened = ground (arith, p.in_range);
        meets = meet;
        meets' = omega arith;
        piece = record {
          content = join_content x y p q le meet longer ∙ ap (slice s x.begin) (sym n);
          in_range = omega (arith, n, q.in_range);
        };
        first = omega arith;
        last = omega (arith, n);
        saved = omega (arith, n);
      }

  join_lem :
      (elm x y : BlockNode)
      → IsPiece s x
      → IsPiece s y
      → x.begin ≤ y.begin
      → (end_of x < y.begin) × (join elm x y ≡ (minus_one, elm)) ⊎ Joins s x y (join elm x y)
  unfolding join spliced
  join_lem elm x y p q le = elim (dec_lt (end_of x) y.begin) [
    | yes gap ↦ inl (gap, ground arith)
    | no meet ↦ elim (dec_le (end_of y) (end_of x)) [
      | yes inside ↦
          let e : join elm x y ≡ (y.length, x) = ground (arith, p.in_range, q.in_range) in
          inr (
            rw e (record {
              happened = ground (arith, q.in_range);
              meets = omega arith;
              meets' = omega arith;
              piece = p;
              first = omega arith;
              last = omega arith;
              saved = omega arith;
            }))
      | no longer ↦
          let e : join elm x y ≡ (end_of x - y.begin, spliced x y) =
            ground (arith, p.in_range, q.in_range) in
          inr (rw e (spliced-Joins x y p q le (omega arith) (omega arith)))
    ]
  ]

  Joins-sym : {a b : BlockNode} {r : ℕ × BlockNode} → Joins s b a r → Joins s a b r
  Joins-sym j = record {
    happened = j.happened;
    meets = j.meets';
    meets' = j.meets;
    piece = j.piece;
    first = omega (arith, j.first);
    last = omega (arith, j.last);
    saved = omega (arith, j.saved);
  }

  -- `merge_block` refuses two pieces of the stream exactly when there is a gap between them; else it
  -- returns the number of bytes that they share, and leaves the piece that spans them both.
  pub merge_block_lem :
      (a b : BlockNode)
      → IsPiece s a
      → IsPiece s b
      → Refuses a b (merge_block a b) ⊎ Joins s a b (merge_block a b)
  unfolding merge_block
  merge_block_lem a b p q = elim (dec_lt b.begin a.begin) [
    | yes first ↦
        let e : merge_block a b ≡ join a b a = ground arith in
        elim (join_lem a b a q p (omega arith)) [
          | inl (gap, f) ↦ inl (rw (e, f) (record { refused = refl; apart = inr gap }))
          | inr j ↦ inr (rw e (Joins-sym j))
        ]
    | no last ↦
        let e : merge_block a b ≡ join a a b = ground arith in
        elim (join_lem a a b p q (omega arith)) [
          | inl (gap, f) ↦ inl (rw (e, f) (record { refused = refl; apart = inl gap }))
          | inr j ↦ inr (rw e j)
        ]
  ]
