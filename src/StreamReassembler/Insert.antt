-- ===== src/StreamReassembler/Insert.antt =====
-- stream_reassembler.cc: a substring merged into the set of blocks.
use cs144_introduction_to_co.Prelude.{
  ℕ, suc, ◌+◌, ◌-◌, ◌%◌, ◌^◌, ◌≤◌, ◌<◌, ◌≡◌, refl, ap, ◌∙◌, arith, List, ◌∷◌, length, drop, max,
  dec_lt, length-drop,
}
use cs144_introduction_to_co.Prelude.Words.{add64}
use cs144_introduction_to_co.StreamReassembler.{
  StreamReassembler, BlockNode, Merging, insert, merge_next, merge_prev, merge_substring, clip,
}
use cs144_introduction_to_co.StreamReassembler.Slices.{slice, drop-slice}
use cs144_introduction_to_co.StreamReassembler.Merge.{IsPiece, end_of}
use cs144_introduction_to_co.StreamReassembler.Blocks.{
  total, covers, Within, Within-append, Within-split, total-append, covers-append, bound, Above,
  Above-mono, Above-left, Above-append, Cut, lower_bound-Cut, insert-append,
}
use cs144_introduction_to_co.StreamReassembler.Rounds.{IsSound}
use cs144_introduction_to_co.StreamReassembler.Loops.{
  EndsNext, EndsPrev, merge_next-Ends, merge_prev-Ends,
}

module _ (s : ℕ → ℕ) where
  clip_content :
      (head index : ℕ) (bytes : List ℕ)
      → bytes ≡ slice s index (length bytes)
      → index ≤ head
      → head ≤ index + length bytes
      → drop (head - index) bytes ≡ slice s head (length (drop (head - index) bytes))
  clip_content head index bytes e h k =
      let start : index + (head - index) ≡ head = omega arith in
      let size : length bytes - (head - index) ≡ length (drop (head - index) bytes) =
        omega (arith, length-drop (head - index) bytes) in
      ap (drop (head - index)) e
      ∙ (drop-slice s index (head - index) (length bytes) (omega arith)
          ∙ (rw start (ap (slice s head) size)))

  -- The part of a piece of data from the head on is a piece.
  pub clip-IsPiece :
      (head : ℕ) (bytes : List ℕ) (index : ℕ)
      → bytes ≡ slice s index (length bytes)
      → index + length bytes < 2 ^ 63
      → head < index + length bytes
      → let elm = clip head bytes index in
        IsPiece s elm × (elm.begin ≡ max head index) × (end_of elm ≡ index + length bytes)
  unfolding clip
  clip-IsPiece head bytes index e h inside = elim (dec_lt index head) [
    | yes before ↦
        let n = length-drop (head - index) bytes in
        let c : clip head bytes index ≡ record {
          begin = head;
          length = length (drop (head - index) bytes);
          bytes = drop (head - index) bytes;
        } =
          ground arith in
        rw c (
          record {
            content = clip_content head index bytes e (omega arith) (omega arith);
            in_range = omega (arith, n);
          },
          omega arith,
          omega (arith, n),
        )
    | no from ↦
        let c : clip head bytes index
            ≡ record { begin = index; length = length bytes; bytes = bytes } =
          ground arith in
        rw c (record { content = e; in_range = h }, omega arith, omega arith)
  ]

  -- The set after `insert`: sorted, and with the bytes of the new block.
  record Inserted (lo : ℕ) (elm : BlockNode) (bs cs : List BlockNode) : Type 0 where
    pub sorted : Above s lo cs
    pub sum : total cs ≡ elm.length + total bs
    pub same : (p : ℕ) → covers cs p ≡ covers (elm ∷ bs) p
    pub within : (w : ℕ) → Within w (elm ∷ bs) → Within w cs

  insert-Inserted :
      (lo : ℕ) (elm : BlockNode) (bs xs ys : List BlockNode)
      → IsPiece s elm
      → Above s lo bs
      → Cut s elm bs xs ys
      → Above s (suc (end_of elm)) ys
      → bound lo xs ≤ elm.begin
      → Inserted lo elm bs (insert elm bs)
  insert-Inserted lo elm bs xs ys p a c after before =
      rw
        (
          ← c.whole,
          insert-append s elm xs ys c.below
              (Above-mono s (suc elm.begin) (suc (end_of elm)) ys (omega arith) after),
        )
        (record {
          sorted =
              Above-append s lo xs (elm ∷ ys) (Above-left s lo xs ys (rw c.whole a))
                (before, p, after);
          sum = omega (arith, total-append xs (elm ∷ ys), total-append xs ys);
          same = λ q. rw (covers-append xs (elm ∷ ys) q, covers-append xs ys q) (ground arith);
          within = λ w h.
              let (l, u) = Within-split w xs ys h.1 in Within-append w xs (elm ∷ ys) l (h.0, u);
        })

  -- What `push_substring` has merged before it writes to the output.
  pub record Merged (lo extra : ℕ) (elm : BlockNode) (r r' : StreamReassembler) : Type 0 where
    pub sorted : Above s lo r'.blocks
    pub same : (p : ℕ) → covers r'.blocks p ≡ covers (elm ∷ r.blocks) p
    pub within : (w : ℕ) → Within w (elm ∷ r.blocks) → Within w r'.blocks
    pub word : r'.unassembled_byte < 2 ^ 64
    pub sum : (extra + total r'.blocks) % 2 ^ 64 ≡ r'.unassembled_byte
    pub output : r'.output ≡ r.output
    pub head : r'.head_index ≡ r.head_index
    pub capacity : r'.capacity ≡ r.capacity
    pub eof_flag : r'.eof_flag ≡ r.eof_flag

  pub merge_substring-Merged :
      (lo extra : ℕ) (elm : BlockNode) (r : StreamReassembler)
      → IsPiece s elm
      → lo ≤ elm.begin
      → Above s lo r.blocks
      → (extra + total r.blocks) % 2 ^ 64 ≡ r.unassembled_byte
      → Merged lo extra elm r (merge_substring elm r)
  unfolding merge_substring
  merge_substring-Merged lo extra elm r p low a sum = record {
    sorted = i.sorted;
    same = λ q. i.same q ∙ (f.keeps.same q ∙ n.keeps.same q);
    within = λ w h. i.within w (f.keeps.within w (n.keeps.within w h));
    word = f.sound.counted;
    sum = omega (arith, i.sum, f.sound.sum);
    output = refl;
    head = refl;
    capacity = refl;
    eof_flag = refl;
  }
    where
      start : Merging
      start = record {
        elm = elm;
        blocks = r.blocks;
        unassembled = add64 r.unassembled_byte elm.length;
      }

      sound : IsSound s lo extra start
      sound = record {
        sorted = a;
        piece = p;
        low = low;
        counted = omega arith;
        sum = omega (arith, sum);
      }

      n : EndsNext s lo extra start (merge_next (length r.blocks) start)
      n = merge_next-Ends s lo extra (length r.blocks) start sound (omega arith)

      f :
          EndsPrev s lo extra
            (merge_next (length r.blocks) start)
            (merge_prev (length r.blocks) (merge_next (length r.blocks) start))
      f = merge_prev-Ends s lo extra (length r.blocks) _ n.sound n.keeps.fewer n.gap_after

      m : Merging
      m = merge_prev (length r.blocks) (merge_next (length r.blocks) start)

      i : Inserted lo m.elm m.blocks (insert m.elm m.blocks)
      i =
          insert-Inserted lo m.elm m.blocks _ _ f.sound.piece f.sound.sorted
            (lower_bound-Cut s m.elm lo m.blocks f.sound.sorted) f.gap_after f.gap_before
