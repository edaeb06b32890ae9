-- ===== src/StreamReassembler/Push.antt =====
-- stream_reassembler.cc: `push_substring` as a whole, one call and a sequence of calls.
use cs144_introduction_to_co.Prelude.{
  ℕ, ◌+◌, ◌^◌, ◌≤◌, ◌<◌, ◌≡◌, refl, subst, ◌∙◌, inl, inr, arith, List, [], ◌∷◌, length, Bool, true,
  false, ◌&&◌, ◌||◌, ltb, leb, Bool-cases,
}
use cs144_introduction_to_co.ByteStream.{ByteStream}
use cs144_introduction_to_co.ByteStream
use cs144_introduction_to_co.ByteStream.Queue.{end_input-IsValid}
use cs144_introduction_to_co.StreamReassembler.{
  StreamReassembler, BlockNode, clip, assemble, judge_eof, push_substring, empty, flush,
  merge_substring,
}
use cs144_introduction_to_co.StreamReassembler.Slices.{slice}
use cs144_introduction_to_co.StreamReassembler.Blocks.{Above-covers}
use cs144_introduction_to_co.StreamReassembler.Insert.{clip-IsPiece}
use cs144_introduction_to_co.StreamReassembler.Stream.{Holds, InWindow, known}
use cs144_introduction_to_co.StreamReassembler.Outcome.{assemble-Outcome}

capacity-flush : (bs : List BlockNode) (r : StreamReassembler) → (flush bs r).capacity ≡ r.capacity
unfolding flush
capacity-flush [] r = refl
capacity-flush (b ∷ bs) r = ground arith

capacity-assemble :
    (elm : BlockNode) (r : StreamReassembler) → (assemble elm r).capacity ≡ r.capacity
unfolding assemble merge_substring
capacity-assemble elm r = capacity-flush _ _

module _ (s : ℕ → ℕ) (base : ℕ) where
  judge_eof-Holds :
      (leak : ℕ) (eof : Bool) (r : StreamReassembler)
      → Holds s base leak r
      → Holds s base leak (judge_eof eof r)
  unfolding judge_eof
  judge_eof-Holds leak eof r h = elim (Bool-cases ((eof || r.eof_flag) && empty r)) [
    | inl over ↦
        let (c, v) = end_input-IsValid r.output h.output_valid in
        rw over (record {
          output_valid = v;
          output_bytes = rw c h.output_bytes;
          head = rw c h.head;
          sorted = h.sorted;
          word = h.word;
          sum = h.sum;
        })
    | inr on ↦ rw on (record {
      output_valid = h.output_valid;
      output_bytes = h.output_bytes;
      head = h.head;
      sorted = h.sorted;
      word = h.word;
      sum = h.sum;
    })
  ]

  -- `JUDGE_EOF` touches neither the blocks, nor the head, nor the capacity.
  judge_eof_rest :
      (eof : Bool) (r : StreamReassembler)
      → ((judge_eof eof r).blocks ≡ r.blocks)
        × ((judge_eof eof r).head_index ≡ r.head_index)
        × ((judge_eof eof r).output.capacity ≡ r.output.capacity)
        × ((judge_eof eof r).capacity ≡ r.capacity)
  unfolding judge_eof ByteStream.end_input
  judge_eof_rest eof r = ground arith

  -- The indices of the data of a call.
  abbrev pub offered : List ℕ → ℕ → ℕ → Bool
  offered bytes index p = leb index p && ltb p (index + length bytes)

  -- The three ways through `push_substring`.
  push_cases :
      (P : StreamReassembler → Type 0) (r : StreamReassembler) (bytes : List ℕ) (index : ℕ)
      (eof : Bool)
      → (r.head_index + r.capacity ≤ index → P r)
      → (index + length bytes ≤ r.head_index → P (judge_eof eof r))
      → (r.head_index < index + length bytes
          → P (judge_eof eof (assemble (clip r.head_index bytes index) r)))
      → r.head_index + r.capacity < 2 ^ 64
      → index + length bytes < 2 ^ 64
      → P (push_substring r bytes index eof)
  unfolding push_substring
  push_cases P r bytes index eof far old new small small' = ground (arith, far, old, new)

  -- Whatever part of the stream arrives, with or without room for it: the output stays the beginning
  -- of the stream, and the blocks stay pieces of it.
  pub push_safe :
      (leak : ℕ) (r : StreamReassembler) (bytes : List ℕ) (index : ℕ) (eof : Bool)
      → Holds s base leak r
      → bytes ≡ slice s index (length bytes)
      → index + length bytes < 2 ^ 63
      → r.head_index + r.capacity < 2 ^ 63
      → (leak' : ℕ) × Holds s base leak' (push_substring r bytes index eof)
  push_safe leak r bytes index eof h e small small' =
      push_cases (λ q. (leak' : ℕ) × Holds s base leak' q) r bytes index eof (λ far. (leak, h))
        (λ old. (leak, judge_eof-Holds leak eof r h))
        (λ new.
          let (p, low, _) = clip-IsPiece s r.head_index bytes index e small new in
          let o =
            assemble-Outcome s base leak (clip r.head_index bytes index) r h p
              (omega (arith, low)) in
          (o.leak', judge_eof-Holds o.leak' eof _ o.holds_after))
        (omega arith) (omega arith)

  -- The first missing index is the head.
  pub head_unknown :
      (leak : ℕ) (r : StreamReassembler) → Holds s base leak r → known r r.head_index ≡ false
  head_unknown leak r h = ground (arith, Above-covers s r.head_index r.blocks h.sorted)

  -- What a push within the window adds.
  pub record Adds (leak : ℕ) (bytes : List ℕ) (index : ℕ) (r q : StreamReassembler) : Type 0 where
    pub holds_after : Holds s base leak q
    pub in_window : InWindow base q
    pub adds : (p : ℕ) → known q p ≡ (known r p || offered bytes index p)
    pub output_capacity : q.output.capacity ≡ r.output.capacity
    pub capacity : q.capacity ≡ r.capacity

  judge_eof-Adds :
      (leak : ℕ) (bytes : List ℕ) (index : ℕ) (eof : Bool) (r q : StreamReassembler)
      → Adds leak bytes index r q
      → Adds leak bytes index r (judge_eof eof q)
  judge_eof-Adds leak bytes index eof r q a =
      let (bl, hd, oc, cp) = judge_eof_rest eof q in
      record {
        holds_after = judge_eof-Holds leak eof q a.holds_after;
        in_window = rw (bl, oc) a.in_window;
        adds = λ p. rw (bl, hd) (a.adds p);
        output_capacity = oc ∙ a.output_capacity;
        capacity = cp ∙ a.capacity;
      }

  -- A call that offers nothing new changes nothing.
  nothing_new :
      (leak : ℕ) (bytes : List ℕ) (index : ℕ) (r : StreamReassembler)
      → Holds s base leak r
      → InWindow base r
      → ((p : ℕ) → offered bytes index p ≡ true → p < r.head_index)
      → Adds leak bytes index r r
  nothing_new leak bytes index r h w old = record {
    holds_after = h;
    in_window = w;
    adds = λ p. ground (arith, old p);
    output_capacity = refl;
    capacity = refl;
  }

  assemble-Adds :
      (leak : ℕ) (bytes : List ℕ) (index : ℕ) (r : StreamReassembler)
      → Holds s base leak r
      → InWindow base r
      → bytes ≡ slice s index (length bytes)
      → index + length bytes ≤ base + r.output.capacity
      → index + length bytes < 2 ^ 63
      → r.head_index < index + length bytes
      → Adds leak bytes index r (assemble (clip r.head_index bytes index) r)
  assemble-Adds leak bytes index r h w e fit small new =
      let (p, low, high) = clip-IsPiece s r.head_index bytes index e small new in
      let elm = clip r.head_index bytes index in
      let o = assemble-Outcome s base leak elm r h p (omega (arith, low)) in
      let (l, iw, ad) = o.kept w (omega (arith, high)) in
      record {
        holds_after = subst (λ k. Holds s base k (assemble elm r)) l o.holds_after;
        in_window = iw;
        adds = λ q. ad q ∙ ground (arith, low, high);
        output_capacity = o.capacity;
        capacity = capacity-assemble elm r;
      }

  -- Data within the reader's window is never lost: after the push the known bytes are those known
  -- before and those offered, all blocks are within the window, and no byte is miscounted.
  pub push_complete :
      (leak : ℕ) (r : StreamReassembler) (bytes : List ℕ) (index : ℕ) (eof : Bool)
      → Holds s base leak r
      → InWindow base r
      → r.capacity ≡ r.output.capacity
      → bytes ≡ slice s index (length bytes)
      → index + length bytes ≤ base + r.capacity
      → base + r.capacity < 2 ^ 62
      → Adds leak bytes index r (push_substring r bytes index eof)
  push_complete leak r bytes index eof h w cap e fit small =
      push_cases (Adds leak bytes index r) r bytes index eof
        (λ far. nothing_new leak bytes index r h w (λ p o. ground (arith, h.head)))
        (λ old.
          judge_eof-Adds leak bytes index eof r r
            (nothing_new leak bytes index r h w (λ p o. ground arith)))
        (λ new.
          judge_eof-Adds leak bytes index eof r _
            (assemble-Adds leak bytes index r h w e (omega arith) (omega arith) new))
        (omega (arith, h.head, h.output_valid.fits)) (omega arith)
