-- ===== src/StreamReassembler/Outcome.antt =====
-- stream_reassembler.cc: `push_substring` from the merging on.
use cs144_introduction_to_co.Prelude.{
  ℕ, suc, ◌+◌, ◌-◌, ◌≤◌, ◌≡◌, refl, sym, ap, subst, ◌∙◌, arith, List, [], ◌∷◌, min, ◌||◌,
  ℕ_discrete, ◌≢◌,
}
use cs144_introduction_to_co.ByteStream.{ByteStream}
use cs144_introduction_to_co.StreamReassembler.{
  StreamReassembler, BlockNode, merge_substring, flush, assemble,
}
use cs144_introduction_to_co.StreamReassembler.Merge.{IsPiece, end_of}
use cs144_introduction_to_co.StreamReassembler.Blocks.{holds, covers, Within, Above-mono}
use cs144_introduction_to_co.StreamReassembler.Insert.{Merged, merge_substring-Merged}
use cs144_introduction_to_co.StreamReassembler.Stream.{
  Holds, InWindow, known, room, Ready, flush_head, flush_wait, capacity-flush,
}

module _ (s : ℕ → ℕ) (base leak : ℕ) where
  -- What a push of the piece `elm` does to the state.
  pub record Outcome (elm : BlockNode) (r r' : StreamReassembler) : Type 0 where
    pub leak' : ℕ
    pub holds_after : Holds s base leak' r'
    pub forward : r.head_index ≤ r'.head_index
    pub capacity : r'.output.capacity ≡ r.output.capacity
    pub kept :
        InWindow base r
        → end_of elm ≤ base + r.output.capacity
        → (leak' ≡ leak) × InWindow base r' × ((p : ℕ) → known r' p ≡ (known r p || holds elm p))

  module _ (elm : BlockNode) (r m : StreamReassembler) (h : Holds s base leak r)
      (g : Merged s r.head_index leak elm r m) where
    ready : Ready s base leak m
    ready = record {
      output_valid = rw g.output h.output_valid;
      output_bytes = rw g.output h.output_bytes;
      head = rw (g.output, g.head) h.head;
      sorted = rw g.head g.sorted;
      word = g.word;
      sum = g.sum;
    }

    arrived :
        (bs : List BlockNode) (p : ℕ)
        → m.blocks ≡ bs
        → covers bs p ≡ (holds elm p || covers r.blocks p)
    arrived bs p e = ap (λ cs. covers cs p) (sym e) ∙ g.same p

    windowed :
        (bs : List BlockNode)
        → m.blocks ≡ bs
        → InWindow base r
        → end_of elm ≤ base + r.output.capacity
        → Within (base + r.output.capacity) bs
    windowed bs e w fit = subst (Within (base + r.output.capacity)) e (g.within _ (fit, w))

    same_capacity : (bs : List BlockNode) → (flush bs m).output.capacity ≡ r.output.capacity
    same_capacity bs = capacity-flush bs m ∙ ap (λ (o : ByteStream). o.capacity) g.output

    finish_head :
        (b : BlockNode) (bs : List BlockNode)
        → m.blocks ≡ b ∷ bs
        → b.begin ≡ m.head_index
        → Outcome elm r (flush (b ∷ bs) m)
    finish_head b bs e at_head =
        let (hd, bl, hs) = flush_head s base leak m b bs ready e at_head in
        record {
          leak' = leak + (b.length - min b.length (room m));
          holds_after = hs;
          forward = omega (arith, hd, g.head);
          capacity = same_capacity (b ∷ bs);
          kept = λ w fit.
              let ws = windowed (b ∷ bs) e w fit in
              let cap = ap (λ (o : ByteStream). o.capacity) g.output in
              let whole : min b.length (room m) ≡ b.length =
                omega (arith, ready.head, ws.0, cap, at_head, ready.output_valid.fits) in
              (
                omega (arith, whole),
                rw (bl, same_capacity (b ∷ bs)) ws.1,
                λ p. rw (hd, bl, whole) (ground (arith, arrived (b ∷ bs) p e, at_head, g.head)),
              );
        }

    finish_wait :
        (b : BlockNode) (bs : List BlockNode)
        → m.blocks ≡ b ∷ bs
        → b.begin ≢ m.head_index
        → Outcome elm r (flush (b ∷ bs) m)
    finish_wait b bs e beyond =
        let (same, hs) = flush_wait s base leak m b bs ready e beyond in
        record {
          leak' = leak;
          holds_after = hs;
          forward = rw same (omega (arith, g.head));
          capacity = same_capacity (b ∷ bs);
          kept = λ w fit. (
            refl,
            rw (same, ap (λ (o : ByteStream). o.capacity) g.output) (g.within _ (fit, w)),
            λ p. rw (same, g.head) (ground (arith, g.same p)),
          );
        }

    finish_none : m.blocks ≡ [] → Outcome elm r m
    finish_none e = record {
      leak' = leak;
      holds_after = record {
        output_valid = ready.output_valid;
        output_bytes = ready.output_bytes;
        head = ready.head;
        sorted = rw e tt;
        word = g.word;
        sum = g.sum;
      };
      forward = omega (arith, g.head);
      capacity = ap (λ (o : ByteStream). o.capacity) g.output;
      kept = λ w fit. (
        refl,
        rw (ap (λ (o : ByteStream). o.capacity) g.output) (g.within _ (fit, w)),
        λ p. rw g.head (ground (arith, g.same p)),
      );
    }

    finish : (bs : List BlockNode) → m.blocks ≡ bs → Outcome elm r (flush bs m)
    unfolding flush
    finish [] e = finish_none e
    finish (b ∷ bs) e = elim (ℕ_discrete b.begin m.head_index) [
      | yes at_head ↦ finish_head b bs e at_head
      | no beyond ↦ finish_wait b bs e beyond
    ]

  pub assemble-Outcome :
      (elm : BlockNode) (r : StreamReassembler)
      → Holds s base leak r
      → IsPiece s elm
      → r.head_index ≤ elm.begin
      → Outcome elm r (assemble elm r)
  unfolding assemble
  assemble-Outcome elm r h p low =
      finish elm r (merge_substring elm r) h
        (merge_substring-Merged s r.head_index leak elm r p low
          (Above-mono s r.head_index (suc r.head_index) r.blocks (omega arith) h.sorted) h.sum)
        (merge_substring elm r).blocks refl
