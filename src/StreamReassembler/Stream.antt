-- ===== src/StreamReassembler/Stream.antt =====
-- stream_reassembler.cc: the state of a reassembler in terms of the stream that the peer sends.
use cs144_introduction_to_co.Prelude.{
  ℕ, suc, ◌+◌, ◌-◌, ◌%◌, ◌^◌, ◌<◌, ◌≡◌, refl, sym, ap, ◌∙◌, arith, List, [], ◌∷◌, ◌++◌, length,
  take, min, Bool, true, false, ◌||◌, ltb, ◌==◌, ==_iff, ◌≢◌,
}
use cs144_introduction_to_co.Prelude.Words.{add64}
use cs144_introduction_to_co.ByteStream.{ByteStream}
use cs144_introduction_to_co.ByteStream
use cs144_introduction_to_co.ByteStream.Queue.{
  contents, write_lem, end_input-IsValid, contents-make, make-IsValid,
}
use cs144_introduction_to_co.ByteStream.Queue as Queue
use cs144_introduction_to_co.StreamReassembler.{StreamReassembler, BlockNode, flush}
use cs144_introduction_to_co.StreamReassembler.Slices.{
  slice, slice-append, take-slice, length-slice,
}
use cs144_introduction_to_co.StreamReassembler.Merge.{IsPiece, end_of}
use cs144_introduction_to_co.StreamReassembler.Blocks.{total, covers, Within, Above, Above-mono}

-- The state between calls, for the stream `s`: the reader has taken the first `base` bytes of it, the
-- output holds the bytes from there to the head, and the blocks are pieces from beyond the head on.
-- `_unassembled_byte` counts the bytes of the blocks and `leak` more.
pub record Holds (s : ℕ → ℕ) (base leak : ℕ) (r : StreamReassembler) : Type 0 where
  pub output_valid : Queue.IsValid r.output
  pub output_bytes : contents r.output ≡ slice s base (length (contents r.output))
  pub head : base + length (contents r.output) ≡ r.head_index
  pub sorted : Above s (suc r.head_index) r.blocks
  pub word : r.unassembled_byte < 2 ^ 64
  pub sum : (leak + total r.blocks) % 2 ^ 64 ≡ r.unassembled_byte

-- The blocks stay within the reader's window: the capacity of the output, from its first byte on.
abbrev pub InWindow : ℕ → StreamReassembler → Type 0
InWindow base r = Within (base + r.output.capacity) r.blocks

-- Whether the byte at index `p` has arrived and was kept.
abbrev pub known : StreamReassembler → ℕ → Bool
known r p = ltb p r.head_index || covers r.blocks p

-- The room of the output after the head.
abbrev pub room : StreamReassembler → ℕ
room r = r.output.capacity - length (contents r.output)

pub capacity-flush :
    (bs : List BlockNode) (r : StreamReassembler) → (flush bs r).output.capacity ≡ r.output.capacity
unfolding flush ByteStream.write
capacity-flush [] r = refl
capacity-flush (b ∷ bs) r = ground arith

module _ (s : ℕ → ℕ) (base leak : ℕ) where
  -- The state between the merge and the write.
  pub record Ready (r : StreamReassembler) : Type 0 where
    pub output_valid : Queue.IsValid r.output
    pub output_bytes : contents r.output ≡ slice s base (length (contents r.output))
    pub head : base + length (contents r.output) ≡ r.head_index
    pub sorted : Above s r.head_index r.blocks
    pub word : r.unassembled_byte < 2 ^ 64
    pub sum : (leak + total r.blocks) % 2 ^ 64 ≡ r.unassembled_byte

  -- The output after the write of a piece that begins where its bytes end.
  write_piece :
      (o : ByteStream) (b : BlockNode)
      → Queue.IsValid o
      → contents o ≡ slice s base (length (contents o))
      → base + length (contents o) ≡ b.begin
      → IsPiece s b
      → let n = min b.length (o.capacity - length (contents o)) in
        ((ByteStream.write o b.bytes).1 ≡ n)
        × (contents (ByteStream.write o b.bytes).0 ≡ slice s base (length (contents o) + n))
        × (length (contents (ByteStream.write o b.bytes).0) ≡ length (contents o) + n)
        × Queue.IsValid (ByteStream.write o b.bytes).0
  write_piece o b v e at_end p = (rw size at w.1, all, ap length all ∙ length-slice s base _, w.2)
    where
      n : ℕ
      n = min b.length (o.capacity - length (contents o))

      size : length b.bytes ≡ b.length
      size = ap length p.content ∙ length-slice s b.begin b.length

      w :
          let n = min (length b.bytes) (o.capacity - length (contents o)) in
          (contents (ByteStream.write o b.bytes).0 ≡ contents o ++ take n b.bytes)
          × ((ByteStream.write o b.bytes).1 ≡ n)
          × Queue.IsValid (ByteStream.write o b.bytes).0
      w = write_lem o b.bytes v

      tail : take n b.bytes ≡ slice s b.begin n
      tail =
          ap (take n) p.content
          ∙ (take-slice s b.begin n b.length ∙ ap (slice s b.begin) (omega arith))

      all : contents (ByteStream.write o b.bytes).0 ≡ slice s base (length (contents o) + n)
      all =
          (rw size at w.0)
          ∙ (ap (◌++◌ (contents o)) tail
              ∙ (ap (λ c. c ++ slice s b.begin n) e
                  ∙ slice-append s base b.begin (length (contents o)) n (omega (arith, at_end))))

  -- The write of a block that begins at the head: as much as there is room for; the rest is lost, and
  -- stays counted.
  pub flush_head :
      (r : StreamReassembler) (b : BlockNode) (bs : List BlockNode)
      → Ready r
      → r.blocks ≡ b ∷ bs
      → b.begin ≡ r.head_index
      → let n = min b.length (room r) in
        ((flush (b ∷ bs) r).head_index ≡ r.head_index + n)
        × ((flush (b ∷ bs) r).blocks ≡ bs)
        × Holds s base (leak + (b.length - n)) (flush (b ∷ bs) r)
  unfolding flush
  flush_head r b bs h e at_head =
      let a : Above s r.head_index (b ∷ bs) = rw e at h.sorted in
      let (wn, all, size, v) =
        write_piece r.output b h.output_valid h.output_bytes (h.head ∙ sym at_head) a.1 in
      let t : (b.begin == r.head_index) ≡ true = (==_iff b.begin r.head_index).1 at_head in
      let moved : add64 r.head_index (ByteStream.write r.output b.bytes).1
          ≡ r.head_index + min b.length (room r) =
        omega (arith, wn, a.1.in_range, at_head) in
      rw t (
        moved,
        refl,
        record {
          output_valid = v;
          output_bytes = rw size all;
          head = omega (arith, size, h.head, moved);
          sorted =
              Above-mono s (suc (add64 r.head_index (ByteStream.write r.output b.bytes).1))
                (suc (end_of b)) bs (omega (arith, moved, at_head)) a.2;
          word = omega arith;
          sum = omega (arith, h.sum, h.word, ap total e, wn);
        },
      )

  -- A first block beyond the head stays.
  pub flush_wait :
      (r : StreamReassembler) (b : BlockNode) (bs : List BlockNode)
      → Ready r
      → r.blocks ≡ b ∷ bs
      → b.begin ≢ r.head_index
      → (flush (b ∷ bs) r ≡ r) × Holds s base leak (flush (b ∷ bs) r)
  unfolding flush
  flush_wait r b bs h e beyond =
      let a : Above s r.head_index (b ∷ bs) = rw e at h.sorted in
      let t : (b.begin == r.head_index) ≡ false = ground (arith, beyond) in
      rw t (
        refl,
        record {
          output_valid = h.output_valid;
          output_bytes = h.output_bytes;
          head = h.head;
          sorted = rw e (ground (arith, a.0, beyond), a.1, a.2);
          word = h.word;
          sum = h.sum;
        },
      )
