-- ===== src/StreamReassembler.antt =====
-- stream_reassembler.hh and stream_reassembler.cc: substrings of a byte stream, in any order and
-- overlapping, are merged and written to a `ByteStream` in order.
-- `_buffer` is resized by the constructor and never used again, so it is left out.
pub mod Slices
pub mod Merge
pub mod Blocks
pub mod Rounds
pub mod Loops
pub mod Insert
pub mod Stream
pub mod Outcome
pub mod Push
pub mod Arrivals
pub mod Faults
mod Examples
use cs144_introduction_to_co.Prelude.{
  ℕ, ◌-◌, ◌^◌, zero, suc, List, [], ◌∷◌, ◌++◌, Bool, true, false, length as count, drop, ltb, leb,
  ◌==◌, ◌&&◌, ◌||◌, if◌then◌else◌,
}
use cs144_introduction_to_co.Prelude.Words.{add64, sub64}
use cs144_introduction_to_co.ByteStream.{ByteStream}
use cs144_introduction_to_co.ByteStream

pub record BlockNode : Type 0 where
  pub begin : ℕ
  pub length : ℕ
  pub bytes : List ℕ

-- `_blocks` is a `std::set` ordered by `begin`: a list in that order.
pub record StreamReassembler : Type 0 where
  pub blocks : List BlockNode
  pub unassembled_byte : ℕ
  pub head_index : ℕ
  pub eof_flag : Bool
  pub output : ByteStream
  pub capacity : ℕ

unfoldable pub make : ℕ → StreamReassembler
make capacity = record {
  blocks = [];
  unassembled_byte = 0;
  head_index = 0;
  eof_flag = false;
  output = ByteStream.make capacity;
  capacity = capacity;
}

unfoldable pub empty : StreamReassembler → Bool
empty r = r.unassembled_byte == 0

unfoldable pub unassembled_bytes : StreamReassembler → ℕ
unassembled_bytes r = r.unassembled_byte

-- A `long` as its 64-bit pattern: -1 is the greatest one, and the patterns from 2^63 on are
-- negative.
abbrev pub minus_one : ℕ
minus_one = 2 ^ 64 - 1

abbrev pub is_nonneg : ℕ → Bool
is_nonneg v = ltb v (2 ^ 63)

-- `merge_block` after its operands are in order: `x` begins no later than `y`.
unfoldable pub join : BlockNode → BlockNode → BlockNode → ℕ × BlockNode
join elm x y =
    let x_end = add64 x.begin x.length in
    if ltb x_end y.begin
    then (minus_one, elm)
    else if leb (add64 y.begin y.length) x_end
    then (y.length, x)
    else let bytes = x.bytes ++ drop (sub64 x_end y.begin) y.bytes in
      (sub64 x_end y.begin, record { begin = x.begin; length = count bytes; bytes = bytes })

-- The `long` result, and `elm1` after the call.
unfoldable pub merge_block : BlockNode → BlockNode → ℕ × BlockNode
merge_block elm1 elm2 =
    if ltb elm2.begin elm1.begin then join elm1 elm2 elm1 else join elm1 elm1 elm2

-- The blocks before `_blocks.lower_bound(elm)` and those from it on.
unfoldable pub lower_bound : BlockNode → List BlockNode → List BlockNode × List BlockNode
lower_bound elm [] = ([], [])
lower_bound elm (b ∷ bs) =
    let (before, after) = lower_bound elm bs in
    if ltb b.begin elm.begin then (b ∷ before, after) else ([], b ∷ bs)

-- The variables of the merging loops.
pub record Merging : Type 0 where
  pub elm : BlockNode
  pub blocks : List BlockNode
  pub unassembled : ℕ

-- The state after a merge that returned `merged`, with the merged block erased from the set.
abbrev pub absorb : Merging → BlockNode → List BlockNode → ℕ → Merging
absorb m elm blocks merged = record {
  elm = elm;
  blocks = blocks;
  unassembled = sub64 m.unassembled merged;
}

-- One round of the "merge next" loop at the blocks before and from `lower_bound(elm)`; `again` is
-- the rest of the loop.
unfoldable pub next_round :
    (Merging → Merging) → Merging → List BlockNode × List BlockNode → Merging
next_round again m (before, []) = m
next_round again m (before, b ∷ rest) =
    let (merged, elm) = merge_block m.elm b in
    if is_nonneg merged then again (absorb m elm (before ++ rest) merged) else m

-- The "merge next" loop: the block at `lower_bound(elm)`, as long as it merges. Each round erases a
-- block, so the number of blocks is fuel enough (`Loops.merge_next-Ends`).
unfoldable pub merge_next : ℕ → Merging → Merging
unfolding next_round
merge_next zero m = m
merge_next (suc fuel) m = next_round (merge_next fuel) m (lower_bound m.elm m.blocks)

-- The last block of a list and those before it: `iter--` from the end of the list.
unfoldable pub split_last : BlockNode → List BlockNode → List BlockNode × BlockNode
split_last b [] = ([], b)
split_last b (c ∷ cs) = let (front, last) = split_last c cs in (b ∷ front, last)

-- One round of the "merge prev" loop, at the last block that begins before `elm`.
unfoldable pub prev_round :
    (Merging → Merging) → Merging → List BlockNode × List BlockNode → Merging
prev_round again m ([], after) = m
prev_round again m (b ∷ bs, after) =
    let (front, last) = split_last b bs in
    let (merged, elm) = merge_block m.elm last in
    if is_nonneg merged then again (absorb m elm (front ++ after) merged) else m

-- The "merge prev" loop: the block before `lower_bound(elm)`, as long as there is one and it merges.
unfoldable pub merge_prev : ℕ → Merging → Merging
unfolding prev_round
merge_prev zero m = m
merge_prev (suc fuel) m = prev_round (merge_prev fuel) m (lower_bound m.elm m.blocks)

-- `_blocks.insert(elm)`: a set that has a block with that beginning keeps it.
unfoldable pub insert : BlockNode → List BlockNode → List BlockNode
insert elm [] = elm ∷ []
insert elm (b ∷ bs) =
    if ltb b.begin elm.begin
    then b ∷ insert elm bs
    else if ltb elm.begin b.begin
    then elm ∷ b ∷ bs
    else b ∷ bs

-- The merging of `elm` into the set, and its insertion.
unfoldable pub merge_substring : BlockNode → StreamReassembler → StreamReassembler
merge_substring elm r =
    let start : Merging = record {
      elm = elm;
      blocks = r.blocks;
      unassembled = add64 r.unassembled_byte elm.length;
    } in
    let m = merge_prev (count r.blocks) (merge_next (count r.blocks) start) in
    record r { blocks = insert m.elm m.blocks; unassembled_byte = m.unassembled }

-- The first block goes to the output if it begins at the head.
unfoldable pub flush : List BlockNode → StreamReassembler → StreamReassembler
flush [] r = r
flush (b ∷ bs) r =
    let (output, write_bytes) = ByteStream.write r.output b.bytes in
    if b.begin == r.head_index
    then record r {
      output = output;
      head_index = add64 r.head_index write_bytes;
      unassembled_byte = sub64 r.unassembled_byte write_bytes;
      blocks = bs;
    }
    else r

-- `JUDGE_EOF`.
unfoldable pub judge_eof : Bool → StreamReassembler → StreamReassembler
unfolding empty
judge_eof eof r =
    let flag = eof || r.eof_flag in
    record r {
      eof_flag = flag;
      output = if flag && empty r then ByteStream.end_input r.output else r.output;
    }

-- The part of the data from the head on.
unfoldable pub clip : ℕ → List ℕ → ℕ → BlockNode
clip head bytes index =
    let offset = sub64 head index in
    if ltb index head
    then record {
      begin = add64 index offset;
      length = count (drop offset bytes);
      bytes = drop offset bytes;
    }
    else record { begin = index; length = count bytes; bytes = bytes }

-- The write to the output after the merge.
unfoldable pub assemble : BlockNode → StreamReassembler → StreamReassembler
assemble elm r = let merged = merge_substring elm r in flush merged.blocks merged

unfoldable pub push_substring : StreamReassembler → List ℕ → ℕ → Bool → StreamReassembler
push_substring r bytes index eof =
    if leb (add64 r.head_index r.capacity) index
    then r
    else if leb (add64 index (count bytes)) r.head_index
    then judge_eof eof r
    else judge_eof eof (assemble (clip r.head_index bytes index) r)
