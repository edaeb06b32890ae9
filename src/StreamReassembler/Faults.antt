-- ===== src/StreamReassembler/Faults.antt =====
-- stream_reassembler.cc: cases in which the reassembler errs.
use cs144_introduction_to_co.Prelude.{
  ℕ, ◌+◌, ◌-◌, ◌^◌, ◌<◌, ◌≡◌, arith, List, [], ◌∷◌, length, true,
}
use cs144_introduction_to_co.ByteStream
use cs144_introduction_to_co.ByteStream.Queue.{contents, write_lem}
use cs144_introduction_to_co.ByteStream.Queue as Queue
use cs144_introduction_to_co.StreamReassembler.{
  StreamReassembler, BlockNode, clip, merge_substring, merge_next, merge_prev, insert, flush,
  assemble, judge_eof, push_substring, unassembled_bytes, empty,
}

-- The set after a substring is merged into an empty one.
merge_into_empty :
    (elm : BlockNode) (r : StreamReassembler)
    → r.blocks ≡ []
    → r.unassembled_byte ≡ 0
    → elm.length < 2 ^ 63
    → merge_substring elm r ≡ record r { blocks = elm ∷ []; unassembled_byte = elm.length }
unfolding merge_substring merge_next merge_prev insert
merge_into_empty elm r e z small = ground arith

-- An empty segment that marks the end beyond the head, while nothing is stored, ends the output at
-- once, although the bytes from the head to its index have not arrived.
early_eof :
    (r : StreamReassembler) (index : ℕ)
    → r.blocks ≡ []
    → r.unassembled_byte ≡ 0
    → r.head_index < index
    → index < r.head_index + r.capacity
    → r.head_index + r.capacity < 2 ^ 63
    → let q = push_substring r [] index true in
      (ByteStream.input_ended q.output ≡ true) × (q.head_index ≡ r.head_index)
unfolding push_substring clip assemble flush judge_eof ByteStream.input_ended ByteStream.end_input
    empty
early_eof r index e z beyond inside small =
    let elm : BlockNode = record { begin = index; length = 0; bytes = [] } in
    ground (arith, merge_into_empty elm r)

-- Data at the head that is longer than the room of the output: the rest is neither written nor stored,
-- and stays counted as unassembled for good.
overflow_leaks :
    (r : StreamReassembler) (bytes : List ℕ)
    → Queue.IsValid r.output
    → r.blocks ≡ []
    → r.unassembled_byte ≡ 0
    → r.head_index + r.capacity < 2 ^ 63
    → 0 < r.capacity
    → length bytes < 2 ^ 62
    → r.output.capacity - length (contents r.output) < length bytes
    → let room = r.output.capacity - length (contents r.output) in
      let q = push_substring r bytes r.head_index true in
      (q.blocks ≡ []) × (unassembled_bytes q ≡ length bytes - room)
unfolding push_substring clip assemble flush judge_eof unassembled_bytes empty
overflow_leaks r bytes v e z small cap short over =
    let elm : BlockNode = record { begin = r.head_index; length = length bytes; bytes = bytes } in
    ground (arith, merge_into_empty elm r, (write_lem r.output bytes v).1)
