-- ===== src/ByteStream/Examples.antt =====
-- Tests of byte_stream.cc, and its theorems at a stream of capacity 3.
use cs144_introduction_to_co.Prelude.{
  ◌%◌, ◌^◌, ◌≤◌, ◌≡◌, refl, arith, List, [], ◌∷◌, ◌++◌, length, true,
}
use cs144_introduction_to_co.BufferList
use cs144_introduction_to_co.ByteStream.{
  end_input, make, write, read, eof, bytes_read, bytes_written,
}
use cs144_introduction_to_co.ByteStream.Queue.{contents}
use cs144_introduction_to_co.ByteStream.History.{Op, writes, reads, ends, run, start, run_fifo}

abbrev calls : List Op
calls = writes (1 ∷ 2 ∷ []) ∷ reads 1 ∷ writes (3 ∷ 4 ∷ 5 ∷ []) ∷ ends ∷ []

abbrev all_calls : List Op
all_calls = writes (1 ∷ 2 ∷ 3 ∷ 4 ∷ []) ∷ reads 2 ∷ ends ∷ reads 9 ∷ []

-- The stream takes 1 to 4 and no more.
calls_taken : (run (start 3) calls).taken ≡ 1 ∷ 2 ∷ 3 ∷ 4 ∷ []
unfolding run write read make BufferList.size BufferList.empty BufferList.remove_prefix
    BufferList.append BufferList.of_string BufferList.concatenate
calls_taken = refl

calls_given : (run (start 3) calls).given ≡ 1 ∷ []
unfolding run write read make BufferList.size BufferList.empty BufferList.remove_prefix
    BufferList.append BufferList.of_string BufferList.concatenate
calls_given = refl

run_fifo_example :
    let t = run (start 3) calls in
    (t.given ++ contents t.stream ≡ t.taken)
    × (length (contents t.stream) ≤ t.stream.capacity)
    × (bytes_read t.stream ≡ length t.given % 2 ^ 64)
    × (bytes_written t.stream ≡ length t.taken % 2 ^ 64)
run_fifo_example = run_fifo 3 calls (omega arith)

all_calls_eof : eof (run (start 3) all_calls).stream ≡ true
unfolding run write read make eof end_input BufferList.size BufferList.empty
    BufferList.remove_prefix BufferList.append BufferList.of_string BufferList.concatenate
all_calls_eof = refl
