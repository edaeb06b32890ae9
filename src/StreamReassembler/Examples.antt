-- ===== src/StreamReassembler/Examples.antt =====
-- Tests of stream_reassembler.cc, and its theorems on the stream 0, 1, 2, … of bytes.
use cs144_introduction_to_co.Prelude.{ℕ, ◌≡◌, ◌<◌, refl, arith, List, [], ◌∷◌, true, false, All}
use cs144_introduction_to_co.ByteStream.Queue.{contents}
use cs144_introduction_to_co.StreamReassembler.{BlockNode, make, push_substring}
use cs144_introduction_to_co.StreamReassembler.Slices.{slice}
use cs144_introduction_to_co.StreamReassembler.Stream.{Holds}
use cs144_introduction_to_co.StreamReassembler.Push.{push_safe}
use cs144_introduction_to_co.StreamReassembler.Arrivals.{
  Arrival, PartOf, received, run, make-Holds, run_reassembles,
}

abbrev counting : ℕ → ℕ
counting i = i

-- The end first, then an overlap, then the beginning; index 5 never arrives.
abbrev three : List Arrival
three =
    record { bytes = 6 ∷ 7 ∷ []; index = 6; eof = true }
    ∷ record { bytes = 2 ∷ 3 ∷ 4 ∷ []; index = 2; eof = false }
    ∷ record { bytes = 0 ∷ 1 ∷ 2 ∷ []; index = 0; eof = false }
    ∷ []

three_parts : All (PartOf counting 8) three
three_parts = ((refl, omega arith), ((refl, omega arith), ((refl, omega arith), tt)))

run_reassembles_example :
    let r = run (make 8) three in
    (contents r.output ≡ slice counting 0 r.head_index)
    × (received three r.head_index ≡ false)
    × ((p : ℕ) → p < r.head_index → received three p ≡ true)
run_reassembles_example = run_reassembles counting 8 three (omega arith) three_parts

abbrev first_block : BlockNode
first_block = record { begin = 2; length = 3; bytes = 2 ∷ 3 ∷ 4 ∷ [] }

abbrev second_block : BlockNode
second_block = record { begin = 4; length = 2; bytes = 4 ∷ 5 ∷ [] }

push_safe_example :
    (leak : ℕ) × Holds counting 0 leak (push_substring (make 4) (1 ∷ 2 ∷ 3 ∷ 4 ∷ 5 ∷ []) 1 false)
unfolding make
push_safe_example =
    push_safe counting 0 0 (make 4) (1 ∷ 2 ∷ 3 ∷ 4 ∷ 5 ∷ []) 1 false
      (make-Holds counting 4 (omega arith)) refl (omega arith) (omega arith)
