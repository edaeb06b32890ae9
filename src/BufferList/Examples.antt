-- ===== src/BufferList/Examples.antt =====
-- Tests of util/buffer.cc, and the theorems on `BufferList` at a concrete list.
use cs144_introduction_to_co.Prelude.{◌≡◌, refl, arith, ◌∷◌, [], some}
use cs144_introduction_to_co.BufferList.{BufferList, concatenate}
use cs144_introduction_to_co.BufferList.Laws.{IsValid}

-- Two buffers, the first with a byte already gone: the bytes 2, 3 and 4.
abbrev two : BufferList
two = record {
  buffers =
      record { storage = some (1 ∷ 2 ∷ []); starting_offset = 1 }
      ∷ record { storage = some (3 ∷ 4 ∷ []); starting_offset = 0 }
      ∷ [];
}

two_bytes : concatenate two ≡ 2 ∷ 3 ∷ 4 ∷ []
unfolding concatenate
two_bytes = refl

two-IsValid : IsValid two
two-IsValid = omega arith
