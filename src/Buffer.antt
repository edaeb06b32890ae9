-- ===== src/Buffer.antt =====
-- util/buffer.hh and util/buffer.cc: strings that discard bytes from the front, alone (`Buffer`), in
-- a list (`BufferList`) and as views of a list (`BufferViewList`). Bytes are numbers.
-- `none` stands for a thrown `out_of_range` or `runtime_error`.
use cs144_introduction_to_co.Prelude.{
  ℕ, ◌+◌, ◌-◌, List, [], ◌∷◌, ◌++◌, Option, none, some, ltb, ◌==◌, if◌then◌else◌, length, drop,
  get_elem?, Bool, true, false, map,
}
use cs144_introduction_to_co.Prelude.Words.{add64}
pub mod Laws

-- The storage is shared and never written, so it is a value; `none` is the null pointer.
pub record Buffer : Type 0 where
  pub storage : Option (List ℕ)
  pub starting_offset : ℕ

unfoldable pub empty_buffer : Buffer
empty_buffer = record { storage = none; starting_offset = 0 }

unfoldable pub of_string : List ℕ → Buffer
of_string s = record { storage = some s; starting_offset = 0 }

abbrev storage_view : Option (List ℕ) → ℕ → List ℕ
storage_view none offset = []
storage_view (some s) offset = drop offset s

unfoldable pub str : Buffer → List ℕ
str b = storage_view b.storage b.starting_offset

-- `at` throws out of range.
unfoldable pub at : Buffer → ℕ → Option ℕ
unfolding str
at b n = get_elem? (str b) n

unfoldable pub size : Buffer → ℕ
unfolding str
size b = length (str b)

abbrev reset_if_used : Option (List ℕ) → ℕ → Option (List ℕ)
reset_if_used none offset = none
reset_if_used (some s) offset = if offset == length s then none else some s

unfoldable pub remove_prefix : Buffer → ℕ → Option Buffer
unfolding str
remove_prefix b n =
    let offset = add64 b.starting_offset n in
    if ltb (length (str b)) n
    then none
    else some (record { storage = reset_if_used b.storage offset; starting_offset = offset })
