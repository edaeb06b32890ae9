-- ===== src/Buffer/Laws.antt =====
-- util/buffer.cc: what `Buffer::remove_prefix` leaves of a buffer.
use cs144_introduction_to_co.Prelude.{
  ℕ, ◌+◌, ◌^◌, ◌≤◌, ◌<◌, ◌≡◌, refl, arith, List, length, drop, Option, none, some, drop-drop,
  length-drop, drop-all, drop-nil, ℕ_discrete, ◌%◌,
}
use cs144_introduction_to_co.Buffer.{Buffer, of_string, str, size, remove_prefix}

-- The offset stands inside the storage, which fits in memory.
abbrev pub InStorage : Option (List ℕ) → ℕ → Type 0
InStorage none offset = Unit {0}
InStorage (some s) offset = (offset ≤ length s) × (length s < 2 ^ 64)

abbrev pub IsValid : Buffer → Type 0
IsValid b = InStorage b.storage b.starting_offset

remove_storage :
    (s : Option (List ℕ)) (offset n : ℕ)
    → let b : Buffer = record { storage = s; starting_offset = offset } in
      InStorage s offset
      → n ≤ length (str b)
      → (c : Buffer) × (remove_prefix b n ≡ some c) × (str c ≡ drop n (str b)) × IsValid c
unfolding remove_prefix str
remove_storage none offset n v h = (
  record { storage = none; starting_offset = (offset + n) % 2 ^ 64 },
  ground arith,
  ground (arith, drop-nil ℕ n),
  tt,
)
remove_storage (some s) offset n v h = elim (ℕ_discrete (offset + n) (length s)) [
  | yes used ↦ (
    record { storage = none; starting_offset = offset + n },
    ground (arith, length-drop offset s),
    ground (arith, drop-drop n offset s, drop-all (offset + n) s),
    tt,
  )
  | no rest ↦ (
    record { storage = some s; starting_offset = offset + n },
    ground (arith, length-drop offset s),
    ground (arith, drop-drop n offset s),
    ground (arith, length-drop offset s),
  )
]

-- Within its size, a buffer gives up exactly its first bytes and stays valid.
pub remove_prefix_lem :
    (b : Buffer) (n : ℕ)
    → IsValid b
    → n ≤ size b
    → (c : Buffer) × (remove_prefix b n ≡ some c) × (str c ≡ drop n (str b)) × IsValid c
unfolding size
remove_prefix_lem b n v h = remove_storage b.storage b.starting_offset n v h

pub str-of_string : (s : List ℕ) → str (of_string s) ≡ s
unfolding str of_string
str-of_string s = refl

pub of_string-IsValid : (s : List ℕ) → length s < 2 ^ 64 → IsValid (of_string s)
unfolding of_string
of_string-IsValid s h = (omega arith, h)
