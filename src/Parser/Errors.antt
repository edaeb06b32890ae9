-- ===== src/Parser/Errors.antt =====
-- parser.cc: the errors of the parser.
use cs144_introduction_to_co.Prelude.{ℕ, ◌≡◌, ◌⊎◌, inl, inr, refl, ltb, Bool-cases}
use cs144_introduction_to_co.Buffer
use cs144_introduction_to_co.Parser.{
  NetParser, ParseResult, no_error, packet_too_short, is_error, check_size, parse_int, u8, u16, u32,
  remove_prefix, start,
}

-- No error, or data that is too short.
abbrev pub IsShortage : ParseResult → Type 0
IsShortage e = (e ≡ no_error) ⊎ (e ≡ packet_too_short)

check_size-IsShortage :
    (p : NetParser) (n : ℕ) → IsShortage p.error → IsShortage (check_size p n).error
unfolding check_size
check_size-IsShortage p n h = elim (Bool-cases (ltb (Buffer.size p.buffer) n)) [
  | inl t ↦ rw t (inr refl)
  | inr f ↦ rw f h
]

parse_int-IsShortage :
    (len : ℕ) (p : NetParser) → IsShortage p.error → IsShortage (parse_int len p).1.error
unfolding parse_int
parse_int-IsShortage len p h =
    let k = check_size-IsShortage p len h in
    elim (Bool-cases (is_error (check_size p len).error)) [ inl t ↦ rw t k | inr f ↦ rw f k ]

pub u8-IsShortage : (p : NetParser) → IsShortage p.error → IsShortage (u8 p).1.error
unfolding u8
u8-IsShortage p h = parse_int-IsShortage 1 p h

pub u16-IsShortage : (p : NetParser) → IsShortage p.error → IsShortage (u16 p).1.error
unfolding u16
u16-IsShortage p h = parse_int-IsShortage 2 p h

pub u32-IsShortage : (p : NetParser) → IsShortage p.error → IsShortage (u32 p).1.error
unfolding u32
u32-IsShortage p h = parse_int-IsShortage 4 p h

pub remove_prefix-IsShortage :
    (p : NetParser) (n : ℕ) → IsShortage p.error → IsShortage (remove_prefix p n).error
unfolding remove_prefix
remove_prefix-IsShortage p n h =
    let k = check_size-IsShortage p n h in
    elim (Bool-cases (is_error (check_size p n).error)) [ inl t ↦ rw t k | inr f ↦ rw f k ]

pub start-IsShortage : (b : Buffer.Buffer) → IsShortage (start b).error
unfolding start
start-IsShortage b = inl refl
