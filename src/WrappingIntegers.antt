-- ===== src/WrappingIntegers.antt =====
-- wrapping_integers.hh and wrapping_integers.cc: 32-bit sequence numbers that wrap, and the 64-bit
-- absolute sequence numbers that they stand for.
use cs144_introduction_to_co.Prelude.{
  ℕ, ◌+◌, ◌-◌, ◌%◌, ◌^◌, Bool, not, ◌&&◌, leb, if◌then◌else◌, ◌==◌,
}
use cs144_introduction_to_co.Prelude.Words.{add64, sub64, add32, sub32}
pub mod Laws
mod Examples

-- `WrappingInt32`: its raw 32-bit value.
pub record WrappingInt32 : Type 0 where
  pub raw_value : ℕ

-- The constructor takes a `uint32_t`, so a wider argument is cut.
unfoldable pub make : ℕ → WrappingInt32
make raw = record { raw_value = raw % 2 ^ 32 }

unfoldable pub wrap : ℕ → WrappingInt32 → WrappingInt32
unfolding make
wrap n isn = make (add64 (n % 2 ^ 32) isn.raw_value)

-- `diff` is the difference of two `uint32_t`, taken modulo 2^32 and then widened.
unfoldable pub unwrap : WrappingInt32 → WrappingInt32 → ℕ → ℕ
unfolding wrap
unwrap n isn checkpoint =
    let diff = sub32 n.raw_value (wrap checkpoint isn).raw_value in
    let res = add64 diff checkpoint in
    if leb (2 ^ 31) diff && leb (2 ^ 32) res then sub64 res (2 ^ 32) else res

-- `operator==`, `operator!=`.
unfoldable pub equal : WrappingInt32 → WrappingInt32 → Bool
equal a b = a.raw_value == b.raw_value

unfoldable pub differ : WrappingInt32 → WrappingInt32 → Bool
unfolding equal
differ a b = not (equal a b)

-- `operator+(WrappingInt32, uint32_t)`.
unfoldable pub plus : WrappingInt32 → ℕ → WrappingInt32
unfolding make
plus a b = make (add32 a.raw_value b)

-- `operator-(WrappingInt32, uint32_t)`: the sum with the negated word.
unfoldable pub minus : WrappingInt32 → ℕ → WrappingInt32
unfolding plus
minus a b = plus a (sub32 0 b)

-- `operator-(WrappingInt32, WrappingInt32)`: the bit pattern of the `int32_t` result.
unfoldable pub offset : WrappingInt32 → WrappingInt32 → ℕ
offset a b = sub32 a.raw_value b.raw_value
