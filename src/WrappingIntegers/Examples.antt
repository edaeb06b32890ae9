-- ===== src/WrappingIntegers/Examples.antt =====
-- Tests of wrapping_integers.cc, and its theorems at concrete numbers.
use cs144_introduction_to_co.Prelude.{◌+◌, ◌^◌, ◌≤◌, ◌≡◌, refl, arith}
use cs144_introduction_to_co.WrappingIntegers.{WrappingInt32, wrap, unwrap}
use cs144_introduction_to_co.WrappingIntegers.Laws.{distance, unwrap_nearest, unwrap-wrap}

abbrev isn : WrappingInt32
isn = record { raw_value = 0xffff_fffe }

abbrev third : WrappingInt32
third = record { raw_value = 1 }

-- Past the largest number, sequence numbers go on from 0.
wrap_past_end : wrap 3 isn ≡ third
unfolding wrap
wrap_past_end = refl

unwrap_far : unwrap third isn (2 ^ 33) ≡ 2 ^ 33 + 3
unfolding unwrap
unwrap_far = refl

unwrap_nearest_example :
    (wrap (unwrap third isn (2 ^ 33)) isn ≡ third)
    × (distance (unwrap third isn (2 ^ 33)) (2 ^ 33) ≤ distance 3 (2 ^ 33))
unwrap_nearest_example =
    unwrap_nearest third isn (2 ^ 33) 3 (omega arith) (omega arith) (omega arith) wrap_past_end

unwrap-wrap_example : unwrap (wrap 5_000_000_000 isn) isn 4_999_999_000 ≡ 5_000_000_000
unwrap-wrap_example =
    unwrap-wrap 5_000_000_000 4_999_999_000 isn (omega arith) (omega arith) (omega arith)
      (omega arith) (omega arith)
