-- ===== src/WrappingIntegers/Laws.antt =====
-- wrapping_integers.cc: `wrap`, `unwrap` and the operators on sequence numbers.
use cs144_introduction_to_co.Prelude.{ℕ, ◌+◌, ◌-◌, ◌%◌, ◌^◌, ◌≤◌, ◌<◌, ◌≡◌, ap, sym, arith}
use cs144_introduction_to_co.WrappingIntegers.{WrappingInt32, wrap, unwrap, plus, minus, offset}

-- The 32-bit numbers.
abbrev pub IsWord : WrappingInt32 → Type 0
IsWord w = w.raw_value < 2 ^ 32

abbrev pub distance : ℕ → ℕ → ℕ
distance a b = (a - b) + (b - a)

-- The absolute number that `unwrap` returns wraps to the sequence number that it was given.
pub wrap-unwrap :
    (n isn : WrappingInt32) (checkpoint : ℕ)
    → IsWord n
    → IsWord isn
    → checkpoint < 2 ^ 64
    → wrap (unwrap n isn checkpoint) isn ≡ n
unfolding wrap unwrap
wrap-unwrap n isn checkpoint hn hi hc = ground arith

wraps_to :
    (n isn : WrappingInt32) (m : ℕ)
    → wrap m isn ≡ n
    → n.raw_value ≡ (m % 2 ^ 32 + isn.raw_value) % 2 ^ 64 % 2 ^ 32
unfolding wrap
wraps_to n isn m e = ap (λ (w : WrappingInt32). w.raw_value) (sym e)

nearest :
    (n isn : WrappingInt32) (checkpoint m : ℕ)
    → IsWord n
    → IsWord isn
    → checkpoint < 2 ^ 63
    → wrap m isn ≡ n
    → distance (unwrap n isn checkpoint) checkpoint ≤ distance m checkpoint
unfolding unwrap wrap
nearest n isn checkpoint m hn hi hc e = ground (arith, wraps_to n isn m e)

-- For a checkpoint below 2^63, the absolute number that `unwrap` returns wraps to the sequence number
-- that it was given, and no other absolute number `m` that wraps to it is nearer to the checkpoint.
pub unwrap_nearest :
    (n isn : WrappingInt32) (checkpoint m : ℕ)
    → IsWord n
    → IsWord isn
    → checkpoint < 2 ^ 63
    → wrap m isn ≡ n
    → (wrap (unwrap n isn checkpoint) isn ≡ n)
      × (distance (unwrap n isn checkpoint) checkpoint ≤ distance m checkpoint)
unwrap_nearest n isn checkpoint m hn hi hc e =
    (wrap-unwrap n isn checkpoint hn hi (omega arith), nearest n isn checkpoint m hn hi hc e)

-- An absolute number less than 2^31 away from the checkpoint survives wrapping and unwrapping.
pub unwrap-wrap :
    (n checkpoint : ℕ) (isn : WrappingInt32)
    → IsWord isn
    → n < 2 ^ 63
    → checkpoint < 2 ^ 63
    → n < checkpoint + 2 ^ 31
    → checkpoint < n + 2 ^ 31
    → unwrap (wrap n isn) isn checkpoint ≡ n
unfolding wrap unwrap
unwrap-wrap n checkpoint isn hi hn hc above below = ground arith

pub wrap-IsWord : (n : ℕ) (isn : WrappingInt32) → IsWord (wrap n isn)
unfolding wrap
wrap-IsWord n isn = omega arith

-- Steps on sequence numbers are steps on the absolute numbers, and `operator-` undoes `operator+`.
pub plus-wrap :
    (n k : ℕ) (isn : WrappingInt32)
    → IsWord isn
    → k < 2 ^ 32
    → (plus (wrap n isn) k ≡ wrap (n + k) isn)
      × (minus (wrap (n + k) isn) k ≡ wrap n isn)
      × (offset (wrap (n + k) isn) (wrap n isn) ≡ k)
unfolding wrap plus minus offset
plus-wrap n k isn hi hk = (ground arith, ground arith, omega arith)
