-- ===== src/InternetChecksum.antt =====
-- util/util.hh and util.cc: the Internet checksum, a ones' complement sum of 16-bit words.
use cs144_introduction_to_co.Prelude.{
  ℕ, zero, suc, ◌+◌, ◌-◌, ◌*◌, ◌/◌, ◌%◌, ◌^◌, List, [], ◌∷◌, Bool, false, not, ltb, if◌then◌else◌,
}
pub mod Laws

pub record InternetChecksum : Type 0 where
  pub sum : ℕ
  pub parity : Bool

unfoldable pub initial : ℕ → InternetChecksum
initial initial_sum = record { sum = initial_sum; parity = false }

-- One round of the loop of `add`: a byte of even index is the high one of its word.
unfoldable pub add_byte : InternetChecksum → ℕ → InternetChecksum
add_byte c b = record {
  sum = (c.sum + (if c.parity then b else (b * 2 ^ 8) % 2 ^ 16)) % 2 ^ 32;
  parity = not c.parity;
}

unfoldable pub add : InternetChecksum → List ℕ → InternetChecksum
add c [] = c
add c (b ∷ bytes) = add (add_byte c b) bytes

-- The loop of `value`; two rounds are enough for any 32-bit sum (`Laws.fold-IsWord`).
unfoldable pub fold : ℕ → ℕ → ℕ
fold zero ret = ret
fold (suc fuel) ret =
    let rest = fold fuel (ret / 2 ^ 16 + ret % 2 ^ 16) in if ltb 0xffff ret then rest else ret

-- `~ret`, as a `uint16_t`.
unfoldable pub value : InternetChecksum → ℕ
unfolding fold
value c = 0xffff - fold 2 c.sum
