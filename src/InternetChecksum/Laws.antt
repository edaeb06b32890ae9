-- ===== src/InternetChecksum/Laws.antt =====
-- util.cc: the value of an `InternetChecksum`, from the 32-bit sum that it has.
use cs144_introduction_to_co.Prelude.{ℕ, ◌+◌, ◌%◌, ◌^◌, ◌<◌, ◌≡◌, ◌↔◌, arith}
use cs144_introduction_to_co.InternetChecksum.{InternetChecksum, fold, value}

-- Two rounds bring a 32-bit sum down to 16 bits.
pub fold-IsWord : (n : ℕ) → n < 2 ^ 32 → fold 2 n < 2 ^ 16
unfolding fold
fold-IsWord n h = ground arith

-- The checksum of a 32-bit sum is a 16-bit word, congruent to minus the sum modulo 0xffff, and it
-- is 0xffff for the sum zero only.
pub value_lem :
    (c : InternetChecksum)
    → c.sum < 2 ^ 32
    → (value c < 2 ^ 16) × ((value c + c.sum) % 0xffff ≡ 0) × ((value c ≡ 0xffff) ↔ (c.sum ≡ 0))
unfolding value fold
value_lem c h = (ground arith, ground arith, (λ e. ground arith, λ e. ground arith))
