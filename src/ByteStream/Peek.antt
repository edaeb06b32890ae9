-- ===== src/ByteStream/Peek.antt =====
-- byte_stream.cc: bytes that are looked at first, and popped as far as they were used.
use cs144_introduction_to_co.Prelude.{
  ℕ, ◌≤◌, ◌≡◌, refl, ap, ◌∙◌, arith, ◌++◌, length, length-take, take, drop, min, take-take,
  take-append-drop,
}
use cs144_introduction_to_co.ByteStream.{ByteStream, peek_output, pop_output}
use cs144_introduction_to_co.ByteStream.Queue.{contents, IsValid, pop_output_lem}

peek_part : (s : ByteStream) (len : ℕ) → (m : ℕ) × (peek_output s len ≡ take m (contents s))
unfolding peek_output contents
peek_part s len = (_, refl)

-- No more is seen than there is.
pub length-peek_output :
    (s : ByteStream) (len : ℕ) → length (peek_output s len) ≤ length (contents s)
length-peek_output s len =
    let (m, o) = peek_part s len in omega (arith, ap length o, length-take m (contents s))

-- The first bytes of those that were seen, and what is left once so many are popped, are all there was.
pub peek-pop_output :
    (s : ByteStream) (len n : ℕ)
    → IsValid s
    → n ≤ length (peek_output s len)
    → take n (peek_output s len) ++ contents (pop_output s n) ≡ contents s
peek-pop_output s len n v le =
    let (e, w) = pop_output_lem s n v in
    let (m, o) = peek_part s len in
    let l = length-take m (contents s) in
    let k = ap length o in
    let a : min n m ≡ n = omega arith in
    let b : min n (length (contents s)) ≡ n = omega arith in
    let t : take n (peek_output s len) ≡ take n (contents s) =
      ap (take n) o ∙ take-take n m (contents s) ∙ ap (λ i. take i (contents s)) a in
    ap (λ x. x ++ contents (pop_output s n)) t
    ∙ ap (λ x. take n (contents s) ++ x) (e ∙ ap (λ i. drop i (contents s)) b)
    ∙ take-append-drop n (contents s)
