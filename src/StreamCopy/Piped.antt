-- ===== src/StreamCopy/Piped.antt =====
-- bidirectional_stream_copy.cc: one direction of the copy, on its byte stream.
use cs144_introduction_to_co.Prelude.{
  ℕ, ◌-◌, ◌^◌, ◌≤◌, ◌<◌, ◌≡◌, ap, sym, ◌∙◌, arith, Bool, true, false, List, ◌++◌, append_assoc,
  length, take, take-all, min,
}
use cs144_introduction_to_co.ByteStream.{ByteStream, pop_output, remaining_capacity, peek_output}
use cs144_introduction_to_co.ByteStream
use cs144_introduction_to_co.ByteStream.Queue.{
  contents, IsValid, write_lem, pop_output_lem, end_input-IsValid, size-contents,
}
use cs144_introduction_to_co.ByteStream.Peek.{peek-pop_output, length-peek_output}
use cs144_introduction_to_co.StreamCopy.{buffer_size, max_copy_length, filled, offered}

-- One direction: what was put out, and what the stream holds, is what was read.
pub record IsPiped (given : List ℕ) (stream : ByteStream) (taken : List ℕ) : Type 0 where
  pub order : given ++ contents stream ≡ taken
  pub valid : IsValid stream
  pub capacity : stream.capacity ≡ buffer_size

pub ended-IsPiped :
    (given taken : List ℕ) (s : ByteStream)
    → IsPiped given s taken
    → IsPiped given (ByteStream.end_input s) taken
unfolding ByteStream.end_input
ended-IsPiped given taken s h =
    let (e, v) = end_input-IsValid s h.valid in
    record { order = ap (λ x. given ++ x) e ∙ h.order; valid = v; capacity = h.capacity }

written-IsPiped :
    (given taken : List ℕ) (s : ByteStream) (bytes : List ℕ)
    → IsPiped given s taken
    → length bytes ≤ remaining_capacity s
    → IsPiped given (ByteStream.write s bytes).0 (taken ++ bytes)
unfolding ByteStream.write ByteStream.remaining_capacity ByteStream.buffer_size
written-IsPiped given taken s bytes h fits =
    let (e, n, v) = write_lem s bytes h.valid in
    let k = size-contents s in
    let f = h.valid.fits in
    let all =
      take-all (min (length bytes) (s.capacity - length (contents s))) bytes
        (omega (arith, h.valid.small, f, fits, k)) in
    record {
      order =
          ap (λ x. given ++ x) (e ∙ ap (λ x. contents s ++ x) all)
          ∙ sym (append_assoc given (contents s) bytes)
          ∙ ap (λ x. x ++ bytes) h.order;
      valid = v;
      capacity = h.capacity;
    }

pub filled-IsPiped :
    (given taken : List ℕ) (s : ByteStream) (bytes : List ℕ) (eof : Bool)
    → IsPiped given s taken
    → length bytes ≤ remaining_capacity s
    → IsPiped given (filled s bytes eof) (taken ++ bytes)
unfolding filled
filled-IsPiped given taken s bytes true h fits =
    ended-IsPiped given (taken ++ bytes) (ByteStream.write s bytes).0
      (written-IsPiped given taken s bytes h fits)
filled-IsPiped given taken s bytes false h fits = written-IsPiped given taken s bytes h fits

pub popped-IsPiped :
    (given taken : List ℕ) (s : ByteStream) (n : ℕ)
    → IsPiped given s taken
    → n ≤ length (offered s)
    → IsPiped (given ++ take n (offered s)) (pop_output s n) taken
unfolding pop_output offered
popped-IsPiped given taken s n h le =
    let (e, v) = pop_output_lem s n h.valid in
    record {
      order =
          append_assoc given (take n (offered s)) (contents (pop_output s n))
          ∙ ap (λ x. given ++ x) (peek-pop_output s _ n h.valid le)
          ∙ h.order;
      valid = v;
      capacity = h.capacity;
    }

pub moved :
    {given given' taken taken' : List ℕ} (s : ByteStream)
    → given' ≡ given
    → taken' ≡ taken
    → IsPiped given s taken
    → IsPiped given' s taken'
moved s e f h = rw (e, f) h

pub offered_small :
    (given taken : List ℕ) (s : ByteStream) → IsPiped given s taken → length (offered s) < 2 ^ 64
unfolding offered
offered_small given taken s h = omega (
  arith,
  length-peek_output s (min max_copy_length (ByteStream.buffer_size s)),
  h.valid.fits,
  h.valid.small,
)
