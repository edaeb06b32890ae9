-- ===== src/ByteStream/Queue.antt =====
-- byte_stream.cc: the stream as a queue of bytes.
use cs144_introduction_to_co.Prelude.{
  ℕ, ◌+◌, ◌-◌, ◌^◌, ◌≤◌, ◌<◌, ◌≡◌, refl, sym, ap, ◌∙◌, arith, List, [], ◌∷◌, ◌++◌, length, take,
  drop, some, min, length-append, length-take, length-drop, true,
}
use cs144_introduction_to_co.Prelude.Words.{add64}
use cs144_introduction_to_co.BufferList.{BufferList}
use cs144_introduction_to_co.BufferList
use cs144_introduction_to_co.BufferList.Laws as BufferLaws
use cs144_introduction_to_co.ByteStream.{
  ByteStream, make, write, accepted, peek_output, pop_output, read, end_input, eof, buffer_size,
  set_error,
}

-- The bytes that were written and not yet read, oldest first.
unfoldable pub contents : ByteStream → List ℕ
contents s = BufferList.concatenate s.buffer

-- The buffers fit the capacity, and the counters differ by what is buffered, modulo 2^64.
pub record IsValid (s : ByteStream) : Type 0 where
  pub buffers : BufferLaws.IsValid s.buffer
  pub fits : length (contents s) ≤ s.capacity
  pub small : s.capacity < 2 ^ 64
  pub counted : s.written ≡ add64 s.readden (length (contents s))
  pub read_word : s.readden < 2 ^ 64

pub size-contents : (s : ByteStream) → buffer_size s ≡ length (contents s)
unfolding buffer_size contents
size-contents s = sym (BufferLaws.length-concatenate s.buffer)

pub make-IsValid : (capacity : ℕ) → capacity < 2 ^ 64 → IsValid (make capacity)
unfolding make contents
make-IsValid capacity h = record {
  buffers = BufferLaws.empty-IsValid;
  fits = rw BufferLaws.concatenate-empty (omega arith);
  small = h;
  counted = rw BufferLaws.concatenate-empty (omega arith);
  read_word = omega arith;
}

-- `write` takes what the capacity leaves room for.
pub accepted_lem :
    (s : ByteStream) (n : ℕ) → IsValid s → accepted s n ≡ min n (s.capacity - length (contents s))
unfolding accepted contents
accepted_lem s n v = ground (arith, BufferLaws.length-concatenate s.buffer)

-- The bytes after a write, whatever the state.
pub contents-write :
    (s : ByteStream) (bytes : List ℕ)
    → contents (write s bytes).0 ≡ contents s ++ take (accepted s (length bytes)) bytes
unfolding write contents
contents-write s bytes = rw (
  BufferLaws.concatenate-append s.buffer
      (BufferList.of_string (take (accepted s (length bytes)) bytes)),
  BufferLaws.concatenate-of_string,
)

pub write-IsValid : (s : ByteStream) (bytes : List ℕ) → IsValid s → IsValid (write s bytes).0
unfolding write
write-IsValid s bytes v = record {
  buffers = BufferLaws.append-IsValid s.buffer _ v.buffers (BufferLaws.of_string-IsValid _ short);
  fits = grown;
  small = v.small;
  counted = omega (arith, v.counted, total);
  read_word = v.read_word;
}
  where
    taken : length (take (accepted s (length bytes)) bytes) ≡ accepted s (length bytes)
    taken =
        omega
          (arith, length-take (accepted s (length bytes)) bytes, accepted_lem s (length bytes) v)

    short : length (take (accepted s (length bytes)) bytes) < 2 ^ 64
    short = omega (arith, taken, accepted_lem s (length bytes) v, v.small)

    total : length (contents (write s bytes).0) ≡ length (contents s) + accepted s (length bytes)
    total =
        ap length (contents-write s bytes)
        ∙ (length-append (contents s) (take (accepted s (length bytes)) bytes)
            ∙ ap (◌+◌ (length (contents s))) taken)

    grown : length (contents (write s bytes).0) ≤ s.capacity
    grown = omega (arith, total, accepted_lem s (length bytes) v, v.fits)

-- A write appends the longest prefix of the data that the capacity has room for, returns its
-- length, and keeps the invariant.
pub write_lem :
    (s : ByteStream) (bytes : List ℕ)
    → IsValid s
    → let n = min (length bytes) (s.capacity - length (contents s)) in
      (contents (write s bytes).0 ≡ contents s ++ take n bytes)
      × ((write s bytes).1 ≡ n)
      × IsValid (write s bytes).0
unfolding write
write_lem s bytes v =
    let e = accepted_lem s (length bytes) v in
    (rw (← e) (contents-write s bytes), e, write-IsValid s bytes v)

-- `pop_output` never asks its buffers for more than they hold, so it does not throw.
pub pop_output-some :
    (s : ByteStream) (len : ℕ)
    → IsValid s
    → (l : BufferList) × (BufferList.remove_prefix s.buffer (min len (buffer_size s)) ≡ some l)
      × (BufferList.concatenate l ≡ drop (min len (length (contents s))) (contents s))
      × BufferLaws.IsValid l
unfolding buffer_size contents
pop_output-some s len v =
    let (l, e, d, w) =
      BufferLaws.remove_prefix_lem s.buffer (min len (BufferList.size s.buffer)) v.buffers
        (omega arith) in
    (l, e, rw (BufferLaws.length-concatenate s.buffer) d, w)

-- What `pop_output` leaves: all but the first `len` bytes, in a stream as valid as before.
pub pop_output_lem :
    (s : ByteStream) (len : ℕ)
    → IsValid s
    → let n = min len (length (contents s)) in
      (contents (pop_output s len) ≡ drop n (contents s)) × IsValid (pop_output s len)
unfolding pop_output contents buffer_size
pop_output_lem s len v =
    let (l, e, d, w) = pop_output-some s len v in
    rw e (
      d,
      record {
        buffers = w;
        fits = omega (arith, ap length d, length-drop (min len (length (contents s))) (contents s));
        small = v.small;
        counted = omega (
          arith,
          ap length d,
          length-drop (min len (length (contents s))) (contents s),
          BufferLaws.length-concatenate s.buffer,
        );
        read_word = omega arith;
      },
    )

-- A read returns the first bytes of the queue, at most `len`, leaves the rest, and keeps the
-- invariant.
pub read_lem :
    (s : ByteStream) (len : ℕ)
    → IsValid s
    → let n = min len (length (contents s)) in
      ((read s len).1 ≡ take n (contents s))
      × (contents (read s len).0 ≡ drop n (contents s))
      × IsValid (read s len).0
unfolding read peek_output contents buffer_size
read_lem s len v =
    let (d, w) = pop_output_lem s (min len (BufferList.size s.buffer)) v in
    (rw again, rw (← again') d, w)
  where
    size_eq : BufferList.size s.buffer ≡ length (contents s)
    size_eq = size-contents s

    again :
        min (min len (BufferList.size s.buffer)) (BufferList.size s.buffer)
        ≡ min len (length (contents s))
    again = omega (arith, size_eq)

    again' :
        min (min len (BufferList.size s.buffer)) (length (contents s))
        ≡ min len (length (contents s))
    again' = omega (arith, size_eq)

-- The read counter moves by the number of bytes that a read returns.
pub readden-read :
    (s : ByteStream) (len : ℕ)
    → IsValid s
    → (read s len).0.readden ≡ add64 s.readden (length (read s len).1)
unfolding read pop_output buffer_size
readden-read s len v = omega (
  arith,
  ap length (read_lem s len v).0,
  length-take (min len (length (contents s))) (contents s),
  size-contents s,
)

pub end_input-IsValid :
    (s : ByteStream) → IsValid s → (contents (end_input s) ≡ contents s) × IsValid (end_input s)
unfolding end_input contents
end_input-IsValid s v = (
  refl,
  record {
    buffers = v.buffers;
    fits = v.fits;
    small = v.small;
    counted = v.counted;
    read_word = v.read_word;
  },
)

pub set_error-IsValid :
    (s : ByteStream) → IsValid s → (contents (set_error s) ≡ contents s) × IsValid (set_error s)
unfolding set_error contents
set_error-IsValid s v = (
  refl,
  record {
    buffers = v.buffers;
    fits = v.fits;
    small = v.small;
    counted = v.counted;
    read_word = v.read_word;
  },
)

pub contents-make : (capacity : ℕ) → contents (make capacity) ≡ []
unfolding contents make
contents-make capacity = BufferLaws.concatenate-empty

length-eq-zero {ℓ} : {A : Type ℓ} (xs : List A) → length xs ≡ 0 → xs ≡ []
length-eq-zero [] e = refl
length-eq-zero (x ∷ xs) e = absurd (omega arith)

-- A stream at its end is empty.
pub eof-contents : (s : ByteStream) → eof s ≡ true → contents s ≡ []
unfolding eof buffer_size
eof-contents s e = length-eq-zero (contents s) (ground (arith, size-contents s))
