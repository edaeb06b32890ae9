-- ===== src/ByteStream/History.antt =====
-- byte_stream.cc: a client's calls in order, what the stream took of them and what it gave back.
use cs144_introduction_to_co.Prelude.{
  ℕ, ◌%◌, ◌^◌, ◌≡◌, ◌≤◌, ◌<◌, sym, ap, ◌∙◌, arith, List, [], ◌∷◌, ◌++◌, length, take, drop, min,
  true, append-nil, append_assoc, take-append-drop, length-append,
}
use cs144_introduction_to_co.ByteStream.{
  ByteStream, write, read, end_input, set_error, make, eof, bytes_written, bytes_read,
}
use cs144_introduction_to_co.ByteStream.Queue.{
  contents, IsValid, write_lem, read_lem, make-IsValid, readden-read, end_input-IsValid,
  set_error-IsValid, contents-make, eof-contents,
}

pub data Op : Type 0 where
  writes : List ℕ → Op
  reads : ℕ → Op
  ends : Op
  fails : Op

-- The stream beside the bytes that it took and the bytes that it gave back, oldest first.
pub record Trace : Type 0 where
  pub stream : ByteStream
  pub taken : List ℕ
  pub given : List ℕ

unfoldable pub step : Trace → Op → Trace
step t (writes bytes) =
    let (s, n) = write t.stream bytes in record t { stream = s; taken = t.taken ++ take n bytes }
step t (reads n) =
    let (s, bytes) = read t.stream n in record t { stream = s; given = t.given ++ bytes }
step t ends = record t { stream = end_input t.stream }
step t fails = record t { stream = set_error t.stream }

unfoldable pub run : Trace → List Op → Trace
unfolding step
run t [] = t
run t (op ∷ ops) = run (step t op) ops

-- What holds between the calls: the bytes given back, and those still in the stream, are the bytes
-- taken, in their order.
pub record IsFifo (t : Trace) : Type 0 where
  pub valid : IsValid t.stream
  pub order : t.given ++ contents t.stream ≡ t.taken
  pub read_count : bytes_read t.stream ≡ length t.given % 2 ^ 64

write_order :
    (t : Trace) (bytes : List ℕ)
    → IsFifo t
    → t.given ++ contents (write t.stream bytes).0 ≡ t.taken ++ take (write t.stream bytes).1 bytes
write_order t bytes f =
    let (c, n, _) = write_lem t.stream bytes f.valid in
    rw (c, n, ← f.order) (sym (append_assoc t.given (contents t.stream) _))

read_order :
    (t : Trace) (n : ℕ)
    → IsFifo t
    → (t.given ++ (read t.stream n).1) ++ contents (read t.stream n).0 ≡ t.taken
read_order t n f =
    let (o, c, _) = read_lem t.stream n f.valid in
    let k = min n (length (contents t.stream)) in
    rw (o, c)
      (append_assoc t.given (take k (contents t.stream)) (drop k (contents t.stream))
        ∙ (ap (◌++◌ t.given) (take-append-drop k (contents t.stream)) ∙ f.order))

step-IsFifo : (t : Trace) (op : Op) → IsFifo t → IsFifo (step t op)
unfolding step bytes_read
step-IsFifo t (writes bytes) f = record {
  valid = (write_lem t.stream bytes f.valid).2;
  order = write_order t bytes f;
  read_count = unfold write in f.read_count;
}
step-IsFifo t (reads n) f = record {
  valid = (read_lem t.stream n f.valid).2;
  order = read_order t n f;
  read_count = omega (
    arith,
    f.read_count,
    readden-read t.stream n f.valid,
    length-append t.given (read t.stream n).1,
  );
}
step-IsFifo t ends f =
    let (c, v) = end_input-IsValid t.stream f.valid in
    record { valid = v; order = rw c f.order; read_count = unfold end_input in f.read_count }
step-IsFifo t fails f =
    let (c, v) = set_error-IsValid t.stream f.valid in
    record { valid = v; order = rw c f.order; read_count = unfold set_error in f.read_count }

run-IsFifo : (t : Trace) (ops : List Op) → IsFifo t → IsFifo (run t ops)
unfolding run
run-IsFifo t [] f = f
run-IsFifo t (op ∷ ops) f = run-IsFifo (step t op) ops (step-IsFifo t op f)

abbrev pub start : ℕ → Trace
start capacity = record { stream = make capacity; taken = []; given = [] }

start-IsFifo : (capacity : ℕ) → capacity < 2 ^ 64 → IsFifo (start capacity)
unfolding make bytes_read
start-IsFifo capacity h = record {
  valid = make-IsValid capacity h;
  order = contents-make capacity;
  read_count = omega arith;
}

-- After any calls on a new stream, what was read back, followed by what the stream still holds, is
-- what it took, in order; the stream holds no more than its capacity; and its two counters are the
-- numbers of bytes read and taken, modulo 2^64.
pub run_fifo :
    (capacity : ℕ) (ops : List Op)
    → capacity < 2 ^ 64
    → let t = run (start capacity) ops in
      (t.given ++ contents t.stream ≡ t.taken)
      × (length (contents t.stream) ≤ t.stream.capacity)
      × (bytes_read t.stream ≡ length t.given % 2 ^ 64)
      × (bytes_written t.stream ≡ length t.taken % 2 ^ 64)
unfolding bytes_written bytes_read
run_fifo capacity ops h =
    let t = run (start capacity) ops in
    let f = run-IsFifo (start capacity) ops (start-IsFifo capacity h) in
    (
      f.order,
      f.valid.fits,
      f.read_count,
      omega (
        arith,
        f.valid.counted,
        f.read_count,
        ap length f.order,
        length-append t.given (contents t.stream),
      ),
    )

-- When a stream reports its end, its reader has had every byte that the stream ever took.
eof_all_read :
    (capacity : ℕ) (ops : List Op)
    → capacity < 2 ^ 64
    → eof (run (start capacity) ops).stream ≡ true
    → (run (start capacity) ops).given ≡ (run (start capacity) ops).taken
eof_all_read capacity ops h e =
    let t = run (start capacity) ops in
    let f = run-IsFifo (start capacity) ops (start-IsFifo capacity h) in
    sym (append-nil t.given) ∙ (ap (◌++◌ t.given) (sym (eof-contents t.stream e)) ∙ f.order)
