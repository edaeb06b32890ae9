-- ===== src/StreamReassembler/Arrivals.antt =====
-- stream_reassembler.cc: sequences of calls of `push_substring`.
use cs144_introduction_to_co.Prelude.{
  ℕ, ◌+◌, ◌^◌, ◌≤◌, ◌<◌, ◌≡◌, refl, sym, ap, ◌∙◌, arith, List, [], ◌∷◌, length, Bool, true, false,
  ◌&&◌, ◌||◌, ltb, leb, All,
}
use cs144_introduction_to_co.ByteStream.{ByteStream}
use cs144_introduction_to_co.ByteStream
use cs144_introduction_to_co.ByteStream.Queue.{contents, contents-make, make-IsValid}
use cs144_introduction_to_co.StreamReassembler.{StreamReassembler, make, push_substring}
use cs144_introduction_to_co.StreamReassembler.Slices.{slice}
use cs144_introduction_to_co.StreamReassembler.Stream.{Holds, InWindow, known}
use cs144_introduction_to_co.StreamReassembler.Push.{push_complete, head_unknown}

-- What arrives: data, its index in the stream, and whether it is the end.
pub record Arrival : Type 0 where
  pub bytes : List ℕ
  pub index : ℕ
  pub eof : Bool

unfoldable pub run : StreamReassembler → List Arrival → StreamReassembler
run r [] = r
run r (a ∷ rest) = run (push_substring r a.bytes a.index a.eof) rest

-- Whether the byte at index `p` is in one of the arrivals.
abbrev pub received : List Arrival → ℕ → Bool
received [] p = false
received (a ∷ rest) p = (leb a.index p && ltb p (a.index + length a.bytes)) || received rest p

-- A part of the stream `s` within the first `capacity` bytes.
abbrev pub PartOf : (ℕ → ℕ) → ℕ → Arrival → Type 0
PartOf s capacity a =
    (a.bytes ≡ slice s a.index (length a.bytes)) × (a.index + length a.bytes ≤ capacity)

module _ (s : ℕ → ℕ) where
  run-known :
      (r : StreamReassembler) (arrivals : List Arrival)
      → Holds s 0 0 r
      → InWindow 0 r
      → r.capacity ≡ r.output.capacity
      → r.capacity < 2 ^ 62
      → All (PartOf s r.capacity) arrivals
      → Holds s 0 0 (run r arrivals)
        × ((p : ℕ) → known (run r arrivals) p ≡ (known r p || received arrivals p))
  unfolding run
  run-known r [] h w cap small parts = (h, λ p. ground arith)
  run-known r (a ∷ rest) h w cap small parts =
      let d =
        push_complete s 0 0 r a.bytes a.index a.eof h w cap parts.0.0 (omega (arith, parts.0.1))
          (omega arith) in
      let (hs, ks) =
        run-known (push_substring r a.bytes a.index a.eof) rest d.holds_after d.in_window
          (d.capacity ∙ (cap ∙ sym d.output_capacity)) (omega (arith, d.capacity))
          (rw d.capacity parts.1) in
      (hs, λ p. ground (arith, ks p, d.adds p))

  pub make-Holds : (capacity : ℕ) → capacity < 2 ^ 64 → Holds s 0 0 (make capacity)
  unfolding make
  make-Holds capacity h = record {
    output_valid = make-IsValid capacity h;
    output_bytes = rw (contents-make capacity);
    head = rw (contents-make capacity);
    sorted = tt;
    word = omega arith;
    sum = omega arith;
  }

  -- Parts of a stream that arrive in any order, repeated and overlapping, within the capacity: the
  -- output is exactly the stream up to the first byte that is in none of them.
  pub run_reassembles :
      (capacity : ℕ) (arrivals : List Arrival)
      → capacity < 2 ^ 62
      → All (PartOf s capacity) arrivals
      → let r = run (make capacity) arrivals in
        (contents r.output ≡ slice s 0 r.head_index)
        × (received arrivals r.head_index ≡ false)
        × ((p : ℕ) → p < r.head_index → received arrivals p ≡ true)
  unfolding make ByteStream.make
  run_reassembles capacity arrivals small parts =
      let r = run (make capacity) arrivals in
      let (h, k) =
        run-known (make capacity) arrivals (make-Holds capacity (omega arith)) tt refl small
          parts in
      (
        h.output_bytes ∙ ap (slice s 0) (omega (arith, h.head)),
        ground (arith, k r.head_index, head_unknown s 0 0 r h),
        λ p below. ground (arith, k p),
      )
