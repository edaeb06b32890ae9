-- ===== src/TcpSender/Fill.antt =====
-- tcp_sender.cc: the end of the loop of `fill_window`.
use cs144_introduction_to_co.Prelude.{
  ℕ, zero, suc, ◌+◌, ◌-◌, ◌≤◌, ◌<◌, ◌≡◌, ◌⊎◌, inl, inr, refl, ap, arith, Bool, true, not, ◌||◌,
  ◌&&◌, ltb, ◌==◌, if◌then◌else◌, List, [], ◌∷◌, length, min, length-take, length-drop, Bool-cases,
  ◌∙◌,
}
use cs144_introduction_to_co.Buffer
use cs144_introduction_to_co.Buffer.{str}
use cs144_introduction_to_co.ByteStream
use cs144_introduction_to_co.ByteStream.Queue.{IsValid, contents, read_lem, size-contents}
use cs144_introduction_to_co.TcpSegment.{TcpSegment, length_in_sequence_space, default_segment}
use cs144_introduction_to_co.TcpSender.{
  TcpSender, next_segment, fill_loop, fill_window, fill_fuel, effective_window, send_segment,
  remaining, max_payload_size,
}

-- How many bytes a round reads.
abbrev read_size : TcpSender → ℕ → ℕ
read_size s win = min (remaining s win) max_payload_size

next_segment-stream :
    (s : TcpSender) (win : ℕ)
    → (next_segment s win).0.stream ≡ (ByteStream.read s.stream (read_size s win)).0
unfolding next_segment
next_segment-stream s win = refl

-- A segment without FIN has the length of the bytes that were read.
next_segment_size :
    (s : TcpSender) (win : ℕ)
    → ((next_segment s win).0.fin ≡ true)
      ⊎ (length_in_sequence_space (next_segment s win).1
          ≡ length (ByteStream.read s.stream (read_size s win)).1)
unfolding next_segment length_in_sequence_space str Buffer.of_string default_segment
next_segment_size s win =
    let (stream, bytes) = ByteStream.read s.stream (read_size s win) in
    let seg : TcpSegment = record default_segment { payload = Buffer.of_string bytes } in
    let last : Bool = ByteStream.eof stream && ltb (length_in_sequence_space seg) win in
    elim (Bool-cases last) [ inl t ↦ inl (rw t refl) | inr f ↦ inr (rw f (omega arith)) ]

-- Nothing is left to do: the window is full, the FIN was sent or the stream has no bytes to send.
abbrev pub IsFilled : ℕ → TcpSender → Type 0
IsFilled win s = (remaining s win ≡ 0) ⊎ (s.fin ≡ true) ⊎ (contents s.stream ≡ [])

fill_after_fin : (fuel win : ℕ) (s : TcpSender) → s.fin ≡ true → IsFilled win (fill_loop fuel win s)
unfolding fill_loop
fill_after_fin zero win s f = inr (inl f)
fill_after_fin (suc fuel) win s f =
    let t : (remaining s win == 0 || s.fin) ≡ true = ground arith in rw t (inr (inl f))

send_segment-fin : (s : TcpSender) (seg : TcpSegment) → (send_segment s seg).fin ≡ s.fin
unfolding send_segment
send_segment-fin s seg = refl

send_segment-stream : (s : TcpSender) (seg : TcpSegment) → (send_segment s seg).stream ≡ s.stream
unfolding send_segment
send_segment-stream s seg = refl

pub no_bytes : (xs : List ℕ) → length xs ≡ 0 → xs ≡ []
no_bytes [] e = refl
no_bytes (x ∷ xs) e = absurd (omega arith)

-- A round reads some byte while the window is open and the stream has any.
record Round (s t : TcpSender) (seg : TcpSegment) : Type 0 where
  valid : IsValid t.stream
  shorter : length (contents t.stream) ≤ length (contents s.stream)
  sent :
      (t.fin ≡ true)
      ⊎ (length_in_sequence_space seg + length (contents t.stream) ≡ length (contents s.stream))
        × (length_in_sequence_space seg ≡ 0 → length (contents t.stream) ≡ 0)

next_segment-Round :
    (s : TcpSender) (win : ℕ)
    → IsValid s.stream
    → 0 < remaining s win
    → Round s (next_segment s win).0 (next_segment s win).1
next_segment-Round s win v wide =
    let (bytes, left, w) = read_lem s.stream (read_size s win) v in
    let e = next_segment-stream s win in
    let n : ℕ = min (read_size s win) (length (contents s.stream)) in
    let l : length (contents (next_segment s win).0.stream) ≡ length (contents s.stream) - n =
      ap (λ c. length (contents c)) e ∙ ap length left ∙ length-drop n (contents s.stream) in
    let b = ap length bytes ∙ length-take n (contents s.stream) in
    record {
      valid = rw e w;
      shorter = omega arith;
      sent = elim (next_segment_size s win) [
        | inl f ↦ inl f
        | inr k ↦ inr (omega arith, λ z. omega arith)
      ];
    }

stopped : (win : ℕ) (s : TcpSender) → (remaining s win == 0 || s.fin) ≡ true → IsFilled win s
stopped win s e = elim (Bool-cases s.fin) [ inl f ↦ inr (inl f) | inr g ↦ inl (ground arith) ]

-- The loop of `fill_window` stops by its own condition, with fuel for one round more than the bytes
-- of the stream: then the window is full, the FIN was sent, or no byte of the stream is left.
pub fill_loop-IsFilled :
    (fuel win : ℕ) (s : TcpSender)
    → IsValid s.stream
    → length (contents s.stream) < fuel
    → IsFilled win (fill_loop fuel win s)
unfolding fill_loop
fill_loop-IsFilled zero win s v h = absurd (omega arith)
fill_loop-IsFilled (suc fuel) win s v h =
    let t = (next_segment s win).0 in
    let seg = (next_segment s win).1 in
    elim (Bool-cases (remaining s win == 0 || s.fin)) [
      | inl stop ↦ rw stop (stopped win s stop)
      | inr go ↦
          let r = next_segment-Round s win v (ground arith) in
          elim (Bool-cases (length_in_sequence_space seg == 0)) [
            | inl zero_length ↦
                rw (go, zero_length)
                  (elim r.sent [
                    | inl f ↦ inr (inl f)
                    | inr (k, m) ↦ inr (inr (no_bytes (contents t.stream) (m (ground arith))))
                  ])
            | inr longer ↦
                rw (go, longer)
                  (elim r.sent [
                    | inl f ↦
                        fill_after_fin fuel win (send_segment t seg) (send_segment-fin t seg ∙ f)
                    | inr (k, m) ↦
                        fill_loop-IsFilled fuel win (send_segment t seg)
                          (rw (send_segment-stream t seg) r.valid)
                          (rw (send_segment-stream t seg) (ground arith))
                  ])
          ]
    ]

after_syn : (b : Bool) (x y : TcpSender) → b ≡ true → (if not b then x else y) ≡ y
after_syn b x y e = rw e

pub fill_window_open :
    (s : TcpSender)
    → s.syn ≡ true
    → fill_window s
      ≡ fill_loop
          (suc (suc (ByteStream.buffer_size s.stream)))
          (effective_window s)
          (record s { window_is_zero = s.window_size == 0 })
unfolding fill_window fill_fuel effective_window
fill_window_open s syn = after_syn s.syn _ _ syn

-- Once the SYN was sent, `fill_window` always ends with the window full, the FIN sent, or no byte of
-- the stream left to send; a window of zero counts as one.
pub fill_window-IsFilled :
    (s : TcpSender)
    → s.syn ≡ true
    → IsValid s.stream
    → IsFilled (effective_window s) (fill_window s)
fill_window-IsFilled s syn v =
    let n = size-contents s.stream in
    let t : TcpSender = record s { window_is_zero = s.window_size == 0 } in
    let fuel : ℕ = suc (suc (ByteStream.buffer_size s.stream)) in
    rw (fill_window_open s syn) (fill_loop-IsFilled fuel (effective_window s) t v (omega arith))
