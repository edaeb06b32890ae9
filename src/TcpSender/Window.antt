-- ===== src/TcpSender/Window.antt =====
-- tcp_sender.cc: how much `fill_window` sends within the window of the peer.
use cs144_introduction_to_co.Prelude.{
  ℕ, zero, suc, ◌+◌, ◌%◌, ◌≤◌, ◌<◌, ◌^◌, ◌≡◌, ◌⊎◌, inl, inr, refl, ap, sym, subst, ◌∙◌, arith, Bool,
  true, false, ◌||◌, ◌&&◌, ltb, ◌==◌, List, [], ◌∷◌, length, length-take, min, Bool-cases,
}
use cs144_introduction_to_co.WrappingIntegers.{wrap}
use cs144_introduction_to_co.Buffer
use cs144_introduction_to_co.Buffer.{str}
use cs144_introduction_to_co.ByteStream
use cs144_introduction_to_co.ByteStream.Queue.{IsValid, contents, read_lem}
use cs144_introduction_to_co.TcpSegment.{TcpSegment, length_in_sequence_space, default_segment}
use cs144_introduction_to_co.TcpSender.{
  TcpSender, next_segment, fill_loop, fill_window, effective_window, send_segment, remaining,
  max_payload_size,
}
use cs144_introduction_to_co.TcpSender.Fill.{fill_window_open}
use cs144_introduction_to_co.TcpSender.Chain.{Chain-le}
use cs144_introduction_to_co.TcpSender.Sends.{needed, bit, bit_sum}
use cs144_introduction_to_co.TcpSender.Cut.{next_segment-Cut, send_next, size-with_seqno}
use cs144_introduction_to_co.TcpSender.Stream.{fill_loop-Sends}
use cs144_introduction_to_co.TcpSender.Sound.{IsSound, same-IsSound}

-- A round reads as many bytes as the window, the segment and the stream allow.
next_segment_read :
    (s : TcpSender) (win : ℕ)
    → IsValid s.stream
    → length (str (next_segment s win).1.payload)
      ≡ min (min (remaining s win) max_payload_size) (length (contents s.stream))
unfolding next_segment str Buffer.of_string default_segment
next_segment_read s win v =
    let n : ℕ = min (remaining s win) max_payload_size in
    let (taken, left, w) = read_lem s.stream n v in
    let (stream, bytes) = ByteStream.read s.stream n in
    let m : ℕ = min n (length (contents s.stream)) in
    let seg : TcpSegment = record default_segment { payload = Buffer.of_string bytes } in
    let last : Bool = ByteStream.eof stream && ltb (length_in_sequence_space seg) win in
    let l = ap length taken ∙ length-take m (contents s.stream) in
    elim (Bool-cases last) [ inl t ↦ rw t (omega (arith, l)) | inr f ↦ rw f (omega (arith, l)) ]

-- What was sent reaches at most `limit`, or one number further by a FIN.
abbrev pub Within : ℕ → TcpSender → Type 0
Within limit s = (s.next_seqno ≤ limit) ⊎ (s.fin ≡ true) × (s.next_seqno ≤ limit + 1)

fin_twice : (b : Bool) → b ≡ true → b ≡ false → ⊥
fin_twice b t f = cc

send_segment_fin : (s : TcpSender) (seg : TcpSegment) → (send_segment s seg).fin ≡ s.fin
unfolding send_segment
send_segment_fin s seg = refl

send_segment_number :
    (s : TcpSender) (seg : TcpSegment)
    → (send_segment s seg).next_seqno ≡ (s.next_seqno + length_in_sequence_space seg) % 2 ^ 64
unfolding send_segment
send_segment_number s seg = let e = size-with_seqno seg (wrap s.next_seqno s.isn) in rw e

reached :
    (limit : ℕ) (s : TcpSender) (last : Bool)
    → s.fin ≡ last
    → s.next_seqno ≤ limit + bit last
    → Within limit s
reached limit s true f h = inr (f, h)
reached limit s false f h = inl (omega arith)

room_left :
    (s : TcpSender) (win limit : ℕ)
    → s.next_seqno ≤ limit
    → limit ≡ s.receive_ack + win
    → s.receive_ack ≤ s.next_seqno
    → win < 2 ^ 62
    → s.next_seqno < 2 ^ 62
    → remaining s win + s.next_seqno ≡ limit
unfolding remaining
room_left s win limit lo e acked w n = omega arith

fill_loop-Within :
    (fuel win limit : ℕ) (s : TcpSender)
    → IsValid s.stream
    → needed s < 2 ^ 62
    → s.bytes_in_flight ≤ s.next_seqno
    → win < 2 ^ 62
    → s.receive_ack ≤ s.next_seqno
    → limit ≡ s.receive_ack + win
    → Within limit s
    → Within limit (fill_loop fuel win s)
unfolding fill_loop
fill_loop-Within zero win limit s v room small w acked e h = h
fill_loop-Within (suc fuel) win limit s v room small w acked e h =
    let t = (next_segment s win).0 in
    let seg = (next_segment s win).1 in
    elim (Bool-cases (remaining s win == 0 || s.fin)) [
      | inl stop ↦ rw stop h
      | inr go ↦
          let f : s.fin ≡ false = ground arith in
          let (last, c) = next_segment-Cut s win v f in
          let lo : s.next_seqno ≤ limit = elim h [
            | inl l ↦ l
            | inr (g, l) ↦ absurd (fin_twice s.fin g f)
          ] in
          elim (Bool-cases (length_in_sequence_space seg == 0)) [
            | inl z ↦ rw (go, z) (inl (omega (arith, lo, ap (λ x. x.next_seqno) c.rest)))
            | inr p ↦
                let k = send_next s t seg last c f (ground arith) (omega arith) small in
                let q = k.kept in
                let n = k.counted in
                let a = k.receive_ack in
                let le =
                  Chain-le s.isn s.next_seqno k.segs (send_segment t seg).next_seqno k.chain in
                let m = send_segment_number t seg in
                let g = next_segment_read s win v in
                let i = c.size in
                let j : remaining s win + s.next_seqno ≡ limit =
                  room_left s win limit lo e acked w (omega arith) in
                let x = ap (λ x. x.next_seqno) c.rest in
                let y = ap (λ x. x.fin) c.rest in
                let r : Within limit (send_segment t seg) =
                  reached limit (send_segment t seg) last (send_segment_fin t seg ∙ y)
                    (omega arith) in
                rw (go, p)
                  (fill_loop-Within fuel win limit (send_segment t seg) k.valid (omega arith)
                    (omega arith) w (omega arith) (omega arith) r)
          ]
    ]

window_lem : (s : TcpSender) → s.window_size < 2 ^ 16 → effective_window s < 2 ^ 62
unfolding effective_window
window_lem s h = ground arith

-- Once the SYN was sent, and while what was sent lies within the window of the peer, from its last
-- acknowledgment on, `fill_window` sends no sequence number beyond that window, but for a FIN, which
-- may take the one number that follows the window. A window of zero counts as one.
pub fill_window-Within :
    (s : TcpSender)
    → IsSound s
    → s.syn ≡ true
    → s.window_size < 2 ^ 16
    → s.next_seqno ≤ s.receive_ack + effective_window s
    → Within (s.receive_ack + effective_window s) (fill_window s)
fill_window-Within s h syn w within =
    let t : TcpSender = record s { window_is_zero = s.window_size == 0 } in
    let win = effective_window s in
    rw (fill_window_open s syn) (
      fill_loop-Within _ win (s.receive_ack + win) t h.valid (omega (arith, h.room))
        (omega (arith, h.counted)) (window_lem s w) h.sent refl (inl within))

wraps :
    (s : TcpSender) (win : ℕ)
    → s.receive_ack + win < s.next_seqno
    → s.next_seqno < 2 ^ 62
    → 2 ^ 63 < remaining s win
unfolding remaining
wraps s win over n = omega arith

one_round :
    (fuel win : ℕ) (s : TcpSender)
    → (remaining s win == 0 || s.fin) ≡ false
    → (length_in_sequence_space (next_segment s win).1 == 0) ≡ false
    → fill_loop (suc fuel) win s
      ≡ fill_loop fuel win (send_segment (next_segment s win).0 (next_segment s win).1)
unfolding fill_loop
one_round fuel win s go p = rw (go, p) refl

not_empty : (xs : List ℕ) → ¬ (xs ≡ []) → 0 < length xs
not_empty [] h = absurd (h refl)
not_empty (x ∷ xs) h = omega arith

overshoot_loop :
    (fuel win : ℕ) (s : TcpSender)
    → IsSound s
    → s.fin ≡ false
    → s.receive_ack + win < s.next_seqno
    → ¬ (contents s.stream ≡ [])
    → s.next_seqno < (fill_loop (suc fuel) win s).next_seqno
overshoot_loop fuel win s h f over waiting =
    let room = h.room in
    let counted = h.counted in
    let big = wraps s win over (omega arith) in
    let t = (next_segment s win).0 in
    let seg = (next_segment s win).1 in
    let (last, c) = next_segment-Cut s win h.valid f in
    let size = c.size in
    let read = next_segment_read s win h.valid in
    let some_bytes = not_empty (contents s.stream) waiting in
    let go : (remaining s win == 0 || s.fin) ≡ false = ground arith in
    let p : (length_in_sequence_space seg == 0) ≡ false = ground (arith) in
    let positive : 0 < length_in_sequence_space seg = ground arith in
    let single = bit_sum last in
    let k = send_next s t seg last c f positive (omega arith) (omega arith) in
    let r =
      fill_loop-Sends fuel win (send_segment t seg) k.valid (omega (arith, k.kept))
        (omega (arith, k.counted)) in
    let first = Chain-le s.isn s.next_seqno k.segs (send_segment t seg).next_seqno k.chain in
    let later =
      Chain-le (send_segment t seg).isn (send_segment t seg).next_seqno r.segs
        (fill_loop fuel win (send_segment t seg)).next_seqno r.chain in
    let m = send_segment_number t seg in
    let same = ap (λ x. x.next_seqno) c.rest in
    subst (λ x. s.next_seqno < x.next_seqno) (sym (one_round fuel win s go p))
      (omega (arith, k.kept))

-- When the peer has shrunk its window below what was already sent, and some byte waits and the FIN
-- was not sent, `fill_window` sends still more, beyond the window.
fill_window-overshoot :
    (s : TcpSender)
    → IsSound s
    → s.syn ≡ true
    → s.fin ≡ false
    → s.receive_ack + effective_window s < s.next_seqno
    → ¬ (contents s.stream ≡ [])
    → s.next_seqno < (fill_window s).next_seqno
fill_window-overshoot s h syn f over waiting =
    let t : TcpSender = record s { window_is_zero = s.window_size == 0 } in
    let sound = same-IsSound s t h refl refl refl refl refl refl h.room h.valid in
    rw (fill_window_open s syn) (overshoot_loop _ (effective_window s) t sound f over waiting)
