-- ===== src/TcpSender/Grows.antt =====
-- tcp_sender.cc: the fields that `fill_window` may change.
use cs144_introduction_to_co.Prelude.{
  ℕ, zero, suc, ◌≤◌, ◌≡◌, refl, ◌∙◌, arith, Bool, true, false, not, ◌||◌, ◌==◌, [], ◌∷◌, length,
  length-append, Bool-cases, inl, inr, if◌then◌else◌,
}
use cs144_introduction_to_co.ByteStream
use cs144_introduction_to_co.WrappingIntegers.{wrap}
use cs144_introduction_to_co.TcpSegment.{TcpSegment, default_segment, length_in_sequence_space}
use cs144_introduction_to_co.TcpSender.{
  TcpSender, fill_window, fill_loop, next_segment, send_segment, remaining, effective_window,
  fill_fuel, with_seqno,
}

-- The queue only grows, the stream is in error only if it was, and the window stays.
pub record Grows (s t : TcpSender) : Type 0 where
  pub error : t.stream.error ≡ s.stream.error
  pub queue : length s.segments_out ≤ length t.segments_out
  pub window_size : t.window_size ≡ s.window_size

Grows-trans : (s t u : TcpSender) → Grows s t → Grows t u → Grows s u
Grows-trans s t u h k = record {
  error = k.error ∙ h.error;
  queue = omega (arith, h.queue, k.queue);
  window_size = k.window_size ∙ h.window_size;
}

send_segment-Grows : (s : TcpSender) (seg : TcpSegment) → Grows s (send_segment s seg)
unfolding send_segment
send_segment-Grows s seg = record {
  error = refl;
  queue =
      omega (arith, length-append s.segments_out (with_seqno seg (wrap s.next_seqno s.isn) ∷ []));
  window_size = refl;
}

next_segment-Grows : (s : TcpSender) (win : ℕ) → Grows s (next_segment s win).0
unfolding next_segment ByteStream.read ByteStream.pop_output
next_segment-Grows s win = record { error = refl; queue = omega arith; window_size = refl }

by_rounds :
    (s t u : TcpSender) (stop skip : Bool)
    → Grows s t
    → Grows s u
    → Grows s (if stop then s else if skip then t else u)
by_rounds s t u true skip h k = record { error = refl; queue = omega arith; window_size = refl }
by_rounds s t u false true h k = h
by_rounds s t u false false h k = k

fill_loop-Grows : (fuel win : ℕ) (s : TcpSender) → Grows s (fill_loop fuel win s)
unfolding fill_loop
fill_loop-Grows zero win s = record { error = refl; queue = omega arith; window_size = refl }
fill_loop-Grows (suc fuel) win s =
    let (t, seg) = next_segment s win in
    let sent = send_segment t seg in
    let n : Grows s t = next_segment-Grows s win in
    by_rounds s t (fill_loop fuel win sent) (remaining s win == 0 || s.fin)
      (length_in_sequence_space seg == 0) n
      (Grows-trans s sent (fill_loop fuel win sent)
        (Grows-trans s t sent n (send_segment-Grows t seg)) (fill_loop-Grows fuel win sent))

pub fill_window-Grows : (s : TcpSender) → Grows s (fill_window s)
unfolding fill_window
fill_window-Grows s =
    let syn = record default_segment { header = record (default_segment.header) { syn = true } } in
    let t = record s { window_is_zero = s.window_size == 0 } in
    let g = send_segment-Grows s syn in
    let l = fill_loop-Grows (fill_fuel t) (effective_window t) t in
    elim (Bool-cases (not s.syn)) [
      | inl e ↦ rw e (record { error = g.error; queue = g.queue; window_size = g.window_size })
      | inr e ↦ rw e (record { error = l.error; queue = l.queue; window_size = l.window_size })
    ]
