-- ===== src/TcpSender/Stream.antt =====
-- tcp_sender.cc: what `fill_window` sends, and in which order.
use cs144_introduction_to_co.Prelude.{
  ℕ, zero, suc, ◌≤◌, ◌<◌, ◌^◌, ◌≡◌, inl, inr, refl, ap, sym, subst, arith, Bool, true, false, not,
  ◌||◌, ◌==◌, if◌then◌else◌, [], ◌∷◌, Bool-cases,
}
use cs144_introduction_to_co.WrappingIntegers.{wrap}
use cs144_introduction_to_co.Buffer
use cs144_introduction_to_co.Buffer.{str}
use cs144_introduction_to_co.ByteStream.Queue.{IsValid}
use cs144_introduction_to_co.TcpSegment.{length_in_sequence_space, default_segment}
use cs144_introduction_to_co.TcpSender.{
  TcpSender, next_segment, fill_loop, fill_window, fill_fuel, effective_window, send_segment,
  with_seqno, remaining,
}
use cs144_introduction_to_co.TcpSender.Sends.{Sends, Sends-refl, Sends-trans, needed, bit}
use cs144_introduction_to_co.TcpSender.Cut.{Cut, next_segment-Cut, send_next, skip_round}

pub fill_loop-Sends :
    (fuel win : ℕ) (s : TcpSender)
    → IsValid s.stream
    → needed s < 2 ^ 63
    → s.bytes_in_flight ≤ s.next_seqno
    → Sends s (fill_loop fuel win s)
unfolding fill_loop
fill_loop-Sends zero win s v room small = Sends-refl s v
fill_loop-Sends (suc fuel) win s v room small =
    let t = (next_segment s win).0 in
    let seg = (next_segment s win).1 in
    elim (Bool-cases (remaining s win == 0 || s.fin)) [
      | inl stop ↦ rw stop (Sends-refl s v)
      | inr go ↦
          let f : s.fin ≡ false = ground arith in
          let (last, c) = next_segment-Cut s win v f in
          let d = subst (λ x. Cut s x seg last) c.rest c in
          elim (Bool-cases (length_in_sequence_space seg == 0)) [
            | inl z ↦
                rw (go, z)
                  (subst (Sends s) (sym c.rest) (skip_round s t.stream seg last d f (ground arith)))
            | inr p ↦
                let sends = send_next s t seg last c f (ground arith) room small in
                let k = sends.kept in
                let n = sends.counted in
                rw (go, p)
                  (Sends-trans s (send_segment t seg) (fill_loop fuel win (send_segment t seg))
                    sends
                    (fill_loop-Sends fuel win (send_segment t seg) sends.valid (omega arith)
                      (omega arith)))
          ]
    ]

-- The SYN is sent first, alone.
send_syn :
    (s : TcpSender)
    → IsValid s.stream
    → s.syn ≡ false
    → needed s < 2 ^ 63
    → s.bytes_in_flight ≤ s.next_seqno
    → let syn = record default_segment {
      header = record (default_segment.header) { syn = true };
    } in
      Sends s (record (send_segment s syn) { syn = true })
unfolding send_segment default_segment length_in_sequence_space str Buffer.empty_buffer
send_syn s v f room small =
    let syn = record default_segment { header = record (default_segment.header) { syn = true } } in
    let g : bit (not s.syn) ≡ 1 = ap (λ x. bit (not x)) f in
    record {
      segs = with_seqno syn (wrap s.next_seqno s.isn) ∷ [];
      out = refl;
      in_flight = refl;
      chain = (refl, omega arith, omega (arith, g));
      bytes = refl;
      counted = omega (arith, g);
      isn = refl;
      receive_ack = refl;
      checkpoint = refl;
      kept = omega (arith, g);
      valid = v;
    }

abbrev pub noting_window : TcpSender → TcpSender
noting_window s = record s { window_is_zero = s.window_size == 0 }

from_window : (s t : TcpSender) → Sends (noting_window s) t → Sends s t
from_window s t h = record {
  segs = h.segs;
  out = h.out;
  in_flight = h.in_flight;
  chain = h.chain;
  bytes = h.bytes;
  counted = h.counted;
  isn = h.isn;
  receive_ack = h.receive_ack;
  checkpoint = h.checkpoint;
  kept = h.kept;
  valid = h.valid;
}

chosen :
    (s x y : TcpSender) (b : Bool)
    → (b ≡ false → Sends s x)
    → Sends s y
    → Sends s (if not b then x else y)
chosen s x y true h k = k
chosen s x y false h k = h refl

-- `fill_window` only sends: the segments that it adds to both queues, in the same order, carry the
-- next bytes of the stream, no byte twice and none left out, with sequence numbers that follow one
-- another from `next_seqno` on, and `bytes_in_flight` grows by what they occupy. This holds for any
-- window, while what the sender uses of its sequence numbers stays below 2^63.
pub fill_window-Sends :
    (s : TcpSender)
    → IsValid s.stream
    → needed s < 2 ^ 63
    → s.bytes_in_flight ≤ s.next_seqno
    → Sends s (fill_window s)
unfolding fill_window
fill_window-Sends s v room small =
    chosen s _ _ s.syn (λ f. send_syn s v f room small)
      (from_window s _ (
        fill_loop-Sends (fill_fuel (noting_window s)) (effective_window (noting_window s))
          (noting_window s) v room small))
