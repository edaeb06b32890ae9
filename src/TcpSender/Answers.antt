-- ===== src/TcpSender/Answers.antt =====
-- tcp_sender.cc: what `ack_received` does with each acknowledgment.
use cs144_introduction_to_co.Prelude.{
  ℕ, ◌≤◌, ◌<◌, ◌^◌, ◌≡◌, ◌⊎◌, inl, inr, refl, subst, ◌∙◌, sym, arith, true, false, ap, ltb, leb,
  List, [], ◌∷◌, ◌++◌, Bool-cases,
}
use cs144_introduction_to_co.WrappingIntegers.{WrappingInt32, unwrap}
use cs144_introduction_to_co.TcpSegment.{TcpSegment}
use cs144_introduction_to_co.ByteStream.Queue.{contents}
use cs144_introduction_to_co.TcpSender.{
  TcpSender, fill_window, ack_received, advance, drop_acked, restart_clock, effective_window,
  remaining,
}
use cs144_introduction_to_co.TcpSender.Chain.{Chain, payloads}
use cs144_introduction_to_co.TcpSender.Fill.{IsFilled, fill_window-IsFilled}
use cs144_introduction_to_co.TcpSender.Grows.{fill_window-Grows}
use cs144_introduction_to_co.TcpSender.Stream.{fill_window-Sends}
use cs144_introduction_to_co.TcpSender.Acks.{Splits, drop_acked-Splits}
use cs144_introduction_to_co.TcpSender.Sound.{IsSound}

-- What a new acknowledgment does: the segments that it covers in whole, and no others, leave the
-- front of the queue; the segments that are sent now carry the next bytes of the stream, and join
-- the end of the queue; once the SYN was sent, the window that came is then full, the FIN was sent
-- or the stream has no byte left; and the timer and its backoff are reset.
pub record Advanced (s t : TcpSender) (ackno window_size : ℕ) : Type 0 where
  pub from : ℕ
  pub in_flight : ℕ
  pub kept : List TcpSegment
  pub split : Splits s.isn from ackno s.next_seqno s.segments_in_flight in_flight kept
  pub sent : List TcpSegment
  pub queue : t.segments_in_flight ≡ kept ++ sent
  pub out : t.segments_out ≡ s.segments_out ++ sent
  pub chain : Chain s.isn s.next_seqno sent t.next_seqno
  pub bytes : payloads sent ++ contents t.stream ≡ contents s.stream
  pub window : t.window_size ≡ window_size
  pub filled : (s.syn ≡ false) ⊎ IsFilled (effective_window t) t
  pub receive_ack : t.receive_ack ≡ ackno
  pub retrans_timeout : t.retrans_timeout ≡ s.initial_retransmission_timeout
  pub consecutive_retrans : t.consecutive_retrans ≡ 0
  pub clock : (t.segments_in_flight ≡ []) ⊎ (t.clock ≡ 0) × (t.clock_is_counting ≡ true)

restarted :
    (s : TcpSender) (queue : List TcpSegment)
    → let t : TcpSender = elim queue [
      | [] ↦ s
      | _ ∷ _ ↦ record s { clock_is_counting = true; clock = 0 }
    ] in
      (t.segments_in_flight ≡ s.segments_in_flight)
      × (t.segments_out ≡ s.segments_out)
      × (t.next_seqno ≡ s.next_seqno)
      × (t.receive_ack ≡ s.receive_ack)
      × (t.retrans_timeout ≡ s.retrans_timeout)
      × (t.consecutive_retrans ≡ s.consecutive_retrans)
      × (t.stream ≡ s.stream)
      × (t.window_size ≡ s.window_size)
      × (t.fin ≡ s.fin)
      × ((queue ≡ []) ⊎ (t.clock ≡ 0) × (t.clock_is_counting ≡ true))
restarted s [] = (refl, refl, refl, refl, refl, refl, refl, refl, refl, inl refl)
restarted s (x ∷ xs) = (refl, refl, refl, refl, refl, refl, refl, refl, refl, inr (refl, refl))

same_window :
    (s t : TcpSender) → t.window_size ≡ s.window_size → effective_window t ≡ effective_window s
unfolding effective_window
same_window s t e = rw e

-- The clock and the timeout are no part of it.
same-IsFilled :
    (s f t : TcpSender)
    → t.window_size ≡ s.window_size
    → t.next_seqno ≡ f.next_seqno
    → t.receive_ack ≡ f.receive_ack
    → t.stream ≡ f.stream
    → t.fin ≡ f.fin
    → IsFilled (effective_window s) f
    → IsFilled (effective_window t) t
unfolding remaining
same-IsFilled s f t w n a st fi h = rw (same_window s t w, n, a, st, fi) h

advance-Advanced :
    (s : TcpSender) (ackno window_size : ℕ)
    → IsSound s
    → s.bytes_in_flight < 2 ^ 31
    → s.receive_ack < ackno
    → ackno ≤ s.next_seqno
    → Advanced s (advance (record s { window_size = window_size }) ackno) ackno window_size
unfolding advance restart_clock
advance-Advanced s ackno window_size h near new old =
    let (left, kept) = drop_acked s.isn s.next_seqno ackno s.bytes_in_flight s.segments_in_flight in
    let r =
      drop_acked-Splits s.isn h.una ackno s.next_seqno s.bytes_in_flight s.segments_in_flight h.word
        (omega (arith, h.room)) near h.counted h.chain in
    let acked : TcpSender = record s {
      window_size = window_size;
      receive_ack = ackno;
      checkpoint = ackno;
      bytes_in_flight = left;
      segments_in_flight = kept;
    } in
    let k = fill_window-Sends acked h.valid (omega (arith, h.room)) (omega (arith, r.counted)) in
    let f = fill_window acked in
    let reset : TcpSender = record f {
      retrans_timeout = s.initial_retransmission_timeout;
      consecutive_retrans = 0;
    } in
    let (q, o, n, a, rt, cr, st, ws, fi, cl) = restarted reset f.segments_in_flight in
    let w = (fill_window-Grows acked).window_size in
    record {
      from = h.una;
      in_flight = left;
      kept = kept;
      split = r;
      sent = k.segs;
      queue = q ∙ k.in_flight;
      out = o ∙ k.out;
      chain = subst (λ b. Chain s.isn s.next_seqno k.segs b) (sym n) k.chain;
      bytes = ap (λ x. payloads k.segs ++ contents x) st ∙ k.bytes;
      window = ws ∙ w;
      filled = elim (Bool-cases s.syn) [
        | inl syn ↦ inr (
            same-IsFilled acked f (restart_clock reset) (ws ∙ w) n a st fi
              (fill_window-IsFilled acked syn h.valid))
        | inr never ↦ inl never
      ];
      receive_ack = a ∙ k.receive_ack;
      retrans_timeout = rt;
      consecutive_retrans = cr;
      clock = elim cl [ inl e ↦ inl (q ∙ e) | inr c ↦ inr c ];
    }

-- An acknowledgment of what was never sent changes nothing, an old one only the window, and a new one
-- takes exactly the segments that it covers in whole off the front of the queue. Then it sends
-- segments with the next bytes of the stream, which join the queue, until the window that came is
-- full, the FIN was sent or the stream has no byte left, provided that the SYN was sent before. It
-- resets the timeout and the count of retransmissions; the clock starts again if a segment is
-- outstanding.
pub ack_received_lem :
    (s : TcpSender) (ackno : WrappingInt32) (window_size : ℕ)
    → IsSound s
    → s.bytes_in_flight < 2 ^ 31
    → let n = unwrap ackno s.isn s.checkpoint in
      let t = ack_received s ackno window_size in
      (s.next_seqno < n) × (t ≡ s)
      ⊎ (n ≤ s.receive_ack) × (t ≡ record s { window_size = window_size })
      ⊎ (s.receive_ack < n) × (n ≤ s.next_seqno) × Advanced s t n window_size
unfolding ack_received
ack_received_lem s ackno window_size h near =
    let n = unwrap ackno s.isn s.checkpoint in
    elim (Bool-cases (ltb s.next_seqno n)) [
      | inl beyond ↦ rw beyond (inl (ground arith, refl))
      | inr within ↦ elim (Bool-cases (leb n s.receive_ack)) [
        | inl old ↦ rw (within, old) (inr (inl (ground (arith, h.sent), refl)))
        | inr new ↦
            let lo : s.receive_ack < n = ground arith in
            let hi : n ≤ s.next_seqno = ground arith in
            rw (within, new) (inr (inr (lo, hi, advance-Advanced s n window_size h near lo hi)))
      ]
    ]
