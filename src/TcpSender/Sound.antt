-- ===== src/TcpSender/Sound.antt =====
-- tcp_sender.cc: what holds of a sender between two calls.
use cs144_introduction_to_co.Prelude.{
  ℕ, ◌+◌, ◌≤◌, ◌<◌, ◌^◌, ◌≡◌, inl, inr, refl, ap, sym, subst, ◌∙◌, arith, Bool, true, false, ltb,
  leb, if◌then◌else◌, List, [], ◌∷◌, Bool-cases,
}
use cs144_introduction_to_co.Prelude.Words.{add64}
use cs144_introduction_to_co.WrappingIntegers.{WrappingInt32, unwrap}
use cs144_introduction_to_co.WrappingIntegers.Laws.{IsWord}
use cs144_introduction_to_co.ByteStream.Queue.{contents, make-IsValid, write_lem}
use cs144_introduction_to_co.ByteStream.Queue
use cs144_introduction_to_co.TcpSegment.{TcpSegment}
use cs144_introduction_to_co.TcpSender.{
  TcpSender, fill_window, ack_received, advance, drop_acked, restart_clock, tick, retransmit,
  send_empty_segment,
}
use cs144_introduction_to_co.TcpSender.Chain.{Chain, Chain-append, Chain-le}
use cs144_introduction_to_co.TcpSender.Sends.{Sends, needed}
use cs144_introduction_to_co.TcpSender.Stream.{fill_window-Sends}
use cs144_introduction_to_co.TcpSender.Acks.{drop_acked-Splits}

-- The segments in flight cover the sequence numbers from some `una`, not above the last
-- acknowledgment, up to the next one to be sent, and are counted; numbers that the sender may
-- still use stay far below 2^64.
pub record IsSound (s : TcpSender) : Type 0 where
  pub una : ℕ
  pub chain : Chain s.isn una s.segments_in_flight s.next_seqno
  pub counted : una + s.bytes_in_flight ≡ s.next_seqno
  pub acked : una ≤ s.receive_ack
  pub sent : s.receive_ack ≤ s.next_seqno
  pub checkpoint : s.checkpoint ≡ s.receive_ack
  pub room : needed s < 2 ^ 62
  pub word : IsWord s.isn
  pub valid : Queue.IsValid s.stream

Sends-IsSound : (s t : TcpSender) → IsSound s → Sends s t → IsSound t
Sends-IsSound s t h k =
    let le = Chain-le s.isn s.next_seqno k.segs t.next_seqno k.chain in
    let c = k.counted in
    let n = k.kept in
    record {
      una = h.una;
      chain =
          subst (λ i. Chain i h.una t.segments_in_flight t.next_seqno) (sym k.isn)
            (subst (λ l. Chain s.isn h.una l t.next_seqno) (sym k.in_flight)
              (Chain-append s.isn h.una s.next_seqno t.next_seqno s.segments_in_flight k.segs
                h.chain k.chain));
      counted = omega arith;
      acked = omega (arith, k.receive_ack);
      sent = omega (arith, k.receive_ack);
      checkpoint = k.checkpoint ∙ h.checkpoint ∙ sym k.receive_ack;
      room = omega arith;
      word = omega (arith, ap (λ w. w.raw_value) k.isn);
      valid = k.valid;
    }

pub fill_window-IsSound : (s : TcpSender) → IsSound s → IsSound (fill_window s)
fill_window-IsSound s h =
    Sends-IsSound s (fill_window s) h (fill_window-Sends s h.valid (omega arith) (omega arith))

-- A sender whose other fields agree is sound as well.
pub same-IsSound :
    (s t : TcpSender)
    → IsSound s
    → t.isn ≡ s.isn
    → t.segments_in_flight ≡ s.segments_in_flight
    → t.next_seqno ≡ s.next_seqno
    → t.bytes_in_flight ≡ s.bytes_in_flight
    → t.receive_ack ≡ s.receive_ack
    → t.checkpoint ≡ s.checkpoint
    → needed t < 2 ^ 62
    → Queue.IsValid t.stream
    → IsSound t
same-IsSound s t h i f n b r c room v = record {
  una = h.una;
  chain = rw (i, f, n) h.chain;
  counted = omega arith;
  acked = omega arith;
  sent = omega arith;
  checkpoint = omega arith;
  room = room;
  word = omega (arith, ap (λ w. w.raw_value) i);
  valid = v;
}

-- The clock and the timeout are not part of it.
abbrev timed : TcpSender → Bool → ℕ → ℕ → ℕ → List TcpSegment → TcpSender
timed s counting clock retrans timeout out = record s {
  clock_is_counting = counting;
  clock = clock;
  consecutive_retrans = retrans;
  retrans_timeout = timeout;
  segments_out = out;
}

timed-IsSound :
    (s : TcpSender) (counting : Bool) (clock retrans timeout : ℕ) (out : List TcpSegment)
    → IsSound s
    → IsSound (timed s counting clock retrans timeout out)
timed-IsSound s counting clock retrans timeout out h =
    same-IsSound s (timed s counting clock retrans timeout out) h refl refl refl refl refl refl
      h.room h.valid

restart_by :
    (s : TcpSender) (queue : List TcpSegment)
    → IsSound s
    → IsSound (elim queue [ [] ↦ s | _ ∷ _ ↦ record s { clock_is_counting = true; clock = 0 } ])
restart_by s [] h = h
restart_by s (x ∷ xs) h =
    timed-IsSound s true 0 s.consecutive_retrans s.retrans_timeout s.segments_out h

restart_clock-IsSound : (s : TcpSender) → IsSound s → IsSound (restart_clock s)
unfolding restart_clock
restart_clock-IsSound s h = restart_by s s.segments_in_flight h

retransmit-IsSound : (s : TcpSender) (seg : TcpSegment) → IsSound s → IsSound (retransmit s seg)
unfolding retransmit
retransmit-IsSound s seg h = timed-IsSound s _ _ _ _ _ h

tick_by :
    (s t : TcpSender) (queue : List TcpSegment)
    → IsSound t
    → IsSound (elim queue [
      | [] ↦ record t { clock_is_counting = false }
      | seg ∷ _ ↦ if leb t.retrans_timeout t.clock then retransmit t seg else t
    ])
tick_by s t [] h =
    timed-IsSound t false t.clock t.consecutive_retrans t.retrans_timeout t.segments_out h
tick_by s t (seg ∷ segs) h = elim (Bool-cases (leb t.retrans_timeout t.clock)) [
  | inl e ↦ rw e (retransmit-IsSound t seg h)
  | inr e ↦ rw e h
]

pub tick-IsSound : (s : TcpSender) (ms : ℕ) → IsSound s → IsSound (tick s ms)
unfolding tick
tick-IsSound s ms h =
    let t : TcpSender = record s { clock = add64 s.clock ms } in
    tick_by s t s.segments_in_flight (
      timed-IsSound s s.clock_is_counting t.clock s.consecutive_retrans s.retrans_timeout
        s.segments_out h)

pub send_empty_segment-IsSound : (s : TcpSender) → IsSound s → IsSound (send_empty_segment s)
unfolding send_empty_segment
send_empty_segment-IsSound s h = timed-IsSound s _ _ _ _ _ h

advance-IsSound :
    (s : TcpSender) (ackno : ℕ)
    → IsSound s
    → s.bytes_in_flight < 2 ^ 31
    → s.receive_ack < ackno
    → ackno ≤ s.next_seqno
    → IsSound (advance s ackno)
unfolding advance
advance-IsSound s ackno h near new old =
    let (left, kept) = drop_acked s.isn s.next_seqno ackno s.bytes_in_flight s.segments_in_flight in
    let r =
      drop_acked-Splits s.isn h.una ackno s.next_seqno s.bytes_in_flight s.segments_in_flight h.word
        (omega (arith, h.room)) near h.counted h.chain in
    let acked : TcpSender = record s {
      receive_ack = ackno;
      checkpoint = ackno;
      bytes_in_flight = left;
      segments_in_flight = kept;
    } in
    let sound : IsSound acked = record {
      una = r.una;
      chain = r.after;
      counted = r.counted;
      acked = elim r.covered [ inl c ↦ c | inr c ↦ omega (arith, c, h.acked) ];
      sent = old;
      checkpoint = refl;
      room = h.room;
      word = h.word;
      valid = h.valid;
    } in
    let f = fill_window acked in
    restart_clock-IsSound
      (timed f f.clock_is_counting f.clock 0 s.initial_retransmission_timeout f.segments_out)
      (timed-IsSound f f.clock_is_counting f.clock 0 s.initial_retransmission_timeout f.segments_out
        (fill_window-IsSound acked sound))

-- The window is not part of it either.
windowed-IsSound : (s : TcpSender) (w : ℕ) → IsSound s → IsSound (record s { window_size = w })
windowed-IsSound s w h =
    same-IsSound s (record s { window_size = w }) h refl refl refl refl refl refl h.room h.valid

pub ack_received-IsSound :
    (s : TcpSender) (ackno : WrappingInt32) (window_size : ℕ)
    → IsSound s
    → s.bytes_in_flight < 2 ^ 31
    → IsSound (ack_received s ackno window_size)
unfolding ack_received
ack_received-IsSound s ackno window_size h near =
    let n = unwrap ackno s.isn s.checkpoint in
    let t : TcpSender = record s { window_size = window_size } in
    let w = windowed-IsSound s window_size h in
    elim (Bool-cases (ltb s.next_seqno n)) [
      | inl beyond ↦ rw beyond h
      | inr within ↦ elim (Bool-cases (leb n s.receive_ack)) [
        | inl old ↦ rw (within, old) w
        | inr new ↦ rw (within, new) (advance-IsSound t n w near (ground arith) (ground arith))
      ]
    ]
