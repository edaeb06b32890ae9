-- ===== src/TcpConnection/Emits.antt =====
-- tcp_connection.cc: what the calls of a connection send, and what each segment carries.
use cs144_introduction_to_co.Prelude.{
  ℕ, ◌%◌, ◌^◌, ◌≡◌, refl, ap, sym, subst, ◌∙◌, Bool, true, false, not, ◌&&◌, Option, none, some,
  List, [], ◌∷◌, ◌++◌, append-nil, append_assoc, map, All, All-append, Bool-cases, inl, inr,
}
use cs144_introduction_to_co.WrappingIntegers.{WrappingInt32}
use cs144_introduction_to_co.TcpSegment.{TcpSegment}
use cs144_introduction_to_co.TcpReceiver.{TcpReceiver, get_ackno}
use cs144_introduction_to_co.TcpReceiver
use cs144_introduction_to_co.TcpSender.{TcpSender}
use cs144_introduction_to_co.TcpSender
use cs144_introduction_to_co.TcpConnection.{
  TcpConnection, stamp, with_ack, with_rst, collect, clean_shutdown, segment_sends, connect, abort,
  unclean_shutdown, answer, react, take_ack, segment_received, write, tick, end_input_stream,
  destroy,
}
use cs144_introduction_to_co.TcpConnection.Cases.{
  ticked, heard, taken_in, queues_empty, take_ack_cases, answer_cases, react_cases,
  segment_received_cases, tick_cases, destroy_cases,
}

-- A segment carries the acknowledgment and the window of the receiver, if that has one to give.
abbrev pub Stamps : TcpReceiver → Option WrappingInt32 → TcpSegment → Type 0
Stamps r none seg = Unit
Stamps r (some ackno) seg =
    (seg.header.ack ≡ true)
    × (seg.header.ackno ≡ ackno)
    × (seg.header.win ≡ TcpReceiver.window_size r % 2 ^ 16)

abbrev pub Stamped : TcpReceiver → TcpSegment → Type 0
Stamped r seg = Stamps r (get_ackno r) seg

-- `d` is `c` after more was sent, all of it with the acknowledgment of `d`.
pub record Emits (c d : TcpConnection) : Type 0 where
  pub sent : List TcpSegment
  pub out : d.segments_out ≡ c.segments_out ++ sent
  pub stamped : All (Stamped d.receiver) sent

pub silent : (c d : TcpConnection) → d.segments_out ≡ c.segments_out → Emits c d
silent c d e = record { sent = []; out = e ∙ sym (append-nil c.segments_out); stamped = tt }

with_rst_lem :
    (r : TcpReceiver) (o : Option WrappingInt32) (b : Bool) (seg : TcpSegment)
    → Stamps r o (with_rst b (with_ack r o seg))
with_rst_lem r none b seg = tt
with_rst_lem r (some a) true seg = (refl, refl, refl)
with_rst_lem r (some a) false seg = (refl, refl, refl)

map-Stamped :
    (c : TcpConnection) (segs : List TcpSegment) → All (Stamped c.receiver) (map (stamp c) segs)
unfolding stamp
map-Stamped c [] = tt
map-Stamped c (seg ∷ segs) =
    (with_rst_lem c.receiver (get_ackno c.receiver) c.need_send_rst seg, map-Stamped c segs)

collect-Emits : (c : TcpConnection) → Emits c (collect c)
unfolding collect
collect-Emits c = record {
  sent = map (stamp c) c.sender.segments_out;
  out = refl;
  stamped = map-Stamped c c.sender.segments_out;
}

pub segment_sends-Emits : (b : Bool) (c : TcpConnection) → Emits c (segment_sends b c)
unfolding segment_sends clean_shutdown
segment_sends-Emits b c =
    let t = record c { syn_sended = true; sender = TcpSender.fill_window c.sender } in
    let e = collect-Emits t in
    elim (Bool-cases (not b && not c.syn_sended)) [
      | inl stop ↦ rw stop (silent c c refl)
      | inr go ↦ rw go (record { sent = e.sent; out = e.out; stamped = e.stamped })
    ]

pub receiver-segment_sends :
    (b : Bool) (c : TcpConnection) → (segment_sends b c).receiver ≡ c.receiver
unfolding segment_sends clean_shutdown collect
receiver-segment_sends b c = elim (Bool-cases (not b && not c.syn_sended)) [
  | inl stop ↦ rw stop refl
  | inr go ↦ rw go refl
]

pub after : (c d e : TcpConnection) → d.segments_out ≡ c.segments_out → Emits d e → Emits c e
after c d e same h = record {
  sent = h.sent;
  out = h.out ∙ ap (λ l. l ++ h.sent) same;
  stamped = h.stamped;
}

-- One emission after another, for the same receiver.
pub Emits-trans :
    (c d e : TcpConnection) → e.receiver ≡ d.receiver → Emits c d → Emits d e → Emits c e
Emits-trans c d e same h k = record {
  sent = h.sent ++ k.sent;
  out = k.out ∙ ap (λ l. l ++ k.sent) h.out ∙ append_assoc c.segments_out h.sent k.sent;
  stamped =
      All-append (Stamped e.receiver) h.sent k.sent
        (subst (λ r. All (Stamped r) h.sent) (sym same) h.stamped) k.stamped;
}

sends_on :
    (b : Bool) (c d : TcpConnection) → d.segments_out ≡ c.segments_out → Emits c (segment_sends b d)
sends_on b c d same = after c d (segment_sends b d) same (segment_sends-Emits b d)

abort_out : (c : TcpConnection) → (abort c).segments_out ≡ c.segments_out
unfolding abort
abort_out c = refl

pub unclean_shutdown-Emits : (b : Bool) (c : TcpConnection) → Emits c (unclean_shutdown b c)
unfolding unclean_shutdown
unclean_shutdown-Emits true c = sends_on false c _ (abort_out c)
unclean_shutdown-Emits false c = silent c (abort c) (abort_out c)

answer-Emits : (c : TcpConnection) (seg : TcpSegment) → Emits c (answer c seg)
answer-Emits c seg =
    answer_cases (Emits c) c seg (λ e. sends_on false c (queues_empty c) refl)
      (sends_on false c c refl)

react-Emits : (c : TcpConnection) (seg : TcpSegment) → Emits c (react c seg)
react-Emits c seg =
    react_cases (Emits c) c seg (λ e n. segment_sends-Emits true c) (λ r i. silent c c refl)
      (λ r i. unclean_shutdown-Emits false c) (λ p. answer-Emits c seg)

take_ack_out :
    (c : TcpConnection) (seg : TcpSegment) → (take_ack c seg).segments_out ≡ c.segments_out
take_ack_out c seg = take_ack_cases (λ d. d.segments_out ≡ c.segments_out) c seg (λ e. refl) refl

pub segment_received-Emits :
    (c : TcpConnection) (seg : TcpSegment) → Emits c (segment_received c seg)
segment_received-Emits c seg =
    segment_received_cases (Emits c) c seg (λ e. silent c c refl) (λ e. silent c (heard c) refl)
      (after c (taken_in c seg) (react (taken_in c seg) seg) (take_ack_out (heard c) seg)
        (react-Emits (taken_in c seg) seg))

pub tick-Emits : (c : TcpConnection) (ms : ℕ) → Emits c (tick c ms)
tick-Emits c ms =
    let t = ticked c ms in
    let u = unclean_shutdown true t in
    tick_cases (Emits c) c ms (silent c c refl)
      (λ e.
        Emits-trans c u (segment_sends false u) (receiver-segment_sends false u)
          (after c t u refl (unclean_shutdown-Emits true t)) (segment_sends-Emits false u))
      (sends_on false c t refl)

pub write-Emits : (c : TcpConnection) (bytes : List ℕ) → Emits c (write c bytes).0
unfolding write
write-Emits c bytes = sends_on false c _ refl

pub end_input_stream-Emits : (c : TcpConnection) → Emits c (end_input_stream c)
unfolding end_input_stream
end_input_stream-Emits c = sends_on false c _ refl

pub connect-Emits : (c : TcpConnection) → Emits c (connect c)
unfolding connect
connect-Emits c = segment_sends-Emits true c

pub destroy-Emits : (c : TcpConnection) → Emits c (destroy c)
destroy-Emits c = destroy_cases (Emits c) c (unclean_shutdown-Emits true c) (silent c c refl)
