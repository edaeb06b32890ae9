-- ===== src/TcpConnection/Shutdown.antt =====
-- tcp_connection.cc: the end of a connection, clean or by an abort.
use cs144_introduction_to_co.Prelude.{
  ℕ, ◌*◌, ◌≤◌, ◌≡◌, ◌≢◌, ◌⊎◌, inl, inr, refl, ◌∙◌, arith, Bool, true, false, not, ◌&&◌, ◌||◌, ◌==◌,
  leb, if◌then◌else◌, Bool-cases, List, [], ◌∷◌,
}
use cs144_introduction_to_co.ByteStream
use cs144_introduction_to_co.TcpSegment.{TcpSegment}
use cs144_introduction_to_co.TcpReceiver.{stream_out}
use cs144_introduction_to_co.TcpSender.{
  TcpSender, fill_window, fill_loop, next_segment, send_segment, remaining, effective_window,
  fill_fuel,
}
use cs144_introduction_to_co.TcpSender
use cs144_introduction_to_co.TcpSender.Grows.{fill_window-Grows}
use cs144_introduction_to_co.TcpConnection.{
  TcpConnection, collect, clean_shutdown, segment_sends, abort, nonempty_queue, unclean_shutdown,
  react, take_ack, segment_received, write, tick, end_input_stream, destroy, connect,
}
use cs144_introduction_to_co.TcpConnection.Cases.{
  ticked, heard, taken_in, window_filled, queues_empty, segment_sends_cases, take_ack_cases,
  answer_cases, react_cases, segment_received_cases, tick_cases, destroy_cases,
}

-- The end of the protocol: both streams are at their end, everything is acknowledged, and the peer
-- needs no answer any more, or had the time to ask for one.
pub record IsFinished (c : TcpConnection) : Type 0 where
  pub inbound : ByteStream.input_ended (stream_out c.receiver) ≡ true
  pub outbound : ByteStream.eof c.sender.stream ≡ true
  pub acked : c.sender.bytes_in_flight ≡ 0
  pub over :
      (c.linger_after_streams_finish ≡ false)
      ⊎ (10 * c.cfg.rt_timeout ≤ c.time_since_last_segment_received)

pub record IsAborted (c : TcpConnection) : Type 0 where
  pub inbound : (stream_out c.receiver).error ≡ true
  pub outbound : c.sender.stream.error ≡ true
  pub inactive : c.active ≡ false

abbrev pub Ends : TcpConnection → Type 0
Ends c = c.active ≡ false → IsFinished c ⊎ IsAborted c

finished_by :
    (c : TcpConnection) (ended eof : Bool) (linger : Bool)
    → (ended
        && eof
        && c.sender.bytes_in_flight == 0
        && (not linger || leb (10 * c.cfg.rt_timeout) c.time_since_last_segment_received))
      ≡ true
    → (ended ≡ true)
      × (eof ≡ true)
      × (c.sender.bytes_in_flight ≡ 0)
      × ((linger ≡ false) ⊎ (10 * c.cfg.rt_timeout ≤ c.time_since_last_segment_received))
finished_by c true true true h = (refl, refl, ground arith, inr (ground arith))
finished_by c true true false h = (refl, refl, ground arith, inl refl)
finished_by c true false l h = ground arith
finished_by c false e l h = ground arith

clean_shutdown-Ends : (c : TcpConnection) → c.active ≡ true → Ends (clean_shutdown c)
unfolding clean_shutdown
clean_shutdown-Ends c on off =
    let ended = ByteStream.input_ended (stream_out c.receiver) in
    let eof = ByteStream.eof c.sender.stream in
    let linger = if ended && not eof then false else c.linger_after_streams_finish in
    let over = not linger || leb (10 * c.cfg.rt_timeout) c.time_since_last_segment_received in
    let (a, b, d, e) =
      finished_by c ended eof linger
        (elim (Bool-cases (ended && eof && c.sender.bytes_in_flight == 0 && over)) [
          | inl t ↦ t
          | inr f ↦ ground arith
        ]) in
    inl (record { inbound = a; outbound = b; acked = d; over = e })

active_sends : (b : Bool) (c : TcpConnection) → c.active ≡ true → Ends (segment_sends b c)
unfolding collect
active_sends b c on =
    segment_sends_cases Ends c b (λ e s off. ground arith)
      (clean_shutdown-Ends (collect (window_filled c)) on)

filled_error : (c : TcpConnection) → (fill_window c.sender).stream.error ≡ c.sender.stream.error
filled_error c = (fill_window-Grows c.sender).error

cleaned-IsAborted :
    (c : TcpConnection) → IsAborted c → IsAborted (clean_shutdown (collect (window_filled c)))
unfolding clean_shutdown collect
cleaned-IsAborted c h = record {
  inbound = h.inbound;
  outbound = filled_error c ∙ h.outbound;
  inactive = ground (arith, h.inactive);
}

pub sends-IsAborted : (b : Bool) (c : TcpConnection) → IsAborted c → IsAborted (segment_sends b c)
sends-IsAborted b c h = segment_sends_cases IsAborted c b (λ e s. h) (cleaned-IsAborted c h)

abort-IsAborted : (c : TcpConnection) → IsAborted (abort c)
unfolding abort ByteStream.set_error stream_out
abort-IsAborted c = record { inbound = refl; outbound = refl; inactive = refl }

pub by_queue {ℓ} :
    (P : TcpSender → Type ℓ) (s : TcpSender) (q : List TcpSegment)
    → P (TcpSender.send_empty_segment s)
    → (q ≢ [] → P s)
    → P (elim q [ [] ↦ TcpSender.send_empty_segment s | _ ∷ _ ↦ s ])
by_queue P s [] h k = h
by_queue P s (x ∷ xs) h k = k (λ e. cc)

emptied_error : (s : TcpSender) → (nonempty_queue s).stream.error ≡ s.stream.error
unfolding TcpSender.send_empty_segment
emptied_error s = by_queue (λ t. t.stream.error ≡ s.stream.error) s s.segments_out refl (λ e. refl)

pub unclean_shutdown-IsAborted : (b : Bool) (c : TcpConnection) → IsAborted (unclean_shutdown b c)
unfolding unclean_shutdown
unclean_shutdown-IsAborted true c =
    let h = abort-IsAborted c in
    sends-IsAborted false _ (record {
      inbound = h.inbound;
      outbound = emptied_error (abort c).sender ∙ h.outbound;
      inactive = h.inactive;
    })
unclean_shutdown-IsAborted false c = abort-IsAborted c

ended : (c : TcpConnection) → IsAborted c → Ends c
ended c h off = inr h

still : (c : TcpConnection) → c.active ≡ true → Ends c
still c on off = ground arith

active_taken : (c : TcpConnection) (seg : TcpSegment) → (take_ack c seg).active ≡ c.active
active_taken c seg = take_ack_cases (λ d. d.active ≡ c.active) c seg (λ e. refl) refl

react-Ends : (c : TcpConnection) (seg : TcpSegment) → c.active ≡ true → Ends (react c seg)
react-Ends c seg on =
    react_cases Ends c seg (λ e n. active_sends true c on) (λ r i. still c on)
      (λ r i. ended (unclean_shutdown false c) (unclean_shutdown-IsAborted false c))
      (λ p.
        answer_cases Ends c seg (λ e. active_sends false (queues_empty c) on)
          (active_sends false c on))

pub segment_received-Ends :
    (c : TcpConnection) (seg : TcpSegment) → c.active ≡ true → Ends (segment_received c seg)
segment_received-Ends c seg on =
    segment_received_cases Ends c seg (λ e. still c on) (λ e. still (heard c) on)
      (react-Ends (taken_in c seg) seg (active_taken (heard c) seg ∙ on))

pub tick-Ends : (c : TcpConnection) (ms : ℕ) → c.active ≡ true → Ends (tick c ms)
tick-Ends c ms on =
    let u = unclean_shutdown true (ticked c ms) in
    tick_cases Ends c ms (still c on)
      (λ e.
        ended (segment_sends false u)
          (sends-IsAborted false u (unclean_shutdown-IsAborted true (ticked c ms))))
      (active_sends false (ticked c ms) on)

pub destroy-Ends : (c : TcpConnection) → c.active ≡ true → Ends (destroy c)
destroy-Ends c on =
    destroy_cases Ends c (ended (unclean_shutdown true c) (unclean_shutdown-IsAborted true c))
      (still c on)

-- All calls but the ticks, segments and the destructor: `segment_sends` on what has the same flag.
pub call-Ends :
    (c : TcpConnection) (bytes : List ℕ)
    → c.active ≡ true
    → Ends (connect c) × Ends (write c bytes).0 × Ends (end_input_stream c)
unfolding connect write end_input_stream
call-Ends c bytes on = (active_sends true c on, active_sends false _ on, active_sends false _ on)
