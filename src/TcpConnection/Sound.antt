-- ===== src/TcpConnection/Sound.antt =====
-- tcp_connection.cc: the sender of a connection over the calls of the connection.
use cs144_introduction_to_co.Prelude.{ℕ, ◌+◌, ◌<◌, ◌^◌, refl, ap, arith, Bool, true, false, length}
use cs144_introduction_to_co.WrappingIntegers.{WrappingInt32}
use cs144_introduction_to_co.WrappingIntegers.Laws.{IsWord}
use cs144_introduction_to_co.ByteStream
use cs144_introduction_to_co.ByteStream.Queue.{set_error-IsValid}
use cs144_introduction_to_co.TcpConfig.{TcpConfig}
use cs144_introduction_to_co.TcpSegment.{TcpSegment}
use cs144_introduction_to_co.TcpSender.{value_or, fill_window}
use cs144_introduction_to_co.TcpSender.Sends.{needed}
use cs144_introduction_to_co.TcpSender.Sound.{
  IsSound, same-IsSound, fill_window-IsSound, ack_received-IsSound, tick-IsSound,
  send_empty_segment-IsSound,
}
use cs144_introduction_to_co.TcpSender.Runs.{make_sender-IsSound, Step-IsSound}
use cs144_introduction_to_co.TcpSender.Runs
use cs144_introduction_to_co.TcpConnection.{
  TcpConnection, make_connection, collect, clean_shutdown, segment_sends, abort, unclean_shutdown,
  react, take_ack, tick, write, end_input_stream, connect,
}
use cs144_introduction_to_co.TcpConnection.Cases.{
  ticked, heard, taken_in, window_filled, queues_empty, segment_sends_cases, take_ack_cases,
  answer_cases, react_cases, segment_received_cases, tick_cases, destroy_cases,
}
use cs144_introduction_to_co.TcpConnection.Shutdown.{by_queue}
use cs144_introduction_to_co.TcpConnection.Runs.{
  Call, connects, writes, ends, ticks, receives, reads, destroys,
}

abbrev Ok : TcpConnection → Type 0
Ok c = IsSound c.sender

cleaned : (c : TcpConnection) → Ok c → Ok (clean_shutdown (collect (window_filled c)))
unfolding clean_shutdown collect
cleaned c h =
    let f = fill_window-IsSound c.sender h in
    same-IsSound (fill_window c.sender) _ f refl refl refl refl refl refl f.room f.valid

sends : (b : Bool) (c : TcpConnection) → Ok c → Ok (segment_sends b c)
sends b c h = segment_sends_cases Ok c b (λ e s. h) (cleaned c h)

aborted : (c : TcpConnection) → Ok c → Ok (abort c)
unfolding abort ByteStream.set_error
aborted c h =
    let (e, v) = set_error-IsValid c.sender.stream h.valid in
    same-IsSound c.sender (abort c).sender h refl refl refl refl refl refl
      (omega (arith, ap length e, h.room)) v

unclean : (b : Bool) (c : TcpConnection) → Ok c → Ok (unclean_shutdown b c)
unfolding unclean_shutdown
unclean true c h =
    let s = (abort c).sender in
    sends false _ (
      by_queue IsSound s s.segments_out (send_empty_segment-IsSound s (aborted c h))
        (λ e. aborted c h))
unclean false c h = aborted c h

acked :
    (c : TcpConnection) (seg : TcpSegment)
    → Ok c
    → c.sender.bytes_in_flight < 2 ^ 31
    → Ok (take_ack c seg)
acked c seg h near =
    take_ack_cases Ok c seg
      (λ e. ack_received-IsSound c.sender seg.header.ackno seg.header.win h near) h

reacts : (c : TcpConnection) (seg : TcpSegment) → Ok c → Ok (react c seg)
reacts c seg h =
    react_cases Ok c seg (λ s n. sends true c h) (λ r i. h) (λ r i. unclean false c h)
      (λ p.
        answer_cases Ok c seg
          (λ e. sends false (queues_empty c) (send_empty_segment-IsSound c.sender h))
          (sends false c h))

ticks_on : (c : TcpConnection) (ms : ℕ) → Ok c → Ok (tick c ms)
ticks_on c ms h =
    let t = tick-IsSound c.sender ms h in
    let u = unclean_shutdown true (ticked c ms) in
    tick_cases Ok c ms h (λ e. sends false u (unclean true (ticked c ms) t))
      (sends false (ticked c ms) t)

-- What keeps the absolute numbers apart: acknowledgments come while fewer than 2^31 sequence numbers
-- are in flight, and the outbound stream carries less than 2^62 bytes in all.
abbrev pub Near : (c d : TcpConnection) → Call c d → Type 0
Near _ _ (connects c) = Unit
Near _ _ (writes c bytes) = needed c.sender + length bytes < 2 ^ 62
Near _ _ (ends c) = Unit
Near _ _ (ticks c ms) = Unit
Near _ _ (receives c seg) = c.sender.bytes_in_flight < 2 ^ 31
Near _ _ (reads c n) = Unit
Near _ _ (destroys c) = Unit

pub data Reach (c : TcpConnection) : TcpConnection → Type 0 where
  here : Reach c c
  next : {d e : TcpConnection} → Reach c d → (k : Call d e) → Near d e k → Reach c e

call-Ok : (c d : TcpConnection) (k : Call c d) → Near c d k → Ok c → Ok d
unfolding connect write end_input_stream
call-Ok _ _ (connects c) n h = sends true c h
call-Ok _ _ (writes c bytes) n h = sends false _ (Step-IsSound (Runs.write c.sender bytes n) h)
call-Ok _ _ (ends c) n h = sends false _ (Step-IsSound (Runs.end c.sender) h)
call-Ok _ _ (ticks c ms) n h = ticks_on c ms h
call-Ok _ _ (receives c seg) n h =
    segment_received_cases Ok c seg (λ e. h) (λ e. h)
      (reacts (taken_in c seg) seg (acked (heard c) seg h n))
call-Ok _ _ (reads c k) n h = h
call-Ok _ _ (destroys c) n h = destroy_cases Ok c (unclean true c h) h

every : {c d : TcpConnection} → Reach c d → Ok c → Ok d
every here h = h
every (next r k n) h = call-Ok _ _ k n (every r h)

-- From a new connection on, after any calls, resets and the destructor included, with fewer than 2^31
-- sequence numbers in flight when a segment comes and less than 2^62 bytes written in all: the segments
-- in flight cover the sequence numbers up to the next one without a gap, `bytes_in_flight` counts
-- them, the acknowledgment is not above the next number, and nothing has wrapped around.
pub Reach-IsSound_sender :
    (cfg : TcpConfig) (random : WrappingInt32) (c : TcpConnection)
    → cfg.send_capacity < 2 ^ 64
    → IsWord (value_or cfg.fixed_isn random)
    → Reach (make_connection cfg random) c
    → IsSound c.sender
unfolding make_connection
Reach-IsSound_sender cfg random c h w r =
    every r (make_sender-IsSound cfg.send_capacity cfg.rt_timeout cfg.fixed_isn random h w)
