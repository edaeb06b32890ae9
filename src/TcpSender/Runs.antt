-- ===== src/TcpSender/Runs.antt =====
-- tcp_sender.cc: any sequence of calls of a sender and of writes to its stream.
use cs144_introduction_to_co.Prelude.{
  ℕ, ◌+◌, ◌<◌, ◌^◌, ◌-◌, refl, ap, ◌∙◌, arith, Option, List, length, length-append, length-take,
  take, min,
}
use cs144_introduction_to_co.WrappingIntegers.{WrappingInt32}
use cs144_introduction_to_co.WrappingIntegers.Laws.{IsWord}
use cs144_introduction_to_co.ByteStream
use cs144_introduction_to_co.ByteStream.Queue.{
  contents, make-IsValid, write_lem, contents-make, end_input-IsValid,
}
use cs144_introduction_to_co.ByteStream.Queue
use cs144_introduction_to_co.TcpSender.{
  TcpSender, make_sender, fill_window, ack_received, tick, send_empty_segment, value_or,
}
use cs144_introduction_to_co.TcpSender.Sends.{needed}
use cs144_introduction_to_co.TcpSender.Sound.{
  IsSound, fill_window-IsSound, ack_received-IsSound, tick-IsSound, send_empty_segment-IsSound,
  same-IsSound,
}

-- The calls, with what keeps the absolute numbers apart: acknowledgments come while fewer than 2^31
-- sequence numbers are in flight, and the stream carries less than 2^62 bytes in all.
pub data Step : TcpSender → TcpSender → Type 0 where
  fill : (s : TcpSender) → Step s (fill_window s)
  ack :
      (s : TcpSender) (ackno : WrappingInt32) (window_size : ℕ)
      → s.bytes_in_flight < 2 ^ 31
      → Step s (ack_received s ackno window_size)
  wait : (s : TcpSender) (ms : ℕ) → Step s (tick s ms)
  empty : (s : TcpSender) → Step s (send_empty_segment s)
  write :
      (s : TcpSender) (bytes : List ℕ)
      → needed s + length bytes < 2 ^ 62
      → Step s (record s { stream = (ByteStream.write s.stream bytes).0 })
  end : (s : TcpSender) → Step s (record s { stream = ByteStream.end_input s.stream })

pub data Reach (s : TcpSender) : TcpSender → Type 0 where
  here : Reach s s
  next : {t u : TcpSender} → Reach s t → Step t u → Reach s u

pub make_sender-IsSound :
    (capacity timeout : ℕ) (fixed : Option WrappingInt32) (random : WrappingInt32)
    → capacity < 2 ^ 64
    → IsWord (value_or fixed random)
    → IsSound (make_sender capacity timeout fixed random)
unfolding make_sender
make_sender-IsSound capacity timeout fixed random h w = record {
  una = 0;
  chain = refl;
  counted = refl;
  acked = omega arith;
  sent = omega arith;
  checkpoint = refl;
  room = omega (arith, ap length (contents-make capacity));
  word = w;
  valid = make-IsValid capacity h;
}

streamed-IsSound :
    (s : TcpSender) (stream : ByteStream.ByteStream)
    → IsSound s
    → Queue.IsValid stream
    → needed (record s { stream = stream }) < 2 ^ 62
    → IsSound (record s { stream = stream })
streamed-IsSound s stream h v room =
    same-IsSound s (record s { stream = stream }) h refl refl refl refl refl refl room v

pub Step-IsSound : {s t : TcpSender} → Step s t → IsSound s → IsSound t
Step-IsSound (fill s) h = fill_window-IsSound s h
Step-IsSound (ack s ackno window near) h = ack_received-IsSound s ackno window h near
Step-IsSound (wait s ms) h = tick-IsSound s ms h
Step-IsSound (empty s) h = send_empty_segment-IsSound s h
Step-IsSound (write s bytes room) h =
    let (c, e, v) = write_lem s.stream bytes h.valid in
    let n : ℕ = min (length bytes) (s.stream.capacity - length (contents s.stream)) in
    let l = ap length c ∙ length-append (contents s.stream) (take n bytes) in
    streamed-IsSound s (ByteStream.write s.stream bytes).0 h v
      (omega (arith, l, length-take n bytes, room))
Step-IsSound (end s) h =
    let (c, v) = end_input-IsValid s.stream h.valid in
    streamed-IsSound s (ByteStream.end_input s.stream) h v (omega (arith, ap length c, h.room))

every : {s t : TcpSender} → Reach s t → IsSound s → IsSound t
every here h = h
every (next r st) h = Step-IsSound st (every r h)

-- From a new sender on, after any calls: the segments in flight cover, in order and without a gap,
-- the sequence numbers from one that is not above the last acknowledgment up to the next one to
-- be sent; `bytes_in_flight` is how many these are; the acknowledgment is not above the next
-- sequence number, and nothing has wrapped around.
pub Reach-IsSound :
    (capacity timeout : ℕ) (fixed : Option WrappingInt32) (random : WrappingInt32) (s : TcpSender)
    → capacity < 2 ^ 64
    → IsWord (value_or fixed random)
    → Reach (make_sender capacity timeout fixed random) s
    → IsSound s
Reach-IsSound capacity timeout fixed random s h w r =
    every r (make_sender-IsSound capacity timeout fixed random h w)
