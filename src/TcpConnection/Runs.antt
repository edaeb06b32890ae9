-- ===== src/TcpConnection/Runs.antt =====
-- tcp_connection.hh: the calls of a connection, and what holds of each of them.
use cs144_introduction_to_co.Prelude.{ℕ, ◌≡◌, refl, arith, true, false, List, [], ◌⊎◌}
use cs144_introduction_to_co.ByteStream
use cs144_introduction_to_co.TcpSegment.{TcpSegment}
use cs144_introduction_to_co.TcpReceiver.{stream_out, with_stream}
use cs144_introduction_to_co.TcpConnection.{
  TcpConnection, connect, write, end_input_stream, tick, segment_received, destroy,
}
use cs144_introduction_to_co.TcpConnection.Emits.{
  Emits, silent, connect-Emits, write-Emits, end_input_stream-Emits, tick-Emits,
  segment_received-Emits, destroy-Emits,
}
use cs144_introduction_to_co.TcpConnection.Shutdown.{
  IsFinished, IsAborted, call-Ends, tick-Ends, segment_received-Ends, destroy-Ends,
}

-- The owner's read of `inbound_stream`.
abbrev pub inbound_read : TcpConnection → ℕ → TcpConnection
inbound_read c n = record c {
  receiver = with_stream c.receiver (ByteStream.read (stream_out c.receiver) n).0;
}

pub data Call : TcpConnection → TcpConnection → Type 0 where
  connects : (c : TcpConnection) → Call c (connect c)
  writes : (c : TcpConnection) (bytes : List ℕ) → Call c (write c bytes).0
  ends : (c : TcpConnection) → Call c (end_input_stream c)
  ticks : (c : TcpConnection) (ms : ℕ) → Call c (tick c ms)
  receives : (c : TcpConnection) (seg : TcpSegment) → Call c (segment_received c seg)
  reads : (c : TcpConnection) (n : ℕ) → Call c (inbound_read c n)
  destroys : (c : TcpConnection) → Call c (destroy c)

-- Whatever is called, the queue of segments only grows, and each new segment carries the
-- acknowledgment number and, as 16 bits, the window that the receiver has at the end of the call,
-- if it has an acknowledgment to give.
pub every_segment_stamped : (c d : TcpConnection) → Call c d → Emits c d
every_segment_stamped _ _ (connects c) = connect-Emits c
every_segment_stamped _ _ (writes c bytes) = write-Emits c bytes
every_segment_stamped _ _ (ends c) = end_input_stream-Emits c
every_segment_stamped _ _ (ticks c ms) = tick-Emits c ms
every_segment_stamped _ _ (receives c seg) = segment_received-Emits c seg
every_segment_stamped _ _ (reads c n) = silent c (inbound_read c n) refl
every_segment_stamped _ _ (destroys c) = destroy-Emits c

-- A call that makes an active connection inactive was the last of the protocol or an abort. The last:
-- the peer's stream has ended, the own stream was sent to its end, everything is acknowledged, and
-- there is no lingering, or nothing was heard for ten timeouts. An abort: both streams are in error.
pub shutdown_clean_or_abort :
    (c d : TcpConnection)
    → Call c d
    → c.active ≡ true
    → d.active ≡ false
    → IsFinished d ⊎ IsAborted d
shutdown_clean_or_abort _ _ (connects c) on = (call-Ends c [] on).0
shutdown_clean_or_abort _ _ (writes c bytes) on = (call-Ends c bytes on).1
shutdown_clean_or_abort _ _ (ends c) on = (call-Ends c [] on).2
shutdown_clean_or_abort _ _ (ticks c ms) on = tick-Ends c ms on
shutdown_clean_or_abort _ _ (receives c seg) on = segment_received-Ends c seg on
shutdown_clean_or_abort _ _ (reads c n) on = λ off. ground arith
shutdown_clean_or_abort _ _ (destroys c) on = destroy-Ends c on
