-- ===== src/TcpConnection.antt =====
-- tcp_connection.hh and tcp_connection.cc: a sender and a receiver joined to one connection.
-- `_is_passive_close` is never read, and is left out; the messages to `cerr` too.
use cs144_introduction_to_co.Prelude.{
  ℕ, ◌*◌, ◌%◌, ◌^◌, Bool, true, false, not, ◌&&◌, ◌||◌, Option, none, some, List, [], ◌∷◌, ◌++◌,
  map, ltb, leb, ◌==◌, if◌then◌else◌, has_value,
}
use cs144_introduction_to_co.Prelude.Words.{add64}
use cs144_introduction_to_co.WrappingIntegers.{WrappingInt32}
use cs144_introduction_to_co.Buffer
use cs144_introduction_to_co.ByteStream.{ByteStream}
use cs144_introduction_to_co.ByteStream
use cs144_introduction_to_co.TcpConfig.{TcpConfig, max_retx_attempts}
use cs144_introduction_to_co.TcpSegment.{TcpSegment, length_in_sequence_space}
use cs144_introduction_to_co.TcpReceiver.{
  TcpReceiver, make_receiver, get_ackno, stream_out, with_stream,
}
use cs144_introduction_to_co.TcpReceiver
use cs144_introduction_to_co.TcpSender.{TcpSender, make_sender}
use cs144_introduction_to_co.TcpSender
use cs144_introduction_to_co.TcpState.{SenderSummary, sender_summary}
pub mod Cases
pub mod Emits
pub mod Shutdown
pub mod Resets
pub mod Sound
pub mod Opening
pub mod Handshake
pub mod Runs
mod Examples

pub record TcpConnection : Type 0 where
  pub cfg : TcpConfig
  pub receiver : TcpReceiver
  pub sender : TcpSender
  pub active : Bool
  pub syn_sended : Bool
  pub time_since_last_segment_received : ℕ
  pub need_send_rst : Bool
  pub segments_out : List TcpSegment
  pub linger_after_streams_finish : Bool

-- `random` is the number that `random_device` draws for the initial sequence number.
unfoldable pub make_connection : TcpConfig → WrappingInt32 → TcpConnection
make_connection cfg random = record {
  cfg = cfg;
  receiver = make_receiver cfg.recv_capacity;
  sender = make_sender cfg.send_capacity cfg.rt_timeout cfg.fixed_isn random;
  active = true;
  syn_sended = false;
  time_since_last_segment_received = 0;
  need_send_rst = false;
  segments_out = [];
  linger_after_streams_finish = true;
}

-- The part of the header that the receiver fills in; `win` is a `uint16_t`.
abbrev pub with_ack : TcpReceiver → Option WrappingInt32 → TcpSegment → TcpSegment
with_ack r none seg = seg
with_ack r (some ackno) seg = record seg {
  header = record (seg.header) {
    ack = true;
    ackno = ackno;
    win = TcpReceiver.window_size r % 2 ^ 16;
  };
}

abbrev pub with_rst : Bool → TcpSegment → TcpSegment
with_rst rst seg = if rst then record seg { header = record (seg.header) { rst = true } } else seg

-- What is done to each segment of the sender's queue before it leaves.
unfoldable pub stamp : TcpConnection → TcpSegment → TcpSegment
stamp c seg = with_rst c.need_send_rst (with_ack c.receiver (get_ackno c.receiver) seg)

-- The loop that empties the sender's queue.
unfoldable pub collect : TcpConnection → TcpConnection
collect c = record c {
  sender = record (c.sender) { segments_out = [] };
  segments_out = c.segments_out ++ map (stamp c) c.sender.segments_out;
}

unfoldable pub clean_shutdown : TcpConnection → TcpConnection
clean_shutdown c =
    let ended = ByteStream.input_ended (stream_out c.receiver) in
    let eof = ByteStream.eof c.sender.stream in
    let linger = if ended && not eof then false else c.linger_after_streams_finish in
    let over = not linger || leb (10 * c.cfg.rt_timeout) c.time_since_last_segment_received in
    record c {
      linger_after_streams_finish = linger;
      active = if ended && eof && c.sender.bytes_in_flight == 0 && over then false else c.active;
    }

unfoldable pub segment_sends : Bool → TcpConnection → TcpConnection
segment_sends send_syn c =
    if not send_syn && not c.syn_sended
    then c
    else clean_shutdown
        (collect (record c { syn_sended = true; sender = TcpSender.fill_window c.sender }))

unfoldable pub connect : TcpConnection → TcpConnection
connect c = segment_sends true c

-- Both streams in error, and the connection inactive.
unfoldable pub abort : TcpConnection → TcpConnection
abort c = record c {
  receiver = with_stream c.receiver (ByteStream.set_error (stream_out c.receiver));
  sender = record (c.sender) { stream = ByteStream.set_error c.sender.stream };
  linger_after_streams_finish = false;
  active = false;
}

abbrev pub nonempty_queue : TcpSender → TcpSender
nonempty_queue s = elim s.segments_out [ [] ↦ TcpSender.send_empty_segment s | _ ∷ _ ↦ s ]

unfoldable pub unclean_shutdown : Bool → TcpConnection → TcpConnection
unfolding abort
unclean_shutdown send_rst c =
    if send_rst
    then segment_sends false
        (record (abort c) { need_send_rst = true; sender = nonempty_queue (abort c).sender })
    else abort c

unfoldable pub remaining_outbound_capacity : TcpConnection → ℕ
remaining_outbound_capacity c = ByteStream.remaining_capacity c.sender.stream

unfoldable pub is_syn_sent : TcpSender → Bool
is_syn_sent s = elim (sender_summary s) [ SenderSummary.syn_sent ↦ true | _ ↦ false ]

-- An acknowledgment goes to the sender, unless it has sent nothing.
unfoldable pub take_ack : TcpConnection → TcpSegment → TcpConnection
take_ack c seg =
    if seg.header.ack && ltb 0 c.sender.next_seqno
    then record c { sender = TcpSender.ack_received c.sender seg.header.ackno seg.header.win }
    else c

-- The answer to a segment that was taken in: what was to be sent, or an empty segment.
unfoldable pub answer : TcpConnection → TcpSegment → TcpConnection
answer c seg =
    let empty : Bool = elim c.sender.segments_out [ [] ↦ true | _ ∷ _ ↦ false ] in
    let reply = ltb 0 (length_in_sequence_space seg) && has_value (get_ackno c.receiver) && empty in
    segment_sends false
      (if reply then record c { sender = TcpSender.send_empty_segment c.sender } else c)

-- The segment after the receiver has had it.
unfoldable pub react : TcpConnection → TcpSegment → TcpConnection
react c seg =
    if seg.header.syn && c.sender.next_seqno == 0
    then connect c
    else if seg.header.rst
    then (if is_syn_sent c.sender && not seg.header.ack then c else unclean_shutdown false c)
    else answer c seg

unfoldable pub segment_received : TcpConnection → TcpSegment → TcpConnection
segment_received c seg =
    let t = record c { time_since_last_segment_received = 0 } in
    let a = take_ack t seg in
    let r = record a { receiver = TcpReceiver.segment_received a.receiver seg } in
    if not c.active
    then c
    else if is_syn_sent t.sender && seg.header.ack && ltb 0 (Buffer.size seg.payload)
    then t
    else react r seg

unfoldable pub write : TcpConnection → List ℕ → TcpConnection × ℕ
write c bytes =
    let (stream, res) = ByteStream.write c.sender.stream bytes in
    (segment_sends false (record c { sender = record (c.sender) { stream = stream } }), res)

unfoldable pub tick : TcpConnection → ℕ → TcpConnection
tick c ms =
    let t = record c {
      time_since_last_segment_received = add64 c.time_since_last_segment_received ms;
      sender = TcpSender.tick c.sender ms;
    } in
    let checked =
      if ltb max_retx_attempts t.sender.consecutive_retrans then unclean_shutdown true t else t in
    if not c.active then c else segment_sends false checked

unfoldable pub end_input_stream : TcpConnection → TcpConnection
end_input_stream c =
    segment_sends false
      (record c { sender = record (c.sender) { stream = ByteStream.end_input c.sender.stream } })

-- The destructor.
unfoldable pub destroy : TcpConnection → TcpConnection
destroy c = if c.active then unclean_shutdown true c else c
