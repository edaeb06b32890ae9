-- ===== src/TcpConnection/Opening.antt =====
-- tcp_connection.cc: the states of a sender and a receiver while a connection is opened.
use cs144_introduction_to_co.Prelude.{
  ◌+◌, ◌<◌, ◌^◌, ◌≡◌, ◌≢◌, refl, ap, ◌∙◌, arith, true, false, none, some, List, [], ◌∷◌, ◌==◌,
}
use cs144_introduction_to_co.WrappingIntegers
use cs144_introduction_to_co.WrappingIntegers.{WrappingInt32, wrap, unwrap, make, plus}
use cs144_introduction_to_co.WrappingIntegers.Laws.{IsWord, unwrap-wrap}
use cs144_introduction_to_co.Buffer
use cs144_introduction_to_co.BufferList
use cs144_introduction_to_co.ByteStream
use cs144_introduction_to_co.StreamReassembler
use cs144_introduction_to_co.TcpConfig.{default_config}
use cs144_introduction_to_co.TcpSegment.{TcpSegment, default_segment}
use cs144_introduction_to_co.TcpSegment
use cs144_introduction_to_co.TcpHeader.{TcpHeader}
use cs144_introduction_to_co.TcpReceiver.{TcpReceiver, make_receiver, get_ackno}
use cs144_introduction_to_co.TcpReceiver
use cs144_introduction_to_co.TcpSender.{TcpSender, make_sender, with_seqno}
use cs144_introduction_to_co.TcpSender
use cs144_introduction_to_co.TcpConnection.{
  TcpConnection, make_connection, connect, segment_received, with_ack,
}
use cs144_introduction_to_co.TcpState.{sender_summary}
use cs144_introduction_to_co.TcpConnection

abbrev pub fresh : WrappingInt32 → TcpConnection
fresh isn = make_connection default_config isn

abbrev syn_segment : WrappingInt32 → TcpSegment
syn_segment isn =
    with_seqno (record default_segment { header = record (default_segment.header) { syn = true } })
      (wrap 0 isn)

-- The receiver after the SYN of the peer.
abbrev pub synced : WrappingInt32 → TcpReceiver
synced isn = record (make_receiver 64000) { syn = true; isn = wrap 0 isn; ackno = wrap 1 isn }

-- The sender after its SYN.
abbrev syn_out : WrappingInt32 → TcpSender
syn_out isn = record (make_sender 64000 1000 none isn) {
  syn = true;
  next_seqno = 1;
  bytes_in_flight = 1;
  segments_in_flight = syn_segment isn ∷ [];
  clock_is_counting = true;
}

abbrev pub opened : WrappingInt32 → TcpConnection
opened isn = record (fresh isn) {
  sender = syn_out isn;
  syn_sended = true;
  segments_out = syn_segment isn ∷ [];
}

pub connect_lem : (x : WrappingInt32) → connect (fresh x) ≡ opened x
unfolding TcpConnection.connect TcpConnection.segment_sends TcpConnection.clean_shutdown
    TcpConnection.collect TcpConnection.stamp TcpConnection.make_connection
    TcpReceiver.make_receiver TcpReceiver.stream_out TcpReceiver.get_ackno TcpSender.make_sender
    TcpSender.fill_window TcpSender.send_segment TcpSegment.default_segment
    TcpSegment.length_in_sequence_space ByteStream.make ByteStream.input_ended ByteStream.eof
    StreamReassembler.make Buffer.empty_buffer Buffer.str WrappingIntegers.equal
    WrappingIntegers.make
connect_lem x = refl

abbrev synced_at : WrappingInt32 → WrappingInt32 → TcpReceiver
synced_at x ackno = record (synced x) { ackno = ackno }

-- A SYN, whatever else its header says.
abbrev syn_with : WrappingInt32 → TcpHeader → TcpSegment
syn_with x hd = record default_segment {
  header = record hd { syn = true; fin = false; seqno = wrap 0 x };
}

synced_ackno :
    (x : WrappingInt32) (hd : TcpHeader)
    → IsWord x
    → (TcpReceiver.segment_received (make_receiver 64000) (syn_with x hd)).ackno ≡ wrap 1 x
unfolding TcpReceiver.make_receiver TcpReceiver.segment_received TcpReceiver.receive
    TcpReceiver.accept_syn TcpReceiver.take_payload TcpReceiver.finish TcpReceiver.stream_out
    StreamReassembler.make StreamReassembler.push_substring StreamReassembler.empty
    StreamReassembler.judge_eof StreamReassembler.clip StreamReassembler.flush
    StreamReassembler.insert StreamReassembler.merge_next StreamReassembler.merge_prev
    StreamReassembler.lower_bound ByteStream.make ByteStream.bytes_written ByteStream.write
    ByteStream.accepted TcpSegment.default_segment Buffer.empty_buffer Buffer.str
    WrappingIntegers.wrap WrappingIntegers.plus WrappingIntegers.equal WrappingIntegers.make
synced_ackno x hd h = ground arith

synced_rest :
    (x : WrappingInt32) (hd : TcpHeader)
    → TcpReceiver.segment_received (make_receiver 64000) (syn_with x hd)
      ≡ synced_at x (TcpReceiver.segment_received (make_receiver 64000) (syn_with x hd)).ackno
unfolding TcpReceiver.make_receiver TcpReceiver.segment_received TcpReceiver.receive
    TcpReceiver.accept_syn TcpReceiver.take_payload TcpReceiver.finish TcpReceiver.stream_out
    StreamReassembler.make StreamReassembler.push_substring StreamReassembler.empty
    StreamReassembler.judge_eof StreamReassembler.clip StreamReassembler.flush
    StreamReassembler.insert StreamReassembler.merge_next StreamReassembler.merge_prev
    StreamReassembler.lower_bound ByteStream.make ByteStream.bytes_written ByteStream.write
    ByteStream.accepted TcpSegment.default_segment Buffer.empty_buffer Buffer.str
    WrappingIntegers.wrap WrappingIntegers.plus WrappingIntegers.equal WrappingIntegers.make
synced_rest x hd = refl

pub receiver_lem :
    (x : WrappingInt32) (hd : TcpHeader)
    → IsWord x
    → TcpReceiver.segment_received (make_receiver 64000) (syn_with x hd) ≡ synced x
receiver_lem x hd h = synced_rest x hd ∙ ap (synced_at x) (synced_ackno x hd h)

pub given_ackno :
    (x : WrappingInt32)
    → IsWord x
    → x.raw_value + 1 ≢ 2 ^ 32
    → get_ackno (synced x) ≡ some (wrap 1 x)
unfolding TcpReceiver.get_ackno WrappingIntegers.equal WrappingIntegers.wrap WrappingIntegers.make
given_ackno x h n = let e : (wrap 1 x).raw_value == 0 ≡ false = ground arith in rw e refl

-- The SYN of `y` that acknowledges that of `x`.
abbrev pub syn_ack : WrappingInt32 → WrappingInt32 → TcpSegment
syn_ack x y = with_ack (synced x) (some (wrap 1 x)) (syn_segment y)

abbrev pub answered : WrappingInt32 → WrappingInt32 → TcpConnection
answered x y = record (fresh y) {
  receiver = synced x;
  sender = syn_out y;
  syn_sended = true;
  segments_out = syn_ack x y ∷ [];
}

pub answer_lem :
    (x y : WrappingInt32)
    → IsWord x
    → x.raw_value + 1 ≢ 2 ^ 32
    → segment_received (fresh y) (syn_segment x) ≡ answered x y
unfolding TcpConnection.segment_received TcpConnection.take_ack TcpConnection.react
    TcpConnection.is_syn_sent TcpConnection.connect TcpConnection.segment_sends
    TcpConnection.clean_shutdown TcpConnection.collect TcpConnection.stamp
    TcpConnection.make_connection TcpReceiver.make_receiver TcpReceiver.stream_out
    TcpSender.make_sender TcpSender.fill_window TcpSender.send_segment TcpSegment.default_segment
    TcpSegment.length_in_sequence_space ByteStream.make ByteStream.input_ended ByteStream.eof
    StreamReassembler.make Buffer.empty_buffer Buffer.str sender_summary
answer_lem x y h n = rw (receiver_lem x (syn_segment x).header h) (rw (given_ackno x h n) refl)

-- The sender after the acknowledgment of its SYN.
abbrev pub acked : WrappingInt32 → TcpSender
acked x = record (syn_out x) {
  window_size = 64000;
  receive_ack = 1;
  checkpoint = 1;
  bytes_in_flight = 0;
  segments_in_flight = [];
}

first_number : (x : WrappingInt32) → IsWord x → unwrap (wrap 1 x) x 0 ≡ 1
first_number x h = unwrap-wrap 1 0 x h (omega arith) (omega arith) (omega arith) (omega arith)

syn_number : (x : WrappingInt32) → IsWord x → unwrap (wrap 0 x) x 1 ≡ 0
syn_number x h = unwrap-wrap 0 1 x h (omega arith) (omega arith) (omega arith) (omega arith)

pub acked_lem :
    (x : WrappingInt32) → IsWord x → TcpSender.ack_received (syn_out x) (wrap 1 x) 64000 ≡ acked x
unfolding TcpSender.ack_received TcpSender.advance TcpSender.drop_acked TcpSender.restart_clock
    TcpSender.make_sender TcpSender.fill_window TcpSender.fill_loop TcpSender.fill_fuel
    TcpSender.effective_window TcpSender.remaining TcpSender.next_segment TcpSegment.default_segment
    TcpSegment.length_in_sequence_space ByteStream.make ByteStream.read ByteStream.peek_output
    ByteStream.pop_output ByteStream.eof ByteStream.buffer_size ByteStream.buffer_empty
    Buffer.empty_buffer Buffer.str Buffer.of_string BufferList.size BufferList.empty
    BufferList.remove_prefix BufferList.concatenate
acked_lem x h = rw (first_number x h) (rw (syn_number x h) refl)

abbrev pub sending : WrappingInt32 → List TcpSegment → TcpSender
sending x queue = record (acked x) { segments_out = queue }

-- There is nothing to send: the loop ends in its first round.
pub nothing_to_fill :
    (x : WrappingInt32) (queue : List TcpSegment)
    → TcpSender.fill_window (sending x queue) ≡ sending x queue
unfolding TcpSender.make_sender TcpSender.fill_window TcpSender.fill_loop TcpSender.fill_fuel
    TcpSender.effective_window TcpSender.remaining TcpSender.next_segment TcpSegment.default_segment
    TcpSegment.length_in_sequence_space ByteStream.make ByteStream.read ByteStream.peek_output
    ByteStream.pop_output ByteStream.eof ByteStream.buffer_size ByteStream.buffer_empty
    Buffer.empty_buffer Buffer.str Buffer.of_string BufferList.size BufferList.empty
    BufferList.remove_prefix BufferList.concatenate
nothing_to_fill x queue = refl

-- An empty segment with the next number, whatever else its header says.
abbrev empty_with : WrappingInt32 → TcpHeader → TcpSegment
empty_with x hd = record default_segment {
  header = record hd { syn = false; fin = false; seqno = wrap 1 x };
}

received_number : (x : WrappingInt32) → IsWord x → unwrap (wrap 1 x) (wrap 0 x) 0 ≡ 1
unfolding wrap unwrap make
received_number x h = ground arith

first_word : (x : WrappingInt32) → (wrap 1 x).raw_value < 2 ^ 32
unfolding wrap make
first_word x = omega arith

still_ackno :
    (x : WrappingInt32) (hd : TcpHeader)
    → IsWord x
    → (TcpReceiver.segment_received (synced x) (empty_with x hd)).ackno ≡ wrap 1 x
unfolding TcpReceiver.make_receiver TcpReceiver.segment_received TcpReceiver.receive
    TcpReceiver.accept_syn TcpReceiver.take_payload TcpReceiver.finish TcpReceiver.stream_out
    StreamReassembler.make StreamReassembler.push_substring StreamReassembler.empty
    StreamReassembler.judge_eof StreamReassembler.clip StreamReassembler.flush
    StreamReassembler.insert StreamReassembler.merge_next StreamReassembler.merge_prev
    StreamReassembler.lower_bound ByteStream.make ByteStream.bytes_written ByteStream.write
    ByteStream.accepted TcpSegment.default_segment Buffer.empty_buffer Buffer.str
    WrappingIntegers.plus WrappingIntegers.equal WrappingIntegers.make
still_ackno x hd h = let k = first_word x in rw (received_number x h) (ground arith)

still_rest :
    (x : WrappingInt32) (hd : TcpHeader)
    → IsWord x
    → TcpReceiver.segment_received (synced x) (empty_with x hd)
      ≡ synced_at x (TcpReceiver.segment_received (synced x) (empty_with x hd)).ackno
unfolding TcpReceiver.make_receiver TcpReceiver.segment_received TcpReceiver.receive
    TcpReceiver.accept_syn TcpReceiver.take_payload TcpReceiver.finish TcpReceiver.stream_out
    StreamReassembler.make StreamReassembler.push_substring StreamReassembler.empty
    StreamReassembler.judge_eof StreamReassembler.clip StreamReassembler.flush
    StreamReassembler.insert StreamReassembler.merge_next StreamReassembler.merge_prev
    StreamReassembler.lower_bound ByteStream.make ByteStream.bytes_written ByteStream.write
    ByteStream.accepted TcpSegment.default_segment Buffer.empty_buffer Buffer.str
    WrappingIntegers.plus WrappingIntegers.equal WrappingIntegers.make
still_rest x hd h = rw (received_number x h) refl

pub still_lem :
    (x : WrappingInt32) (hd : TcpHeader)
    → IsWord x
    → TcpReceiver.segment_received (synced x) (empty_with x hd) ≡ synced x
still_lem x hd h = still_rest x hd h ∙ ap (synced_at x) (still_ackno x hd h)
