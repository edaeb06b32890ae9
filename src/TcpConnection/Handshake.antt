-- ===== src/TcpConnection/Handshake.antt =====
-- tcp_connection.cc: the three segments that open a connection.
use cs144_introduction_to_co.Prelude.{
  ◌+◌, ◌^◌, ◌≡◌, ◌≢◌, refl, ap, ◌∙◌, Bool, true, false, some, List, [], ◌∷◌, map,
}
use cs144_introduction_to_co.WrappingIntegers.{WrappingInt32, wrap}
use cs144_introduction_to_co.WrappingIntegers.Laws.{IsWord}
use cs144_introduction_to_co.Buffer
use cs144_introduction_to_co.BufferList
use cs144_introduction_to_co.ByteStream
use cs144_introduction_to_co.StreamReassembler
use cs144_introduction_to_co.TcpSegment.{TcpSegment, default_segment}
use cs144_introduction_to_co.TcpSegment
use cs144_introduction_to_co.TcpReceiver.{TcpReceiver, make_receiver, get_ackno}
use cs144_introduction_to_co.TcpReceiver
use cs144_introduction_to_co.TcpSender.{TcpSender, make_sender, with_seqno}
use cs144_introduction_to_co.TcpSender
use cs144_introduction_to_co.TcpConnection.{
  TcpConnection, make_connection, connect, segment_received, with_ack,
}
use cs144_introduction_to_co.TcpState.{
  sender_summary, receiver_summary, summarize, official, same_state, State,
}
use cs144_introduction_to_co.TcpConnection
use cs144_introduction_to_co.TcpConnection.Cases.{taken_in}
use cs144_introduction_to_co.TcpConnection.Opening.{
  synced, opened, connect_lem, receiver_lem, given_ackno, syn_ack, answered, answer_lem, acked,
  acked_lem, sending, nothing_to_fill, still_lem, fresh,
}

-- The last segment, with the next number of `x`.
abbrev last_ack : WrappingInt32 → WrappingInt32 → TcpSegment
last_ack x y = with_ack (synced y) (some (wrap 1 y)) (with_seqno default_segment (wrap 1 x))

-- A connection whose segments have left.
abbrev pub delivered : TcpConnection → TcpConnection
delivered c = record c { segments_out = [] }

abbrev established : WrappingInt32 → WrappingInt32 → List TcpSegment → TcpConnection
established x y out = record (fresh x) {
  receiver = synced y;
  sender = acked x;
  syn_sended = true;
  segments_out = out;
}

-- The connection with a queue of the sender's.
abbrev queueing : WrappingInt32 → WrappingInt32 → List TcpSegment → TcpConnection
queueing x y queue = record (established x y []) { sender = sending x queue }

abbrev collected : TcpConnection → TcpSender → TcpConnection
collected c s =
    TcpConnection.clean_shutdown
      (TcpConnection.collect (record c { syn_sended = true; sender = s }))

open_sends :
    (x y : WrappingInt32) (queue : List TcpSegment)
    → TcpConnection.segment_sends false (queueing x y queue)
      ≡ collected (queueing x y queue) (TcpSender.fill_window (sending x queue))
unfolding TcpConnection.segment_sends
open_sends x y queue = refl

stays_open :
    (x y : WrappingInt32) (queue : List TcpSegment)
    → collected (queueing x y queue) (sending x queue)
      ≡ established x y (map (TcpConnection.stamp (queueing x y queue)) queue)
unfolding TcpConnection.clean_shutdown TcpConnection.collect TcpConnection.stamp
    TcpConnection.make_connection TcpReceiver.make_receiver TcpReceiver.stream_out
    StreamReassembler.make ByteStream.make ByteStream.input_ended TcpSender.make_sender
stays_open x y queue = refl

send_queue :
    (x y : WrappingInt32) (queue : List TcpSegment)
    → TcpConnection.segment_sends false (queueing x y queue)
      ≡ established x y (map (TcpConnection.stamp (queueing x y queue)) queue)
send_queue x y queue =
    open_sends x y queue
    ∙ ap (collected (queueing x y queue)) (nothing_to_fill x queue)
    ∙ stays_open x y queue

-- The connection of `x` once the sender and the receiver have had the answer.
taken_answer :
    (x y : WrappingInt32)
    → IsWord x
    → IsWord y
    → taken_in (delivered (opened x)) (syn_ack x y) ≡ queueing x y []
unfolding TcpConnection.take_ack TcpConnection.make_connection TcpReceiver.window_size
    TcpReceiver.stream_out StreamReassembler.make ByteStream.make ByteStream.buffer_size
    BufferList.size BufferList.empty TcpReceiver.segment_received TcpSender.ack_received wrap
    make_receiver make_sender TcpReceiver.receive TcpReceiver.finish default_segment
    TcpReceiver.accept_syn
taken_answer x y h k = rw (acked_lem x h) (rw (receiver_lem y (syn_ack x y).header k) refl)

-- Neither early return is taken, and the answer is an empty segment.
reacts_open :
    (x y : WrappingInt32)
    → segment_received (delivered (opened x)) (syn_ack x y)
      ≡ TcpConnection.react (taken_in (delivered (opened x)) (syn_ack x y)) (syn_ack x y)
unfolding TcpConnection.segment_received TcpConnection.is_syn_sent TcpConnection.make_connection
    Buffer.size Buffer.empty_buffer TcpSegment.default_segment sender_summary make_sender
    ByteStream.make
reacts_open x y = refl

answers_open :
    (x y : WrappingInt32)
    → get_ackno (synced y) ≡ some (wrap 1 y)
    → TcpConnection.react (queueing x y []) (syn_ack x y)
      ≡ TcpConnection.segment_sends false
          (queueing x y (with_seqno default_segment (wrap 1 x) ∷ []))
unfolding TcpConnection.react TcpConnection.answer TcpSender.send_empty_segment
    TcpSegment.length_in_sequence_space Buffer.str Buffer.empty_buffer TcpSegment.default_segment
    make_sender
answers_open x y e = rw e refl

stamped_open :
    (x y : WrappingInt32) (seg : TcpSegment)
    → get_ackno (synced y) ≡ some (wrap 1 y)
    → TcpConnection.stamp (queueing x y (seg ∷ [])) seg ≡ with_ack (synced y) (some (wrap 1 y)) seg
unfolding TcpConnection.stamp TcpConnection.make_connection
stamped_open x y seg e = rw e refl

open_lem :
    (x y : WrappingInt32)
    → IsWord x
    → IsWord y
    → y.raw_value + 1 ≢ 2 ^ 32
    → segment_received (delivered (opened x)) (syn_ack x y) ≡ established x y (last_ack x y ∷ [])
open_lem x y h k n =
    let seg = with_seqno default_segment (wrap 1 x) in
    let e = given_ackno y k n in
    reacts_open x y
    ∙ ap (λ c. TcpConnection.react c (syn_ack x y)) (taken_answer x y h k)
    ∙ answers_open x y e
    ∙ send_queue x y (seg ∷ [])
    ∙ ap (λ s. established x y (s ∷ [])) (stamped_open x y seg e)

-- The connection of `y` once the sender and the receiver have had the last segment.
taken_last :
    (x y : WrappingInt32)
    → IsWord x
    → IsWord y
    → taken_in (delivered (answered x y)) (last_ack x y) ≡ queueing y x []
unfolding TcpConnection.take_ack TcpConnection.make_connection TcpReceiver.window_size
    TcpReceiver.stream_out StreamReassembler.make ByteStream.make ByteStream.buffer_size
    BufferList.size BufferList.empty TcpReceiver.segment_received TcpSender.ack_received wrap
    make_receiver make_sender TcpReceiver.receive TcpReceiver.finish default_segment
    TcpReceiver.accept_syn
taken_last x y h k = rw (acked_lem y k) (rw (still_lem x (last_ack x y).header h) refl)

reacts_last :
    (x y : WrappingInt32)
    → segment_received (delivered (answered x y)) (last_ack x y)
      ≡ TcpConnection.react (taken_in (delivered (answered x y)) (last_ack x y)) (last_ack x y)
unfolding TcpConnection.segment_received TcpConnection.is_syn_sent TcpConnection.make_connection
    Buffer.size Buffer.empty_buffer TcpSegment.default_segment sender_summary make_sender
    ByteStream.make
reacts_last x y = refl

answers_last :
    (x y : WrappingInt32)
    → TcpConnection.react (queueing y x []) (last_ack x y)
      ≡ TcpConnection.segment_sends false (queueing y x [])
unfolding TcpConnection.react TcpConnection.answer TcpSegment.length_in_sequence_space Buffer.str
    Buffer.empty_buffer TcpSegment.default_segment make_sender
answers_last x y = refl

last_lem :
    (x y : WrappingInt32)
    → IsWord x
    → IsWord y
    → segment_received (delivered (answered x y)) (last_ack x y) ≡ established y x []
last_lem x y h k =
    reacts_last x y
    ∙ ap (λ c. TcpConnection.react c (last_ack x y)) (taken_last x y h k)
    ∙ answers_last x y
    ∙ send_queue y x []

-- All segments of one connection reach the other, in order.
abbrev pub arrive : TcpConnection → List TcpSegment → TcpConnection
arrive c [] = c
arrive c (seg ∷ segs) = arrive (segment_received c seg) segs

abbrev pub is_established : TcpConnection → Bool
is_established c =
    same_state (summarize c.sender c.receiver c.active c.linger_after_streams_finish)
      (official State.established)

established_state :
    (x y : WrappingInt32) (out : List TcpSegment)
    → get_ackno (synced y) ≡ some (wrap 1 y)
    → is_established (established x y out) ≡ true
unfolding same_state summarize official sender_summary receiver_summary make_sender make_receiver
    TcpConnection.make_connection TcpReceiver.stream_out StreamReassembler.make ByteStream.make
    ByteStream.eof ByteStream.input_ended BufferList.size BufferList.empty
established_state x y out e = rw e refl

-- Two connections with the default configuration, whatever their initial sequence numbers are but for
-- 2^32 - 1: the first connects and the second listens. When the SYN has reached the second, its SYN
-- with the acknowledgment the first, and the acknowledgment of that the second, both are in the state
-- ESTABLISHED, and the second has no segment to send.
pub handshake :
    (x y : WrappingInt32)
    → IsWord x
    → IsWord y
    → x.raw_value + 1 ≢ 2 ^ 32
    → y.raw_value + 1 ≢ 2 ^ 32
    → let a1 = connect (fresh x) in
      let b1 = arrive (fresh y) a1.segments_out in
      let a2 = arrive (delivered a1) b1.segments_out in
      let b2 = arrive (delivered b1) a2.segments_out in
      (is_established a2 ≡ true) × (is_established b2 ≡ true) × (b2.segments_out ≡ [])
handshake x y h k m n = rw (connect_lem x) (
    rw (answer_lem x y h m) (
      rw (open_lem x y h k n) (
        rw (last_lem x y h k) (
          established_state x y (last_ack x y ∷ []) (given_ackno y k n),
          established_state y x [] (given_ackno x h m),
          refl,
        ))))
