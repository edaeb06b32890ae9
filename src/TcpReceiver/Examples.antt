-- ===== src/TcpReceiver/Examples.antt =====
-- Tests of tcp_receiver.cc: a stream that counts from 0 on, of which two bytes have arrived.
use cs144_introduction_to_co.Prelude.{ℕ, ◌+◌, ◌≤◌, ◌≡◌, ◌≢◌, [], ◌∷◌, refl, arith, true, ap, length}
use cs144_introduction_to_co.WrappingIntegers.{WrappingInt32, wrap}
use cs144_introduction_to_co.Buffer
use cs144_introduction_to_co.Buffer.{str}
use cs144_introduction_to_co.BufferList
use cs144_introduction_to_co.ByteStream
use cs144_introduction_to_co.ByteStream.Queue.{contents, make-IsValid, write-IsValid}
use cs144_introduction_to_co.StreamReassembler.{StreamReassembler}
use cs144_introduction_to_co.StreamReassembler
use cs144_introduction_to_co.StreamReassembler.Slices.{slice}
use cs144_introduction_to_co.StreamReassembler.Stream.{Holds}
use cs144_introduction_to_co.TcpSegment.{TcpSegment, default_segment}
use cs144_introduction_to_co.TcpReceiver.{TcpReceiver, make_receiver, segment_received}
use cs144_introduction_to_co.TcpReceiver.Stream.{Carries, IsOpen, segment_received_safe}
use cs144_introduction_to_co.TcpReceiver.Acks.{in_order_ackno, overlap_not_acknowledged}
use cs144_introduction_to_co.TcpReceiver.Taken.{IsInOrder, HasTaken}

abbrev counting : ℕ → ℕ
counting n = n

abbrev isn : WrappingInt32
isn = record { raw_value = 9 }

abbrev output : ByteStream.ByteStream
output = (ByteStream.write (ByteStream.make 8) (0 ∷ 1 ∷ [])).0

abbrev receiver : TcpReceiver
receiver = record (make_receiver 8) {
  syn = true;
  isn = isn;
  ackno = wrap 3 isn;
  reassembler = record (StreamReassembler.make 8) { head_index = 2; output = output };
}

output_bytes : contents output ≡ 0 ∷ 1 ∷ []
unfolding ByteStream.write ByteStream.make ByteStream.accepted contents BufferList.concatenate
    BufferList.append BufferList.empty BufferList.of_string BufferList.size
output_bytes = refl

receiver-IsOpen : IsOpen counting 0 0 receiver
unfolding make_receiver StreamReassembler.make ByteStream.write ByteStream.make ByteStream.accepted
    BufferList.empty BufferList.size
receiver-IsOpen = record {
  syn = refl;
  word = omega arith;
  holds = record {
    output_valid = write-IsValid (ByteStream.make 8) (0 ∷ 1 ∷ []) (make-IsValid 8 (omega arith));
    output_bytes = rw output_bytes refl;
    head = omega (arith, ap length output_bytes);
    sorted = tt;
    word = omega arith;
    sum = omega arith;
  };
  counted = omega arith;
  small = omega arith;
}

receiver-IsInOrder : IsInOrder counting 0 receiver
unfolding make_receiver StreamReassembler.make ByteStream.write ByteStream.make
receiver-IsInOrder = record {
  is_open = receiver-IsOpen;
  no_fin = refl;
  in_window = tt;
  capacity = refl;
  narrow = omega arith;
  ackno = refl;
}

-- A segment with the bytes at `index` and the two that follow.
abbrev three_from : ℕ → TcpSegment
three_from index = record default_segment {
  header = record (default_segment.header) { seqno = wrap (1 + index) isn };
  payload = Buffer.of_string (slice counting index 3);
}

three-Carries : (index : ℕ) → Carries counting isn index (three_from index)
unfolding str Buffer.of_string default_segment
three-Carries index = record { no_syn = refl; seqno = refl; bytes = refl }

segment_received_safe_example :
    (leak : ℕ) × Holds counting 0 leak (segment_received receiver (three_from 5)).reassembler
unfolding make_receiver StreamReassembler.make str Buffer.of_string default_segment
segment_received_safe_example =
    segment_received_safe counting 0 0 receiver (three_from 5) 5 receiver-IsOpen (three-Carries 5)
      (omega arith) (omega arith) (omega arith)

in_order_ackno_example :
    let q = segment_received receiver (three_from 2) in
    (q.ackno ≡ wrap (1 + q.reassembler.head_index) isn)
    × (5 ≤ q.reassembler.head_index)
    × HasTaken receiver.reassembler q.reassembler 2 (slice counting 2 3)
unfolding make_receiver StreamReassembler.make str Buffer.of_string default_segment
in_order_ackno_example =
    in_order_ackno counting 0 receiver (three_from 2) receiver-IsInOrder (three-Carries 2) refl
      (omega arith)

overlap_not_acknowledged_example :
    let q = segment_received receiver (three_from 1) in
    (q.ackno ≡ wrap 3 isn)
    × (4 ≤ q.reassembler.head_index)
    × HasTaken receiver.reassembler q.reassembler 1 (slice counting 1 3)
    × (q.ackno ≢ wrap (1 + q.reassembler.head_index) isn)
unfolding make_receiver StreamReassembler.make str Buffer.of_string default_segment
overlap_not_acknowledged_example =
    overlap_not_acknowledged counting 0 receiver (three_from 1) 1 receiver-IsInOrder
      (three-Carries 1) refl (omega arith) (omega arith) (omega arith) (omega arith)
