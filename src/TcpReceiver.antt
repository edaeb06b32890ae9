-- ===== src/TcpReceiver.antt =====
-- tcp_receiver.hh and tcp_receiver.cc: segments in, bytes and acknowledgments out.
use cs144_introduction_to_co.Prelude.{
  ℕ, Bool, true, false, not, ◌&&◌, ◌||◌, Option, none, some, if◌then◌else◌,
}
use cs144_introduction_to_co.Prelude.Words.{sub64}
use cs144_introduction_to_co.WrappingIntegers.{WrappingInt32, make, plus, unwrap, equal}
use cs144_introduction_to_co.Buffer.{str}
use cs144_introduction_to_co.ByteStream.{ByteStream}
use cs144_introduction_to_co.ByteStream
use cs144_introduction_to_co.StreamReassembler.{StreamReassembler}
use cs144_introduction_to_co.StreamReassembler
use cs144_introduction_to_co.TcpSegment.{TcpSegment}
pub mod Counted
pub mod Stream
pub mod Taken
pub mod Acks
mod Examples

pub record TcpReceiver : Type 0 where
  pub ackno : WrappingInt32
  pub isn : WrappingInt32
  pub syn : Bool
  pub fin : Bool
  pub fin_not_count : Bool
  pub reassembler : StreamReassembler
  pub capacity : ℕ

unfoldable pub make_receiver : ℕ → TcpReceiver
make_receiver capacity = record {
  ackno = make 0;
  isn = make 0;
  syn = false;
  fin = false;
  fin_not_count = true;
  reassembler = StreamReassembler.make capacity;
  capacity = capacity;
}

unfoldable pub stream_out : TcpReceiver → ByteStream
stream_out r = r.reassembler.output

abbrev pub with_stream : TcpReceiver → ByteStream → TcpReceiver
with_stream r o = record r { reassembler = record (r.reassembler) { output = o } }

-- The SYN is stored: the sequence number of the first byte is the next one.
unfoldable pub accept_syn : TcpReceiver → WrappingInt32 → TcpReceiver
accept_syn r seqno = record r { syn = true; ackno = plus seqno 1; isn = seqno }

-- The payload goes to the reassembler, and the acknowledgment moves by what was written, if the
-- segment is the expected one. `syn_with_data` marks the segment that opened the connection.
unfoldable pub take_payload : Bool → TcpSegment → TcpReceiver → TcpReceiver
unfolding stream_out
take_payload syn_with_data seg r =
    let seqno = seg.header.seqno in
    let checkpoint = ByteStream.bytes_written (stream_out r) in
    let idx = if syn_with_data then 0 else sub64 (unwrap seqno r.isn checkpoint) 1 in
    let reassembler =
      StreamReassembler.push_substring r.reassembler (str seg.payload) idx seg.header.fin in
    let after = ByteStream.bytes_written reassembler.output in
    record r {
      reassembler = reassembler;
      ackno =
          if equal r.ackno seqno || syn_with_data
          then plus r.ackno (sub64 after checkpoint)
          else r.ackno;
    }

-- The FIN is noted, and once all bytes are assembled it is counted, once, and the stream ends.
unfoldable pub finish : TcpSegment → TcpReceiver → TcpReceiver
unfolding stream_out
finish seg r =
    let fin = if seg.header.fin && r.syn then true else r.fin in
    let done = fin && StreamReassembler.empty r.reassembler in
    record r {
      fin = fin;
      ackno = if done && r.fin_not_count then plus r.ackno 1 else r.ackno;
      fin_not_count = if done then false else r.fin_not_count;
      reassembler =
          if done
          then record (r.reassembler) { output = ByteStream.end_input r.reassembler.output }
          else r.reassembler;
    }

-- The segment after the check of its SYN.
unfoldable pub receive : Bool → TcpSegment → TcpReceiver → TcpReceiver
receive syn_with_data seg r =
    let open_for_data = not r.fin || (r.fin && not (StreamReassembler.empty r.reassembler)) in
    finish seg (if open_for_data && r.syn then take_payload syn_with_data seg r else r)

unfoldable pub segment_received : TcpReceiver → TcpSegment → TcpReceiver
segment_received r seg =
    if seg.header.syn && r.syn
    then r
    else if seg.header.syn
    then receive true seg (accept_syn r seg.header.seqno)
    else receive false seg r

unfoldable pub get_ackno : TcpReceiver → Option WrappingInt32
get_ackno r = if equal r.ackno (make 0) || not r.syn then none else some r.ackno

unfoldable pub window_size : TcpReceiver → ℕ
unfolding stream_out
window_size r = sub64 r.capacity (ByteStream.buffer_size (stream_out r))

unfoldable pub unassembled_bytes : TcpReceiver → ℕ
unassembled_bytes r = StreamReassembler.unassembled_bytes r.reassembler
