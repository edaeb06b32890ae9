-- ===== src/TcpSender.antt =====
-- tcp_sender.hh and tcp_sender.cc: bytes and acknowledgments in, segments out.
use cs144_introduction_to_co.Prelude.{
  ℕ, zero, suc, ◌*◌, ◌%◌, ◌^◌, Bool, true, false, not, ◌&&◌, ◌||◌, Option, none, some, List, [],
  ◌∷◌, ◌++◌, min, ltb, leb, ◌==◌, if◌then◌else◌,
}
use cs144_introduction_to_co.Prelude.Words.{add64, sub64, add32}
use cs144_introduction_to_co.WrappingIntegers.{WrappingInt32, wrap, unwrap}
use cs144_introduction_to_co.Buffer
use cs144_introduction_to_co.ByteStream.{ByteStream}
use cs144_introduction_to_co.ByteStream
use cs144_introduction_to_co.TcpConfig.{max_payload_size}
use cs144_introduction_to_co.TcpSegment.{TcpSegment, default_segment, length_in_sequence_space}
pub mod Fill
pub mod Grows
pub mod Chain
pub mod Sends
pub mod Cut
pub mod Stream
pub mod Acks
pub mod Sound
pub mod Runs
pub mod Answers
pub mod Timer
pub mod Window
mod Examples

-- The queues are lists, oldest first.
pub record TcpSender : Type 0 where
  pub syn : Bool
  pub fin : Bool
  pub window_is_zero : Bool
  pub clock_is_counting : Bool
  pub bytes_in_flight : ℕ
  pub window_size : ℕ
  pub checkpoint : ℕ
  pub clock : ℕ
  pub segments_in_flight : List TcpSegment
  pub consecutive_retrans : ℕ
  pub retrans_timeout : ℕ
  pub receive_ack : ℕ
  pub isn : WrappingInt32
  pub segments_out : List TcpSegment
  pub initial_retransmission_timeout : ℕ
  pub stream : ByteStream
  pub next_seqno : ℕ

abbrev pub value_or {ℓ} : {A : Type ℓ} → Option A → A → A
value_or none d = d
value_or (some a) d = a

-- `random` is the number that `random_device` draws.
unfoldable pub make_sender : ℕ → ℕ → Option WrappingInt32 → WrappingInt32 → TcpSender
make_sender capacity retx_timeout fixed_isn random = record {
  syn = false;
  fin = false;
  window_is_zero = false;
  clock_is_counting = false;
  bytes_in_flight = 0;
  window_size = 0;
  checkpoint = 0;
  clock = 0;
  segments_in_flight = [];
  consecutive_retrans = 0;
  retrans_timeout = retx_timeout;
  receive_ack = 0;
  isn = value_or fixed_isn random;
  segments_out = [];
  initial_retransmission_timeout = retx_timeout;
  stream = ByteStream.make capacity;
  next_seqno = 0;
}

-- The sequence number is set in the header of the copy that is sent.
abbrev pub with_seqno : TcpSegment → WrappingInt32 → TcpSegment
with_seqno seg seqno = record seg { header = record (seg.header) { seqno = seqno } }

unfoldable pub send_segment : TcpSender → TcpSegment → TcpSender
send_segment s seg =
    let sent = with_seqno seg (wrap s.next_seqno s.isn) in
    let size = length_in_sequence_space sent in
    record s {
      next_seqno = add64 s.next_seqno size;
      bytes_in_flight = add64 s.bytes_in_flight size;
      segments_in_flight = s.segments_in_flight ++ sent ∷ [];
      segments_out = s.segments_out ++ sent ∷ [];
      clock_is_counting = true;
      clock = if s.clock_is_counting then s.clock else 0;
    }

-- The window that the loop works with: 0 counts as 1.
unfoldable pub effective_window : TcpSender → ℕ
effective_window s = if ltb 0 s.window_size then s.window_size else 1

-- `win - (_next_seqno - _receive_ack)`, as `size_t`.
unfoldable pub remaining : TcpSender → ℕ → ℕ
remaining s win = sub64 win (sub64 s.next_seqno s.receive_ack)

-- The segment of one round, with the sender whose stream was read.
unfoldable pub next_segment : TcpSender → ℕ → TcpSender × TcpSegment
next_segment s win =
    let (stream, bytes) = ByteStream.read s.stream (min (remaining s win) max_payload_size) in
    let seg = record default_segment { payload = Buffer.of_string bytes } in
    let last = ByteStream.eof stream && ltb (length_in_sequence_space seg) win in
    (
      record s { stream = stream; fin = last || s.fin },
      if last then record seg { header = record (seg.header) { fin = true } } else seg,
    )

-- The `while` loop of `fill_window`. Each round but the last sends at least one sequence number.
unfoldable pub fill_loop : ℕ → ℕ → TcpSender → TcpSender
fill_loop zero win s = s
fill_loop (suc fuel) win s =
    let (t, seg) = next_segment s win in
    let rest = fill_loop fuel win (send_segment t seg) in
    if remaining s win == 0 || s.fin
    then s
    else if length_in_sequence_space seg == 0
    then t
    else rest

-- The rounds that send take a byte of the stream each, but for the one that sends the FIN.
unfoldable pub fill_fuel : TcpSender → ℕ
fill_fuel s = suc (suc (ByteStream.buffer_size s.stream))

-- The SYN alone, or as much of the stream as the window takes.
unfoldable pub fill_window : TcpSender → TcpSender
fill_window s =
    let syn = record default_segment { header = record (default_segment.header) { syn = true } } in
    let t = record s { window_is_zero = s.window_size == 0 } in
    if not s.syn
    then record (send_segment s syn) { syn = true }
    else fill_loop (fill_fuel t) (effective_window t) t

-- The loop over the queue of outstanding segments: those acknowledged in whole are dropped.
unfoldable pub drop_acked : WrappingInt32 → ℕ → ℕ → ℕ → List TcpSegment → ℕ × List TcpSegment
drop_acked isn next_seqno abs_ackno in_flight [] = (in_flight, [])
drop_acked isn next_seqno abs_ackno in_flight (seg ∷ segs) =
    let size = length_in_sequence_space seg in
    if leb (add64 (unwrap seg.header.seqno isn next_seqno) size) abs_ackno
    then drop_acked isn next_seqno abs_ackno (sub64 in_flight size) segs
    else (in_flight, seg ∷ segs)

-- The clock starts again if something is still outstanding.
unfoldable pub restart_clock : TcpSender → TcpSender
restart_clock s = elim s.segments_in_flight [
  | [] ↦ s
  | _ ∷ _ ↦ record s { clock_is_counting = true; clock = 0 }
]

-- A new acknowledgment, at `abs_ackno`.
unfoldable pub advance : TcpSender → ℕ → TcpSender
advance s abs_ackno =
    let (in_flight, segs) =
      drop_acked s.isn s.next_seqno abs_ackno s.bytes_in_flight s.segments_in_flight in
    let acked = record s {
      receive_ack = abs_ackno;
      checkpoint = abs_ackno;
      bytes_in_flight = in_flight;
      segments_in_flight = segs;
    } in
    restart_clock (record (fill_window acked) {
      retrans_timeout = s.initial_retransmission_timeout;
      consecutive_retrans = 0;
    })

unfoldable pub ack_received : TcpSender → WrappingInt32 → ℕ → TcpSender
ack_received s ackno window_size =
    let abs_ackno = unwrap ackno s.isn s.checkpoint in
    let t = record s { window_size = window_size } in
    if ltb s.next_seqno abs_ackno
    then s
    else if leb abs_ackno s.receive_ack
    then t
    else advance t abs_ackno

-- The oldest outstanding segment goes out again.
unfoldable pub retransmit : TcpSender → TcpSegment → TcpSender
retransmit s seg = record s {
  segments_out = s.segments_out ++ seg ∷ [];
  consecutive_retrans = add32 s.consecutive_retrans 1;
  clock_is_counting = true;
  clock = 0;
  retrans_timeout =
      if s.window_is_zero then s.retrans_timeout else (s.retrans_timeout * 2) % 2 ^ 32;
}

unfoldable pub tick : TcpSender → ℕ → TcpSender
tick s ms =
    let t = record s { clock = add64 s.clock ms } in
    elim s.segments_in_flight [
      | [] ↦ record t { clock_is_counting = false }
      | seg ∷ _ ↦ if leb t.retrans_timeout t.clock then retransmit t seg else t
    ]

unfoldable pub send_empty_segment : TcpSender → TcpSender
send_empty_segment s = record s {
  segments_out = s.segments_out ++ with_seqno default_segment (wrap s.next_seqno s.isn) ∷ [];
}
