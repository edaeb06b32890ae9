-- ===== src/TcpReceiver/Stream.antt =====
-- tcp_receiver.cc: the segments of a peer's stream, as the receiver takes them in.
use cs144_introduction_to_co.Prelude.{
  ℕ, ◌+◌, ◌^◌, ◌<◌, ◌≡◌, inl, inr, refl, arith, Bool, true, false, not, ◌&&◌, ◌||◌, length,
  if◌then◌else◌, Bool-cases,
}
use cs144_introduction_to_co.Prelude.Words.{sub64}
use cs144_introduction_to_co.WrappingIntegers.{WrappingInt32, wrap, unwrap}
use cs144_introduction_to_co.WrappingIntegers.Laws.{IsWord, unwrap-wrap}
use cs144_introduction_to_co.Buffer.{str}
use cs144_introduction_to_co.ByteStream
use cs144_introduction_to_co.ByteStream.Queue.{end_input-IsValid}
use cs144_introduction_to_co.StreamReassembler.{StreamReassembler, push_substring}
use cs144_introduction_to_co.StreamReassembler
use cs144_introduction_to_co.StreamReassembler.Slices.{slice}
use cs144_introduction_to_co.StreamReassembler.Stream.{Holds}
use cs144_introduction_to_co.StreamReassembler.Push.{push_safe}
use cs144_introduction_to_co.TcpSegment.{TcpSegment}
use cs144_introduction_to_co.TcpReceiver.{
  TcpReceiver, segment_received, receive, take_payload, finish, stream_out,
}
use cs144_introduction_to_co.TcpReceiver.Counted.{IsCounted}

-- The segment carries the bytes of the stream `s` from `index` on, under their sequence number.
pub record Carries (s : ℕ → ℕ) (isn : WrappingInt32) (index : ℕ) (seg : TcpSegment) : Type 0 where
  pub no_syn : seg.header.syn ≡ false
  pub seqno : seg.header.seqno ≡ wrap (1 + index) isn
  pub bytes : str seg.payload ≡ slice s index (length (str seg.payload))

-- A receiver that has had the SYN and holds some of the stream.
pub record IsOpen (s : ℕ → ℕ) (base leak : ℕ) (r : TcpReceiver) : Type 0 where
  pub syn : r.syn ≡ true
  pub word : IsWord r.isn
  pub holds : Holds s base leak r.reassembler
  pub counted : IsCounted r.reassembler
  pub small : r.reassembler.head_index + r.reassembler.capacity < 2 ^ 62

-- The index that `take_payload` computes is that of the bytes.
index_of :
    (r : TcpReceiver) (index : ℕ)
    → IsWord r.isn
    → r.reassembler.head_index < 2 ^ 62
    → index < r.reassembler.head_index + 2 ^ 30
    → r.reassembler.head_index < index + 2 ^ 30
    → sub64 (unwrap (wrap (1 + index) r.isn) r.isn r.reassembler.head_index) 1 ≡ index
index_of r index w small above below =
    let e =
      unwrap-wrap (1 + index) r.reassembler.head_index r.isn w (omega arith) (omega arith)
        (omega arith) (omega arith) in
    omega (arith, e)

ended-Holds :
    (s : ℕ → ℕ) (base leak : ℕ) (r : StreamReassembler)
    → Holds s base leak r
    → Holds s base leak (record r { output = ByteStream.end_input r.output })
ended-Holds s base leak r h =
    let (c, v) = end_input-IsValid r.output h.output_valid in
    record {
      output_valid = v;
      output_bytes = rw c h.output_bytes;
      head = rw c h.head;
      sorted = h.sorted;
      word = h.word;
      sum = h.sum;
    }

finish-Holds :
    (s : ℕ → ℕ) (base leak : ℕ) (seg : TcpSegment) (r : TcpReceiver)
    → Holds s base leak r.reassembler
    → Holds s base leak (finish seg r).reassembler
unfolding finish
finish-Holds s base leak seg r h =
    let done : Bool =
      (if seg.header.fin && r.syn then true else r.fin) && StreamReassembler.empty r.reassembler in
    elim (Bool-cases done) [
      | inl e ↦ rw e (ended-Holds s base leak r.reassembler h)
      | inr e ↦ rw e h
    ]

-- What `take_payload` hands to the reassembler.
pub taken :
    (s : ℕ → ℕ) (base leak : ℕ) (r : TcpReceiver) (seg : TcpSegment) (index : ℕ)
    → IsOpen s base leak r
    → Carries s r.isn index seg
    → index < r.reassembler.head_index + 2 ^ 30
    → r.reassembler.head_index < index + 2 ^ 30
    → (take_payload false seg r).reassembler
      ≡ push_substring r.reassembler (str seg.payload) index seg.header.fin
unfolding take_payload ByteStream.bytes_written stream_out
taken s base leak r seg index h c above below =
    let e = index_of r index h.word (omega (arith, h.small)) above below in
    rw (c.seqno, h.counted, e) refl

pub not_syn :
    (r : TcpReceiver) (seg : TcpSegment)
    → seg.header.syn ≡ false
    → segment_received r seg ≡ receive false seg r
unfolding segment_received
not_syn r seg e = rw e refl

-- A segment of the peer's stream, with any bytes of it that lie within 2^30 of those in order, in any
-- order, and with or without room for them: what the receiver hands on stays the beginning of the
-- stream, and what it keeps stays pieces of it.
pub segment_received_safe :
    (s : ℕ → ℕ) (base leak : ℕ) (r : TcpReceiver) (seg : TcpSegment) (index : ℕ)
    → IsOpen s base leak r
    → Carries s r.isn index seg
    → index < r.reassembler.head_index + 2 ^ 30
    → r.reassembler.head_index < index + 2 ^ 30
    → length (str seg.payload) < 2 ^ 16
    → (leak' : ℕ) × Holds s base leak' (segment_received r seg).reassembler
unfolding receive
segment_received_safe s base leak r seg index h c above below short =
    let bytes = str seg.payload in
    let (after, kept) =
      push_safe s base leak r.reassembler bytes index seg.header.fin h.holds c.bytes
        (omega (arith, h.small)) (omega (arith, h.small)) in
    let t = taken s base leak r seg index h c above below in
    let open_for_data : Bool =
      (not r.fin || (r.fin && not (StreamReassembler.empty r.reassembler))) && r.syn in
    let q = take_payload false seg r in
    rw (not_syn r seg c.no_syn) (elim (Bool-cases open_for_data) [
      | inl e ↦ rw e (after, finish-Holds s base after seg q (rw t kept))
      | inr e ↦ rw e (leak, finish-Holds s base leak seg r h.holds)
    ])
