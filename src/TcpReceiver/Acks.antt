-- ===== src/TcpReceiver/Acks.antt =====
-- tcp_receiver.cc: how the acknowledgment number follows the bytes that were put in order.
use cs144_introduction_to_co.Prelude.{
  ℕ, ◌+◌, ◌-◌, ◌^◌, ◌≤◌, ◌<◌, ◌≡◌, sym, ap, subst, ◌∙◌, arith, Bool, true, false, ◌||◌, length,
  if◌then◌else◌, ◌≢◌,
}
use cs144_introduction_to_co.Prelude.Words.{sub64}
use cs144_introduction_to_co.WrappingIntegers.{wrap, plus, equal}
use cs144_introduction_to_co.WrappingIntegers.Laws.{plus-wrap}
use cs144_introduction_to_co.Buffer.{str}
use cs144_introduction_to_co.TcpSegment.{TcpSegment}
use cs144_introduction_to_co.TcpReceiver.{TcpReceiver, segment_received}
use cs144_introduction_to_co.TcpReceiver.Stream.{Carries}
use cs144_introduction_to_co.TcpReceiver.Taken.{
  IsInOrder, HasTaken, take_in, moves, ackno_after, head_bound, has_taken, same_number,
  other_number, not_same,
}

-- A receiver of a capacity below 2^30 that has had no FIN and lost nothing, and whose acknowledgment
-- number is that of the first missing byte, takes in a segment without FIN that begins at that
-- byte and fits in its window: the receiver then has exactly the bytes that it had and those of the segment, the head is
-- the first byte that it does not have, and the acknowledgment number is again that of this byte,
-- past the segment and past all that had arrived before and follows it.
pub in_order_ackno :
    (s : ℕ → ℕ) (base : ℕ) (r : TcpReceiver) (seg : TcpSegment)
    → let head = r.reassembler.head_index in
      IsInOrder s base r
      → Carries s r.isn head seg
      → seg.header.fin ≡ false
      → head + length (str seg.payload) ≤ base + r.reassembler.capacity
      → let q = segment_received r seg in
        (q.ackno ≡ wrap (1 + q.reassembler.head_index) r.isn)
        × (head + length (str seg.payload) ≤ q.reassembler.head_index)
        × HasTaken r.reassembler q.reassembler head (str seg.payload)
in_order_ackno s base r seg h c nf fit =
    let head = r.reassembler.head_index in
    let t = take_in s base r seg head h c nf (omega arith) (omega arith) fit in
    let (le, far) = moves s base r seg head t (omega arith) in
    let k = ackno_after s base r seg head t h in
    let below = head_bound s base r seg head t h in
    let narrow = h.narrow in
    let before = h.is_open.holds.head in
    let small = h.is_open.small in
    let step : sub64 t.after.head_index head ≡ t.after.head_index - head = omega arith in
    let hit : (equal r.ackno seg.header.seqno || false) ≡ true =
      rw (h.ackno, c.seqno) (same_number _) in
    let (p, m, o) =
      plus-wrap (1 + head) (t.after.head_index - head) r.isn h.is_open.word (omega arith) in
    let sum : 1 + head + (t.after.head_index - head) ≡ 1 + t.after.head_index = omega arith in
    let q : (segment_received r seg).ackno ≡ wrap (1 + t.after.head_index) r.isn =
      k
      ∙ ap (λ (b : Bool). if b then plus r.ackno (sub64 t.after.head_index head) else r.ackno) hit
      ∙ ap (plus r.ackno) step
      ∙ ap (λ a. plus a (t.after.head_index - head)) h.ackno
      ∙ p
      ∙ ap (λ n. wrap n r.isn) sum in
    (
      subst (λ x. (segment_received r seg).ackno ≡ wrap (1 + x.head_index) r.isn) (sym t.result) q,
      omega (arith, far, ap (λ x. x.head_index) t.result),
      has_taken s base r seg head t,
    )

-- A receiver of a capacity below 2^30 that has had no FIN and lost nothing, and whose acknowledgment
-- number is that of the first missing byte, takes in a segment without FIN, of less than 2^16 bytes,
-- that fits in its window, begins before the first missing byte and reaches beyond it, as when the
-- peer sends old and new bytes together: the receiver then has the
-- bytes that it had and those of the segment, and all of these are in order, but the acknowledgment
-- number stays as it was, and is no longer that of the first missing byte.
pub overlap_not_acknowledged :
    (s : ℕ → ℕ) (base : ℕ) (r : TcpReceiver) (seg : TcpSegment) (index : ℕ)
    → IsInOrder s base r
    → Carries s r.isn index seg
    → seg.header.fin ≡ false
    → index < r.reassembler.head_index
    → r.reassembler.head_index < index + length (str seg.payload)
    → length (str seg.payload) < 2 ^ 16
    → index + length (str seg.payload) ≤ base + r.reassembler.capacity
    → let q = segment_received r seg in
      (q.ackno ≡ r.ackno)
      × (index + length (str seg.payload) ≤ q.reassembler.head_index)
      × HasTaken r.reassembler q.reassembler index (str seg.payload)
      × (q.ackno ≢ wrap (1 + q.reassembler.head_index) r.isn)
overlap_not_acknowledged s base r seg index h c nf low beyond short fit =
    let head = r.reassembler.head_index in
    let t = take_in s base r seg index h c nf (omega arith) (omega arith) fit in
    let (le, far) = moves s base r seg index t (omega arith) in
    let k = ackno_after s base r seg index t h in
    let below = head_bound s base r seg index t h in
    let narrow = h.narrow in
    let before = h.is_open.holds.head in
    let miss : (equal r.ackno seg.header.seqno || false) ≡ false =
      rw (h.ackno, c.seqno) (other_number r.isn index head (omega arith) (omega arith)) in
    let stays =
      k
      ∙ ap (λ (b : Bool). if b then plus r.ackno (sub64 t.after.head_index head) else r.ackno)
          miss in
    let at = ap (λ x. x.head_index) t.result in
    (
      stays,
      omega (arith, far, at),
      has_taken s base r seg index t,
      λ e.
          not_same r.isn head (segment_received r seg).reassembler.head_index
            (omega (arith, far, at)) (omega (arith, at)) (sym h.ackno ∙ sym stays ∙ e),
    )
