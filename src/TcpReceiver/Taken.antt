-- ===== src/TcpReceiver/Taken.antt =====
-- tcp_receiver.cc: what the reassembler and the acknowledgment number become with one segment.
use cs144_introduction_to_co.Prelude.{
  ℕ, ◌+◌, ◌^◌, ◌≤◌, ◌<◌, ◌≡◌, refl, sym, ap, subst, ◌∙◌, arith, Bool, true, false, ◌&&◌, ◌||◌,
  length, ltb, leb, if◌then◌else◌, List, ◌≢◌,
}
use cs144_introduction_to_co.Prelude.Words.{sub64}
use cs144_introduction_to_co.WrappingIntegers.{WrappingInt32, wrap, plus, equal}
use cs144_introduction_to_co.Buffer.{str}
use cs144_introduction_to_co.ByteStream
use cs144_introduction_to_co.StreamReassembler.{StreamReassembler, push_substring}
use cs144_introduction_to_co.StreamReassembler
use cs144_introduction_to_co.StreamReassembler.Stream.{Holds, InWindow, known}
use cs144_introduction_to_co.StreamReassembler.Push.{push_complete, head_unknown}
use cs144_introduction_to_co.TcpSegment.{TcpSegment}
use cs144_introduction_to_co.TcpReceiver.{
  TcpReceiver, segment_received, receive, take_payload, finish, stream_out,
}
use cs144_introduction_to_co.TcpReceiver.Counted.{IsCounted, push_substring-IsCounted}
use cs144_introduction_to_co.TcpReceiver.Stream.{Carries, IsOpen, taken, not_syn}

-- A receiver that has had no FIN, whose reassembler has lost nothing, and whose acknowledgment number
-- is that of the first missing byte.
pub record IsInOrder (s : ℕ → ℕ) (base : ℕ) (r : TcpReceiver) : Type 0 where
  pub is_open : IsOpen s base 0 r
  pub no_fin : r.fin ≡ false
  pub in_window : InWindow base r.reassembler
  pub capacity : r.reassembler.capacity ≡ r.reassembler.output.capacity
  pub narrow : r.reassembler.capacity < 2 ^ 30
  pub ackno : r.ackno ≡ wrap (1 + r.reassembler.head_index) r.isn

first_branch : (b : Bool) (x y : TcpReceiver) → b ≡ true → (if b then x else y) ≡ x
first_branch b x y e = rw e

taken_fin : (seg : TcpSegment) (r : TcpReceiver) → (take_payload false seg r).fin ≡ r.fin
unfolding take_payload
taken_fin seg r = refl

received :
    (r : TcpReceiver) (seg : TcpSegment)
    → seg.header.syn ≡ false
    → r.syn ≡ true
    → r.fin ≡ false
    → segment_received r seg ≡ finish seg (take_payload false seg r)
unfolding receive
received r seg other syn fin =
    not_syn r seg other
    ∙ ap (finish seg) (first_branch _ (take_payload false seg r) r (ground arith))

unfinished :
    (seg : TcpSegment) (q : TcpReceiver)
    → seg.header.fin ≡ false
    → q.fin ≡ false
    → ((finish seg q).ackno ≡ q.ackno) × ((finish seg q).reassembler ≡ q.reassembler)
unfolding finish
unfinished seg q e f =
    let done : Bool =
      (if seg.header.fin && q.syn then true else q.fin) && StreamReassembler.empty q.reassembler in
    let d : done ≡ false = ground arith in (rw d refl, rw d refl)

taken_ackno :
    (r : TcpReceiver) (seg : TcpSegment)
    → let q = take_payload false seg r in
      q.ackno ≡ (
        if equal r.ackno seg.header.seqno || false
        then plus r.ackno (sub64 q.reassembler.output.written r.reassembler.output.written)
        else r.ackno)
unfolding take_payload ByteStream.bytes_written stream_out
taken_ackno r seg = refl

pub same_number : (a : WrappingInt32) → (equal a a || false) ≡ true
unfolding equal
same_number a = ground arith

pub other_number :
    (isn : WrappingInt32) (m n : ℕ)
    → m < n
    → n < m + 2 ^ 31
    → (equal (wrap (1 + n) isn) (wrap (1 + m) isn) || false) ≡ false
unfolding equal wrap
other_number isn m n lt near = ground arith

pub not_same :
    (isn : WrappingInt32) (m n : ℕ) → m < n → n < m + 2 ^ 31 → wrap (1 + m) isn ≢ wrap (1 + n) isn
not_same isn m n lt near e =
    let differ = other_number isn m n lt near in
    let same : (equal (wrap (1 + n) isn) (wrap (1 + m) isn) || false) ≡ true =
      rw e (same_number (wrap (1 + n) isn)) in
    absurd (cc (differ, same))

-- What a reassembler has that had the bytes of `p` and took in `bytes` at `index`: exactly those, and
-- the head is the first that it does not have.
pub record HasTaken (p q : StreamReassembler) (index : ℕ) (bytes : List ℕ) : Type 0 where
  pub has : (i : ℕ) → known q i ≡ (known p i || (leb index i && ltb i (index + length bytes)))
  pub in_order : (i : ℕ) → i < q.head_index → known q i ≡ true
  pub missing : known q q.head_index ≡ false

known_below : (q : StreamReassembler) (i : ℕ) → i < q.head_index → known q i ≡ true
known_below q i h = ground arith

module _ (s : ℕ → ℕ) (base : ℕ) (r : TcpReceiver) (seg : TcpSegment) (index : ℕ) where
  -- What the reassembler has after a segment within its window.
  pub record Taken : Type 0 where
    pub after : StreamReassembler
    pub pushed : after ≡ push_substring r.reassembler (str seg.payload) index seg.header.fin
    pub result : (segment_received r seg).reassembler ≡ after
    pub ackno : (segment_received r seg).ackno ≡ (take_payload false seg r).ackno
    pub payload : (take_payload false seg r).reassembler ≡ after
    pub holds : Holds s base 0 after
    pub counted : IsCounted after
    pub adds :
        (p : ℕ)
        → known after p
          ≡ (known r.reassembler p || (leb index p && ltb p (index + length (str seg.payload))))
    pub output_capacity : after.output.capacity ≡ r.reassembler.output.capacity

  pub take_in :
      IsInOrder s base r
      → Carries s r.isn index seg
      → seg.header.fin ≡ false
      → index ≤ r.reassembler.head_index
      → r.reassembler.head_index < index + 2 ^ 16
      → index + length (str seg.payload) ≤ base + r.reassembler.capacity
      → Taken
  take_in h c nf low near fit =
      let o = h.is_open in
      let small = o.small in
      let head = o.holds.head in
      let bytes = str seg.payload in
      let d =
        push_complete s base 0 r.reassembler bytes index seg.header.fin o.holds h.in_window
          h.capacity c.bytes fit (omega (arith, h.narrow)) in
      let t = taken s base 0 r seg index o c (omega arith) (omega arith) in
      let u = unfinished seg (take_payload false seg r) nf (taken_fin seg r ∙ h.no_fin) in
      let e = received r seg c.no_syn o.syn h.no_fin in
      record {
        after = push_substring r.reassembler bytes index seg.header.fin;
        pushed = refl;
        result = ap (λ x. x.reassembler) e ∙ u.1 ∙ t;
        ackno = ap (λ x. x.ackno) e ∙ u.0;
        payload = t;
        holds = d.holds_after;
        counted = push_substring-IsCounted r.reassembler bytes index seg.header.fin o.counted;
        adds = d.adds;
        output_capacity = d.output_capacity;
      }

  -- The head is past all that was in order and all that the segment carries.
  pub moves :
      (t : Taken)
      → index ≤ r.reassembler.head_index
      → (r.reassembler.head_index ≤ t.after.head_index)
        × (index + length (str seg.payload) ≤ t.after.head_index)
  moves t low =
      let p = t.after.head_index in
      let e = t.adds p in
      let f = head_unknown s base 0 t.after t.holds in (ground arith, ground arith)

  pub has_taken :
      Taken → HasTaken r.reassembler (segment_received r seg).reassembler index (str seg.payload)
  has_taken t =
      subst (λ q. HasTaken r.reassembler q index (str seg.payload)) (sym t.result)
        (record {
          has = t.adds;
          in_order = known_below t.after;
          missing = head_unknown s base 0 t.after t.holds;
        })

  -- The head stays within the window.
  pub head_bound :
      (t : Taken) → IsInOrder s base r → t.after.head_index ≤ r.reassembler.head_index + 2 ^ 30
  head_bound t h =
      let narrow = h.narrow in
      let room = h.capacity in
      let same = t.output_capacity in
      let fits = t.holds.output_valid.fits in
      let at = t.holds.head in
      let before = h.is_open.holds.head in let small = h.is_open.small in omega arith

  -- What the acknowledgment number becomes.
  pub ackno_after :
      (t : Taken)
      → IsInOrder s base r
      → (segment_received r seg).ackno ≡ (
          if equal r.ackno seg.header.seqno || false
          then plus r.ackno (sub64 t.after.head_index r.reassembler.head_index)
          else r.ackno)
  ackno_after t h =
      t.ackno
      ∙ taken_ackno r seg
      ∙ ap
          (λ n.
            if equal r.ackno seg.header.seqno || false
            then plus r.ackno (sub64 n r.reassembler.output.written)
            else r.ackno)
          (ap (λ x. x.output.written) t.payload ∙ t.counted)
      ∙ ap
          (λ n.
            if equal r.ackno seg.header.seqno || false
            then plus r.ackno (sub64 t.after.head_index n)
            else r.ackno)
          h.is_open.counted
