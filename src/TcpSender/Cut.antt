-- ===== src/TcpSender/Cut.antt =====
-- tcp_sender.cc: the segment that a round of `fill_window` cuts off the stream, and `send_segment`.
use cs144_introduction_to_co.Prelude.{
  ℕ, ◌+◌, ◌≤◌, ◌<◌, ◌^◌, ◌≡◌, inl, inr, refl, ap, sym, subst, ◌∙◌, arith, Bool, true, false, not,
  ◌||◌, ◌&&◌, ltb, [], ◌∷◌, ◌++◌, append-nil, take-append-drop, length, length-append, min,
  Bool-cases,
}
use cs144_introduction_to_co.WrappingIntegers.{WrappingInt32, wrap}
use cs144_introduction_to_co.Buffer
use cs144_introduction_to_co.Buffer.{str}
use cs144_introduction_to_co.ByteStream
use cs144_introduction_to_co.ByteStream.Queue.{IsValid, contents, read_lem}
use cs144_introduction_to_co.TcpSegment.{TcpSegment, length_in_sequence_space, default_segment}
use cs144_introduction_to_co.TcpSender.{
  TcpSender, next_segment, send_segment, with_seqno, remaining, max_payload_size,
}
use cs144_introduction_to_co.TcpSender.Fill.{no_bytes}
use cs144_introduction_to_co.TcpSender.Sends.{Sends, needed, bit, bit_sum}

-- A segment as `next_segment` cuts it off the stream of `s`, which leaves `t`.
pub record Cut (s t : TcpSender) (seg : TcpSegment) (last : Bool) : Type 0 where
  pub rest : t ≡ record s { stream = t.stream; fin = last }
  pub size : length_in_sequence_space seg ≡ length (str seg.payload) + bit last
  pub bytes : str seg.payload ++ contents t.stream ≡ contents s.stream
  pub valid : IsValid t.stream

pub next_segment-Cut :
    (s : TcpSender) (win : ℕ)
    → IsValid s.stream
    → s.fin ≡ false
    → (last : Bool) × Cut s (next_segment s win).0 (next_segment s win).1 last
unfolding next_segment length_in_sequence_space str Buffer.of_string default_segment
next_segment-Cut s win v f =
    let n : ℕ = min (remaining s win) max_payload_size in
    let (taken, left, w) = read_lem s.stream n v in
    let (stream, bytes) = ByteStream.read s.stream n in
    let m : ℕ = min n (length (contents s.stream)) in
    let seg : TcpSegment = record default_segment { payload = Buffer.of_string bytes } in
    let last : Bool = ByteStream.eof stream && ltb (length_in_sequence_space seg) win in
    let b : bytes ++ contents stream ≡ contents s.stream =
      rw (taken, left) (take-append-drop m (contents s.stream)) in
    elim (Bool-cases last) [
      | inl t ↦
          (true, record { rest = rw t refl; size = rw t (omega arith); bytes = rw t b; valid = w })
      | inr e ↦ (
        false,
        record {
          rest = ap (λ x. record s { stream = stream; fin = x }) (ap (λ x. x || s.fin) e ∙ f);
          size = rw e (omega arith);
          bytes = rw e b;
          valid = w;
        },
      )
    ]

pub size-with_seqno :
    (seg : TcpSegment) (q : WrappingInt32)
    → length_in_sequence_space (with_seqno seg q) ≡ length_in_sequence_space seg
unfolding length_in_sequence_space
size-with_seqno seg q = refl

-- Sending a segment that was cut off the stream of `s`.
send_round :
    (s : TcpSender) (stream : ByteStream.ByteStream) (seg : TcpSegment) (last : Bool)
    → let t : TcpSender = record s { stream = stream; fin = last } in
      Cut s t seg last
      → s.fin ≡ false
      → 0 < length_in_sequence_space seg
      → needed s < 2 ^ 63
      → s.bytes_in_flight ≤ s.next_seqno
      → Sends s (send_segment t seg)
unfolding send_segment
send_round s stream seg last c f p room small =
    let sent = with_seqno seg (wrap s.next_seqno s.isn) in
    let e = size-with_seqno seg (wrap s.next_seqno s.isn) in
    let l = ap length c.bytes ∙ refl in
    let m = length-append (str seg.payload) (contents stream) in
    let b : bit (not last) + bit last ≡ 1 = bit_sum last in
    let g : bit (not s.fin) ≡ 1 = ap (λ x. bit (not x)) f in
    let k = c.size in
    record {
      segs = sent ∷ [];
      out = refl;
      in_flight = refl;
      chain = (refl, rw e p, omega (arith, e, l, m, k, b, g));
      bytes = ap (λ x. x ++ contents stream) (append-nil (str seg.payload)) ∙ c.bytes;
      counted = omega (arith, e, l, m, k, b, g);
      isn = refl;
      receive_ack = refl;
      checkpoint = refl;
      kept = omega (arith, e, l, m, k, b, g);
      valid = c.valid;
    }

pub send_next :
    (s t : TcpSender) (seg : TcpSegment) (last : Bool)
    → Cut s t seg last
    → s.fin ≡ false
    → 0 < length_in_sequence_space seg
    → needed s < 2 ^ 63
    → s.bytes_in_flight ≤ s.next_seqno
    → Sends s (send_segment t seg)
send_next s t seg last c f p room small =
    let d = subst (λ x. Cut s x seg last) c.rest c in
    subst (λ x. Sends s (send_segment x seg)) (sym c.rest)
      (send_round s t.stream seg last d f p room small)

-- A round that finds nothing to send leaves all but the stream's counters.
pub skip_round :
    (s : TcpSender) (stream : ByteStream.ByteStream) (seg : TcpSegment) (last : Bool)
    → let t : TcpSender = record s { stream = stream; fin = last } in
      Cut s t seg last → s.fin ≡ false → length_in_sequence_space seg ≡ 0 → Sends s t
skip_round s stream seg last c f z =
    let l = ap length c.bytes in
    let m = length-append (str seg.payload) (contents stream) in
    let b = bit_sum last in
    let g : bit (not s.fin) ≡ 1 = ap (λ x. bit (not x)) f in
    let k = c.size in
    let n : str seg.payload ≡ [] = no_bytes (str seg.payload) (omega arith) in
    record {
      segs = [];
      out = sym (append-nil s.segments_out);
      in_flight = sym (append-nil s.segments_in_flight);
      chain = refl;
      bytes = ap (λ x. x ++ contents stream) (sym n) ∙ c.bytes;
      counted = refl;
      isn = refl;
      receive_ack = refl;
      checkpoint = refl;
      kept = omega (arith, l, m, k, b, g, z);
      valid = c.valid;
    }
