-- ===== src/TcpSender/Sends.antt =====
-- tcp_sender.cc: what it means to send the next bytes of the stream.
use cs144_introduction_to_co.Prelude.{
  ℕ, ◌+◌, ◌≡◌, refl, ap, sym, subst, ◌∙◌, arith, Bool, true, false, not, List, [], ◌++◌, append-nil,
  append_assoc, length,
}
use cs144_introduction_to_co.ByteStream.Queue.{IsValid, contents}
use cs144_introduction_to_co.TcpSegment.{TcpSegment}
use cs144_introduction_to_co.TcpSender.{TcpSender}
use cs144_introduction_to_co.TcpSender.Chain.{Chain, Chain-append, payloads, payloads-append}

abbrev pub bit : Bool → ℕ
bit true = 1
bit false = 0

pub bit_sum : (b : Bool) → bit (not b) + bit b ≡ 1
bit_sum true = refl
bit_sum false = refl

-- What the sender has used of its sequence numbers, and what it may still use: the bytes of the
-- stream, and the SYN and the FIN while they are not sent.
abbrev pub needed : TcpSender → ℕ
needed s = s.next_seqno + length (contents s.stream) + bit (not s.syn) + bit (not s.fin)

-- `t` comes from `s` by sending segments, which carry the next bytes of the stream.
pub record Sends (s t : TcpSender) : Type 0 where
  pub segs : List TcpSegment
  pub out : t.segments_out ≡ s.segments_out ++ segs
  pub in_flight : t.segments_in_flight ≡ s.segments_in_flight ++ segs
  pub chain : Chain s.isn s.next_seqno segs t.next_seqno
  pub bytes : payloads segs ++ contents t.stream ≡ contents s.stream
  pub counted : s.bytes_in_flight + t.next_seqno ≡ t.bytes_in_flight + s.next_seqno
  pub isn : t.isn ≡ s.isn
  pub receive_ack : t.receive_ack ≡ s.receive_ack
  pub checkpoint : t.checkpoint ≡ s.checkpoint
  pub kept : needed t ≡ needed s
  pub valid : IsValid t.stream

pub Sends-refl : (s : TcpSender) → IsValid s.stream → Sends s s
Sends-refl s v = record {
  segs = [];
  out = sym (append-nil s.segments_out);
  in_flight = sym (append-nil s.segments_in_flight);
  chain = refl;
  bytes = refl;
  counted = refl;
  isn = refl;
  receive_ack = refl;
  checkpoint = refl;
  kept = refl;
  valid = v;
}

pub Sends-trans : (s t u : TcpSender) → Sends s t → Sends t u → Sends s u
Sends-trans s t u a b = record {
  segs = a.segs ++ b.segs;
  out = b.out ∙ ap (λ l. l ++ b.segs) a.out ∙ append_assoc s.segments_out a.segs b.segs;
  in_flight =
      b.in_flight
      ∙ ap (λ l. l ++ b.segs) a.in_flight
      ∙ append_assoc s.segments_in_flight a.segs b.segs;
  chain =
      Chain-append s.isn s.next_seqno t.next_seqno u.next_seqno a.segs b.segs a.chain
        (subst (λ i. Chain i t.next_seqno b.segs u.next_seqno) a.isn b.chain);
  bytes =
      ap (λ l. l ++ contents u.stream) (payloads-append a.segs b.segs)
      ∙ append_assoc (payloads a.segs) (payloads b.segs) (contents u.stream)
      ∙ ap (◌++◌ (payloads a.segs)) b.bytes
      ∙ a.bytes;
  counted = omega (arith, a.counted, b.counted);
  isn = b.isn ∙ a.isn;
  receive_ack = b.receive_ack ∙ a.receive_ack;
  checkpoint = b.checkpoint ∙ a.checkpoint;
  kept = b.kept ∙ a.kept;
  valid = b.valid;
}
