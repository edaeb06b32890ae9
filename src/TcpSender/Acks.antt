-- ===== src/TcpSender/Acks.antt =====
-- tcp_sender.cc: the loop of `ack_received` over the queue of outstanding segments.
use cs144_introduction_to_co.Prelude.{
  ℕ, ◌+◌, ◌≤◌, ◌<◌, ◌^◌, ◌≡◌, ◌⊎◌, inl, inr, refl, ap, ◌∙◌, arith, leb, List, [], ◌∷◌, ◌++◌,
  Bool-cases,
}
use cs144_introduction_to_co.Prelude.Words.{add64, sub64}
use cs144_introduction_to_co.WrappingIntegers.{WrappingInt32, unwrap}
use cs144_introduction_to_co.WrappingIntegers.Laws.{IsWord, unwrap-wrap}
use cs144_introduction_to_co.TcpSegment.{TcpSegment, length_in_sequence_space}
use cs144_introduction_to_co.TcpSender.{drop_acked}
use cs144_introduction_to_co.TcpSender.Chain.{Chain, Chain-le}

-- The oldest segment, which begins at `una`, is not acknowledged in whole.
abbrev pub Waits : ℕ → ℕ → List TcpSegment → Type 0
Waits ackno una [] = Unit
Waits ackno una (seg ∷ segs) = ackno < una + length_in_sequence_space seg

-- `segs` is split where the acknowledgment falls: those before `una` are acknowledged.
pub record Splits (isn : WrappingInt32) (from ackno next_seqno : ℕ) (segs : List TcpSegment)
    (in_flight : ℕ) (kept : List TcpSegment) : Type 0 where
  pub una : ℕ
  pub acked : List TcpSegment
  pub whole : segs ≡ acked ++ kept
  pub before : Chain isn from acked una
  pub after : Chain isn una kept next_seqno
  pub counted : una + in_flight ≡ next_seqno
  pub covered : (una ≤ ackno) ⊎ (una ≡ from)
  pub waits : Waits ackno una kept

pub drop_acked-Splits :
    (isn : WrappingInt32) (from ackno next_seqno in_flight : ℕ) (segs : List TcpSegment)
    → IsWord isn
    → next_seqno < 2 ^ 63
    → in_flight < 2 ^ 31
    → from + in_flight ≡ next_seqno
    → Chain isn from segs next_seqno
    → let (left, kept) = drop_acked isn next_seqno ackno in_flight segs in
      Splits isn from ackno next_seqno segs left kept
unfolding drop_acked
drop_acked-Splits isn from ackno next_seqno in_flight [] w room near n chain = record {
  una = from;
  acked = [];
  whole = refl;
  before = refl;
  after = chain;
  counted = n;
  covered = inr refl;
  waits = tt;
}
drop_acked-Splits isn from ackno next_seqno in_flight (seg ∷ segs) w room near n (q, p, chain) =
    let size = length_in_sequence_space seg in
    let le = Chain-le isn (from + size) segs next_seqno chain in
    let u : unwrap seg.header.seqno isn next_seqno ≡ from =
      ap (λ x. unwrap x isn next_seqno) q
      ∙ unwrap-wrap from next_seqno isn w (omega arith) room (omega arith) (omega arith) in
    let e : add64 (unwrap seg.header.seqno isn next_seqno) size ≡ from + size = omega (arith, u) in
    elim (Bool-cases (leb (add64 (unwrap seg.header.seqno isn next_seqno) size) ackno)) [
      | inl t ↦
          let r =
            drop_acked-Splits isn (from + size) ackno next_seqno (sub64 in_flight size) segs w room
              (omega arith) (omega arith) chain in
          rw t (record {
            una = r.una;
            acked = seg ∷ r.acked;
            whole = ap (◌∷◌ seg) r.whole;
            before = (q, p, r.before);
            after = r.after;
            counted = r.counted;
            covered = elim r.covered [ inl c ↦ inl c | inr c ↦ inl (ground arith) ];
            waits = r.waits;
          })
      | inr f ↦ rw f (record {
        una = from;
        acked = [];
        whole = refl;
        before = refl;
        after = (q, p, chain);
        counted = n;
        covered = inr refl;
        waits = ground arith;
      })
    ]
