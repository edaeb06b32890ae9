-- ===== src/TcpSender/Chain.antt =====
-- tcp_sender.cc: segments that follow one another in the sequence space.
use cs144_introduction_to_co.Prelude.{
  ℕ, ◌+◌, ◌≤◌, ◌<◌, ◌≡◌, refl, ap, ◌∙◌, sym, subst, arith, List, [], ◌∷◌, ◌++◌, append_assoc,
}
use cs144_introduction_to_co.WrappingIntegers.{WrappingInt32, wrap}
use cs144_introduction_to_co.Buffer.{str}
use cs144_introduction_to_co.TcpSegment.{TcpSegment, length_in_sequence_space}

-- The segments cover the absolute sequence numbers from `a` up to `b`, in order and without a gap;
-- none is empty.
abbrev pub Chain : WrappingInt32 → ℕ → List TcpSegment → ℕ → Type 0
Chain isn a [] b = a ≡ b
Chain isn a (seg ∷ segs) b =
    (seg.header.seqno ≡ wrap a isn)
    × (0 < length_in_sequence_space seg)
    × Chain isn (a + length_in_sequence_space seg) segs b

pub Chain-le :
    (isn : WrappingInt32) (a : ℕ) (segs : List TcpSegment) (b : ℕ) → Chain isn a segs b → a ≤ b
Chain-le isn a [] b h = omega arith
Chain-le isn a (seg ∷ segs) b (s, p, h) =
    omega (arith, Chain-le isn (a + length_in_sequence_space seg) segs b h)

pub Chain-append :
    (isn : WrappingInt32) (a b c : ℕ) (xs ys : List TcpSegment)
    → Chain isn a xs b
    → Chain isn b ys c
    → Chain isn a (xs ++ ys) c
Chain-append isn a b c [] ys h k = subst (λ n. Chain isn n ys c) (sym h) k
Chain-append isn a b c (x ∷ xs) ys (s, p, h) k =
    (s, p, Chain-append isn (a + length_in_sequence_space x) b c xs ys h k)

-- The bytes that segments carry, in order.
abbrev pub payloads : List TcpSegment → List ℕ
payloads [] = []
payloads (seg ∷ segs) = str seg.payload ++ payloads segs

pub payloads-append : (xs ys : List TcpSegment) → payloads (xs ++ ys) ≡ payloads xs ++ payloads ys
payloads-append [] ys = refl
payloads-append (x ∷ xs) ys =
    ap (◌++◌ (str x.payload)) (payloads-append xs ys)
    ∙ sym (append_assoc (str x.payload) (payloads xs) (payloads ys))
