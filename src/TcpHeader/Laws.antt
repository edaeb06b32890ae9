-- ===== src/TcpHeader/Laws.antt =====
-- tcp_header.cc: parsing what was serialized.
use cs144_introduction_to_co.Prelude.{
  ℕ, ◌-◌, ◌*◌, ◌/◌, ◌%◌, ◌^◌, ◌<◌, ◌≤◌, ◌≡◌, refl, ap, ◌∙◌, subst, List, ◌++◌, take, take-all,
  replicate, append_assoc, arith, ltb, length, Bool, true, false, ◌==◌, Option, none, some, zero,
  suc, if◌then◌else◌, Bool-cases, inl, inr,
}
use cs144_introduction_to_co.WrappingIntegers.{WrappingInt32}
use cs144_introduction_to_co.WrappingIntegers
use cs144_introduction_to_co.Parser.{NetParser, no_error, unparse_int, u8, u16, u32}
use cs144_introduction_to_co.Parser.Laws.{
  Ready, u8-unparse, u16-unparse, u32-unparse, remove_prefix-append,
}
use cs144_introduction_to_co.TcpHeader.{
  TcpHeader, bit, masked, assign, flags_byte, header_length, parse_fields, serialize_fields, parse,
  serialize, resize,
}

-- Each field fits its width, and the data offset its four bits.
pub record IsHeader (h : TcpHeader) : Type 0 where
  pub sport : h.sport < 2 ^ 16
  pub dport : h.dport < 2 ^ 16
  pub seqno : h.seqno.raw_value < 2 ^ 32
  pub ackno : h.ackno.raw_value < 2 ^ 32
  pub doff : h.doff < 2 ^ 4
  pub win : h.win < 2 ^ 16
  pub cksum : h.cksum < 2 ^ 16
  pub uptr : h.uptr < 2 ^ 16

-- The flags' byte is below 64, and its bits are the flags.
abbrev IsFlags : ℕ → Bool → Bool → Bool → Bool → Bool → Bool → Type 0
IsFlags b urg ack psh rst syn fin =
    (b < 64)
    × (bit 32 b ≡ urg)
    × (bit 16 b ≡ ack)
    × (bit 8 b ≡ psh)
    × (bit 4 b ≡ rst)
    × (bit 2 b ≡ syn)
    × (bit 1 b ≡ fin)

-- A Boolean as a number, 0 or 1, with what it contributes to a byte.
pub masked_lem :
    (mask : ℕ) (b : Bool)
    → (masked mask b ≡ mask * masked 1 b) × (masked 1 b ≤ 1) × ((masked 1 b == 1) ≡ b)
masked_lem mask true = (omega arith, omega arith, refl)
masked_lem mask false = (omega arith, omega arith, refl)

pub flags_byte_lem : (h : TcpHeader) → IsFlags (flags_byte h) h.urg h.ack h.psh h.rst h.syn h.fin
unfolding flags_byte
flags_byte_lem h =
    let (u, u1, ub) = masked_lem 32 h.urg in
    let (a, a1, ab) = masked_lem 16 h.ack in
    let (p, p1, pb) = masked_lem 8 h.psh in
    let (r, r1, rb) = masked_lem 4 h.rst in
    let (s, s1, sb) = masked_lem 2 h.syn in
    let (f, f1, fb) = masked_lem 1 h.fin in
    (
      omega arith,
      ap (λ n. n == 1) (omega arith) ∙ ub,
      ap (λ n. n == 1) (omega arith) ∙ ab,
      ap (λ n. n == 1) (omega arith) ∙ pb,
      ap (λ n. n == 1) (omega arith) ∙ rb,
      ap (λ n. n == 1) (omega arith) ∙ sb,
      ap (λ n. n == 1) (omega arith) ∙ fb,
    )

make_lem : (w : WrappingInt32) → w.raw_value < 2 ^ 32 → WrappingIntegers.make w.raw_value ≡ w
unfolding WrappingIntegers.make
make_lem w h = ap (λ v. record { raw_value = v }) (omega arith)

-- Nine reads in a row.
steps :
    (p p1 p2 p3 p4 p5 p6 p7 p8 p9 : NetParser) (v1 v2 v3 v4 v5 v6 v7 v8 v9 : ℕ)
    → u16 p ≡ (v1, p1)
    → u16 p1 ≡ (v2, p2)
    → u32 p2 ≡ (v3, p3)
    → u32 p3 ≡ (v4, p4)
    → u8 p4 ≡ (v5, p5)
    → u8 p5 ≡ (v6, p6)
    → u16 p6 ≡ (v7, p7)
    → u16 p7 ≡ (v8, p8)
    → u16 p8 ≡ (v9, p9)
    → parse_fields p ≡ (assign v1 v2 v3 v4 v5 v6 v7 v8 v9, p9)
unfolding parse_fields
steps p p1 p2 p3 p4 p5 p6 p7 p8 p9 v1 v2 v3 v4 v5 v6 v7 v8 v9 e1 e2 e3 e4 e5 e6 e7 e8 e9 =
    rw (e1, e2, e3, e4, e5, e6, e7, e8, e9)

assign_lem :
    (h : TcpHeader)
    → IsHeader h
    → assign h.sport h.dport h.seqno.raw_value h.ackno.raw_value
        ((h.doff * 2 ^ 4) % 2 ^ 8)
        (flags_byte h)
        h.win
        h.cksum
        h.uptr
      ≡ h
unfolding assign
assign_lem h k =
    let (fl, f1, f2, f3, f4, f5, f6) = flags_byte_lem h in
    let d : ((h.doff * 2 ^ 4) % 2 ^ 8) / 2 ^ 4 ≡ h.doff = omega (arith, k.doff) in
    rw (make_lem h.seqno k.seqno, make_lem h.ackno k.ackno, d, f1, f2, f3, f4, f5, f6)

parse_fields_lem :
    (h : TcpHeader) (p : NetParser) (rest : List ℕ)
    → IsHeader h
    → Ready p (serialize_fields h ++ rest)
    → (q : NetParser) × (parse_fields p ≡ (h, q)) × Ready q rest
unfolding serialize_fields unparse_int
parse_fields_lem h p rest k r =
    let fl = (flags_byte_lem h).0 in
    let (p1, e1, r1) = u16-unparse p h.sport _ r k.sport in
    let (p2, e2, r2) = u16-unparse p1 h.dport _ r1 k.dport in
    let (p3, e3, r3) = u32-unparse p2 h.seqno.raw_value _ r2 k.seqno in
    let (p4, e4, r4) = u32-unparse p3 h.ackno.raw_value _ r3 k.ackno in
    let (p5, e5, r5) = u8-unparse p4 ((h.doff * 2 ^ 4) % 2 ^ 8) _ r4 (omega arith) in
    let (p6, e6, r6) = u8-unparse p5 (flags_byte h) _ r5 (omega arith) in
    let (p7, e7, r7) = u16-unparse p6 h.win _ r6 k.win in
    let (p8, e8, r8) = u16-unparse p7 h.cksum _ r7 k.cksum in
    let (p9, e9, r9) = u16-unparse p8 h.uptr rest r8 k.uptr in
    (
      p9,
      steps p p1 p2 p3 p4 p5 p6 p7 p8 p9 _ _ _ _ _ _ _ _ _ e1 e2 e3 e4 e5 e6 e7 e8 e9
          ∙ ap (λ x. (x, p9)) (assign_lem h k),
      r9,
    )

pub length-replicate : (n a : ℕ) → length (replicate n a) ≡ n
length-replicate zero a = refl
length-replicate (suc n) a = ap suc (length-replicate n a)

length-serialize_fields : (h : TcpHeader) → length (serialize_fields h) ≡ 20
unfolding serialize_fields unparse_int
length-serialize_fields h = refl

abbrev serialized : Bool → TcpHeader → Option (List ℕ)
serialized b h = if b then none else some (resize (4 * h.doff) (serialize_fields h))

serialize_padded :
    (h : TcpHeader) (bytes : List ℕ)
    → serialize h ≡ some bytes
    → (5 ≤ h.doff) × (bytes ≡ serialize_fields h ++ replicate (h.doff * 4 - header_length) 0)
unfolding serialize
serialize_padded h bytes e = elim (Bool-cases (ltb h.doff 5)) [
  | inl t ↦ let z : none ≡ some bytes = subst (λ b. serialized b h ≡ some bytes) t e in cc
  | inr f ↦
      let z : some (resize (4 * h.doff) (serialize_fields h)) ≡ some bytes =
        subst (λ b. serialized b h ≡ some bytes) f e in
      let l = length-serialize_fields h in
      let w : bytes ≡ resize (4 * h.doff) (serialize_fields h) = cc in
      let t : take (4 * h.doff) (serialize_fields h) ≡ serialize_fields h =
        take-all (4 * h.doff) (serialize_fields h) (ground arith) in
      let n : 4 * h.doff - length (serialize_fields h) ≡ h.doff * 4 - header_length =
        ground arith in
      (ground arith, w ∙ rw (t, n))
]

-- A header whose fields fit their widths, once serialized, is parsed to itself without error, and
-- exactly what follows its padding is left.
pub parse-serialize_tcp :
    (h : TcpHeader) (p : NetParser) (bytes rest : List ℕ)
    → IsHeader h
    → serialize h ≡ some bytes
    → Ready p (bytes ++ rest)
    → (q : NetParser) × (parse p ≡ (no_error, h, q)) × Ready q rest
unfolding parse
parse-serialize_tcp h p bytes rest k e r =
    let (five, b) = serialize_padded h bytes e in
    let pad : List ℕ = replicate (h.doff * 4 - header_length) 0 in
    let split : bytes ++ rest ≡ serialize_fields h ++ (pad ++ rest) =
      ap (λ x. x ++ rest) b ∙ append_assoc (serialize_fields h) pad rest in
    let (p1, e1, r1) = parse_fields_lem h p (pad ++ rest) k (subst (Ready p) split r) in
    let (q, e2, r2) =
      remove_prefix-append p1 (h.doff * 4 - header_length) pad rest r1
        (length-replicate (h.doff * 4 - header_length) 0) in
    let t : ltb h.doff 5 ≡ false = ground arith in (q, rw (e1, t, e2, r2.error), r2)
