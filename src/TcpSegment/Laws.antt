-- ===== src/TcpSegment/Laws.antt =====
-- tcp_segment.cc: which errors the segment's parser reports.
use cs144_introduction_to_co.Prelude.{
  ℕ, ◌≡◌, ◌⊎◌, inl, inr, true, false, ltb, ◌==◌, Bool-cases, ◌*◌, ◌-◌,
}
use cs144_introduction_to_co.Buffer.{Buffer, str}
use cs144_introduction_to_co.InternetChecksum
use cs144_introduction_to_co.Parser.{NetParser, no_error, packet_too_short, bad_checksum, start}
use cs144_introduction_to_co.Parser.Errors.{
  IsShortage, u8-IsShortage, u16-IsShortage, u32-IsShortage, remove_prefix-IsShortage,
  start-IsShortage,
}
use cs144_introduction_to_co.TcpHeader.{parse_fields, header_length}
use cs144_introduction_to_co.TcpHeader
use cs144_introduction_to_co.TcpSegment.{TcpSegment, parse}

parse_fields-IsShortage : (p : NetParser) → IsShortage p.error → IsShortage (parse_fields p).1.error
unfolding parse_fields
parse_fields-IsShortage p h = u16-IsShortage _ (
    u16-IsShortage _ (
      u16-IsShortage _ (
        u8-IsShortage _ (
          u8-IsShortage _
            (u32-IsShortage _ (u32-IsShortage _ (u16-IsShortage _ (u16-IsShortage p h))))))))

header-IsShortage : (p : NetParser) → IsShortage p.error → IsShortage (TcpHeader.parse p).2.error
unfolding TcpHeader.parse
header-IsShortage p h =
    let f = parse_fields-IsShortage p h in
    elim (Bool-cases (ltb (parse_fields p).0.doff 5)) [
      | inl t ↦ rw t f
      | inr n ↦ rw n (
          remove_prefix-IsShortage (parse_fields p).1 ((parse_fields p).0.doff * 4 - header_length)
            f)
    ]

-- The parser of segments reports a bad checksum exactly when the checksum of all the bytes and the
-- pseudo-header is not zero, and then leaves the segment as it was; else it reports no error or
-- that the packet is too short. A data offset below five words, which the parser of headers
-- reports, passes.
pub segment_result :
    (seg : TcpSegment) (buffer : Buffer) (initial : ℕ)
    → let sum =
        InternetChecksum.value
          (InternetChecksum.add (InternetChecksum.initial initial) (str buffer)) in
      ((sum == 0) ≡ false) × (parse seg buffer initial ≡ (bad_checksum, seg))
      ⊎ ((sum == 0) ≡ true)
        × (((parse seg buffer initial).0 ≡ no_error)
            ⊎ ((parse seg buffer initial).0 ≡ packet_too_short))
unfolding parse
segment_result seg buffer initial =
    let z = header-IsShortage (start buffer) (start-IsShortage buffer) in
    elim (Bool-cases (
      InternetChecksum.value (InternetChecksum.add (InternetChecksum.initial initial) (str buffer))
      == 0)) [ inl t ↦ inr (t, rw t z) | inr f ↦ inl (f, rw f) ]
