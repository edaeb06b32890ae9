-- ===== src/Ipv4Datagram/Laws.antt =====
-- ipv4_datagram.cc: which errors of the header the datagram's parser reports.
use cs144_introduction_to_co.Prelude.{
  ◌≡◌, ◌⊎◌, Bool, inl, inr, refl, true, false, not, ltb, ◌==◌, Bool-cases, if◌then◌else◌, ◌*◌, ◌-◌,
}
use cs144_introduction_to_co.Buffer.{Buffer, str}
use cs144_introduction_to_co.Buffer
use cs144_introduction_to_co.BufferList
use cs144_introduction_to_co.Parser.{
  NetParser, ParseResult, no_error, packet_too_short, wrong_ip_version, header_too_short,
  truncated_packet, bad_checksum, start, is_error, u8, u16, u32,
}
use cs144_introduction_to_co.Parser
use cs144_introduction_to_co.Parser.Errors.{
  IsShortage, u8-IsShortage, u16-IsShortage, u32-IsShortage, remove_prefix-IsShortage,
  start-IsShortage,
}
use cs144_introduction_to_co.Ipv4Header.{
  Ipv4Header, payload_length, parse_fields, check_fields, header_length, header_checksum,
}
use cs144_introduction_to_co.Ipv4Header
use cs144_introduction_to_co.Ipv4Datagram.{Ipv4Datagram, parse}

-- The parser of a result has no error, or a shortage.
record Fine (x : ParseResult × NetParser) : Type 0 where
  shortage : IsShortage x.1.error

either : (b : Bool) (x y : ParseResult × NetParser) → Fine x → Fine y → Fine (if b then x else y)
either true x y h k = h
either false x y h k = k

parse_fields-IsShortage : (p : NetParser) → IsShortage p.error → IsShortage (parse_fields p).1.error
unfolding parse_fields
parse_fields-IsShortage p h = u32-IsShortage _ (
    u32-IsShortage _ (
      u16-IsShortage _ (
        u8-IsShortage _ (
          u8-IsShortage _ (
            u16-IsShortage _
              (u16-IsShortage _ (u16-IsShortage _ (u8-IsShortage _ (u8-IsShortage p h)))))))))

check_fields-Fine :
    (h : Ipv4Header) (original p : NetParser)
    → IsShortage p.error
    → Fine (check_fields h original p)
unfolding check_fields
check_fields-Fine h original p k =
    let r = remove_prefix-IsShortage p (h.hlen * 4 - header_length) k in
    let q = Parser.remove_prefix p (h.hlen * 4 - header_length) in
    let size = Buffer.size original.buffer in
    let kept : (e : ParseResult) → Fine (e, p) = λ e. record { shortage = k } in
    let after : (e : ParseResult) → Fine (e, q) = λ e. record { shortage = r } in
    let last = not (header_checksum h (str original.buffer) == 0) in
    either (ltb size (4 * h.hlen)) (packet_too_short, p) _ (kept packet_too_short)
      (either (not (h.ver == 4)) (wrong_ip_version, p) _ (kept wrong_ip_version)
        (either (ltb h.hlen 5) (header_too_short, p) _ (kept header_too_short)
          (either (not (size == h.len)) (truncated_packet, p) _ (kept truncated_packet)
            (either (is_error q.error) (q.error, q) _ (after q.error)
              (either last (bad_checksum, q) (no_error, q) (after bad_checksum)
                (after no_error))))))

header-IsShortage :
    (h : Ipv4Header) (p : NetParser)
    → IsShortage p.error
    → IsShortage (Ipv4Header.parse h p).2.error
unfolding Ipv4Header.parse
header-IsShortage h p k = elim (Bool-cases (ltb (Buffer.size p.buffer) header_length)) [
  | inl t ↦ rw t k
  | inr f ↦
      let z =
        check_fields-Fine (parse_fields p).0 p (parse_fields p).1 (parse_fields-IsShortage p k) in
      rw f z.shortage
]

-- The parser of datagrams reports no error or that the packet is too short, and nothing else: a
-- bad checksum, a wrong version, a header length below five words and a wrong total length,
-- which the parser of headers reports, all pass.
datagram_result :
    (d : Ipv4Datagram) (buffer : Buffer)
    → ((parse d buffer).0 ≡ no_error) ⊎ ((parse d buffer).0 ≡ packet_too_short)
unfolding parse
datagram_result d buffer =
    let z = header-IsShortage d.header (start buffer) (start-IsShortage buffer) in
    let out = Ipv4Header.parse d.header (start buffer) in
    elim (Bool-cases
      (BufferList.size (BufferList.of_buffer out.2.buffer) == payload_length out.1)) [
        | inl t ↦ rw t z
        | inr f ↦ rw f (inr refl)
      ]
