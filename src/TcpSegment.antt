-- ===== src/TcpSegment.antt =====
-- tcp_helpers/tcp_segment.hh and tcp_segment.cc: a header and a payload.
use cs144_introduction_to_co.Prelude.{
  ℕ, ◌+◌, length, not, ◌==◌, List, Option, none, some, if◌then◌else◌,
}
use cs144_introduction_to_co.Buffer.{Buffer, empty_buffer, str}
use cs144_introduction_to_co.BufferList.{BufferList}
use cs144_introduction_to_co.BufferList
use cs144_introduction_to_co.InternetChecksum
use cs144_introduction_to_co.Parser.{ParseResult, bad_checksum, start}
use cs144_introduction_to_co.TcpHeader.{TcpHeader, default_header}
use cs144_introduction_to_co.TcpHeader
pub mod Laws

pub record TcpSegment : Type 0 where
  pub header : TcpHeader
  pub payload : Buffer

-- A segment as `TCPSegment seg;` makes it.
unfoldable pub default_segment : TcpSegment
default_segment = record { header = default_header; payload = empty_buffer }

unfoldable pub length_in_sequence_space : TcpSegment → ℕ
length_in_sequence_space seg =
    length (str seg.payload) + (if seg.header.syn then 1 else 0) + (if seg.header.fin then 1 else 0)

-- The checksum of all the bytes, which starts from that of the pseudo-header.
unfoldable pub segment_checksum : ℕ → List ℕ → List ℕ → ℕ
segment_checksum datagram_layer_checksum header payload = InternetChecksum.value (
    InternetChecksum.add
      (InternetChecksum.add (InternetChecksum.initial datagram_layer_checksum) header) payload)

-- The result of the header's parser is not looked at.
unfoldable pub parse : TcpSegment → Buffer → ℕ → ParseResult × TcpSegment
parse seg buffer datagram_layer_checksum =
    let check =
      InternetChecksum.add (InternetChecksum.initial datagram_layer_checksum) (str buffer) in
    let (ignored, header, p) = TcpHeader.parse (start buffer) in
    if not (InternetChecksum.value check == 0)
    then (bad_checksum, seg)
    else (p.error, record { header = header; payload = p.buffer })

abbrev pub with_checksum : TcpSegment → ℕ → Option (List ℕ) → Option (List ℕ)
with_checksum seg datagram_layer_checksum none = none
with_checksum seg datagram_layer_checksum (some bytes) = TcpHeader.serialize (record (seg.header) {
  cksum = segment_checksum datagram_layer_checksum bytes (str seg.payload);
})

abbrev pub followed : Buffer → Option (List ℕ) → Option BufferList
followed payload none = none
followed payload (some header) =
    some (BufferList.append (BufferList.of_string header) (BufferList.of_buffer payload))

-- `none` where the source throws.
unfoldable pub serialize : TcpSegment → ℕ → Option BufferList
serialize seg datagram_layer_checksum =
    let zeroed = TcpHeader.serialize (record (seg.header) { cksum = 0 }) in
    followed seg.payload (with_checksum seg datagram_layer_checksum zeroed)
