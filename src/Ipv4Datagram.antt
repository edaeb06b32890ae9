-- ===== src/Ipv4Datagram.antt =====
-- tcp_helpers/ipv4_datagram.hh and ipv4_datagram.cc: a header and a payload.
use cs144_introduction_to_co.Prelude.{ℕ, List, Option, none, some, not, ◌==◌, if◌then◌else◌}
use cs144_introduction_to_co.Buffer.{Buffer}
use cs144_introduction_to_co.BufferList.{BufferList}
use cs144_introduction_to_co.BufferList
use cs144_introduction_to_co.InternetChecksum
use cs144_introduction_to_co.Parser.{ParseResult, packet_too_short, start}
use cs144_introduction_to_co.Ipv4Header.{Ipv4Header, payload_length, default_header}
use cs144_introduction_to_co.Ipv4Header
pub mod Laws

pub record Ipv4Datagram : Type 0 where
  pub header : Ipv4Header
  pub payload : BufferList

-- `IPv4Datagram{}`.
abbrev pub blank : Ipv4Datagram
blank = record { header = default_header; payload = BufferList.empty }

-- The result of the header's parser is not looked at.
unfoldable pub parse : Ipv4Datagram → Buffer → ParseResult × Ipv4Datagram
parse d buffer =
    let (ignored, header, p) = Ipv4Header.parse d.header (start buffer) in
    let payload = BufferList.of_buffer p.buffer in
    let after : Ipv4Datagram = record { header = header; payload = payload } in
    if not (BufferList.size payload == payload_length header)
    then (packet_too_short, after)
    else (p.error, after)

-- The header with the checksum of its own bytes, which has the field at zero.
unfoldable pub with_checksum : Ipv4Header → List ℕ → Ipv4Header
with_checksum h header_zero_checksum = record h {
  cksum =
      InternetChecksum.value
        (InternetChecksum.add (InternetChecksum.initial 0) header_zero_checksum);
}

abbrev pub followed : BufferList → Option (List ℕ) → Option BufferList
followed payload none = none
followed payload (some header) = some (BufferList.append (BufferList.of_string header) payload)

abbrev pub checked : Ipv4Header → Option (List ℕ) → Option (List ℕ)
checked h none = none
checked h (some bytes) = Ipv4Header.serialize (with_checksum h bytes)

-- `none` where the source throws.
unfoldable pub serialize : Ipv4Datagram → Option BufferList
serialize d =
    let zeroed = record (d.header) { cksum = 0 } in
    if not (BufferList.size d.payload == payload_length d.header)
    then none
    else followed d.payload (checked zeroed (Ipv4Header.serialize zeroed))
