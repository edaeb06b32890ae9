-- ===== src/EthernetFrame.antt =====
-- tcp_helpers/ethernet_frame.hh and ethernet_frame.cc: a header and a payload.
use cs144_introduction_to_co.Buffer.{Buffer}
use cs144_introduction_to_co.BufferList.{BufferList}
use cs144_introduction_to_co.BufferList
use cs144_introduction_to_co.Parser.{ParseResult, start}
use cs144_introduction_to_co.EthernetHeader.{EthernetHeader, filled}
use cs144_introduction_to_co.EthernetHeader
pub mod Laws

pub record EthernetFrame : Type 0 where
  pub header : EthernetHeader
  pub payload : BufferList

-- `EthernetFrame{}`.
abbrev pub blank : EthernetFrame
blank = record {
  header = record { dst = filled 0; src = filled 0; ether_type = 0 };
  payload = BufferList.empty;
}

-- The result of the header's parser is not looked at.
unfoldable pub parse : EthernetFrame → Buffer → ParseResult × EthernetFrame
parse f buffer =
    let (ignored, header, p) = EthernetHeader.parse f.header (start buffer) in
    (p.error, record { header = header; payload = BufferList.of_buffer p.buffer })

unfoldable pub serialize : EthernetFrame → BufferList
serialize f = BufferList.append (BufferList.of_string (EthernetHeader.serialize f.header)) f.payload
