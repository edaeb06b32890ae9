-- ===== src/EthernetFrame/Laws.antt =====
-- ethernet_frame.cc: parsing what was serialized, and short frames.
use cs144_introduction_to_co.Prelude.{◌<◌, ◌≡◌, ◌∙◌, refl, true, arith, ltb, ◌++◌, append-nil}
use cs144_introduction_to_co.Buffer.{Buffer, str}
use cs144_introduction_to_co.Buffer
use cs144_introduction_to_co.Buffer.Laws.{IsValid}
use cs144_introduction_to_co.BufferList.{BufferList, concatenate, concat}
use cs144_introduction_to_co.BufferList
use cs144_introduction_to_co.Parser.{NetParser, no_error, start}
use cs144_introduction_to_co.Parser.Laws.{Ready}
use cs144_introduction_to_co.EthernetHeader.{header_length}
use cs144_introduction_to_co.EthernetHeader
use cs144_introduction_to_co.EthernetHeader.Laws.{IsHeader, parse-serialize_ethernet}
use cs144_introduction_to_co.EthernetFrame.{EthernetFrame, parse, serialize}

concatenate-serialize :
    (f : EthernetFrame)
    → concatenate (serialize f) ≡ EthernetHeader.serialize f.header ++ concatenate f.payload
unfolding concatenate concat serialize BufferList.append BufferList.of_string BufferList.empty
    BufferList.of_buffer Buffer.of_string str
concatenate-serialize f = refl

concatenate-of_buffer : (b : Buffer) → concatenate (BufferList.of_buffer b) ≡ str b
unfolding concatenate concat BufferList.of_buffer
concatenate-of_buffer b = append-nil (str b)

-- The bytes of a serialized frame, in one buffer, are parsed without error to the same header and
-- a payload of the same bytes.
parse_frame :
    (old f : EthernetFrame) (buffer : Buffer)
    → IsHeader f.header
    → IsValid buffer
    → str buffer ≡ concatenate (serialize f)
    → (g : EthernetFrame) × (parse old buffer ≡ (no_error, g))
      × (g.header ≡ f.header)
      × (concatenate g.payload ≡ concatenate f.payload)
unfolding parse start
parse_frame old f buffer h v e =
    let p : NetParser = record { buffer = buffer; error = no_error } in
    let r : Ready p (EthernetHeader.serialize f.header ++ concatenate f.payload) = record {
      error = refl;
      left = e ∙ concatenate-serialize f;
      valid = v;
    } in
    let (q, k, s) = parse-serialize_ethernet old.header f.header p (concatenate f.payload) h r in
    (
      record { header = f.header; payload = BufferList.of_buffer q.buffer },
      rw (k, s.error),
      refl,
      concatenate-of_buffer q.buffer ∙ s.left,
    )

-- A buffer too short for a header is parsed with no error: the header is left as it was, and the
-- whole buffer becomes the payload.
parse_short :
    (old : EthernetFrame) (buffer : Buffer)
    → Buffer.size buffer < header_length
    → parse old buffer
      ≡ (no_error, record { header = old.header; payload = BufferList.of_buffer buffer })
unfolding parse start EthernetHeader.parse
parse_short old buffer h =
    let t : ltb (Buffer.size buffer) header_length ≡ true = ground arith in rw t
