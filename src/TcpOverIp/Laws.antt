-- ===== src/TcpOverIp/Laws.antt =====
-- tcp_over_ip.cc: which segments reach the connection.
use cs144_introduction_to_co.Prelude.{
  ℕ, ◌≡◌, ◌⊎◌, refl, arith, true, false, not, ◌==◌, ◌&&◌, Option, none, some, Bool-cases, inl, inr,
  sym, ap, ◌∙◌, subst,
}
use cs144_introduction_to_co.Buffer.{Buffer}
use cs144_introduction_to_co.BufferList
use cs144_introduction_to_co.Parser.{ParseResult, is_error}
use cs144_introduction_to_co.TcpSegment.{TcpSegment, default_segment}
use cs144_introduction_to_co.TcpSegment
use cs144_introduction_to_co.Ipv4Header.{proto_tcp, pseudo_cksum}
use cs144_introduction_to_co.Ipv4Datagram.{Ipv4Datagram}
use cs144_introduction_to_co.TcpOverIp.{
  Adapter, is_foreign, bind, from_peer, filter_segment, accept_parsed, accept_payload,
  unwrap_tcp_in_ip,
}

-- The datagram and its segment run from the adapter's destination to its source.
pub record BelongsTo (a : Adapter) (d : Ipv4Datagram) (seg : TcpSegment) : Type 0 where
  pub dst : d.header.dst ≡ a.source.ip
  pub src : d.header.src ≡ a.destination.ip
  pub dport : seg.header.dport ≡ a.source.port
  pub sport : seg.header.sport ≡ a.destination.port
  pub connected : a.listening ≡ false

from_peer_lem :
    (a b : Adapter) (seg out : TcpSegment)
    → from_peer a seg ≡ (some out, b)
    → (b ≡ a) × (out ≡ seg) × (seg.header.sport ≡ a.destination.port)
unfolding from_peer
from_peer_lem a b seg out e = (ground arith, ground arith, ground arith)

-- What `unwrap_tcp_in_ip` knows when it returns a segment.
abbrev pub Opens : Adapter → Adapter → Ipv4Datagram → TcpSegment → Type 0
Opens a b d seg =
    (a.listening ≡ true) × (seg.header.syn ≡ true) × (seg.header.rst ≡ false) × (b ≡ bind a d seg)

filter_segment_lem :
    (a b : Adapter) (d : Ipv4Datagram) (seg out : TcpSegment)
    → filter_segment a d seg ≡ (some out, b)
    → (out ≡ seg)
      × (seg.header.dport ≡ a.source.port)
      × (seg.header.sport ≡ b.destination.port)
      × (Opens a b d seg ⊎ (a.listening ≡ false) × (b ≡ a))
unfolding filter_segment
filter_segment_lem a b d seg out e = elim (Bool-cases (seg.header.dport == a.source.port)) [
  | inr f ↦ ground arith
  | inl dp ↦ elim (Bool-cases a.listening) [
    | inr nl ↦
        let z : from_peer a seg ≡ (some out, b) = ground arith in
        let (x, y, w) = from_peer_lem a b seg out z in
        (y, ground arith, w ∙ ap (λ c. c.destination.port) (sym x), inr (nl, x))
    | inl yl ↦ elim (Bool-cases (seg.header.syn && not seg.header.rst)) [
      | inr f ↦ ground arith
      | inl t ↦
          let z : from_peer (bind a d seg) seg ≡ (some out, b) = ground arith in
          let (x, y, w) = from_peer_lem (bind a d seg) b seg out z in
          (
            y,
            ground arith,
            w ∙ ap (λ c. c.destination.port) (sym x),
            inl (yl, ground arith, ground arith, x),
          )
    ]
  ]
]

accept_parsed_lem :
    (a b : Adapter) (d : Ipv4Datagram) (parsed : ParseResult × TcpSegment) (out : TcpSegment)
    → accept_parsed a d parsed ≡ (some out, b)
    → (is_error parsed.0 ≡ false) × (filter_segment a d parsed.1 ≡ (some out, b))
accept_parsed_lem a b d (result, seg) out e = elim (Bool-cases (is_error result)) [
  | inl t ↦ ground arith
  | inr f ↦ (f, ground arith)
]

accept_payload_lem :
    (a b : Adapter) (d : Ipv4Datagram) (payload : Option Buffer) (out : TcpSegment)
    → accept_payload a d payload ≡ some (some out, b)
    → (bytes : Buffer) × (payload ≡ some bytes)
      × (accept_parsed a d (TcpSegment.parse default_segment bytes (pseudo_cksum d.header))
          ≡ (some out, b))
accept_payload_lem a b d none out e = cc
accept_payload_lem a b d (some bytes) out e = (bytes, refl, cc)

is_foreign_lem :
    (a : Adapter) (d : Ipv4Datagram)
    → is_foreign a d ≡ false
    → (d.header.proto ≡ proto_tcp)
      × (a.listening ≡ false → (d.header.dst ≡ a.source.ip) × (d.header.src ≡ a.destination.ip))
unfolding is_foreign
is_foreign_lem a d e = (ground arith, λ l. (ground arith, ground arith))

belongs :
    (a b : Adapter) (d : Ipv4Datagram) (seg : TcpSegment)
    → (a.listening ≡ false → (d.header.dst ≡ a.source.ip) × (d.header.src ≡ a.destination.ip))
    → seg.header.dport ≡ a.source.port
    → seg.header.sport ≡ b.destination.port
    → Opens a b d seg ⊎ (a.listening ≡ false) × (b ≡ a)
    → BelongsTo b d seg
unfolding bind
belongs a b d seg f dp sp (inl (l, syn, rst, e)) = record {
  dst = sym (ap (λ c. c.source.ip) e);
  src = sym (ap (λ c. c.destination.ip) e);
  dport = dp ∙ sym (ap (λ c. c.source.port) e);
  sport = sp;
  connected = ap (λ c. c.listening) e;
}
belongs a b d seg f dp sp (inr (l, e)) = record {
  dst = (f l).0 ∙ sym (ap (λ c. c.source.ip) e);
  src = (f l).1 ∙ sym (ap (λ c. c.destination.ip) e);
  dport = dp ∙ sym (ap (λ c. c.source.port) e);
  sport = sp;
  connected = ap (λ c. c.listening) e ∙ l;
}

-- What `unwrap_tcp_in_ip` may return, with the adapter before and after. A segment was parsed without
-- error from the payload, which the datagram says is TCP, and belongs to the adapter's connection.
abbrev pub Unwrapped : Adapter → Adapter → Ipv4Datagram → Option TcpSegment → Type 0
Unwrapped a b d none = b ≡ a
Unwrapped a b d (some seg) =
    (d.header.proto ≡ proto_tcp)
    × BelongsTo b d seg
    × (Opens a b d seg ⊎ (a.listening ≡ false) × (b ≡ a))
    × (bytes : Buffer) × (BufferList.to_buffer d.payload ≡ some bytes)
    × (result : ParseResult) × (TcpSegment.parse default_segment bytes (pseudo_cksum d.header)
        ≡ (result, seg))
    × (is_error result ≡ false)

some-Unwrapped :
    (a b : Adapter) (d : Ipv4Datagram) (seg : TcpSegment)
    → unwrap_tcp_in_ip a d ≡ some (some seg, b)
    → Unwrapped a b d (some seg)
unfolding unwrap_tcp_in_ip
some-Unwrapped a b d seg e = elim (Bool-cases (is_foreign a d)) [
  | inl t ↦ ground arith
  | inr f ↦
      let z : accept_payload a d (BufferList.to_buffer d.payload) ≡ some (some seg, b) =
        ground arith in
      let (bytes, k, m) = accept_payload_lem a b d (BufferList.to_buffer d.payload) seg z in
      let parsed = TcpSegment.parse default_segment bytes (pseudo_cksum d.header) in
      let (n, w) = accept_parsed_lem a b d parsed seg m in
      let (o, dp, sp, how) = filter_segment_lem a b d parsed.1 seg w in
      let (tcp, ends) = is_foreign_lem a d f in
      let how2 = subst (λ s. Opens a b d s ⊎ (a.listening ≡ false) × (b ≡ a)) (sym o) how in
      (
        tcp,
        belongs a b d seg ends (ap (λ s. s.header.dport) o ∙ dp) (ap (λ s. s.header.sport) o ∙ sp)
            how2,
        how2,
        bytes,
        k,
        parsed.0,
        ap (λ s. (parsed.0, s)) (sym o),
        n,
      )
]

from_peer-none :
    (a b : Adapter) (seg : TcpSegment)
    → from_peer a seg ≡ (none, b)
    → (b ≡ a) × ((seg.header.sport == a.destination.port) ≡ false)
unfolding from_peer
from_peer-none a b seg e = (ground arith, ground arith)

same_port : (p : ℕ) → (p == p) ≡ true
same_port p = ground arith

-- The segment that a listening adapter binds to comes from its peer.
bound :
    (a b : Adapter) (d : Ipv4Datagram) (seg : TcpSegment)
    → from_peer (bind a d seg) seg ≡ (none, b)
    → b ≡ a
unfolding bind
bound a b d seg e =
    let (x, y) = from_peer-none (bind a d seg) b seg e in
    absurd (cc (y, same_port seg.header.sport))

filter_segment-none :
    (a b : Adapter) (d : Ipv4Datagram) (seg : TcpSegment)
    → filter_segment a d seg ≡ (none, b)
    → b ≡ a
unfolding filter_segment
filter_segment-none a b d seg e = elim (Bool-cases (seg.header.dport == a.source.port)) [
  | inr f ↦ ground arith
  | inl dp ↦ elim (Bool-cases a.listening) [
    | inr nl ↦ let z : from_peer a seg ≡ (none, b) = ground arith in (from_peer-none a b seg z).0
    | inl yl ↦ elim (Bool-cases (seg.header.syn && not seg.header.rst)) [
      | inr f ↦ ground arith
      | inl t ↦ let z : from_peer (bind a d seg) seg ≡ (none, b) = ground arith in bound a b d seg z
    ]
  ]
]

accept_payload-none :
    (a b : Adapter) (d : Ipv4Datagram) (payload : Option Buffer)
    → accept_payload a d payload ≡ some (none, b)
    → b ≡ a
accept_payload-none a b d none e = cc
accept_payload-none a b d (some bytes) e =
    let parsed = TcpSegment.parse default_segment bytes (pseudo_cksum d.header) in
    elim (Bool-cases (is_error parsed.0)) [
      | inl t ↦ ground arith
      | inr f ↦
          let z : filter_segment a d parsed.1 ≡ (none, b) = ground arith in
          filter_segment-none a b d parsed.1 z
    ]

none-Unwrapped : (a b : Adapter) (d : Ipv4Datagram) → unwrap_tcp_in_ip a d ≡ some (none, b) → b ≡ a
unfolding unwrap_tcp_in_ip
none-Unwrapped a b d e = elim (Bool-cases (is_foreign a d)) [
  | inl t ↦ ground arith
  | inr f ↦
      let z : accept_payload a d (BufferList.to_buffer d.payload) ≡ some (none, b) = ground arith in
      accept_payload-none a b d (BufferList.to_buffer d.payload) z
]

-- A segment that comes out of a datagram was parsed without error from its payload, which the
-- datagram says is TCP, and its addresses and ports are those that the adapter has after the
-- call. The adapter changes only when it was listening and a SYN without RST comes out, to whose
-- sender it is then bound; when no segment comes out, it is as it was.
pub unwrap_tcp_in_ip_sound :
    (a b : Adapter) (d : Ipv4Datagram) (result : Option TcpSegment)
    → unwrap_tcp_in_ip a d ≡ some (result, b)
    → Unwrapped a b d result
unwrap_tcp_in_ip_sound a b d none e = none-Unwrapped a b d e
unwrap_tcp_in_ip_sound a b d (some seg) e = some-Unwrapped a b d seg e
