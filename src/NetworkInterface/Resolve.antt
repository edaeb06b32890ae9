-- ===== src/NetworkInterface/Resolve.antt =====
-- network_interface.cc: how two interfaces find each other by a request and a reply.
use cs144_introduction_to_co.Prelude.{
  ℕ, ◌^◌, ◌<◌, ◌≡◌, ◌≢◌, refl, ap, sym, ◌∙◌, arith, true, none, some, List, [], ◌∷◌, append-nil,
  ◌==◌, All,
}
use cs144_introduction_to_co.Prelude.Maps.{lookup, assign, lookup-assign_self, lookup-assign_other}
use cs144_introduction_to_co.Buffer
use cs144_introduction_to_co.Buffer.Laws as BufferLaws
use cs144_introduction_to_co.BufferList.{BufferList}
use cs144_introduction_to_co.BufferList
use cs144_introduction_to_co.Parser.{no_error}
use cs144_introduction_to_co.EthernetHeader.{
  EthernetAddress, ethernet_broadcast, type_ipv4, type_arp,
}
use cs144_introduction_to_co.EthernetHeader.Laws.{IsAddress}
use cs144_introduction_to_co.EthernetFrame.{EthernetFrame}
use cs144_introduction_to_co.ArpMessage.{ArpMessage, opcode_request, opcode_reply}
use cs144_introduction_to_co.ArpMessage
use cs144_introduction_to_co.ArpMessage.Laws.{IsMessage, parse-serialize_arp, length-serialize_arp}
use cs144_introduction_to_co.Ipv4Datagram.{Ipv4Datagram}
use cs144_introduction_to_co.Ipv4Datagram
use cs144_introduction_to_co.NetworkInterface.{
  NetworkInterface, Outcome, send_datagram, send_staged, send_stage_datagram, arp_request,
  arp_reply, framed, push_frame, learn, handle_arp, then_stage, recv_arp, recv_frame,
}
use cs144_introduction_to_co.NetworkInterface.Sound.{Waits, IsSound, send_staged_none}

-- The addresses of an interface fit their widths.
abbrev pub HasAddresses : NetworkInterface → Type 0
HasAddresses n = IsAddress n.ethernet_address × (n.ip_address < 2 ^ 32)

request-IsMessage :
    (n : NetworkInterface) (ip : ℕ) → HasAddresses n → ip < 2 ^ 32 → IsMessage (arp_request n ip)
unfolding arp_request
request-IsMessage n ip (a, i) h = record {
  hardware_type = omega arith;
  protocol_type = omega arith;
  hardware_address_size = omega arith;
  protocol_address_size = omega arith;
  opcode = omega arith;
  sender_ethernet_address = a;
  sender_ip_address = i;
  target_ethernet_address =
      (omega arith, omega arith, omega arith, omega arith, omega arith, omega arith);
  target_ip_address = h;
}

single :
    (bytes : List ℕ)
    → BufferList.to_buffer (BufferList.of_string bytes) ≡ some (Buffer.of_string bytes)
unfolding BufferList.to_buffer BufferList.of_string
single bytes = refl

-- An ARP frame is read as the message that was put in it.
recv_message :
    (n : NetworkInterface) (frame : EthernetFrame) (msg : ArpMessage) (bytes : List ℕ)
    → frame.header.ether_type ≡ type_arp
    → frame.payload ≡ BufferList.of_string bytes
    → IsMessage msg
    → ArpMessage.serialize msg ≡ some bytes
    → recv_frame n frame ≡ then_stage (handle_arp n (no_error, msg))
unfolding recv_frame recv_arp
recv_message n frame msg bytes t p h s =
    let l = length-serialize_arp msg bytes s in
    let one : BufferList.to_buffer (BufferList.of_string bytes) ≡ some (Buffer.of_string bytes) =
      single bytes in
    let parsed =
      parse-serialize_arp ArpMessage.blank msg (Buffer.of_string bytes) bytes [] h s
        (BufferLaws.of_string-IsValid bytes (omega arith))
        (BufferLaws.str-of_string bytes ∙ sym (append-nil bytes)) in
    rw (t, p, one, parsed) refl

-- The datagrams that wait for other addresses still wait.
others_wait :
    (k : ℕ) (m : List (ℕ × ℕ)) (ds : List (ℕ × Ipv4Datagram))
    → All (λ d. d.0 ≢ k) ds
    → All (λ d. Waits (lookup d.0 m)) ds
    → All (λ d. Waits (lookup d.0 (assign k 0 m))) ds
others_wait k m [] n h = tt
others_wait k m (d ∷ ds) (ne, n) (w, h) =
    (rw (lookup-assign_other k d.0 0 m ne) w, others_wait k m ds n h)

self_equal : (k : ℕ) → (k == k) ≡ true
self_equal k = ground arith

-- An interface that is asked for its own address learns that of the asker, and answers.
pub request_answered :
    (a b : NetworkInterface) (bytes : List ℕ)
    → HasAddresses a
    → HasAddresses b
    → IsSound b
    → All (λ d. d.0 ≢ a.ip_address) b.dgram_stage
    → let request = arp_request a b.ip_address in
      ArpMessage.serialize request ≡ some bytes
      → (reply : List ℕ) × (ArpMessage.serialize (arp_reply b request) ≡ some reply)
        × (recv_frame b (framed a ethernet_broadcast type_arp (BufferList.of_string bytes))
            ≡ Outcome.returns (
              push_frame
                  (learn b request)
                  (framed b a.ethernet_address type_arp (BufferList.of_string reply)),
              none,
            ))
unfolding arp_request arp_reply learn handle_arp ArpMessage.serialize ArpMessage.supported
    send_stage_datagram
request_answered a b bytes ha hb h others s =
    let request = arp_request a b.ip_address in
    let r =
      recv_message b (framed a ethernet_broadcast type_arp (BufferList.of_string bytes)) request
        bytes refl refl (request-IsMessage a b.ip_address ha hb.1) s in
    let w = others_wait a.ip_address b.map_status b.dgram_stage others h.waiting in
    (
      _,
      refl,
      r
          ∙ rw
              (
                self_equal b.ip_address,
                send_staged_none (push_frame (learn b request) _) [] b.dgram_stage w,
              )
              refl,
    )

reply-IsMessage :
    (a b : NetworkInterface)
    → HasAddresses a
    → HasAddresses b
    → IsMessage (arp_reply b (arp_request a b.ip_address))
unfolding arp_request arp_reply
reply-IsMessage a b (x, i) (y, j) = record {
  hardware_type = omega arith;
  protocol_type = omega arith;
  hardware_address_size = omega arith;
  protocol_address_size = omega arith;
  opcode = omega arith;
  sender_ethernet_address = y;
  sender_ip_address = j;
  target_ethernet_address = x;
  target_ip_address = i;
}

sent_known :
    (n : NetworkInterface) (dgram : Ipv4Datagram) (hop : ℕ) (a : EthernetAddress)
    (payload : BufferList)
    → lookup hop n.addr_map ≡ some a
    → Ipv4Datagram.serialize dgram ≡ some payload
    → send_datagram n dgram hop ≡ Outcome.returns (push_frame n (framed n a type_ipv4 payload))
unfolding send_datagram
sent_known n dgram hop a payload e s = rw (e, s) refl

first_sent :
    (n : NetworkInterface) (dgram : Ipv4Datagram) (hop : ℕ) (a : EthernetAddress)
    (payload : BufferList) (rest : List (ℕ × Ipv4Datagram))
    → lookup hop n.addr_map ≡ some a
    → lookup hop n.map_status ≡ some 0
    → Ipv4Datagram.serialize dgram ≡ some payload
    → send_staged n [] ((hop, dgram) ∷ rest)
      ≡ Outcome.undefined
          (record (push_frame n (framed n a type_ipv4 payload)) { dgram_stage = rest })
unfolding send_staged
first_sent n dgram hop a payload rest e z s = rw (z, sent_known n dgram hop a payload e s) refl

-- The first datagram that waits for a mapping that has come is sent, and erased under the iterator.
staged_sent :
    (n : NetworkInterface) (dgram : Ipv4Datagram) (hop : ℕ) (a : EthernetAddress)
    (payload : BufferList) (rest : List (ℕ × Ipv4Datagram))
    → lookup hop n.addr_map ≡ some a
    → lookup hop n.map_status ≡ some 0
    → Ipv4Datagram.serialize dgram ≡ some payload
    → n.dgram_stage ≡ (hop, dgram) ∷ rest
    → send_stage_datagram n
      ≡ Outcome.undefined
          (record (push_frame n (framed n a type_ipv4 payload)) { dgram_stage = rest })
unfolding send_stage_datagram
staged_sent n dgram hop a payload rest e z s d =
    ap (send_staged n []) d ∙ first_sent n dgram hop a payload rest e z s

-- The reply to a request makes the waiting datagram leave.
pub reply_taken :
    (a b : NetworkInterface) (reply : List ℕ) (dgram : Ipv4Datagram) (payload : BufferList)
    (rest : List (ℕ × Ipv4Datagram))
    → HasAddresses a
    → HasAddresses b
    → let msg = arp_reply b (arp_request a b.ip_address) in
      ArpMessage.serialize msg ≡ some reply
      → Ipv4Datagram.serialize dgram ≡ some payload
      → a.dgram_stage ≡ (b.ip_address, dgram) ∷ rest
      → recv_frame a (framed b a.ethernet_address type_arp (BufferList.of_string reply))
        ≡ Outcome.undefined (
          record (push_frame (learn a msg) (framed a b.ethernet_address type_ipv4 payload)) {
            dgram_stage = rest;
          },
          none,
        )
unfolding arp_request arp_reply learn handle_arp
reply_taken a b reply dgram payload rest ha hb s e d =
    let msg = arp_reply b (arp_request a b.ip_address) in
    let r =
      recv_message a (framed b a.ethernet_address type_arp (BufferList.of_string reply)) msg reply
        refl refl (reply-IsMessage a b ha hb) s in
    let k = b.ip_address in
    let sent =
      staged_sent (learn a msg) dgram k b.ethernet_address payload rest
        (lookup-assign_self k b.ethernet_address a.addr_map) (lookup-assign_self k 0 a.map_status) e
        d in
    r ∙ rw sent refl
