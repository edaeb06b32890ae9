-- ===== src/NetworkInterface/Exchange.antt =====
-- network_interface.cc: a datagram for an unknown address, from the request to the frame that carries
-- it.
use cs144_introduction_to_co.Prelude.{ℕ, ◌≡◌, ◌≢◌, refl, ap, none, some, List, [], ◌∷◌, ◌++◌, All}
use cs144_introduction_to_co.Prelude.Maps.{lookup, assign, lookup-assign_self}
use cs144_introduction_to_co.BufferList.{BufferList}
use cs144_introduction_to_co.BufferList
use cs144_introduction_to_co.EthernetHeader.{ethernet_broadcast, type_ipv4, type_arp}
use cs144_introduction_to_co.EthernetFrame.{EthernetFrame}
use cs144_introduction_to_co.ArpMessage.{ArpMessage, opcode_request, opcode_reply}
use cs144_introduction_to_co.ArpMessage
use cs144_introduction_to_co.Ipv4Datagram.{Ipv4Datagram}
use cs144_introduction_to_co.Ipv4Datagram
use cs144_introduction_to_co.NetworkInterface.{
  NetworkInterface, Outcome, send_datagram, arp_request, arp_reply, framed, push_frame, learn,
  recv_frame,
}
use cs144_introduction_to_co.NetworkInterface.Sound.{IsSound}
use cs144_introduction_to_co.NetworkInterface.{send_unknown, stage, minus_one}
use cs144_introduction_to_co.NetworkInterface.Resolve.{HasAddresses, request_answered, reply_taken}

-- What an exchange leaves: the asker's waiting datagram is in a frame to the address that was asked
-- for, and the other interface knows the asker.
pub record Exchange (a b : NetworkInterface) (dgram : Ipv4Datagram) (payload : BufferList)
    : Type 0 where
  pub asked : NetworkInterface
  pub asker_frame : EthernetFrame
  pub answerer : NetworkInterface
  pub reply_frame : EthernetFrame
  pub done : NetworkInterface
  pub asks : send_datagram a dgram b.ip_address ≡ Outcome.returns asked
  pub one_frame : asked.frames_out ≡ a.frames_out ++ asker_frame ∷ []
  pub answers : recv_frame b asker_frame ≡ Outcome.returns (answerer, none)
  pub one_reply : answerer.frames_out ≡ b.frames_out ++ reply_frame ∷ []
  pub knows : lookup a.ip_address answerer.addr_map ≡ some a.ethernet_address
  pub taken : recv_frame asked reply_frame ≡ Outcome.undefined (done, none)
  pub learned : lookup b.ip_address done.addr_map ≡ some b.ethernet_address
  pub sent :
      done.frames_out ≡ asked.frames_out ++ framed a b.ethernet_address type_ipv4 payload ∷ []
  pub empty : done.dgram_stage ≡ []

abbrev pub asked_by : NetworkInterface → ℕ → Ipv4Datagram → EthernetFrame → NetworkInterface
asked_by a ip dgram frame = record (push_frame (stage a ip dgram) frame) {
  map_status = assign ip minus_one a.map_status;
}

pub asks_first :
    (a : NetworkInterface) (ip : ℕ) (dgram : Ipv4Datagram) (bytes : List ℕ)
    → lookup ip a.addr_map ≡ none
    → lookup ip a.map_status ≡ none
    → ArpMessage.serialize (arp_request a ip) ≡ some bytes
    → send_datagram a dgram ip
      ≡ Outcome.returns
          (asked_by a ip dgram (framed a ethernet_broadcast type_arp (BufferList.of_string bytes)))
unfolding send_datagram send_unknown
asks_first a ip dgram bytes e s k = rw (e, s, k) refl

pub request_bytes :
    (a : NetworkInterface) (ip : ℕ)
    → (bytes : List ℕ) × (ArpMessage.serialize (arp_request a ip) ≡ some bytes)
unfolding arp_request ArpMessage.serialize ArpMessage.supported
request_bytes a ip = (_, refl)

-- Two interfaces whose maps agree: the first sends a datagram to the second, of which it knows
-- nothing, while nothing waits, and the second has nothing waiting for the first. Then the one
-- frame that the first sends makes the second learn its address and answer with one frame, and
-- that answer makes the first learn the address of the second and send the datagram, in one frame,
-- to that address, and nothing waits any more; there, after the erasure inside the loop, the
-- behaviour is undefined.
pub exchange :
    (a b : NetworkInterface) (dgram : Ipv4Datagram) (payload : BufferList)
    → HasAddresses a
    → HasAddresses b
    → IsSound b
    → lookup b.ip_address a.addr_map ≡ none
    → lookup b.ip_address a.map_status ≡ none
    → a.dgram_stage ≡ []
    → All (λ d. d.0 ≢ a.ip_address) b.dgram_stage
    → Ipv4Datagram.serialize dgram ≡ some payload
    → Exchange a b dgram payload
unfolding arp_request arp_reply learn
exchange a b dgram payload ha hb h unknown silent nothing others s =
    let ip = b.ip_address in
    let (bytes, e) = request_bytes a ip in
    let frame = framed a ethernet_broadcast type_arp (BufferList.of_string bytes) in
    let asked = asked_by a ip dgram frame in
    let request = arp_request a ip in
    let (reply, r, answered) = request_answered a b bytes ha hb h others e in
    let back = framed b a.ethernet_address type_arp (BufferList.of_string reply) in
    let waits : asked.dgram_stage ≡ (ip, dgram) ∷ [] = ap (λ l. l ++ (ip, dgram) ∷ []) nothing in
    record {
      asked = asked;
      asker_frame = frame;
      answerer = push_frame (learn b request) back;
      reply_frame = back;
      done = _;
      asks = asks_first a ip dgram bytes unknown silent e;
      one_frame = refl;
      answers = answered;
      one_reply = refl;
      knows = lookup-assign_self a.ip_address a.ethernet_address b.addr_map;
      taken = reply_taken asked b reply dgram payload [] ha hb r s waits;
      learned = lookup-assign_self ip b.ethernet_address (asked.addr_map);
      sent = refl;
      empty = refl;
    }
