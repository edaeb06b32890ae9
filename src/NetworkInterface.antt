-- ===== src/NetworkInterface.antt =====
-- network_interface.hh and network_interface.cc: datagrams in Ethernet frames, and the ARP cache.
-- An `Address` is its 32-bit number. The debug message of the constructor is left out.
use cs144_introduction_to_co.Prelude.{
  ℕ, ◌+◌, ◌-◌, ◌%◌, ◌^◌, Bool, true, false, not, ◌&&◌, Option, none, some, List, [], ◌∷◌, ◌++◌, ltb,
  leb, ◌==◌, if◌then◌else◌,
}
use cs144_introduction_to_co.Prelude.Maps.{lookup, assign, erase}
use cs144_introduction_to_co.Buffer.{Buffer}
use cs144_introduction_to_co.BufferList.{BufferList}
use cs144_introduction_to_co.BufferList
use cs144_introduction_to_co.Parser.{ParseResult, is_error}
use cs144_introduction_to_co.EthernetHeader.{
  EthernetAddress, ethernet_broadcast, filled, same_address, type_arp, type_ipv4,
}
use cs144_introduction_to_co.EthernetFrame.{EthernetFrame}
use cs144_introduction_to_co.EthernetFrame
use cs144_introduction_to_co.ArpMessage.{ArpMessage, opcode_reply, opcode_request}
use cs144_introduction_to_co.ArpMessage
use cs144_introduction_to_co.Ipv4Datagram.{Ipv4Datagram}
use cs144_introduction_to_co.Ipv4Datagram
pub mod Sound
pub mod Learn
pub mod Ready
pub mod Expiry
pub mod Clock
pub mod Runs
pub mod Sending
pub mod Resolve
pub mod Exchange
mod Examples

-- The queue and the vector are lists, oldest first. A status is an `int`, as its 32 bits: the age of
-- a mapping, or, below zero, the time since the ARP request.
pub record NetworkInterface : Type 0 where
  pub ethernet_address : EthernetAddress
  pub ip_address : ℕ
  pub frames_out : List EthernetFrame
  pub addr_map : List (ℕ × EthernetAddress)
  pub map_status : List (ℕ × ℕ)
  pub dgram_stage : List (ℕ × Ipv4Datagram)

-- How a call ends: it returns; an exception leaves it; or, in the state reached, it does what the
-- language leaves undefined, here the step of an iterator whose element was erased.
pub data Outcome (A : Type 0) : Type 0 where
  returns : A → Outcome A
  throws : Outcome A
  undefined : A → Outcome A

unfoldable pub make_interface : EthernetAddress → ℕ → NetworkInterface
make_interface ethernet_address ip_address = record {
  ethernet_address = ethernet_address;
  ip_address = ip_address;
  frames_out = [];
  addr_map = [];
  map_status = [];
  dgram_stage = [];
}

-- The status after a request.
abbrev pub minus_one : ℕ
minus_one = 2 ^ 32 - 1

-- Below zero, as an `int`.
abbrev pub is_negative : ℕ → Bool
is_negative status = leb (2 ^ 31) status

-- A frame from this interface.
abbrev pub framed : NetworkInterface → EthernetAddress → ℕ → BufferList → EthernetFrame
framed n dst ether_type payload = record {
  header = record { dst = dst; src = n.ethernet_address; ether_type = ether_type };
  payload = payload;
}

abbrev pub push_frame : NetworkInterface → EthernetFrame → NetworkInterface
push_frame n frame = record n { frames_out = n.frames_out ++ frame ∷ [] }

abbrev pub stage : NetworkInterface → ℕ → Ipv4Datagram → NetworkInterface
stage n next_hop dgram = record n { dgram_stage = n.dgram_stage ++ (next_hop, dgram) ∷ [] }

-- The frame of a serialized datagram goes to the address that is known.
abbrev pub send_known :
    NetworkInterface → EthernetAddress → Option BufferList → Outcome NetworkInterface
send_known n dst none = Outcome.throws
send_known n dst (some payload) = Outcome.returns (push_frame n (framed n dst type_ipv4 payload))

unfoldable pub arp_request : NetworkInterface → ℕ → ArpMessage
arp_request n next_hop = record ArpMessage.blank {
  sender_ethernet_address = n.ethernet_address;
  sender_ip_address = n.ip_address;
  target_ethernet_address = filled 0;
  target_ip_address = next_hop;
  opcode = opcode_request;
}

-- The request goes to all, and the datagram waits.
abbrev pub send_request :
    NetworkInterface → ℕ → Ipv4Datagram → Option (List ℕ) → Outcome NetworkInterface
send_request n next_hop dgram none = Outcome.throws
send_request n next_hop dgram (some bytes) =
    let frame = framed n ethernet_broadcast type_arp (BufferList.of_string bytes) in
    let waiting = record (stage n next_hop dgram) {
      map_status = assign next_hop minus_one n.map_status;
    } in
    Outcome.returns (push_frame waiting frame)

-- The branches for an address that is not known, by its status. The last one sends a frame that
-- nothing was written to.
unfoldable pub send_unknown :
    NetworkInterface → ℕ → Ipv4Datagram → Option ℕ → Outcome NetworkInterface
send_unknown n next_hop dgram none =
    send_request n next_hop dgram (ArpMessage.serialize (arp_request n next_hop))
send_unknown n next_hop dgram (some status) =
    if is_negative status
    then Outcome.returns (stage n next_hop dgram)
    else Outcome.returns (push_frame n EthernetFrame.blank)

abbrev pub send_by :
    NetworkInterface → Ipv4Datagram → ℕ → Option EthernetAddress → Outcome NetworkInterface
send_by n dgram next_hop (some dst) = send_known n dst (Ipv4Datagram.serialize dgram)
send_by n dgram next_hop none = send_unknown n next_hop dgram (lookup next_hop n.map_status)

unfoldable pub send_datagram : NetworkInterface → Ipv4Datagram → ℕ → Outcome NetworkInterface
send_datagram n dgram next_hop = send_by n dgram next_hop (lookup next_hop n.addr_map)

abbrev pub is_ready : Option ℕ → Bool
is_ready none = false
is_ready (some status) = not (is_negative status)

-- After a datagram was sent it is erased from the vector, and with it the loop's iterators.
abbrev pub erase_sent :
    List (ℕ × Ipv4Datagram) → Outcome NetworkInterface → Outcome NetworkInterface
erase_sent stage (Outcome.returns n) = Outcome.undefined (record n { dgram_stage = stage })
erase_sent stage Outcome.throws = Outcome.throws
erase_sent stage (Outcome.undefined n) = Outcome.undefined n

-- The loop, with the datagrams that it has passed and those to come.
unfoldable pub send_staged :
    NetworkInterface → List (ℕ × Ipv4Datagram) → List (ℕ × Ipv4Datagram) → Outcome NetworkInterface
send_staged n passed [] = Outcome.returns n
send_staged n passed ((next_hop, dgram) ∷ rest) =
    if is_ready (lookup next_hop n.map_status)
    then erase_sent (passed ++ rest) (send_datagram n dgram next_hop)
    else send_staged n (passed ++ (next_hop, dgram) ∷ []) rest

unfoldable pub send_stage_datagram : NetworkInterface → Outcome NetworkInterface
send_stage_datagram n = send_staged n [] n.dgram_stage

-- The mapping of a message that was parsed.
unfoldable pub learn : NetworkInterface → ArpMessage → NetworkInterface
learn n msg = record n {
  addr_map = assign msg.sender_ip_address msg.sender_ethernet_address n.addr_map;
  map_status = assign msg.sender_ip_address 0 n.map_status;
}

unfoldable pub arp_reply : NetworkInterface → ArpMessage → ArpMessage
arp_reply n msg = record msg {
  target_ethernet_address = msg.sender_ethernet_address;
  target_ip_address = msg.sender_ip_address;
  sender_ethernet_address = n.ethernet_address;
  sender_ip_address = n.ip_address;
  opcode = opcode_reply;
}

abbrev pub send_reply :
    NetworkInterface → EthernetAddress → Option (List ℕ) → Outcome NetworkInterface
send_reply n dst none = Outcome.throws
send_reply n dst (some bytes) =
    Outcome.returns (push_frame n (framed n dst type_arp (BufferList.of_string bytes)))

-- What an ARP frame does before the waiting datagrams are looked at.
unfoldable pub handle_arp : NetworkInterface → ParseResult × ArpMessage → Outcome NetworkInterface
handle_arp n (result, msg) =
    let learned = if is_error result then n else learn n msg in
    if msg.opcode == opcode_request && msg.target_ip_address == n.ip_address
    then send_reply learned msg.sender_ethernet_address (ArpMessage.serialize (arp_reply n msg))
    else Outcome.returns learned

-- `return {}`.
abbrev pub no_datagram : Outcome NetworkInterface → Outcome (NetworkInterface × Option Ipv4Datagram)
no_datagram (Outcome.returns n) = Outcome.returns (n, none)
no_datagram Outcome.throws = Outcome.throws
no_datagram (Outcome.undefined n) = Outcome.undefined (n, none)

-- `send_stage_datagram` after what came before, and no datagram for the caller.
abbrev pub then_stage : Outcome NetworkInterface → Outcome (NetworkInterface × Option Ipv4Datagram)
then_stage (Outcome.returns n) = no_datagram (send_stage_datagram n)
then_stage Outcome.throws = Outcome.throws
then_stage (Outcome.undefined n) = Outcome.undefined (n, none)

abbrev pub accept_datagram :
    NetworkInterface → ParseResult × Ipv4Datagram → Outcome (NetworkInterface × Option Ipv4Datagram)
accept_datagram n (result, dgram) =
    if is_error result then then_stage (Outcome.returns n) else Outcome.returns (n, some dgram)

-- A payload that is not one `Buffer` throws where it is converted.
unfoldable pub recv_ipv4 :
    NetworkInterface → Option Buffer → Outcome (NetworkInterface × Option Ipv4Datagram)
recv_ipv4 n none = Outcome.throws
recv_ipv4 n (some payload) = accept_datagram n (Ipv4Datagram.parse Ipv4Datagram.blank payload)

unfoldable pub recv_arp :
    NetworkInterface → Option Buffer → Outcome (NetworkInterface × Option Ipv4Datagram)
recv_arp n none = Outcome.throws
recv_arp n (some payload) = then_stage (handle_arp n (ArpMessage.parse ArpMessage.blank payload))

unfoldable pub recv_frame :
    NetworkInterface → EthernetFrame → Outcome (NetworkInterface × Option Ipv4Datagram)
recv_frame n frame =
    if frame.header.ether_type == type_ipv4 && same_address frame.header.dst n.ethernet_address
    then recv_ipv4 n (BufferList.to_buffer frame.payload)
    else if frame.header.ether_type == type_arp
    then recv_arp n (BufferList.to_buffer frame.payload)
    else then_stage (Outcome.returns n)

-- `+=` and `-=` of a `size_t` on an `int`.
unfoldable pub aged : ℕ → ℕ → ℕ
aged ms status =
    if is_negative status then (status + 2 ^ 64 - ms) % 2 ^ 32 else (status + ms) % 2 ^ 32

-- Whether the entry is erased; the status before tells a request from a mapping.
unfoldable pub expires : ℕ → ℕ → Bool
expires status next =
    if is_negative status
    then is_negative next && leb next (2 ^ 32 - 5001)
    else not (is_negative next) && leb 30000 next

abbrev pub keep_entry :
    ℕ × ℕ
    → Outcome (List (ℕ × ℕ) × List (ℕ × EthernetAddress))
    → Outcome (List (ℕ × ℕ) × List (ℕ × EthernetAddress))
keep_entry e (Outcome.returns (statuses, addresses)) = Outcome.returns (e ∷ statuses, addresses)
keep_entry e Outcome.throws = Outcome.throws
keep_entry e (Outcome.undefined (statuses, addresses)) = Outcome.undefined (e ∷ statuses, addresses)

-- The loop over `_map_status`, which is not empty inside it. The iterator stands on the entry that is
-- erased.
unfoldable pub tick_entries :
    ℕ
    → List (ℕ × EthernetAddress)
    → List (ℕ × ℕ)
    → Outcome (List (ℕ × ℕ) × List (ℕ × EthernetAddress))
tick_entries ms addresses [] = Outcome.returns ([], addresses)
tick_entries ms addresses ((ip, status) ∷ rest) =
    let next = aged ms status in
    let after = tick_entries ms addresses rest in
    if expires status next
    then Outcome.undefined (rest, if is_negative status then addresses else erase ip addresses)
    else keep_entry (ip, next) after

abbrev pub stage_after :
    NetworkInterface
    → Outcome (List (ℕ × ℕ) × List (ℕ × EthernetAddress))
    → Outcome NetworkInterface
stage_after n (Outcome.returns (statuses, addresses)) =
    send_stage_datagram (record n { map_status = statuses; addr_map = addresses })
stage_after n Outcome.throws = Outcome.throws
stage_after n (Outcome.undefined (statuses, addresses)) =
    Outcome.undefined (record n { map_status = statuses; addr_map = addresses })

unfoldable pub tick : NetworkInterface → ℕ → Outcome NetworkInterface
tick n ms = stage_after n (tick_entries ms n.addr_map n.map_status)
