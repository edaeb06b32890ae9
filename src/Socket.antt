-- ===== src/Socket.antt =====
-- util/socket.hh and socket.cc: what sockets add to a descriptor. The options and the addresses of a
-- socket are calls of the kernel alone, and are left out.
use cs144_introduction_to_co.Prelude.{ℕ, Option, none, some, List, length, ltb, ◌==◌, if◌then◌else◌}
use cs144_introduction_to_co.TcpOverIp.{Endpoint}
use cs144_introduction_to_co.SystemCall.{Exception, Attempt, Kernel, How, system_call}
use cs144_introduction_to_co.FileDescriptor.{FdWrapper, register_read, register_write}
use cs144_introduction_to_co.FileDescriptor

-- Shutting a socket down counts as a read, a write or both.
unfoldable pub register_shutdown : How → FdWrapper → FdWrapper
register_shutdown How.shut_rd f = register_read f
register_shutdown How.shut_wr f = register_write f
register_shutdown How.shut_rdwr f = register_write (register_read f)

abbrev pub shutdown_done : How → FdWrapper → Attempt Unit → FdWrapper × Attempt Unit
shutdown_done how f (Attempt.raised e) = (f, Attempt.raised e)
shutdown_done how f (Attempt.ok u) = (register_shutdown how f, Attempt.ok u)

-- `received_datagram`.
pub record ReceivedDatagram : Type 0 where
  pub source_address : Endpoint
  pub payload : List ℕ

abbrev pub recv_done :
    ℕ → FdWrapper → Attempt (Endpoint × List ℕ) → FdWrapper × Attempt ReceivedDatagram
recv_done mtu f (Attempt.raised e) = (f, Attempt.raised e)
recv_done mtu f (Attempt.ok (from, bytes)) =
    if ltb mtu (length bytes)
    then (f, Attempt.raised Exception.runtime_error)
    else (register_read f, Attempt.ok (record { source_address = from; payload = bytes }))

-- The end of `sendmsg_helper`.
abbrev pub sent_whole : ℕ → Attempt ℕ → Attempt Unit
sent_whole size (Attempt.raised e) = Attempt.raised e
sent_whole size (Attempt.ok n) =
    if n == size then Attempt.ok tt else Attempt.raised Exception.runtime_error

abbrev pub send_done : FdWrapper → Attempt Unit → FdWrapper × Attempt Unit
send_done f (Attempt.raised e) = (f, Attempt.raised e)
send_done f (Attempt.ok u) = (register_write f, Attempt.ok u)

-- The constructor from a descriptor: its domain and its type are those that are expected.
abbrev pub check_value : ℕ → Attempt ℕ → Attempt Unit
check_value expected (Attempt.raised e) = Attempt.raised e
check_value expected (Attempt.ok n) =
    if n == expected then Attempt.ok tt else Attempt.raised Exception.runtime_error

abbrev pub and_then : Attempt Unit → Attempt Unit → Attempt Unit
and_then (Attempt.raised e) next = Attempt.raised e
and_then (Attempt.ok u) next = next

abbrev pub made : FdWrapper → Attempt Unit → Attempt FdWrapper
made f (Attempt.raised e) = Attempt.raised e
made f (Attempt.ok u) = Attempt.ok f

module _ {W : Type 0} (kernel : Kernel W) where
  unfoldable pub shutdown : W → FdWrapper → How → W × FdWrapper × Attempt Unit
  shutdown w f how =
      let (v, answer) = kernel.shutdown w f.fd how in
      let (g, result) = shutdown_done how f (system_call answer) in (v, g, result)

  unfoldable pub recv : W → FdWrapper → ℕ → W × FdWrapper × Attempt ReceivedDatagram
  recv w f mtu =
      let (v, answer) = kernel.recvfrom w f.fd mtu in
      let (g, result) = recv_done mtu f (system_call answer) in (v, g, result)

  unfoldable pub sendmsg_helper : W → ℕ → Option Endpoint → List ℕ → W × Attempt Unit
  sendmsg_helper w fd destination payload =
      let (v, answer) = kernel.sendmsg w fd destination payload in
      (v, sent_whole (length payload) (system_call answer))

  unfoldable pub sendto : W → FdWrapper → Endpoint → List ℕ → W × FdWrapper × Attempt Unit
  sendto w f destination payload =
      let (v, result) = sendmsg_helper w f.fd (some destination) payload in
      let (g, sent) = send_done f result in (v, g, sent)

  unfoldable pub send : W → FdWrapper → List ℕ → W × FdWrapper × Attempt Unit
  send w f payload =
      let (v, result) = sendmsg_helper w f.fd none payload in
      let (g, sent) = send_done f result in (v, g, sent)

  unfoldable pub from_descriptor : W → FdWrapper → ℕ → ℕ → Attempt FdWrapper
  from_descriptor w f domain type_ = made f (
      and_then (check_value domain (system_call (kernel.socket_domain w f.fd)))
        (check_value type_ (system_call (kernel.socket_type w f.fd))))

  abbrev pub accepted_socket : W → ℕ → ℕ → Attempt ℕ → Attempt FdWrapper
  accepted_socket w domain type_ (Attempt.raised e) = Attempt.raised e
  accepted_socket w domain type_ (Attempt.ok fd) =
      from_descriptor w (FileDescriptor.make fd) domain type_

  -- The read is counted before the call. `domain` and `type_` are those of TCP sockets.
  unfoldable pub accept : W → FdWrapper → ℕ → ℕ → W × FdWrapper × Attempt FdWrapper
  accept w f domain type_ =
      let (v, answer) = kernel.accept w f.fd in
      (v, register_read f, accepted_socket v domain type_ (system_call answer))
