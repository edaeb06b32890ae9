-- ===== src/StreamCopy.antt =====
-- apps/bidirectional_stream_copy.cc: the standard input to a socket and the socket to the standard
-- output, through two byte streams, on the event loop. `set_blocking` is a flag of the kernel's.
use cs144_introduction_to_co.Prelude.{
  ℕ, zero, suc, ◌*◌, Bool, true, false, not, ◌&&◌, ◌||◌, List, [], ◌∷◌, min, ltb, if◌then◌else◌,
}
use cs144_introduction_to_co.ByteStream.{ByteStream}
use cs144_introduction_to_co.ByteStream
use cs144_introduction_to_co.SystemCall.{Exception, Attempt, Kernel, How}
use cs144_introduction_to_co.FileDescriptor.{FdWrapper}
use cs144_introduction_to_co.FileDescriptor
use cs144_introduction_to_co.Socket
use cs144_introduction_to_co.EventLoop.{
  Rule, Direction, PollFd, Polled, Result, Waited, add_rule, wait_next_event,
}
pub mod Piped
pub mod Calls
pub mod Fifo
mod Examples

abbrev pub max_copy_length : ℕ
max_copy_length = 65536

abbrev pub buffer_size : ℕ
buffer_size = 1048576

-- What the lambdas capture, and the kernel.
pub record Copy (W : Type 0) : Type 0 where
  pub world : W
  pub input : FdWrapper
  pub socket : FdWrapper
  pub output : FdWrapper
  pub outbound : ByteStream
  pub inbound : ByteStream
  pub outbound_shutdown : Bool
  pub inbound_shutdown : Bool

-- A stream after a read: what came is written to it, and at the end of the descriptor it is ended.
unfoldable pub filled : ByteStream → List ℕ → Bool → ByteStream
filled stream bytes eof =
    let written = (ByteStream.write stream bytes).0 in
    if eof then ByteStream.end_input written else written

-- What is offered of a stream in one write.
unfoldable pub offered : ByteStream → List ℕ
offered stream = ByteStream.peek_output stream (min max_copy_length (ByteStream.buffer_size stream))

-- The tests of the rules that read and of those that write.
unfoldable pub wants_input : ByteStream → ByteStream → Bool
wants_input stream other =
    not stream.error && ltb 0 (ByteStream.remaining_capacity stream) && not other.error

unfoldable pub wants_output : ByteStream → Bool → Bool
wants_output stream is_shutdown =
    not (ByteStream.buffer_empty stream) || (ByteStream.eof stream && not is_shutdown)

module _ {W : Type 0} where
  unfoldable pub make : W → FdWrapper → Copy W
  make w socket = record {
    world = w;
    input = FileDescriptor.make 0;
    socket = socket;
    output = FileDescriptor.make 1;
    outbound = ByteStream.make buffer_size;
    inbound = ByteStream.make buffer_size;
    outbound_shutdown = false;
    inbound_shutdown = false;
  }

  unfoldable pub cancel_outbound : Copy W → Copy W × Attempt Unit
  cancel_outbound c = (record c { outbound = ByteStream.end_input c.outbound }, Attempt.ok tt)

  unfoldable pub cancel_inbound : Copy W → Copy W × Attempt Unit
  cancel_inbound c = (record c { inbound = ByteStream.end_input c.inbound }, Attempt.ok tt)

  abbrev pub input_done : Copy W → W × FdWrapper × Attempt (List ℕ) → Copy W × Attempt Unit
  input_done c (w, f, Attempt.raised e) = (record c { world = w; input = f }, Attempt.raised e)
  input_done c (w, f, Attempt.ok bytes) =
      (record c { world = w; input = f; outbound = filled c.outbound bytes f.eof }, Attempt.ok tt)

  abbrev pub socket_input_done : Copy W → W × FdWrapper × Attempt (List ℕ) → Copy W × Attempt Unit
  socket_input_done c (w, f, Attempt.raised e) =
      (record c { world = w; socket = f }, Attempt.raised e)
  socket_input_done c (w, f, Attempt.ok bytes) =
      (record c { world = w; socket = f; inbound = filled c.inbound bytes f.eof }, Attempt.ok tt)

  abbrev pub socket_shut : Copy W → W × FdWrapper × Attempt Unit → Copy W × Attempt Unit
  socket_shut c (w, f, Attempt.raised e) = (record c { world = w; socket = f }, Attempt.raised e)
  socket_shut c (w, f, Attempt.ok u) =
      (record c { world = w; socket = f; outbound_shutdown = true }, Attempt.ok tt)

  abbrev pub output_closed : Copy W → W × FdWrapper × Attempt Unit → Copy W × Attempt Unit
  output_closed c (w, f, Attempt.raised e) = (record c { world = w; output = f }, Attempt.raised e)
  output_closed c (w, f, Attempt.ok u) =
      (record c { world = w; output = f; inbound_shutdown = true }, Attempt.ok tt)

  module _ (kernel : Kernel W) where
    unfoldable pub read_input : Copy W → Copy W × Attempt Unit
    read_input c =
        input_done c
          (FileDescriptor.read kernel c.world c.input (ByteStream.remaining_capacity c.outbound))

    abbrev pub socket_output_done : Copy W → W × FdWrapper × Attempt ℕ → Copy W × Attempt Unit
    socket_output_done c (w, f, Attempt.raised e) =
        (record c { world = w; socket = f }, Attempt.raised e)
    socket_output_done c (w, f, Attempt.ok n) =
        let d = record c { world = w; socket = f; outbound = ByteStream.pop_output c.outbound n } in
        if ByteStream.eof d.outbound
        then socket_shut d (Socket.shutdown kernel w f How.shut_wr)
        else (d, Attempt.ok tt)

    unfoldable pub write_socket : Copy W → Copy W × Attempt Unit
    write_socket c =
        socket_output_done c
          (FileDescriptor.write kernel c.world c.socket (offered c.outbound) false)

    unfoldable pub read_socket : Copy W → Copy W × Attempt Unit
    read_socket c =
        socket_input_done c
          (FileDescriptor.read kernel c.world c.socket (ByteStream.remaining_capacity c.inbound))

    abbrev pub output_done : Copy W → W × FdWrapper × Attempt ℕ → Copy W × Attempt Unit
    output_done c (w, f, Attempt.raised e) = (record c { world = w; output = f }, Attempt.raised e)
    output_done c (w, f, Attempt.ok n) =
        let d = record c { world = w; output = f; inbound = ByteStream.pop_output c.inbound n } in
        if ByteStream.eof d.inbound
        then output_closed d (FileDescriptor.close kernel w f)
        else (d, Attempt.ok tt)

    unfoldable pub write_output : Copy W → Copy W × Attempt Unit
    write_output c =
        output_done c (FileDescriptor.write kernel c.world c.output (offered c.inbound) false)

    abbrev pub input_rule : Rule (Copy W)
    input_rule = record {
      fd = λ c. c.input;
      direction = Direction.in_;
      callback = read_input;
      interest = λ c. wants_input c.outbound c.inbound;
      cancel = cancel_outbound;
    }

    abbrev pub socket_output_rule : Rule (Copy W)
    socket_output_rule = record {
      fd = λ c. c.socket;
      direction = Direction.out;
      callback = write_socket;
      interest = λ c. wants_output c.outbound c.outbound_shutdown;
      cancel = cancel_outbound;
    }

    abbrev pub socket_input_rule : Rule (Copy W)
    socket_input_rule = record {
      fd = λ c. c.socket;
      direction = Direction.in_;
      callback = read_socket;
      interest = λ c. wants_input c.inbound c.outbound;
      cancel = cancel_inbound;
    }

    abbrev pub output_rule : Rule (Copy W)
    output_rule = record {
      fd = λ c. c.output;
      direction = Direction.out;
      callback = write_output;
      interest = λ c. wants_output c.inbound c.inbound_shutdown;
      cancel = cancel_inbound;
    }

    unfoldable pub rules : List (Rule (Copy W))
    rules =
        add_rule (add_rule (add_rule (add_rule [] input_rule) socket_output_rule) socket_input_rule)
          output_rule

    -- The loop, for so many waits at most: it returns on `Exit`, and on an exception.
    module _ (poll : W → List PollFd → W × Polled) where
      abbrev pub poll_world : Copy W → List PollFd → Copy W × Polled
      poll_world c fds = let (w, p) = poll c.world fds in (record c { world = w }, p)

      abbrev pub go_on :
          (List (Rule (Copy W)) → Copy W → Waited (Copy W)) → Waited (Copy W) → Waited (Copy W)
      go_on rest (c, rs, Attempt.ok Result.success) = rest rs c
      go_on rest (c, rs, Attempt.ok Result.timeout) = rest rs c
      go_on rest (c, rs, Attempt.ok Result.exit) = (c, rs, Attempt.ok Result.exit)
      go_on rest (c, rs, Attempt.raised e) = (c, rs, Attempt.raised e)

      unfoldable pub loop : ℕ → List (Rule (Copy W)) → Copy W → Waited (Copy W)
      loop zero rs c = (c, rs, Attempt.ok Result.success)
      loop (suc fuel) rs c = go_on (loop fuel) (wait_next_event poll_world rs c)

      unfoldable pub bidirectional_stream_copy : ℕ → W → FdWrapper → Waited (Copy W)
      bidirectional_stream_copy waits w socket = loop waits rules (make w socket)
