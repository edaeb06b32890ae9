-- ===== src/SpongeSocket.antt =====
-- tcp_helpers/tcp_sponge_socket.hh and tcp_sponge_socket.cc: a TCP connection between the local socket of
-- its owner and a datagram adapter, on the event loop. This is the state of the thread that runs the
-- connection; the owner's thread meets it in the kernel only, at the other end of the local socket, and
-- in the flag `_abort`. The messages to `cerr` are left out.
use cs144_introduction_to_co.Prelude.{
  ℕ, zero, suc, ◌-◌, Bool, true, false, not, ◌&&◌, ◌||◌, Option, none, some, List, [], ◌∷◌, length,
  min, ltb, ◌==◌, if◌then◌else◌,
}
use cs144_introduction_to_co.Prelude.Words.{sub64}
use cs144_introduction_to_co.ByteStream.{ByteStream}
use cs144_introduction_to_co.ByteStream
use cs144_introduction_to_co.SystemCall.{Exception, Attempt, Kernel, How}
use cs144_introduction_to_co.FileDescriptor.{FdWrapper}
use cs144_introduction_to_co.FileDescriptor
use cs144_introduction_to_co.Socket
use cs144_introduction_to_co.EventLoop.{
  Rule, Direction, PollFd, Polled, Result, Waited, add_rule, wait_next_event,
}
use cs144_introduction_to_co.TcpConfig.{TcpConfig}
use cs144_introduction_to_co.TcpOverIp.{Endpoint}
use cs144_introduction_to_co.WrappingIntegers.{WrappingInt32}
use cs144_introduction_to_co.TcpSegment.{TcpSegment}
use cs144_introduction_to_co.TcpReceiver.{stream_out, with_stream}
use cs144_introduction_to_co.TcpState.{TcpState, State, summarize, official, same_state}
use cs144_introduction_to_co.TcpConnection.{
  TcpConnection, make_connection, remaining_outbound_capacity,
}
use cs144_introduction_to_co.TcpConnection
pub mod Callbacks
pub mod Starts
mod Examples

-- `FdAdapterConfig` of tcp_config.hh.
pub record FdAdapterConfig : Type 0 where
  pub source : Endpoint
  pub destination : Endpoint
  pub loss_rate_dn : ℕ
  pub loss_rate_up : ℕ

-- The adapter of the template, `AdaptT`: its descriptor and its calls, in the world of the kernel.
pub record DatagramAdapter (W A : Type 0) : Type 0 where
  pub fd : A → FdWrapper
  pub read : W → A → W × A × Attempt (Option TcpSegment)
  pub write : W → A → TcpSegment → W × A × Attempt Unit
  pub tick : W → A → ℕ → W × A × Attempt Unit
  pub with_config : A → FdAdapterConfig → A
  pub set_listening : A → Bool → A

pub record SpongeSocket (W A : Type 0) : Type 0 where
  pub world : W
  pub thread_data : FdWrapper
  pub adapter : A
  pub tcp : TcpConnection
  pub inbound_shutdown : Bool
  pub outbound_shutdown : Bool
  pub fully_acked : Bool

unfoldable pub inbound_stream : TcpConnection → ByteStream
inbound_stream c = stream_out c.receiver

-- `state()` of a connection.
unfoldable pub connection_state : TcpConnection → TcpState
connection_state c = summarize c.sender c.receiver c.active c.linger_after_streams_finish

-- A call through the reference that `inbound_stream` gives.
abbrev pub with_inbound : TcpConnection → ByteStream → TcpConnection
with_inbound c stream = record c { receiver = with_stream c.receiver stream }

-- The bytes that one write offers to the owner.
unfoldable pub inbound_offer : TcpConnection → List ℕ
inbound_offer c =
    let inbound = inbound_stream c in
    ByteStream.peek_output inbound (min 65536 (ByteStream.buffer_size inbound))

module _ {W A : Type 0} where
  -- A segment that came, and the note that all is acknowledged.
  unfoldable pub note_acked : SpongeSocket W A → SpongeSocket W A
  note_acked s =
      let all = s.thread_data.eof && s.tcp.sender.bytes_in_flight == 0 in
      record s { fully_acked = all || s.fully_acked }

  abbrev pub take_segment : SpongeSocket W A → Option TcpSegment → SpongeSocket W A
  take_segment s none = s
  take_segment s (some seg) = record s { tcp = TcpConnection.segment_received s.tcp seg }

  abbrev pub datagram_read :
      SpongeSocket W A → W × A × Attempt (Option TcpSegment) → SpongeSocket W A × Attempt Unit
  datagram_read s (w, a, Attempt.raised e) = (record s { world = w; adapter = a }, Attempt.raised e)
  datagram_read s (w, a, Attempt.ok seg) =
      (note_acked (take_segment (record s { world = w; adapter = a }) seg), Attempt.ok tt)

  -- The owner has closed its side.
  unfoldable pub end_outbound : SpongeSocket W A → SpongeSocket W A
  end_outbound s = record s { tcp = TcpConnection.end_input_stream s.tcp; outbound_shutdown = true }

  abbrev pub data_read :
      SpongeSocket W A → W × FdWrapper × Attempt (List ℕ) → SpongeSocket W A × Attempt Unit
  data_read s (w, f, Attempt.raised e) = (record s { world = w; thread_data = f }, Attempt.raised e)
  data_read s (w, f, Attempt.ok bytes) =
      let (tcp, amount_written) = TcpConnection.write s.tcp bytes in
      let t = record s { world = w; thread_data = f; tcp = tcp } in
      if not (amount_written == length bytes)
      then (t, Attempt.raised Exception.runtime_error)
      else (if f.eof then end_outbound t else t, Attempt.ok tt)

  abbrev pub inbound_shut :
      SpongeSocket W A → W × FdWrapper × Attempt Unit → SpongeSocket W A × Attempt Unit
  inbound_shut s (w, f, Attempt.raised e) =
      (record s { world = w; thread_data = f }, Attempt.raised e)
  inbound_shut s (w, f, Attempt.ok u) =
      (record s { world = w; thread_data = f; inbound_shutdown = true }, Attempt.ok tt)

  -- `_initialize_TCP`: the connection; its rules are below.
  unfoldable pub initialize_tcp : W → FdWrapper → A → TcpConfig → WrappingInt32 → SpongeSocket W A
  initialize_tcp w thread_data adapter config random = record {
    world = w;
    thread_data = thread_data;
    adapter = adapter;
    tcp = make_connection config random;
    inbound_shutdown = false;
    outbound_shutdown = false;
    fully_acked = false;
  }

  module _ (kernel : Kernel W) (datagrams : DatagramAdapter W A) where
    unfoldable pub receive_datagram : SpongeSocket W A → SpongeSocket W A × Attempt Unit
    receive_datagram s = datagram_read s (datagrams.read s.world s.adapter)

    unfoldable pub receive_data : SpongeSocket W A → SpongeSocket W A × Attempt Unit
    receive_data s =
        data_read s
          (FileDescriptor.read kernel s.world s.thread_data (remaining_outbound_capacity s.tcp))

    abbrev pub data_written :
        SpongeSocket W A → W × FdWrapper × Attempt ℕ → SpongeSocket W A × Attempt Unit
    data_written s (w, f, Attempt.raised e) =
        (record s { world = w; thread_data = f }, Attempt.raised e)
    data_written s (w, f, Attempt.ok n) =
        let inbound = ByteStream.pop_output (inbound_stream s.tcp) n in
        let t = record s { world = w; thread_data = f; tcp = with_inbound s.tcp inbound } in
        if ByteStream.eof inbound || inbound.error
        then inbound_shut t (Socket.shutdown kernel w f How.shut_wr)
        else (t, Attempt.ok tt)

    unfoldable pub deliver_data : SpongeSocket W A → SpongeSocket W A × Attempt Unit
    deliver_data s =
        data_written s
          (FileDescriptor.write kernel s.world s.thread_data (inbound_offer s.tcp) false)

    -- The loop that empties the queue; a segment leaves it once the adapter has written it.
    abbrev pub segment_written :
        List TcpSegment
        → W × A × Attempt Unit
        → (W → A → W × A × List TcpSegment × Attempt Unit)
        → W × A × List TcpSegment × Attempt Unit
    segment_written queue (w, a, Attempt.raised e) rest = (w, a, queue, Attempt.raised e)
    segment_written queue (w, a, Attempt.ok u) rest = rest w a

    unfoldable pub write_segments : List TcpSegment → W → A → W × A × List TcpSegment × Attempt Unit
    write_segments [] w a = (w, a, [], Attempt.ok tt)
    write_segments (seg ∷ segs) w a =
        segment_written (seg ∷ segs) (datagrams.write w a seg) (write_segments segs)

    unfoldable pub send_datagrams : SpongeSocket W A → SpongeSocket W A × Attempt Unit
    send_datagrams s =
        let (w, a, left, result) = write_segments s.tcp.segments_out s.world s.adapter in
        (record s { world = w; adapter = a; tcp = record (s.tcp) { segments_out = left } }, result)

    abbrev pub datagram_rule : Rule (SpongeSocket W A)
    datagram_rule = record {
      fd = λ s. datagrams.fd s.adapter;
      direction = Direction.in_;
      callback = receive_datagram;
      interest = λ s. s.tcp.active;
      cancel = λ s. (s, Attempt.ok tt);
    }

    abbrev pub data_rule : Rule (SpongeSocket W A)
    data_rule = record {
      fd = λ s. s.thread_data;
      direction = Direction.in_;
      callback = receive_data;
      interest =
          λ s. s.tcp.active && not s.outbound_shutdown && ltb 0 (remaining_outbound_capacity s.tcp);
      cancel = λ s. (end_outbound s, Attempt.ok tt);
    }

    abbrev pub deliver_rule : Rule (SpongeSocket W A)
    deliver_rule = record {
      fd = λ s. s.thread_data;
      direction = Direction.out;
      callback = deliver_data;
      interest = λ s.
          let inbound = inbound_stream s.tcp in
          not (ByteStream.buffer_empty inbound)
          || ((ByteStream.eof inbound || inbound.error) && not s.inbound_shutdown);
      cancel = λ s. (s, Attempt.ok tt);
    }

    abbrev pub send_rule : Rule (SpongeSocket W A)
    send_rule = record {
      fd = λ s. datagrams.fd s.adapter;
      direction = Direction.out;
      callback = send_datagrams;
      interest = λ s. elim s.tcp.segments_out [ [] ↦ false | _ ∷ _ ↦ true ];
      cancel = λ s. (s, Attempt.ok tt);
    }

    -- The rules of `_initialize_TCP`.
    unfoldable pub rules : List (Rule (SpongeSocket W A))
    rules =
        add_rule (add_rule (add_rule (add_rule [] datagram_rule) data_rule) deliver_rule) send_rule

    -- `timestamp_ms`, the flag `_abort` that the owner's thread sets, and `poll`.
    module _ (timestamp_ms : W → W × ℕ) (is_aborted : W → Bool)
        (poll : W → List PollFd → W × Polled) where
      -- The state, the rules, and whether the loop has ended, or has had its number of waits.
      abbrev pub Looped : Type 0
      Looped = SpongeSocket W A × List (Rule (SpongeSocket W A)) × Attempt Bool

      abbrev pub poll_world : SpongeSocket W A → List PollFd → SpongeSocket W A × Polled
      poll_world s fds = let (w, p) = poll s.world fds in (record s { world = w }, p)

      abbrev pub adapter_ticked :
          SpongeSocket W A
          → List (Rule (SpongeSocket W A))
          → W × A × Attempt Unit
          → (List (Rule (SpongeSocket W A)) → SpongeSocket W A → Looped)
          → Looped
      adapter_ticked s rs (w, a, Attempt.raised e) rest =
          (record s { world = w; adapter = a }, rs, Attempt.raised e)
      adapter_ticked s rs (w, a, Attempt.ok u) rest = rest rs (record s { world = w; adapter = a })

      -- The ticks at the time `next_time`, then the rest of the loop, from that time on.
      abbrev pub tick_both :
          ℕ
          → ℕ
          → SpongeSocket W A
          → List (Rule (SpongeSocket W A))
          → (ℕ → List (Rule (SpongeSocket W A)) → SpongeSocket W A → Looped)
          → Looped
      tick_both base_time next_time s rs rest =
          let ms = sub64 next_time base_time in
          let t = record s { tcp = TcpConnection.tick s.tcp ms } in
          adapter_ticked t rs (datagrams.tick t.world t.adapter ms) (rest next_time)

      abbrev pub is_exit : Result → Bool
      is_exit Result.exit = true
      is_exit Result.success = false
      is_exit Result.timeout = false

      unfoldable pub waited :
          ℕ
          → Waited (SpongeSocket W A)
          → (ℕ → List (Rule (SpongeSocket W A)) → SpongeSocket W A → Looped)
          → Looped
      waited base_time (s, rs, Attempt.raised e) rest = (s, rs, Attempt.raised e)
      waited base_time (s, rs, Attempt.ok result) rest =
          let (w, next_time) = timestamp_ms s.world in
          if is_exit result || is_aborted s.world
          then (s, rs, Attempt.ok true)
          else if s.tcp.active
          then tick_both base_time next_time (record s { world = w }) rs rest
          else rest base_time rs s

      -- `_tcp_loop` from `base_time` on, for so many waits at most.
      unfoldable pub tcp_loop :
          ℕ
          → (SpongeSocket W A → Bool)
          → ℕ
          → List (Rule (SpongeSocket W A))
          → SpongeSocket W A
          → Looped
      tcp_loop zero condition base_time rs s = (s, rs, Attempt.ok false)
      tcp_loop (suc waits) condition base_time rs s =
          if not (condition s)
          then (s, rs, Attempt.ok true)
          else waited base_time (wait_next_event poll_world rs s) (tcp_loop waits condition)

      abbrev pub from_now : ℕ → (SpongeSocket W A → Bool) → SpongeSocket W A → Looped
      from_now waits condition s =
          let (w, base_time) = timestamp_ms s.world in
          tcp_loop waits condition base_time rules (record s { world = w })

      abbrev pub in_state : State → SpongeSocket W A → Bool
      in_state state s = same_state (connection_state s.tcp) (official state)

      -- The calls up to the start of the thread. `existing` is `_tcp` before the call, and `random` the
      -- number that the new connection draws. `_initialize_TCP` comes before the configuration.
      unfoldable pub connect :
          ℕ
          → TcpConfig
          → FdAdapterConfig
          → WrappingInt32
          → Option TcpConnection
          → W
          → FdWrapper
          → A
          → Attempt Looped
      connect waits c_tcp c_ad random (some c) w thread_data adapter =
          Attempt.raised Exception.runtime_error
      connect waits c_tcp c_ad random none w thread_data adapter =
          let s = initialize_tcp w thread_data (datagrams.with_config adapter c_ad) c_tcp random in
          let t = record s { tcp = TcpConnection.connect s.tcp } in
          if not (in_state State.syn_sent t)
          then Attempt.raised Exception.runtime_error
          else Attempt.ok (from_now waits (in_state State.syn_sent) t)

      unfoldable pub listen_and_accept :
          ℕ
          → TcpConfig
          → FdAdapterConfig
          → WrappingInt32
          → Option TcpConnection
          → W
          → FdWrapper
          → A
          → Attempt Looped
      listen_and_accept waits c_tcp c_ad random (some c) w thread_data adapter =
          Attempt.raised Exception.runtime_error
      listen_and_accept waits c_tcp c_ad random none w thread_data adapter =
          let configured = datagrams.set_listening (datagrams.with_config adapter c_ad) true in
          Attempt.ok (
            from_now waits
              (λ t.
                in_state State.listen t || in_state State.syn_rcvd t || in_state State.syn_sent t)
              (initialize_tcp w thread_data configured c_tcp random))
