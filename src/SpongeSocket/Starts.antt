-- ===== src/SpongeSocket/Starts.antt =====
-- tcp_sponge_socket.cc: the state of a connection that was just opened.
use cs144_introduction_to_co.Prelude.{ℕ, ◌≡◌, refl, true, Bool, List, none, some}
use cs144_introduction_to_co.WrappingIntegers
use cs144_introduction_to_co.WrappingIntegers.{WrappingInt32}
use cs144_introduction_to_co.Buffer
use cs144_introduction_to_co.ByteStream
use cs144_introduction_to_co.StreamReassembler
use cs144_introduction_to_co.SystemCall.{Exception, Attempt, Kernel}
use cs144_introduction_to_co.FileDescriptor.{FdWrapper}
use cs144_introduction_to_co.EventLoop.{PollFd, Polled}
use cs144_introduction_to_co.TcpConfig.{TcpConfig}
use cs144_introduction_to_co.TcpSegment
use cs144_introduction_to_co.TcpReceiver
use cs144_introduction_to_co.TcpSender
use cs144_introduction_to_co.TcpState
use cs144_introduction_to_co.TcpState.{State, official, same_state}
use cs144_introduction_to_co.TcpConnection
use cs144_introduction_to_co.SpongeSocket.{
  SpongeSocket, DatagramAdapter, FdAdapterConfig, connection_state, connect, initialize_tcp,
  in_state, from_now,
}

opened_state :
    (config : TcpConfig) (random : WrappingInt32)
    → same_state
        (connection_state (TcpConnection.connect (TcpConnection.make_connection config random)))
        (official State.syn_sent)
      ≡ true
unfolding connection_state same_state official TcpState.summarize TcpState.sender_summary
    TcpState.receiver_summary TcpConnection.connect TcpConnection.segment_sends
    TcpConnection.clean_shutdown TcpConnection.collect TcpConnection.make_connection
    TcpReceiver.make_receiver TcpReceiver.stream_out TcpReceiver.get_ackno TcpSender.make_sender
    TcpSender.fill_window TcpSender.send_segment TcpSegment.default_segment
    TcpSegment.length_in_sequence_space ByteStream.make ByteStream.input_ended ByteStream.eof
    StreamReassembler.make Buffer.empty_buffer Buffer.str WrappingIntegers.equal
    WrappingIntegers.make
opened_state config random = refl

module _ {W A : Type 0} (kernel : Kernel W) (datagrams : DatagramAdapter W A) where
  module _ (timestamp_ms : W → W × ℕ) (is_aborted : W → Bool)
      (poll : W → List PollFd → W × Polled) where
    -- The connection that has sent its SYN, on the configured adapter.
    abbrev pub started :
        TcpConfig → FdAdapterConfig → WrappingInt32 → W → FdWrapper → A → SpongeSocket W A
    started c_tcp c_ad random w f a =
        let s = initialize_tcp w f (datagrams.with_config a c_ad) c_tcp random in
        record s { tcp = TcpConnection.connect s.tcp }

    -- `connect` on a socket that has no connection, whatever the configuration and the number drawn, comes
    -- to its loop: it never throws for a state after `TCPConnection::connect` that is not SYN_SENT. On
    -- a socket that has a connection it throws.
    pub connect_starts :
        (waits : ℕ) (c_tcp : TcpConfig) (c_ad : FdAdapterConfig) (random : WrappingInt32)
        (c : TcpConnection.TcpConnection) (w : W) (f : FdWrapper) (a : A)
        → let call =
            connect kernel datagrams timestamp_ms is_aborted poll waits c_tcp c_ad random in
          (call none w f a
            ≡ Attempt.ok (
                from_now kernel datagrams timestamp_ms is_aborted poll waits
                  (in_state kernel datagrams timestamp_ms is_aborted poll State.syn_sent)
                  (started c_tcp c_ad random w f a)))
          × (call (some c) w f a ≡ Attempt.raised Exception.runtime_error)
    unfolding connect initialize_tcp
    connect_starts waits c_tcp c_ad random c w f a = (rw (opened_state c_tcp random) refl, refl)
