-- ===== src/SpongeSocket/Examples.antt =====
-- Tests of tcp_sponge_socket.cc on a kernel that keeps a log, with an adapter that loses everything.
use cs144_introduction_to_co.Prelude.{ℕ, ◌≡◌, arith, Bool, false, none, some, List, [], ◌∷◌}
use cs144_introduction_to_co.WrappingIntegers.{make}
use cs144_introduction_to_co.ByteStream
use cs144_introduction_to_co.ByteStream.Queue.{IsValid, make-IsValid, write-IsValid}
use cs144_introduction_to_co.SystemCall.{Attempt, Answer, Exception}
use cs144_introduction_to_co.FileDescriptor.{FdWrapper}
use cs144_introduction_to_co.FileDescriptor
use cs144_introduction_to_co.FileDescriptor.Logged.{
  Logs, empty_logs, kernel, log_consumed, log_put, kernel-IsFaithful,
}
use cs144_introduction_to_co.EventLoop.{PollFd, Polled}
use cs144_introduction_to_co.EventLoop.Rounds.{no_revents}
use cs144_introduction_to_co.TcpConfig.{default_config}
use cs144_introduction_to_co.TcpReceiver
use cs144_introduction_to_co.TcpState.{State}
use cs144_introduction_to_co.TcpConnection.{remaining_outbound_capacity}
use cs144_introduction_to_co.SpongeSocket.{
  SpongeSocket, DatagramAdapter, FdAdapterConfig, initialize_tcp, with_inbound, inbound_stream,
  receive_data, deliver_data, connect, from_now, in_state,
}
use cs144_introduction_to_co.SpongeSocket.Callbacks.{
  outcome, Delivers, receive_data_accepts, deliver_data-Delivers,
}
use cs144_introduction_to_co.SpongeSocket.Starts.{started, connect_starts}

abbrev losing : DatagramAdapter Logs FdWrapper
losing = record {
  fd = λ a. a;
  read = λ w a. (w, a, Attempt.ok none);
  write = λ w a seg. (w, a, Attempt.ok tt);
  tick = λ w a ms. (w, a, Attempt.ok tt);
  with_config = λ a c. a;
  set_listening = λ a b. a;
}

abbrev fresh : SpongeSocket Logs FdWrapper
fresh =
    initialize_tcp empty_logs (FileDescriptor.make 4) (FileDescriptor.make 5) default_config
      (make 9)

receive_data_accepts_example :
    (receive_data kernel losing fresh).1
    ≡ outcome kernel losing
        (FileDescriptor.read kernel fresh.world fresh.thread_data
          (remaining_outbound_capacity fresh.tcp)).2
receive_data_accepts_example = receive_data_accepts kernel losing fresh

-- Three bytes have arrived.
abbrev arrived : SpongeSocket Logs FdWrapper
arrived = record fresh {
  tcp = with_inbound fresh.tcp (ByteStream.write (ByteStream.make 8) (1 ∷ 2 ∷ 3 ∷ [])).0;
}

arrived-IsValid : IsValid (inbound_stream arrived.tcp)
unfolding inbound_stream TcpReceiver.stream_out
arrived-IsValid = write-IsValid (ByteStream.make 8) (1 ∷ 2 ∷ 3 ∷ []) (make-IsValid 8 (omega arith))

deliver_data-Delivers_example :
    Delivers kernel losing log_consumed log_put arrived (deliver_data kernel losing arrived).0
deliver_data-Delivers_example =
    deliver_data-Delivers kernel losing log_consumed log_put arrived kernel-IsFaithful
      arrived-IsValid

abbrev no_time : Logs → Logs × ℕ
no_time w = (w, 0)

abbrev never : Logs → Bool
never w = false

abbrev quiet : Logs → List PollFd → Logs × Polled
quiet w fds = (w, record { polled_answer = Answer.returned 0; revents = λ i. no_revents })

abbrev ends : FdAdapterConfig
ends = record {
  source = record { ip = 1; port = 2 };
  destination = record { ip = 3; port = 4 };
  loss_rate_dn = 0;
  loss_rate_up = 0;
}

connect_starts_example :
    let call = connect kernel losing no_time never quiet 2 default_config ends (make 9) in
    (call none empty_logs (FileDescriptor.make 4) (FileDescriptor.make 5)
      ≡ Attempt.ok (
          from_now kernel losing no_time never quiet 2
            (in_state kernel losing no_time never quiet State.syn_sent)
            (started kernel losing no_time never quiet default_config ends
              (make 9)
              empty_logs
              (FileDescriptor.make 4)
              (FileDescriptor.make 5))))
    × (call (some fresh.tcp) empty_logs (FileDescriptor.make 4) (FileDescriptor.make 5)
        ≡ Attempt.raised Exception.runtime_error)
connect_starts_example =
    connect_starts kernel losing no_time never quiet 2 default_config ends (make 9) fresh.tcp
      empty_logs (FileDescriptor.make 4) (FileDescriptor.make 5)
