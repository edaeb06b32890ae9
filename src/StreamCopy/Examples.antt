-- ===== src/StreamCopy/Examples.antt =====
-- Tests of bidirectional_stream_copy.cc on a kernel that keeps a log.
use cs144_introduction_to_co.Prelude.{◌≡◌, refl, arith, true, false, List, ◌++◌}
use cs144_introduction_to_co.ByteStream.Queue.{contents}
use cs144_introduction_to_co.SystemCall.{Answer}
use cs144_introduction_to_co.FileDescriptor
use cs144_introduction_to_co.FileDescriptor.Logged.{
  Logs, empty_logs, kernel, log_consumed, log_put, kernel-IsFaithful,
}
use cs144_introduction_to_co.EventLoop.{PollFd, Polled}
use cs144_introduction_to_co.StreamCopy.{Copy, bidirectional_stream_copy}
use cs144_introduction_to_co.StreamCopy.Fifo.{copied_in_order}

-- Everything is ready, always.
abbrev all_ready : Logs → List PollFd → Logs × Polled
all_ready w fds = (
  w,
  record {
    polled_answer = Answer.returned 4;
    revents = λ i. record {
      pollin = true;
      pollout = true;
      pollerr = false;
      pollhup = false;
      pollnval = false;
    };
  },
)

abbrev after_three : Copy Logs
after_three = (bidirectional_stream_copy kernel all_ready 3 empty_logs (FileDescriptor.make 5)).0

copied_in_order_example :
    (log_put after_three.world 5 ++ contents after_three.outbound
      ≡ log_consumed after_three.world 0)
    × (log_put after_three.world 1 ++ contents after_three.inbound
        ≡ log_consumed after_three.world 5)
unfolding FileDescriptor.make
copied_in_order_example =
    copied_in_order kernel log_consumed log_put 5 (omega arith) kernel-IsFaithful all_ready
      (λ w fds. (λ i. refl, λ i. refl)) 3 empty_logs (FileDescriptor.make 5) refl refl refl refl
      refl
