-- ===== src/StreamCopy/Fifo.antt =====
-- bidirectional_stream_copy.cc: the two directions of the copy, over any number of waits.
use cs144_introduction_to_co.Prelude.{ℕ, zero, suc, ◌<◌, ◌≡◌, refl, arith, List, [], ◌∷◌, ◌++◌, All}
use cs144_introduction_to_co.ByteStream.{ByteStream, pop_output, remaining_capacity, peek_output}
use cs144_introduction_to_co.ByteStream
use cs144_introduction_to_co.ByteStream.Queue.{contents, make-IsValid, contents-make}
use cs144_introduction_to_co.SystemCall.{Attempt, Kernel}
use cs144_introduction_to_co.FileDescriptor.{FdWrapper}
use cs144_introduction_to_co.FileDescriptor
use cs144_introduction_to_co.FileDescriptor.Effects.{IsFaithful, Same}
use cs144_introduction_to_co.EventLoop.{Rule, PollFd, Polled, Result, Waited, wait_next_event}
use cs144_introduction_to_co.EventLoop.Keeps.{Keeps, WaitedKeeps, wait_next_event-WaitedKeeps}
use cs144_introduction_to_co.StreamCopy.{
  Copy, buffer_size, make, rules, loop, go_on, poll_world, bidirectional_stream_copy,
}
use cs144_introduction_to_co.StreamCopy.Calls.{IsCopied, stay, rules-Keeps}

module _ {W : Type 0} (kernel : Kernel W) (consumed put : W → ℕ → List ℕ) (socket : ℕ)
    (distinct : 1 < socket) (faithful : IsFaithful kernel consumed put) where
  abbrev Ok : Copy W → Type 0
  Ok c = IsCopied kernel consumed put socket c

  module _ (poll : W → List PollFd → W × Polled)
      (waits_only : (w : W) (fds : List PollFd) → Same kernel consumed put w (poll w fds).0) where
    poll_world-IsCopied :
        (c : Copy W) (fds : List PollFd) → Ok c → Ok (poll_world kernel poll c fds).0
    poll_world-IsCopied c fds h =
        stay kernel consumed put socket distinct faithful c _ h (waits_only c.world fds) refl refl
          refl refl refl

    All-units : (rs : List (Rule (Copy W))) → All {0, 0} (λ r. Unit) rs
    All-units [] = tt
    All-units (r ∷ rs) = (tt, All-units rs)

    go_on-IsCopied :
        (rest : List (Rule (Copy W)) → Copy W → Waited (Copy W)) (r : Waited (Copy W))
        → ((rs : List (Rule (Copy W))) (c : Copy W)
            → All (Keeps {0, 0} Ok (λ r. Unit)) rs
            → Ok c
            → Ok (rest rs c).0)
        → WaitedKeeps {0, 0} Ok (λ r. Unit) r
        → Ok (go_on kernel poll rest r).0
    go_on-IsCopied rest (c, rs, Attempt.ok Result.success) f (h, u, k) = f rs c k h
    go_on-IsCopied rest (c, rs, Attempt.ok Result.timeout) f (h, u, k) = f rs c k h
    go_on-IsCopied rest (c, rs, Attempt.ok Result.exit) f (h, u, k) = h
    go_on-IsCopied rest (c, rs, Attempt.raised e) f (h, u, k) = h

    loop-IsCopied :
        (waits : ℕ) (rs : List (Rule (Copy W))) (c : Copy W)
        → All (Keeps {0, 0} Ok (λ r. Unit)) rs
        → Ok c
        → Ok (loop kernel poll waits rs c).0
    unfolding loop
    loop-IsCopied zero rs c k h = h
    loop-IsCopied (suc waits) rs c k h =
        go_on-IsCopied (loop kernel poll waits) (wait_next_event (poll_world kernel poll) rs c)
          (λ rs c. loop-IsCopied waits rs c)
          (wait_next_event-WaitedKeeps Ok (λ r. Unit) (poll_world kernel poll) rs c
            poll_world-IsCopied (All-units rs) k h)

    -- After any number of waits, however they end: what was put to the socket, followed by what the
    -- outbound stream still holds, is what was read from the standard input, in order; and so from the
    -- socket to the standard output. The kernel keeps its contract, `poll` moves no byte, no byte had
    -- passed before, and the socket is not one of the descriptors 0 and 1.
    pub copied_in_order :
        (waits : ℕ) (w : W) (f : FdWrapper)
        → f.fd ≡ socket
        → put w socket ≡ []
        → put w 1 ≡ []
        → consumed w 0 ≡ []
        → consumed w socket ≡ []
        → let c = (bidirectional_stream_copy kernel poll waits w f).0 in
          (put c.world socket ++ contents c.outbound ≡ consumed c.world 0)
          × (put c.world 1 ++ contents c.inbound ≡ consumed c.world socket)
    unfolding bidirectional_stream_copy make FileDescriptor.make ByteStream.make
    copied_in_order waits w f same p q r t =
        let c = bidirectional_stream_copy kernel poll waits w f in
        let n = contents-make buffer_size in
        let v = make-IsValid buffer_size (omega arith) in
        let h =
          loop-IsCopied waits (rules kernel) (make w f)
            (rules-Keeps kernel consumed put socket distinct faithful)
            (record {
              input_fd = refl;
              socket_fd = same;
              output_fd = refl;
              outbound = record { order = rw (p, r, n) refl; valid = v; capacity = refl };
              inbound = record { order = rw (q, t, n) refl; valid = v; capacity = refl };
            }) in
        (h.outbound.order, h.inbound.order)
