-- ===== src/StreamCopy/Calls.antt =====
-- bidirectional_stream_copy.cc: what each callback of the copy keeps.
use cs144_introduction_to_co.Prelude.{
  ℕ, ◌<◌, ◌≡◌, refl, subst, ◌∙◌, arith, true, false, List, ◌++◌, take, All,
}
use cs144_introduction_to_co.ByteStream.{ByteStream, pop_output, remaining_capacity, peek_output}
use cs144_introduction_to_co.ByteStream
use cs144_introduction_to_co.SystemCall.{Attempt, Kernel, How, system_call}
use cs144_introduction_to_co.FileDescriptor.{FdWrapper}
use cs144_introduction_to_co.FileDescriptor
use cs144_introduction_to_co.FileDescriptor.Effects.{
  IsFaithful, Same, ReadEffect, WriteEffect, read_effect, write_effect,
}
use cs144_introduction_to_co.Socket
use cs144_introduction_to_co.EventLoop.{add_rule}
use cs144_introduction_to_co.EventLoop.Keeps.{by_if, Keeps}
use cs144_introduction_to_co.StreamCopy.{
  Copy, filled, offered, cancel_outbound, cancel_inbound, input_done, socket_input_done,
  socket_shut, output_closed, read_input, socket_output_done, write_socket, read_socket,
  output_done, write_output, rules,
}
use cs144_introduction_to_co.StreamCopy.Piped.{
  IsPiped, ended-IsPiped, filled-IsPiped, popped-IsPiped, moved, offered_small,
}

module _ {W : Type 0} (kernel : Kernel W) (consumed put : W → ℕ → List ℕ) (socket : ℕ) where
  -- Both directions. The socket is neither the standard input nor the standard output.
  pub record IsCopied (c : Copy W) : Type 0 where
    pub input_fd : c.input.fd ≡ 0
    pub socket_fd : c.socket.fd ≡ socket
    pub output_fd : c.output.fd ≡ 1
    pub outbound : IsPiped (put c.world socket) c.outbound (consumed c.world 0)
    pub inbound : IsPiped (put c.world 1) c.inbound (consumed c.world socket)

  cancels :
      (c : Copy W) → IsCopied c → IsCopied (cancel_outbound c).0 × IsCopied (cancel_inbound c).0
  unfolding cancel_outbound cancel_inbound
  cancels c h = (
    record {
      input_fd = h.input_fd;
      socket_fd = h.socket_fd;
      output_fd = h.output_fd;
      outbound = ended-IsPiped _ _ c.outbound h.outbound;
      inbound = h.inbound;
    },
    record {
      input_fd = h.input_fd;
      socket_fd = h.socket_fd;
      output_fd = h.output_fd;
      outbound = h.outbound;
      inbound = ended-IsPiped _ _ c.inbound h.inbound;
    },
  )

  module _ (distinct : 1 < socket) (faithful : IsFaithful kernel consumed put) where
    -- No byte moved.
    pub stay :
        (c d : Copy W)
        → IsCopied c
        → Same kernel consumed put c.world d.world
        → d.input.fd ≡ c.input.fd
        → d.socket.fd ≡ c.socket.fd
        → d.output.fd ≡ c.output.fd
        → d.outbound ≡ c.outbound
        → d.inbound ≡ c.inbound
        → IsCopied d
    stay c d h (same_consumed, same_put) input socket_same output o i = record {
      input_fd = input ∙ h.input_fd;
      socket_fd = socket_same ∙ h.socket_fd;
      output_fd = output ∙ h.output_fd;
      outbound = rw o (moved c.outbound (same_put socket) (same_consumed 0) h.outbound);
      inbound = rw i (moved c.inbound (same_put 1) (same_consumed socket) h.inbound);
    }

    input_by :
        (c : Copy W) (v : W) (g : FdWrapper) (a : Attempt (List ℕ))
        → IsCopied c
        → ReadEffect kernel consumed put c.world c.input (remaining_capacity c.outbound) v g a
        → IsCopied (input_done c (v, g, a)).0
    input_by c v g (Attempt.raised e) h (same_fd, same) =
        stay c _ h same same_fd refl refl refl refl
    input_by c v g (Attempt.ok bytes) h (same_fd, le, (taken, others, same_put)) =
        let fd = h.input_fd in
        record {
          input_fd = same_fd ∙ fd;
          socket_fd = h.socket_fd;
          output_fd = h.output_fd;
          outbound =
              moved (filled c.outbound bytes g.eof) (same_put socket)
                (subst (λ i. consumed v i ≡ consumed c.world i ++ bytes) fd taken)
                (filled-IsPiped _ _ c.outbound bytes g.eof h.outbound le);
          inbound = moved c.inbound (same_put 1) (others socket (λ e. omega (arith, fd))) h.inbound;
        }

    socket_input_by :
        (c : Copy W) (v : W) (g : FdWrapper) (a : Attempt (List ℕ))
        → IsCopied c
        → ReadEffect kernel consumed put c.world c.socket (remaining_capacity c.inbound) v g a
        → IsCopied (socket_input_done c (v, g, a)).0
    socket_input_by c v g (Attempt.raised e) h (same_fd, same) =
        stay c _ h same refl same_fd refl refl refl
    socket_input_by c v g (Attempt.ok bytes) h (same_fd, le, (taken, others, same_put)) =
        let fd = h.socket_fd in
        record {
          input_fd = h.input_fd;
          socket_fd = same_fd ∙ fd;
          output_fd = h.output_fd;
          outbound =
              moved c.outbound (same_put socket) (others 0 (λ e. omega (arith, fd))) h.outbound;
          inbound =
              moved (filled c.inbound bytes g.eof) (same_put 1)
                (subst (λ i. consumed v i ≡ consumed c.world i ++ bytes) fd taken)
                (filled-IsPiped _ _ c.inbound bytes g.eof h.inbound le);
        }

    socket_shut_by :
        (c : Copy W) (v : W) (g : FdWrapper) (a : Attempt Unit)
        → IsCopied c
        → g.fd ≡ c.socket.fd
        → Same kernel consumed put c.world v
        → IsCopied (socket_shut c (v, g, a)).0
    socket_shut_by c v g (Attempt.raised e) h same_fd same =
        stay c _ h same refl same_fd refl refl refl
    socket_shut_by c v g (Attempt.ok u) h same_fd same = stay c _ h same refl same_fd refl refl refl

    output_closed_by :
        (c : Copy W) (v : W) (g : FdWrapper) (a : Attempt Unit)
        → IsCopied c
        → g.fd ≡ c.output.fd
        → Same kernel consumed put c.world v
        → IsCopied (output_closed c (v, g, a)).0
    output_closed_by c v g (Attempt.raised e) h same_fd same =
        stay c _ h same refl refl same_fd refl refl
    output_closed_by c v g (Attempt.ok u) h same_fd same =
        stay c _ h same refl refl same_fd refl refl

    shutdown_fd :
        (how : How) (f : FdWrapper) (a : Attempt Unit) → (Socket.shutdown_done how f a).0.fd ≡ f.fd
    unfolding Socket.register_shutdown FileDescriptor.register_read FileDescriptor.register_write
    shutdown_fd how f (Attempt.raised e) = refl
    shutdown_fd How.shut_rd f (Attempt.ok u) = refl
    shutdown_fd How.shut_wr f (Attempt.ok u) = refl
    shutdown_fd How.shut_rdwr f (Attempt.ok u) = refl

    socket_output_by :
        (c : Copy W) (v : W) (g : FdWrapper) (a : Attempt ℕ)
        → IsCopied c
        → WriteEffect kernel consumed put c.world c.socket (offered c.outbound) v g a
        → IsCopied (socket_output_done kernel c (v, g, a)).0
    unfolding Socket.shutdown
    socket_output_by c v g (Attempt.raised e) h (same_fd, same) =
        stay c _ h same refl same_fd refl refl refl
    socket_output_by c v g (Attempt.ok n) h (same_fd, le, (given, others, same_consumed)) =
        let fd = h.socket_fd in
        let d = record c { world = v; socket = g; outbound = pop_output c.outbound n } in
        let k : IsCopied d = record {
          input_fd = h.input_fd;
          socket_fd = same_fd ∙ fd;
          output_fd = h.output_fd;
          outbound =
              moved d.outbound
                (subst (λ i. put v i ≡ put c.world i ++ take n (offered c.outbound)) fd given)
                (same_consumed 0) (popped-IsPiped _ _ c.outbound n h.outbound le);
          inbound =
              moved c.inbound (others 1 (λ e. omega (arith, fd))) (same_consumed socket) h.inbound;
        } in
        by_if (λ r. IsCopied r.0) (ByteStream.eof d.outbound)
          (socket_shut d (Socket.shutdown kernel v g How.shut_wr)) (d, Attempt.ok tt)
          (socket_shut_by d (Socket.shutdown kernel v g How.shut_wr).0
            (Socket.shutdown kernel v g How.shut_wr).1 (Socket.shutdown kernel v g How.shut_wr).2 k
            (shutdown_fd How.shut_wr g _) (faithful.shuts v g.fd How.shut_wr))
          k

    closed_by :
        (d : Copy W) (w : W) (g : FdWrapper) (a : Attempt Unit)
        → IsCopied d
        → g.fd ≡ d.output.fd
        → Same kernel consumed put d.world w
        → IsCopied (output_closed d (FileDescriptor.close_done kernel w g a)).0
    closed_by d w g (Attempt.raised e) k e' same =
        output_closed_by d w g (Attempt.raised e) k e' same
    closed_by d w g (Attempt.ok u) k e' same =
        output_closed_by d w (record g { eof = true; closed = true }) (Attempt.ok u) k e' same

    output_by :
        (c : Copy W) (v : W) (g : FdWrapper) (a : Attempt ℕ)
        → IsCopied c
        → WriteEffect kernel consumed put c.world c.output (offered c.inbound) v g a
        → IsCopied (output_done kernel c (v, g, a)).0
    unfolding FileDescriptor.close
    output_by c v g (Attempt.raised e) h (same_fd, same) =
        stay c _ h same refl refl same_fd refl refl
    output_by c v g (Attempt.ok n) h (same_fd, le, (given, others, same_consumed)) =
        let fd = h.output_fd in
        let d = record c { world = v; output = g; inbound = pop_output c.inbound n } in
        let k : IsCopied d = record {
          input_fd = h.input_fd;
          socket_fd = h.socket_fd;
          output_fd = same_fd ∙ fd;
          outbound =
              moved c.outbound (others socket (λ e. omega (arith, fd))) (same_consumed 0)
                h.outbound;
          inbound =
              moved d.inbound
                (subst (λ i. put v i ≡ put c.world i ++ take n (offered c.inbound)) fd given)
                (same_consumed socket) (popped-IsPiped _ _ c.inbound n h.inbound le);
        } in
        let r = FileDescriptor.close kernel v g in
        by_if (λ r. IsCopied r.0) (ByteStream.eof d.inbound) (output_closed d r) (d, Attempt.ok tt)
          (closed_by d (kernel.close v g.fd).0 g (system_call (kernel.close v g.fd).1) k refl
            (faithful.closes v g.fd))
          k

    read_input-IsCopied : (c : Copy W) → IsCopied c → IsCopied (read_input kernel c).0
    unfolding read_input
    read_input-IsCopied c h =
        let r = FileDescriptor.read kernel c.world c.input (remaining_capacity c.outbound) in
        input_by c r.0 r.1 r.2 h
          (read_effect kernel consumed put c.world c.input (remaining_capacity c.outbound) faithful)

    read_socket-IsCopied : (c : Copy W) → IsCopied c → IsCopied (read_socket kernel c).0
    unfolding read_socket
    read_socket-IsCopied c h =
        let r = FileDescriptor.read kernel c.world c.socket (remaining_capacity c.inbound) in
        socket_input_by c r.0 r.1 r.2 h
          (read_effect kernel consumed put c.world c.socket (remaining_capacity c.inbound) faithful)

    write_socket-IsCopied : (c : Copy W) → IsCopied c → IsCopied (write_socket kernel c).0
    unfolding write_socket
    write_socket-IsCopied c h =
        let r = FileDescriptor.write kernel c.world c.socket (offered c.outbound) false in
        socket_output_by c r.0 r.1 r.2 h (
          write_effect kernel consumed put c.world c.socket (offered c.outbound)
            (offered_small _ _ c.outbound h.outbound) faithful)

    write_output-IsCopied : (c : Copy W) → IsCopied c → IsCopied (write_output kernel c).0
    unfolding write_output
    write_output-IsCopied c h =
        let r = FileDescriptor.write kernel c.world c.output (offered c.inbound) false in
        output_by c r.0 r.1 r.2 h (
          write_effect kernel consumed put c.world c.output (offered c.inbound)
            (offered_small _ _ c.inbound h.inbound) faithful)

    pub rules-Keeps : All (Keeps {0, 0} IsCopied (λ r. Unit)) (rules kernel)
    unfolding rules add_rule
    rules-Keeps = (
      record { callback = read_input-IsCopied; cancel = λ c h. (cancels c h).0 },
      (
        record { callback = write_socket-IsCopied; cancel = λ c h. (cancels c h).0 },
        (
          record { callback = read_socket-IsCopied; cancel = λ c h. (cancels c h).1 },
          (record { callback = write_output-IsCopied; cancel = λ c h. (cancels c h).1 }, tt),
        ),
      ),
    )
