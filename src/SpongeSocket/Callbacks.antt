-- ===== src/SpongeSocket/Callbacks.antt =====
-- tcp_sponge_socket.cc: what the callbacks move between the connection and its owner.
use cs144_introduction_to_co.Prelude.{
  ℕ, ◌^◌, ◌≤◌, ◌<◌, ◌≡◌, refl, sym, ◌∙◌, arith, false, not, ◌||◌, ◌==◌, List, [], ◌++◌, append-nil,
  length, take, min,
}
use cs144_introduction_to_co.ByteStream.{ByteStream}
use cs144_introduction_to_co.ByteStream
use cs144_introduction_to_co.ByteStream.Queue.{contents, IsValid}
use cs144_introduction_to_co.ByteStream.Peek.{peek-pop_output, length-peek_output}
use cs144_introduction_to_co.SystemCall.{Attempt, Kernel, How}
use cs144_introduction_to_co.FileDescriptor.{FdWrapper}
use cs144_introduction_to_co.FileDescriptor
use cs144_introduction_to_co.FileDescriptor.Laws.{ReadGives, read_lem}
use cs144_introduction_to_co.FileDescriptor.Effects.{IsFaithful, WriteEffect, write_effect}
use cs144_introduction_to_co.Socket
use cs144_introduction_to_co.EventLoop.Keeps.{by_if}
use cs144_introduction_to_co.TcpReceiver.{stream_out}
use cs144_introduction_to_co.TcpConnection.{TcpConnection, remaining_outbound_capacity}
use cs144_introduction_to_co.TcpConnection
use cs144_introduction_to_co.SpongeSocket.{
  SpongeSocket, DatagramAdapter, receive_data, data_read, deliver_data, data_written, inbound_shut,
  with_inbound, inbound_offer, inbound_stream,
}

-- What a stream has room for, it takes.
write_takes :
    (stream : ByteStream) (bytes : List ℕ)
    → length bytes ≤ ByteStream.remaining_capacity stream
    → (ByteStream.write stream bytes).1 ≡ length bytes
unfolding ByteStream.write ByteStream.remaining_capacity ByteStream.accepted
write_takes stream bytes h = ground arith

module _ {W A : Type 0} (kernel : Kernel W) (datagrams : DatagramAdapter W A) where
  -- Returning, or the exception.
  abbrev pub outcome : {B : Type 0} → Attempt B → Attempt Unit
  outcome (Attempt.ok b) = Attempt.ok tt
  outcome (Attempt.raised e) = Attempt.raised e

  data_by :
      (s : SpongeSocket W A) (w : W) (f g : FdWrapper) (a : Attempt (List ℕ))
      → ReadGives kernel (remaining_outbound_capacity s.tcp) f g a
      → (data_read s (w, g, a)).1 ≡ outcome a
  unfolding remaining_outbound_capacity TcpConnection.write
  data_by s w f g (Attempt.raised e) h = refl
  data_by s w f g (Attempt.ok bytes) (le, big, reads, eof, closed, writes) =
      let t = write_takes s.tcp.sender.stream bytes le in
      let e : not ((TcpConnection.write s.tcp bytes).1 == length bytes) ≡ false = ground arith in
      rw e refl

  -- What is read from the owner, the connection takes in whole: the callback that reads from the owner
  -- throws only if the read itself does, and never since `TCPConnection::write` accepted less.
  pub receive_data_accepts :
      (s : SpongeSocket W A)
      → (receive_data kernel datagrams s).1
        ≡ outcome
            (FileDescriptor.read kernel s.world s.thread_data (remaining_outbound_capacity s.tcp)).2
  unfolding receive_data
  receive_data_accepts s =
      let limit = remaining_outbound_capacity s.tcp in
      let r = FileDescriptor.read kernel s.world s.thread_data limit in
      data_by s r.0 s.thread_data r.1 r.2 (read_lem kernel s.world s.thread_data limit)

  module _ (consumed put : W → ℕ → List ℕ) where
    -- What is put out is taken off the inbound stream, and nothing else is touched.
    pub record Delivers (s t : SpongeSocket W A) : Type 0 where
      pub bytes : List ℕ
      pub given : put t.world s.thread_data.fd ≡ put s.world s.thread_data.fd ++ bytes
      pub order : bytes ++ contents (inbound_stream t.tcp) ≡ contents (inbound_stream s.tcp)
      pub sender : t.tcp.sender ≡ s.tcp.sender
      pub queue : t.tcp.segments_out ≡ s.tcp.segments_out

    inbound_shut-Delivers :
        (s t : SpongeSocket W A) (w : W) (f : FdWrapper) (a : Attempt Unit)
        → Delivers s t
        → put w s.thread_data.fd ≡ put t.world s.thread_data.fd
        → Delivers s (inbound_shut t (w, f, a)).0
    inbound_shut-Delivers s t w f (Attempt.raised e) h same = record {
      bytes = h.bytes;
      given = same ∙ h.given;
      order = h.order;
      sender = h.sender;
      queue = h.queue;
    }
    inbound_shut-Delivers s t w f (Attempt.ok u) h same = record {
      bytes = h.bytes;
      given = same ∙ h.given;
      order = h.order;
      sender = h.sender;
      queue = h.queue;
    }

    written_by :
        (s : SpongeSocket W A) (w : W) (g : FdWrapper) (a : Attempt ℕ)
        → IsFaithful kernel consumed put
        → IsValid (inbound_stream s.tcp)
        → WriteEffect kernel consumed put s.world s.thread_data (inbound_offer s.tcp) w g a
        → Delivers s (data_written kernel datagrams s (w, g, a)).0
    unfolding inbound_stream stream_out Socket.shutdown inbound_offer
    written_by s w g (Attempt.raised e) k v (same_fd, (same_consumed, same_put)) = record {
      bytes = [];
      given = same_put s.thread_data.fd ∙ sym (append-nil (put s.world s.thread_data.fd));
      order = refl;
      sender = refl;
      queue = refl;
    }
    written_by s w g (Attempt.ok n) k v (same_fd, le, (given, others, same_consumed)) =
        let inbound = ByteStream.pop_output (inbound_stream s.tcp) n in
        let t = record s { world = w; thread_data = g; tcp = with_inbound s.tcp inbound } in
        let d : Delivers s t = record {
          bytes = take n (inbound_offer s.tcp);
          given = given;
          order = peek-pop_output (inbound_stream s.tcp) _ n v le;
          sender = refl;
          queue = refl;
        } in
        by_if (λ r. Delivers s r.0) (ByteStream.eof inbound || inbound.error)
          (inbound_shut t (Socket.shutdown kernel w g How.shut_wr)) (t, Attempt.ok tt)
          (inbound_shut-Delivers s t (kernel.shutdown w g.fd How.shut_wr).0
            (Socket.shutdown kernel w g How.shut_wr).1 (Socket.shutdown kernel w g How.shut_wr).2 d
            ((k.shuts w g.fd How.shut_wr).1 s.thread_data.fd))
          d

    -- The callback that writes to the owner, however it ends: the bytes that the kernel took are the
    -- next ones of the inbound stream, which keeps the others, also where the write takes only a part or
    -- fails; the sender and the segments are as they were.
    pub deliver_data-Delivers :
        (s : SpongeSocket W A)
        → IsFaithful kernel consumed put
        → IsValid (inbound_stream s.tcp)
        → Delivers s (deliver_data kernel datagrams s).0
    unfolding deliver_data inbound_offer
    deliver_data-Delivers s k v =
        let r = FileDescriptor.write kernel s.world s.thread_data (inbound_offer s.tcp) false in
        written_by s r.0 r.1 r.2 k v (
          write_effect kernel consumed put s.world s.thread_data (inbound_offer s.tcp)
            (offer_small s v) k)
      where
        offer_small :
            (s : SpongeSocket W A)
            → IsValid (inbound_stream s.tcp)
            → length (inbound_offer s.tcp) < 2 ^ 64
        offer_small s v = omega (
          arith,
          length-peek_output (inbound_stream s.tcp)
              (min 65536 (ByteStream.buffer_size (inbound_stream s.tcp))),
          v.fits,
          v.small,
        )
