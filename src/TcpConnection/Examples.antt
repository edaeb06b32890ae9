-- ===== src/TcpConnection/Examples.antt =====
-- tcp_connection.cc on concrete calls.
use cs144_introduction_to_co.Prelude.{
  ◌+◌, ◌^◌, ap, length, ◌≡◌, refl, arith, true, false, ◌⊎◌, some, ◌<◌, [], ◌∷◌,
}
use cs144_introduction_to_co.WrappingIntegers.{make}
use cs144_introduction_to_co.TcpConfig.{default_config}
use cs144_introduction_to_co.TcpSegment.{TcpSegment, default_segment}
use cs144_introduction_to_co.ByteStream
use cs144_introduction_to_co.BufferList
use cs144_introduction_to_co.TcpReceiver
use cs144_introduction_to_co.StreamReassembler
use cs144_introduction_to_co.TcpSender
use cs144_introduction_to_co.TcpConnection.{
  segment_sends, unclean_shutdown, collect, clean_shutdown, TcpConnection, make_connection, connect,
  tick, write, destroy,
}
use cs144_introduction_to_co.TcpConnection.Cases.{by_test}
use cs144_introduction_to_co.TcpConnection.Emits.{Emits}
use cs144_introduction_to_co.TcpConnection.Shutdown.{
  IsFinished, IsAborted, unclean_shutdown-IsAborted,
}
use cs144_introduction_to_co.TcpConnection.Runs.{
  Call, every_segment_stamped, shutdown_clean_or_abort,
}
use cs144_introduction_to_co.TcpConnection.Sound.{here, next, Reach-IsSound_sender}
use cs144_introduction_to_co.TcpSender.Sound.{IsSound}
use cs144_introduction_to_co.TcpSender.Sends.{needed}
use cs144_introduction_to_co.ByteStream.Queue.{contents-make}
use cs144_introduction_to_co.TcpConnection.Opening
use cs144_introduction_to_co.TcpConnection.Handshake.{arrive, delivered, is_established, handshake}
use cs144_introduction_to_co.TcpConnection.Resets.{Resets, give_up}

abbrev fresh : TcpConnection
fresh = make_connection (record default_config { fixed_isn = some (make 7) }) (make 0)

-- The SYN is out.
abbrev opened : TcpConnection
opened = connect fresh

abbrev reset_segment : TcpSegment
reset_segment = record default_segment {
  header = record (default_segment.header) { rst = true; ack = true; ackno = make 8 };
}

opened_active : opened.active ≡ true
unfolding connect make_connection segment_sends collect clean_shutdown ByteStream.eof
    TcpReceiver.stream_out TcpReceiver.make_receiver StreamReassembler.make ByteStream.make
opened_active = refl

opened_synced : opened.syn_sended ≡ true
unfolding connect segment_sends collect clean_shutdown
opened_synced = refl

every_segment_stamped_example : Emits opened (write opened (1 ∷ 2 ∷ [])).0
every_segment_stamped_example =
    every_segment_stamped opened (write opened (1 ∷ 2 ∷ [])).0 (Call.writes opened (1 ∷ 2 ∷ []))

destroyed : (destroy opened).active ≡ false
unfolding destroy
destroyed =
    by_test (λ d. d.active ≡ false) opened.active (unclean_shutdown true opened) opened
      (λ e. (unclean_shutdown-IsAborted true opened).inactive) (λ e. ground (arith, opened_active))

shutdown_clean_or_abort_example : IsFinished (destroy opened) ⊎ IsAborted (destroy opened)
shutdown_clean_or_abort_example =
    shutdown_clean_or_abort opened (destroy opened) (Call.destroys opened) opened_active destroyed

-- Eight retransmissions were made.
abbrev tired : TcpConnection
tired = record opened { sender = record (opened.sender) { consecutive_retrans = 8 } }

tired_ticks : 8 < (TcpSender.tick tired.sender 1000).consecutive_retrans
unfolding connect make_connection segment_sends collect clean_shutdown TcpSender.tick
    TcpSender.retransmit TcpSender.fill_window TcpSender.send_segment TcpSender.make_sender
tired_ticks = ground arith

give_up_example : IsAborted (tick tired 1000) × Resets 1 tired (tick tired 1000)
give_up_example = give_up tired 1000 opened_active opened_synced tired_ticks

-- Five bytes of the peer's window were used, and all is acknowledged.
abbrev joined : TcpConnection
joined = record fresh {
  sender = record (fresh.sender) { syn = true; next_seqno = 5; receive_ack = 5; checkpoint = 5 };
}

fresh_needs : needed fresh.sender + 2 < 2 ^ 62
unfolding make_connection TcpSender.make_sender
fresh_needs = omega (arith, ap length (contents-make 64000))

Reach-IsSound_sender_example : IsSound (connect (write fresh (1 ∷ 2 ∷ [])).0).sender
unfolding make
Reach-IsSound_sender_example =
    Reach-IsSound_sender (record default_config { fixed_isn = some (make 7) }) (make 0)
      (connect (write fresh (1 ∷ 2 ∷ [])).0) (omega arith) (omega arith)
      (next (next here (Call.writes fresh (1 ∷ 2 ∷ [])) fresh_needs)
        (Call.connects (write fresh (1 ∷ 2 ∷ [])).0) tt)

handshake_example :
    let a1 = connect (Opening.fresh (make 5)) in
    let b1 = arrive (Opening.fresh (make 9)) a1.segments_out in
    let a2 = arrive (delivered a1) b1.segments_out in
    let b2 = arrive (delivered b1) a2.segments_out in
    (is_established a2 ≡ true) × (is_established b2 ≡ true) × (b2.segments_out ≡ [])
unfolding make
handshake_example =
    handshake (make 5) (make 9) (omega arith) (omega arith) (omega arith) (omega arith)
