-- ===== src/TcpSender/Examples.antt =====
-- Tests of tcp_sender.cc: three bytes to send, through a window of two.
use cs144_introduction_to_co.Prelude.{
  ◌+◌, ◌<◌, ◌≤◌, ◌^◌, ◌≡◌, ◌⊎◌, [], ◌∷◌, refl, arith, some, true, ap, length,
}
use cs144_introduction_to_co.WrappingIntegers.{WrappingInt32, wrap, unwrap}
use cs144_introduction_to_co.Buffer
use cs144_introduction_to_co.Buffer.{str}
use cs144_introduction_to_co.BufferList
use cs144_introduction_to_co.ByteStream
use cs144_introduction_to_co.ByteStream.Queue.{
  IsValid, contents, make-IsValid, write-IsValid, contents-make,
}
use cs144_introduction_to_co.TcpSegment.{TcpSegment, length_in_sequence_space, default_segment}
use cs144_introduction_to_co.TcpSender.{
  TcpSender, fill_window, effective_window, make_sender, tick, retransmit, with_seqno, ack_received,
}
use cs144_introduction_to_co.TcpSender.Fill.{IsFilled, fill_window-IsFilled}
use cs144_introduction_to_co.TcpSender.Sends.{Sends, needed}
use cs144_introduction_to_co.TcpSender.Stream.{fill_window-Sends}
use cs144_introduction_to_co.TcpSender.Sound.{IsSound}
use cs144_introduction_to_co.TcpSender.Runs.{here, next, Step, Reach-IsSound}
use cs144_introduction_to_co.TcpSender.Answers.{Advanced, ack_received_lem}
use cs144_introduction_to_co.TcpSender.Timer.{BacksOff, ticks, ticks-BacksOff}
use cs144_introduction_to_co.TcpSender.Window.{Within, fill_window-Within}

abbrev first_number : WrappingInt32
first_number = record { raw_value = 5 }

abbrev fresh : TcpSender
fresh = make_sender 8 1000 (some first_number) (record { raw_value = 0 })

abbrev written : TcpSender
written = record fresh { stream = (ByteStream.write fresh.stream (1 ∷ 2 ∷ 3 ∷ [])).0 }

abbrev opened : TcpSender
opened = record fresh {
  syn = true;
  window_size = 2;
  stream = (ByteStream.write (ByteStream.make 8) (1 ∷ 2 ∷ 3 ∷ [])).0;
  receive_ack = 1;
  checkpoint = 1;
  next_seqno = 1;
}

opened-IsValid : IsValid opened.stream
opened-IsValid = write-IsValid (ByteStream.make 8) (1 ∷ 2 ∷ 3 ∷ []) (make-IsValid 8 (omega arith))

fill_window-IsFilled_example : IsFilled (effective_window opened) (fill_window opened)
fill_window-IsFilled_example = fill_window-IsFilled opened refl opened-IsValid

opened_bytes : contents opened.stream ≡ 1 ∷ 2 ∷ 3 ∷ []
unfolding ByteStream.write ByteStream.make ByteStream.accepted contents BufferList.concatenate
    BufferList.append BufferList.empty BufferList.of_string BufferList.size
opened_bytes = refl

opened_needs : needed opened < 2 ^ 62
unfolding make_sender
opened_needs = omega (arith, ap length opened_bytes)

fill_window-Sends_example : Sends opened (fill_window opened)
unfolding make_sender
fill_window-Sends_example =
    fill_window-Sends opened opened-IsValid (omega (arith, opened_needs)) (omega arith)

fresh_needs : needed fresh + 3 < 2 ^ 62
unfolding make_sender
fresh_needs = omega (arith, ap length (contents-make 8))

Reach-IsSound_example : IsSound (fill_window written)
unfolding make_sender
Reach-IsSound_example =
    Reach-IsSound 8 1000 (some first_number) (record { raw_value = 0 }) (fill_window written)
      (omega arith) (omega arith)
      (next (next here (Step.write fresh (1 ∷ 2 ∷ 3 ∷ []) fresh_needs)) (Step.fill written))

opened-IsSound : IsSound opened
unfolding make_sender
opened-IsSound = record {
  una = 1;
  chain = refl;
  counted = refl;
  acked = omega arith;
  sent = omega arith;
  checkpoint = refl;
  room = opened_needs;
  word = omega arith;
  valid = opened-IsValid;
}

-- Two bytes are in flight, and the peer has room for one.
abbrev two_bytes : TcpSegment
two_bytes =
    with_seqno (record default_segment { payload = Buffer.of_string (8 ∷ 9 ∷ []) })
      (wrap 1 first_number)

abbrev shrunk : TcpSender
shrunk = record opened {
  window_size = 1;
  next_seqno = 3;
  bytes_in_flight = 2;
  segments_in_flight = two_bytes ∷ [];
}

shrunk-IsSound : IsSound shrunk
unfolding make_sender length_in_sequence_space str Buffer.of_string default_segment
shrunk-IsSound = record {
  una = 1;
  chain = (refl, omega arith, refl);
  counted = refl;
  acked = omega arith;
  sent = omega arith;
  checkpoint = refl;
  room = omega (arith, ap length opened_bytes);
  word = omega arith;
  valid = opened-IsValid;
}

ack_received_lem_example :
    let n = unwrap (wrap 3 first_number) first_number 1 in
    let t = ack_received shrunk (wrap 3 first_number) 4 in
    (3 < n) × (t ≡ shrunk)
    ⊎ (n ≤ 1) × (t ≡ record shrunk { window_size = 4 })
    ⊎ (1 < n) × (n ≤ 3) × Advanced shrunk t n 4
unfolding make_sender
ack_received_lem_example =
    ack_received_lem shrunk (wrap 3 first_number) 4 shrunk-IsSound (omega arith)

ticks-BacksOff_example : BacksOff shrunk (ticks shrunk (1000 ∷ 2000 ∷ [])) two_bytes 2
unfolding make_sender tick retransmit
ticks-BacksOff_example =
    ticks-BacksOff shrunk (1000 ∷ 2000 ∷ []) two_bytes [] refl (omega arith, (ground arith, tt))
      (omega arith) (omega arith)

fill_window-Within_example : Within (1 + effective_window opened) (fill_window opened)
unfolding make_sender
fill_window-Within_example =
    fill_window-Within opened opened-IsSound refl (omega arith) (omega arith)

waits : ¬ (contents shrunk.stream ≡ [])
waits e = cc opened_bytes
