-- ===== src/TcpConnection/Cases.antt =====
-- tcp_connection.cc: the branches of the calls, for a property of the state after them.
use cs144_introduction_to_co.Prelude.{
  ℕ, ◌≡◌, refl, Bool, true, false, not, ◌&&◌, ◌==◌, ltb, if◌then◌else◌, [], ◌∷◌, has_value, arith,
  ◌<◌,
}
use cs144_introduction_to_co.Prelude.Words.{add64}
use cs144_introduction_to_co.Buffer
use cs144_introduction_to_co.TcpConfig.{max_retx_attempts}
use cs144_introduction_to_co.TcpSegment.{TcpSegment, length_in_sequence_space}
use cs144_introduction_to_co.TcpReceiver.{get_ackno}
use cs144_introduction_to_co.TcpReceiver
use cs144_introduction_to_co.TcpSender
use cs144_introduction_to_co.TcpConnection.{
  TcpConnection, collect, clean_shutdown, segment_sends, connect, unclean_shutdown, answer, react,
  take_ack, is_syn_sent, segment_received, tick, destroy,
}

pub by_test {ℓ} :
    {A : Type 0} (P : A → Type ℓ) (b : Bool) (x y : A)
    → (b ≡ true → P x)
    → (b ≡ false → P y)
    → P (if b then x else y)
by_test P true x y h k = h refl
by_test P false x y h k = k refl

-- The connection with its clocks moved.
abbrev pub ticked : TcpConnection → ℕ → TcpConnection
ticked c ms = record c {
  time_since_last_segment_received = add64 c.time_since_last_segment_received ms;
  sender = TcpSender.tick c.sender ms;
}

abbrev pub window_filled : TcpConnection → TcpConnection
window_filled c = record c { syn_sended = true; sender = TcpSender.fill_window c.sender }

abbrev pub heard : TcpConnection → TcpConnection
heard c = record c { time_since_last_segment_received = 0 }

-- The connection after the sender and the receiver had the segment.
abbrev pub taken_in : TcpConnection → TcpSegment → TcpConnection
taken_in c seg =
    let a = take_ack (heard c) seg in
    record a { receiver = TcpReceiver.segment_received a.receiver seg }

abbrev pub queues_empty : TcpConnection → TcpConnection
queues_empty c = record c { sender = TcpSender.send_empty_segment c.sender }

module _ {ℓ} (P : TcpConnection → Type ℓ) (c : TcpConnection) where
  pub segment_sends_cases :
      (b : Bool)
      → (b ≡ false → c.syn_sended ≡ false → P c)
      → P (clean_shutdown (collect (window_filled c)))
      → P (segment_sends b c)
  unfolding segment_sends
  segment_sends_cases true h k = k
  segment_sends_cases false h k =
      by_test P (not c.syn_sended) c (clean_shutdown (collect (window_filled c)))
        (λ e. h refl (ground arith)) (λ e. k)

  pub take_ack_cases :
      (seg : TcpSegment)
      → ((seg.header.ack && ltb 0 c.sender.next_seqno) ≡ true
          → P (record c {
            sender = TcpSender.ack_received c.sender seg.header.ackno seg.header.win;
          }))
      → P c
      → P (take_ack c seg)
  unfolding take_ack
  take_ack_cases seg h k =
      by_test P (seg.header.ack && ltb 0 c.sender.next_seqno)
        (record c { sender = TcpSender.ack_received c.sender seg.header.ackno seg.header.win }) c h
        (λ e. k)

  pub answer_cases :
      (seg : TcpSegment)
      → (has_value (get_ackno c.receiver) ≡ true → P (segment_sends false (queues_empty c)))
      → P (segment_sends false c)
      → P (answer c seg)
  unfolding answer
  answer_cases seg h k =
      let empty : Bool = elim c.sender.segments_out [ [] ↦ true | _ ∷ _ ↦ false ] in
      let reply =
        ltb 0 (length_in_sequence_space seg) && has_value (get_ackno c.receiver) && empty in
      by_test (λ d. P (segment_sends false d)) reply (queues_empty c) c (λ e. h (ground arith))
        (λ e. k)

  pub react_cases :
      (seg : TcpSegment)
      → (seg.header.syn ≡ true → c.sender.next_seqno ≡ 0 → P (segment_sends true c))
      → (seg.header.rst ≡ true → (is_syn_sent c.sender && not seg.header.ack) ≡ true → P c)
      → (seg.header.rst ≡ true
          → (is_syn_sent c.sender && not seg.header.ack) ≡ false
          → P (unclean_shutdown false c))
      → (seg.header.rst ≡ false → P (answer c seg))
      → P (react c seg)
  unfolding react connect
  react_cases seg syn ignored reset plain =
      let on_rst =
        if is_syn_sent c.sender && not seg.header.ack then c else unclean_shutdown false c in
      by_test P (seg.header.syn && c.sender.next_seqno == 0) (segment_sends true c)
        (if seg.header.rst then on_rst else answer c seg) (λ e. syn (ground arith) (ground arith))
        (λ e.
          by_test P seg.header.rst on_rst (answer c seg)
            (λ r.
              by_test P (is_syn_sent c.sender && not seg.header.ack) c (unclean_shutdown false c)
                (λ i. ignored r i) (λ t. reset r t))
            (λ p. plain p))

  pub segment_received_cases :
      (seg : TcpSegment)
      → (c.active ≡ false → P c)
      → ((is_syn_sent c.sender && seg.header.ack && ltb 0 (Buffer.size seg.payload)) ≡ true
          → P (heard c))
      → P (react (taken_in c seg) seg)
      → P (segment_received c seg)
  unfolding segment_received
  segment_received_cases seg inactive early on =
      let early_test = is_syn_sent c.sender && seg.header.ack && ltb 0 (Buffer.size seg.payload) in
      by_test P (not c.active) c (if early_test then heard c else react (taken_in c seg) seg)
        (λ e. inactive (ground arith))
        (λ e. by_test P early_test (heard c) (react (taken_in c seg) seg) (λ t. early t) (λ t. on))

  pub tick_cases :
      (ms : ℕ)
      → P c
      → (max_retx_attempts < (ticked c ms).sender.consecutive_retrans
          → P (segment_sends false (unclean_shutdown true (ticked c ms))))
      → P (segment_sends false (ticked c ms))
      → P (tick c ms)
  unfolding tick
  tick_cases ms inactive over on =
      let t = ticked c ms in
      let test = ltb max_retx_attempts t.sender.consecutive_retrans in
      by_test P (not c.active) c (segment_sends false (if test then unclean_shutdown true t else t))
        (λ e. inactive)
        (λ e.
          by_test (λ d. P (segment_sends false d)) test (unclean_shutdown true t) t
            (λ l. over (ground arith)) (λ l. on))

  pub destroy_cases : P (unclean_shutdown true c) → P c → P (destroy c)
  unfolding destroy
  destroy_cases h k = by_test P c.active (unclean_shutdown true c) c (λ e. h) (λ e. k)
