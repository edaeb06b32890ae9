-- ===== src/TcpConnection/Resets.antt =====
-- tcp_connection.cc: a reset that is received, and the resets that are sent.
use cs144_introduction_to_co.Prelude.{
  ℕ, ◌<◌, ◌≤◌, ◌≡◌, ◌≢◌, refl, ap, ◌∙◌, arith, true, false, not, ltb, if◌then◌else◌, List, [], ◌∷◌,
  ◌++◌, append_assoc, map, All, All-append, length, length-append,
}
use cs144_introduction_to_co.WrappingIntegers.{wrap}
use cs144_introduction_to_co.TcpConfig.{max_retx_attempts}
use cs144_introduction_to_co.TcpSegment.{TcpSegment, default_segment}
use cs144_introduction_to_co.TcpSender.{TcpSender, fill_window}
use cs144_introduction_to_co.TcpSender
use cs144_introduction_to_co.TcpSender.Grows.{fill_window-Grows}
use cs144_introduction_to_co.TcpConnection.{
  TcpConnection, stamp, collect, clean_shutdown, segment_sends, abort, unclean_shutdown,
  nonempty_queue, tick,
}
use cs144_introduction_to_co.TcpConnection.Cases.{
  by_test, ticked, window_filled, segment_sends_cases,
}
use cs144_introduction_to_co.TcpConnection.Shutdown.{
  IsAborted, unclean_shutdown-IsAborted, sends-IsAborted, by_queue,
}

abbrev pub IsReset : TcpSegment → Type 0
IsReset seg = seg.header.rst ≡ true

-- `d` is `c` after at least `n` more segments were sent, all of them resets.
pub record Resets (n : ℕ) (c d : TcpConnection) : Type 0 where
  pub sent : List TcpSegment
  pub out : d.segments_out ≡ c.segments_out ++ sent
  pub resets : All IsReset sent
  pub some_sent : n ≤ length sent
  pub rst_pending : d.need_send_rst ≡ true
  pub synced : d.syn_sended ≡ true

Resets-trans : (n : ℕ) (c d e : TcpConnection) → Resets n c d → Resets 0 d e → Resets n c e
Resets-trans n c d e h k = record {
  sent = h.sent ++ k.sent;
  out = k.out ∙ ap (λ l. l ++ k.sent) h.out ∙ append_assoc c.segments_out h.sent k.sent;
  resets = All-append IsReset h.sent k.sent h.resets k.resets;
  some_sent = omega (arith, h.some_sent, length-append h.sent k.sent);
  rst_pending = k.rst_pending;
  synced = k.synced;
}

map-IsReset :
    (c : TcpConnection) (segs : List TcpSegment)
    → c.need_send_rst ≡ true
    → All IsReset (map (stamp c) segs)
unfolding stamp
map-IsReset c [] h = tt
map-IsReset c (seg ∷ segs) h = (rw h refl, map-IsReset c segs h)

map-length :
    (c : TcpConnection) (segs : List TcpSegment) → length (map (stamp c) segs) ≡ length segs
map-length c [] = refl
map-length c (seg ∷ segs) = omega (arith, map-length c segs)

cleaned-Resets :
    (c : TcpConnection)
    → c.need_send_rst ≡ true
    → Resets (length c.sender.segments_out) c (clean_shutdown (collect (window_filled c)))
unfolding clean_shutdown collect
cleaned-Resets c h = record {
  sent = map (stamp (window_filled c)) (fill_window c.sender).segments_out;
  out = refl;
  resets = map-IsReset (window_filled c) (fill_window c.sender).segments_out h;
  some_sent = omega (
    arith,
    (fill_window-Grows c.sender).queue,
    map-length (window_filled c) (fill_window c.sender).segments_out,
  );
  rst_pending = h;
  synced = refl;
}

sends-Resets :
    (c : TcpConnection)
    → c.need_send_rst ≡ true
    → c.syn_sended ≡ true
    → Resets (length c.sender.segments_out) c (segment_sends false c)
sends-Resets c h s =
    segment_sends_cases (Resets (length c.sender.segments_out) c) c false (λ e n. ground arith)
      (cleaned-Resets c h)

queue_nonempty : (s : TcpSender) → 1 ≤ length (nonempty_queue s).segments_out
unfolding TcpSender.send_empty_segment
queue_nonempty s =
    by_queue (λ t. 1 ≤ length t.segments_out) s s.segments_out
      (omega (
        arith,
        length-append s.segments_out
            (TcpSender.with_seqno default_segment (wrap s.next_seqno s.isn) ∷ []),
      ))
      (nonempty_length s.segments_out)
  where
    nonempty_length : (q : List TcpSegment) → q ≢ [] → 1 ≤ length q
    nonempty_length [] h = elim (h refl) [ ]
    nonempty_length (x ∷ xs) h = omega arith

pub unclean_shutdown-Resets :
    (c : TcpConnection) → c.syn_sended ≡ true → Resets 1 c (unclean_shutdown true c)
unfolding unclean_shutdown abort
unclean_shutdown-Resets c s =
    let a : TcpConnection = record (abort c) {
      need_send_rst = true;
      sender = nonempty_queue (abort c).sender;
    } in
    let r = sends-Resets a refl s in
    record {
      sent = r.sent;
      out = r.out;
      resets = r.resets;
      some_sent = omega (arith, r.some_sent, queue_nonempty (abort c).sender);
      rst_pending = r.rst_pending;
      synced = r.synced;
    }

-- The tick in which the segment in flight is sent once more than it may be: both streams are put in
-- error, the connection is inactive, and all that leaves, at least one segment, is a reset.
pub give_up :
    (c : TcpConnection) (ms : ℕ)
    → c.active ≡ true
    → c.syn_sended ≡ true
    → max_retx_attempts < (TcpSender.tick c.sender ms).consecutive_retrans
    → IsAborted (tick c ms) × Resets 1 c (tick c ms)
unfolding tick
give_up c ms on syn over =
    let t = ticked c ms in
    let u = unclean_shutdown true t in
    let r : Resets 1 t u = unclean_shutdown-Resets t syn in
    let k = sends-Resets u r.rst_pending r.synced in
    let f = Resets-trans 1 t u (segment_sends false u) r (record {
      sent = k.sent;
      out = k.out;
      resets = k.resets;
      some_sent = omega arith;
      rst_pending = k.rst_pending;
      synced = k.synced;
    }) in
    let many = ltb max_retx_attempts t.sender.consecutive_retrans in
    let P : TcpConnection → Type 0 = λ d. IsAborted d × Resets 1 c d in
    by_test P (not c.active) c (segment_sends false (if many then u else t)) (λ e. ground arith)
      (λ e.
        by_test (λ d. P (segment_sends false d)) many u t
          (λ m. (
            sends-IsAborted false u (unclean_shutdown-IsAborted true t),
            record {
              sent = f.sent;
              out = f.out;
              resets = f.resets;
              some_sent = f.some_sent;
              rst_pending = f.rst_pending;
              synced = f.synced;
            },
          ))
          (λ m. ground arith))
