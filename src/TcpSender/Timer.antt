-- ===== src/TcpSender/Timer.antt =====
-- tcp_sender.cc: the retransmission timer and its exponential backoff.
use cs144_introduction_to_co.Prelude.{
  ℕ, zero, suc, ◌+◌, ◌*◌, ◌%◌, ◌≤◌, ◌<◌, ◌^◌, ◌≡◌, refl, ap, subst, ◌∙◌, sym, arith, Bool, true,
  false, leb, if◌then◌else◌, List, [], ◌∷◌, ◌++◌, append_assoc, append-nil, length, replicate,
}
use cs144_introduction_to_co.Prelude.Words.{add64}
use cs144_introduction_to_co.TcpSegment.{TcpSegment}
use cs144_introduction_to_co.TcpSender.{TcpSender, tick, retransmit}

-- Ticks in a row, and that each of them finds the timer expired.
abbrev pub ticks : TcpSender → List ℕ → TcpSender
ticks s [] = s
ticks s (ms ∷ rest) = ticks (tick s ms) rest

abbrev pub Expires : TcpSender → List ℕ → Type 0
Expires s [] = Unit
Expires s (ms ∷ rest) = (s.retrans_timeout ≤ add64 s.clock ms) × Expires (tick s ms) rest

-- The timeout after `n` expirations.
abbrev pub backed_off : Bool → ℕ → ℕ → ℕ
backed_off true timeout n = timeout
backed_off false timeout n = timeout * 2 ^ n

tick_by :
    (t : TcpSender) (queue : List TcpSegment) (seg : TcpSegment) (rest : List TcpSegment)
    → queue ≡ seg ∷ rest
    → leb t.retrans_timeout t.clock ≡ true
    → (elim queue [
      | [] ↦ record t { clock_is_counting = false }
      | x ∷ _ ↦ if leb t.retrans_timeout t.clock then retransmit t x else t
    ])
      ≡ retransmit t seg
tick_by t [] seg rest e h = cc
tick_by t (x ∷ xs) seg rest e h = rw h (ap (retransmit t) (cc))

tick_expired :
    (s : TcpSender) (ms : ℕ) (seg : TcpSegment) (rest : List TcpSegment)
    → s.segments_in_flight ≡ seg ∷ rest
    → s.retrans_timeout ≤ add64 s.clock ms
    → tick s ms ≡ retransmit (record s { clock = add64 s.clock ms }) seg
unfolding tick
tick_expired s ms seg rest e h =
    tick_by (record s { clock = add64 s.clock ms }) s.segments_in_flight seg rest e (ground arith)

double : (n k : ℕ) → n * 2 ^ suc k ≡ (n * 2) * 2 ^ k
double n k = grind arith

grows : (n k : ℕ) → n ≤ n * 2 ^ k
grows n zero = omega arith
grows n (suc k) = omega (arith, double n k, grows (n * 2) k)

backed_off_next :
    (zero_window : Bool) (n k : ℕ)
    → backed_off zero_window n (suc k) < 2 ^ 32
    → let m = if zero_window then n else (n * 2) % 2 ^ 32 in
      (backed_off zero_window m k ≡ backed_off zero_window n (suc k))
backed_off_next true n k h = refl
backed_off_next false n k h =
    let d = double n k in
    let g = grows (n * 2) k in let e : (n * 2) % 2 ^ 32 ≡ n * 2 = omega arith in rw e (sym d)

backed_off_zero : (zero_window : Bool) (n : ℕ) → n ≡ backed_off zero_window n 0
backed_off_zero true n = refl
backed_off_zero false n = omega arith

-- What `n` expirations in a row have done.
pub record BacksOff (s t : TcpSender) (seg : TcpSegment) (n : ℕ) : Type 0 where
  pub out : t.segments_out ≡ s.segments_out ++ replicate n seg
  pub queue : t.segments_in_flight ≡ s.segments_in_flight
  pub timeout : t.retrans_timeout ≡ backed_off s.window_is_zero s.retrans_timeout n
  pub count : t.consecutive_retrans ≡ s.consecutive_retrans + n
  pub next_seqno : t.next_seqno ≡ s.next_seqno
  pub in_flight : t.bytes_in_flight ≡ s.bytes_in_flight

-- Each time the timer expires with no new acknowledgment, the oldest segment in flight, and no other,
-- is sent again, the count of retransmissions grows by one, and the timeout doubles, but stays
-- while the window is zero; what is in flight stays. This holds for any number of expirations,
-- as long as the count and the timeout fit in 32 bits.
pub ticks-BacksOff :
    (s : TcpSender) (times : List ℕ) (seg : TcpSegment) (rest : List TcpSegment)
    → s.segments_in_flight ≡ seg ∷ rest
    → Expires s times
    → s.consecutive_retrans + length times < 2 ^ 32
    → backed_off s.window_is_zero s.retrans_timeout (length times) < 2 ^ 32
    → BacksOff s (ticks s times) seg (length times)
unfolding retransmit
ticks-BacksOff s [] seg rest e h c b = record {
  out = sym (append-nil s.segments_out);
  queue = refl;
  timeout = backed_off_zero s.window_is_zero s.retrans_timeout;
  count = omega arith;
  next_seqno = refl;
  in_flight = refl;
}
ticks-BacksOff s (ms ∷ times) seg rest e (now, later) c b =
    let n = length times in
    let t : TcpSender = retransmit (record s { clock = add64 s.clock ms }) seg in
    let k = tick_expired s ms seg rest e now in
    let m = backed_off_next s.window_is_zero s.retrans_timeout n b in
    let r =
      ticks-BacksOff t times seg rest e (subst (λ u. Expires u times) k later) (omega arith)
        (omega (arith, m)) in
    let q : BacksOff s (ticks t times) seg (suc n) = record {
      out = r.out ∙ append_assoc s.segments_out (seg ∷ []) (replicate n seg);
      queue = r.queue;
      timeout = r.timeout ∙ m;
      count = omega (arith, r.count);
      next_seqno = r.next_seqno;
      in_flight = r.in_flight;
    } in
    subst (λ u. BacksOff s (ticks u times) seg (suc n)) (sym k) q
