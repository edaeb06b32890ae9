-- ===== src/EventLoop/Keeps.antt =====
-- eventloop.cc: what the callbacks keep, over a wait.
use cs144_introduction_to_co.Prelude.{
  ℕ, suc, Bool, true, false, not, ◌&&◌, ◌||◌, List, [], ◌∷◌, map, All, ◌==◌, if◌then◌else◌,
}
use cs144_introduction_to_co.SystemCall.{Exception, Attempt, system_call}
use cs144_introduction_to_co.EventLoop.{
  Rule, PollFd, Revents, Polled, Result, SetUp, Waited, keep_place, set_up_cancelled, set_up,
  is_over, poll_fd, any_asked, rules_of, keep_rule, called, defunct, serve_rule, serve, polled,
  poll_all, wait_next_event, poll_ready, service_count, eintr,
}

pub by_if {ℓ} :
    {A : Type 0} (P : A → Type ℓ) (b : Bool) (x y : A) → P x → P y → P (if b then x else y)
by_if P true x y h k = h
by_if P false x y h k = k

module _ {ℓ κ} {S : Type 0} (P : S → Type ℓ) (Q : Rule S → Type κ) where
  -- The calls of a rule keep_place `P`, whether they return or throw.
  pub record Keeps (r : Rule S) : Type ℓ where
    pub callback : (s : S) → P s → P (r.callback s).0
    pub cancel : (s : S) → P s → P (r.cancel s).0

  abbrev pub SetUpKeeps : SetUp S → Type (ℓ ⊔ κ)
  SetUpKeeps (SetUp.ready s ps) = P s × All Q (rules_of ps) × All Keeps (rules_of ps)
  SetUpKeeps (SetUp.threw s rs e) = P s × All Q rs × All Keeps rs

  abbrev pub WaitedKeeps : Waited S → Type (ℓ ⊔ κ)
  WaitedKeeps (s, rs, a) = P s × All Q rs × All Keeps rs

  keep_lem :
      (p : Rule S × PollFd) (u : SetUp S)
      → Q p.0
      → Keeps p.0
      → SetUpKeeps u
      → SetUpKeeps (keep_place p u)
  keep_lem p (SetUp.ready s ps) q k (h, qs, ks) = (h, (q, qs), (k, ks))
  keep_lem p (SetUp.threw s rs e) q k (h, qs, ks) = (h, (q, qs), (k, ks))

  cancelled_lem :
      (r : Rule S) (rs : List (Rule S)) (c : S × Attempt Unit) (rest : S → SetUp S)
      → P c.0
      → Q r
      → Keeps r
      → All Q rs
      → All Keeps rs
      → ((s : S) → P s → SetUpKeeps (rest s))
      → SetUpKeeps (set_up_cancelled r rs c rest)
  cancelled_lem r rs (s, Attempt.ok u) rest h q k qs ks f = f s h
  cancelled_lem r rs (s, Attempt.raised e) rest h q k qs ks f = (h, (q, qs), (k, ks))

  set_up_lem :
      (rs : List (Rule S)) (s : S) → P s → All Q rs → All Keeps rs → SetUpKeeps (set_up rs s)
  unfolding set_up
  set_up_lem [] s h qs ks = (h, tt, tt)
  set_up_lem (r ∷ rs) s h (q, qs) (k, ks) =
      by_if SetUpKeeps (is_over r s) (set_up_cancelled r rs (r.cancel s) (set_up rs))
        (keep_place (r, poll_fd r s) (set_up rs s))
        (cancelled_lem r rs (r.cancel s) (set_up rs) (k.cancel s h) q k qs ks
          (λ t h. set_up_lem rs t h qs ks))
        (keep_lem (r, poll_fd r s) (set_up rs s) q k (set_up_lem rs s h qs ks))

  keep_rule_lem :
      (r : Rule S) (w : Waited S) → Q r → Keeps r → WaitedKeeps w → WaitedKeeps (keep_rule r w)
  keep_rule_lem r (s, rs, a) q k (h, qs, ks) = (h, (q, qs), (k, ks))

  called_lem :
      (r : Rule S) (rs : List (Rule S)) (n : ℕ) (c : S × Attempt Unit) (rest : S → Waited S)
      → P c.0
      → Q r
      → Keeps r
      → All Q rs
      → All Keeps rs
      → ((s : S) → P s → WaitedKeeps (rest s))
      → WaitedKeeps (called r rs n c rest)
  unfolding called
  called_lem r rs n (s, Attempt.raised e) rest h q k qs ks f = (h, (q, qs), (k, ks))
  called_lem r rs n (s, Attempt.ok u) rest h q k qs ks f =
      by_if WaitedKeeps (n == service_count r s && r.interest s)
        (s, r ∷ rs, Attempt.raised Exception.runtime_error) (keep_rule r (rest s))
        (h, (q, qs), (k, ks)) (keep_rule_lem r (rest s) q k (f s h))

  defunct_lem :
      (r : Rule S) (rs : List (Rule S)) (c : S × Attempt Unit) (rest : S → Waited S)
      → P c.0
      → Q r
      → Keeps r
      → All Q rs
      → All Keeps rs
      → ((s : S) → P s → WaitedKeeps (rest s))
      → WaitedKeeps (defunct r rs c rest)
  defunct_lem r rs (s, Attempt.raised e) rest h q k qs ks f = (h, (q, qs), (k, ks))
  defunct_lem r rs (s, Attempt.ok u) rest h q k qs ks f = f s h

  serve_rule_lem :
      (v : Revents) (p : Rule S × PollFd) (rs : List (Rule S)) (rest : S → Waited S) (s : S)
      → P s
      → Q p.0
      → Keeps p.0
      → All Q rs
      → All Keeps rs
      → ((s : S) → P s → WaitedKeeps (rest s))
      → WaitedKeeps (serve_rule v p rs rest s)
  unfolding serve_rule
  serve_rule_lem v (r, p) rs rest s h q k qs ks f =
      let is_ready = poll_ready r.direction p.asked v in
      let call = called r rs (service_count r s) (r.callback s) rest in
      let on = if is_ready then call else keep_rule r (rest s) in
      let hup = v.pollhup && p.asked && not is_ready in
      by_if WaitedKeeps (v.pollerr || v.pollnval)
        (s, r ∷ rs, Attempt.raised Exception.runtime_error)
        (if hup then defunct r rs (r.cancel s) rest else on) (h, (q, qs), (k, ks))
        (by_if WaitedKeeps hup (defunct r rs (r.cancel s) rest) on
          (defunct_lem r rs (r.cancel s) rest (k.cancel s h) q k qs ks f)
          (by_if WaitedKeeps is_ready call (keep_rule r (rest s))
            (called_lem r rs (service_count r s) (r.callback s) rest (k.callback s h) q k qs ks f)
            (keep_rule_lem r (rest s) q k (f s h))))

  serve_lem :
      (revents : ℕ → Revents) (idx : ℕ) (ps : List (Rule S × PollFd)) (s : S)
      → P s
      → All Q (rules_of ps)
      → All Keeps (rules_of ps)
      → WaitedKeeps (serve revents idx ps s)
  unfolding serve
  serve_lem revents idx [] s h qs ks = (h, tt, tt)
  serve_lem revents idx (p ∷ ps) s h (q, qs) (k, ks) =
      serve_rule_lem (revents idx) p (rules_of ps) (serve revents (suc idx) ps) s h q k qs ks
        (λ t h. serve_lem revents (suc idx) ps t h qs ks)

  polled_lem :
      (ps : List (Rule S × PollFd)) (s : S) (revents : ℕ → Revents) (a : Attempt ℕ)
      → P s
      → All Q (rules_of ps)
      → All Keeps (rules_of ps)
      → WaitedKeeps (polled ps s revents a)
  unfolding polled
  polled_lem ps s revents (Attempt.ok n) h qs ks =
      by_if WaitedKeeps (n == 0) (s, rules_of ps, Attempt.ok Result.timeout) (serve revents 0 ps s)
        (h, qs, ks) (serve_lem revents 0 ps s h qs ks)
  polled_lem ps s revents (Attempt.raised (Exception.unix_error errno)) h qs ks =
      by_if WaitedKeeps (errno == eintr) (s, rules_of ps, Attempt.ok Result.exit)
        (serve revents 0 ps s) (h, qs, ks) (serve_lem revents 0 ps s h qs ks)
  polled_lem ps s revents (Attempt.raised Exception.runtime_error) h qs ks = (h, qs, ks)

  module _ (poll : S → List PollFd → S × Polled) where
    poll_all_lem :
        (u : SetUp S)
        → ((s : S) (fds : List PollFd) → P s → P (poll s fds).0)
        → SetUpKeeps u
        → WaitedKeeps (poll_all poll u)
    unfolding poll_all
    poll_all_lem (SetUp.threw s rs e) f h = h
    poll_all_lem (SetUp.ready s ps) f (h, qs, ks) =
        let fds = map (λ (q : Rule S × PollFd). q.1) ps in
        let (t, p) = poll s fds in
        by_if WaitedKeeps (not (any_asked ps)) (s, rules_of ps, Attempt.ok Result.exit)
          (polled ps t p.revents (system_call p.polled_answer)) (h, qs, ks)
          (polled_lem ps t p.revents (system_call p.polled_answer) (f s fds h) qs ks)

    -- What `poll` and the calls of every rule keep is kept by a wait, also by one that throws, and what
    -- holds of every rule that there was holds of every rule that is left.
    pub wait_next_event-WaitedKeeps :
        (rules : List (Rule S)) (s : S)
        → ((s : S) (fds : List PollFd) → P s → P (poll s fds).0)
        → All Q rules
        → All Keeps rules
        → P s
        → WaitedKeeps (wait_next_event poll rules s)
    unfolding wait_next_event
    wait_next_event-WaitedKeeps rules s f qs ks h =
        poll_all_lem (set_up rules s) f (set_up_lem rules s h qs ks)
