-- ===== src/EventLoop/Rounds.antt =====
-- eventloop.cc: the result of a wait, and what it has served.
use cs144_introduction_to_co.Prelude.{
  ℕ, suc, ◌≡◌, ◌≢◌, ◌⊎◌, ◌↔◌, refl, ap, arith, Bool, true, false, not, ◌&&◌, ◌||◌, List, [], ◌∷◌,
  map, ◌==◌, if◌then◌else◌, Bool-cases, inl, inr,
}
use cs144_introduction_to_co.SystemCall.{Exception, Attempt, Answer, system_call}
use cs144_introduction_to_co.EventLoop.{
  Rule, Direction, PollFd, Revents, Polled, Result, SetUp, Waited, set_up, any_asked, rules_of,
  keep_rule, called, defunct, serve_rule, serve, polled, poll_all, wait_next_event, poll_ready,
  service_count, eintr,
}
use cs144_introduction_to_co.EventLoop.Keeps.{by_if}

abbrev pub no_revents : Revents
no_revents = record {
  pollin = false;
  pollout = false;
  pollerr = false;
  pollhup = false;
  pollnval = false;
}

unready : (d : Direction) (asked : Bool) → poll_ready d asked no_revents ≡ false
unready Direction.in_ asked = ground arith
unready Direction.out asked = ground arith

module _ {S : Type 0} where
  -- Not `exit`.
  abbrev GoesOn : Waited S → Type 0
  GoesOn (s, rs, Attempt.ok Result.success) = Unit
  GoesOn (s, rs, Attempt.ok Result.timeout) = Unit
  GoesOn (s, rs, Attempt.ok Result.exit) = ⊥
  GoesOn (s, rs, Attempt.raised e) = Unit

  keep_rule-GoesOn : (r : Rule S) (w : Waited S) → GoesOn w → GoesOn (keep_rule r w)
  keep_rule-GoesOn r (s, rs, Attempt.ok Result.success) h = tt
  keep_rule-GoesOn r (s, rs, Attempt.ok Result.timeout) h = tt
  keep_rule-GoesOn r (s, rs, Attempt.ok Result.exit) h = h
  keep_rule-GoesOn r (s, rs, Attempt.raised e) h = tt

  called-GoesOn :
      (r : Rule S) (rs : List (Rule S)) (n : ℕ) (c : S × Attempt Unit) (rest : S → Waited S)
      → ((s : S) → GoesOn (rest s))
      → GoesOn (called r rs n c rest)
  unfolding called
  called-GoesOn r rs n (s, Attempt.raised e) rest f = tt
  called-GoesOn r rs n (s, Attempt.ok u) rest f =
      by_if GoesOn (n == service_count r s && r.interest s)
        (s, r ∷ rs, Attempt.raised Exception.runtime_error) (keep_rule r (rest s)) tt
        (keep_rule-GoesOn r (rest s) (f s))

  defunct-GoesOn :
      (r : Rule S) (rs : List (Rule S)) (c : S × Attempt Unit) (rest : S → Waited S)
      → ((s : S) → GoesOn (rest s))
      → GoesOn (defunct r rs c rest)
  defunct-GoesOn r rs (s, Attempt.raised e) rest f = tt
  defunct-GoesOn r rs (s, Attempt.ok u) rest f = f s

  serve_rule-GoesOn :
      (v : Revents) (p : Rule S × PollFd) (rs : List (Rule S)) (rest : S → Waited S) (s : S)
      → ((s : S) → GoesOn (rest s))
      → GoesOn (serve_rule v p rs rest s)
  unfolding serve_rule
  serve_rule-GoesOn v (r, p) rs rest s f =
      let is_ready = poll_ready r.direction p.asked v in
      let call = called r rs (service_count r s) (r.callback s) rest in
      let on = if is_ready then call else keep_rule r (rest s) in
      let hup = v.pollhup && p.asked && not is_ready in
      by_if GoesOn (v.pollerr || v.pollnval) (s, r ∷ rs, Attempt.raised Exception.runtime_error)
        (if hup then defunct r rs (r.cancel s) rest else on) tt
        (by_if GoesOn hup (defunct r rs (r.cancel s) rest) on
          (defunct-GoesOn r rs (r.cancel s) rest f)
          (by_if GoesOn is_ready call (keep_rule r (rest s))
            (called-GoesOn r rs (service_count r s) (r.callback s) rest f)
            (keep_rule-GoesOn r (rest s) (f s))))

  serve-GoesOn :
      (revents : ℕ → Revents) (idx : ℕ) (ps : List (Rule S × PollFd)) (s : S)
      → GoesOn (serve revents idx ps s)
  unfolding serve
  serve-GoesOn revents idx [] s = tt
  serve-GoesOn revents idx (p ∷ ps) s =
      serve_rule-GoesOn (revents idx) p (rules_of ps) (serve revents (suc idx) ps) s
        (serve-GoesOn revents (suc idx) ps)

  no_exit : (w : Waited S) → GoesOn w → w.2 ≢ Attempt.ok Result.exit
  no_exit (s, rs, Attempt.ok Result.success) h e = cc
  no_exit (s, rs, Attempt.ok Result.timeout) h e = cc
  no_exit (s, rs, Attempt.ok Result.exit) h e = h
  no_exit (s, rs, Attempt.raised x) h e = cc

  -- Nothing happens where no bit is set.
  serve_nothing :
      (revents : ℕ → Revents) (idx : ℕ) (ps : List (Rule S × PollFd)) (s : S)
      → ((i : ℕ) → revents i ≡ no_revents)
      → serve revents idx ps s ≡ (s, rules_of ps, Attempt.ok Result.success)
  unfolding serve serve_rule
  serve_nothing revents idx [] s h = refl
  serve_nothing revents idx ((r, p) ∷ ps) s h =
      rw (h idx, unready r.direction p.asked)
        (ap (keep_rule r) (serve_nothing revents (suc idx) ps s h))

  module _ (poll : S → List PollFd → S × Polled) where
    -- Why a wait ends the loop: no rule is interested, or a signal came while it waited.
    abbrev pub Ends : SetUp S → Type 0
    Ends (SetUp.threw s rs e) = ⊥
    Ends (SetUp.ready s ps) =
        (any_asked ps ≡ false)
        ⊎ ((poll s (map (λ q. q.1) ps)).1.polled_answer ≡ Answer.failed eintr)

    by_poll :
        (ps : List (Rule S × PollFd)) (s : S) (revents : ℕ → Revents) (a : Answer ℕ)
        → (polled ps s revents (system_call a)).2 ≡ Attempt.ok Result.exit
        → a ≡ Answer.failed eintr
    unfolding polled system_call
    by_poll ps s revents (Answer.returned n) h =
        elim (no_exit
          (if n == 0 then (s, rules_of ps, Attempt.ok Result.timeout) else serve revents 0 ps s)
          (by_if GoesOn (n == 0) (s, rules_of ps, Attempt.ok Result.timeout) (serve revents 0 ps s)
            tt (serve-GoesOn revents 0 ps s))
          h) [ ]
    by_poll ps s revents (Answer.failed errno) h = elim (Bool-cases (errno == eintr)) [
      | inl e ↦ ap Answer.failed (ground arith)
      | inr e ↦
          elim (no_exit (serve revents 0 ps s) (serve-GoesOn revents 0 ps s) (other errno e h)) [ ]
    ]
      where
        other :
            (n : ℕ) (e : (n == eintr) ≡ false)
            → (if n == eintr
                then (s, rules_of ps, Attempt.ok Result.exit)
                else serve revents 0 ps s).2
              ≡ Attempt.ok Result.exit
            → (serve revents 0 ps s).2 ≡ Attempt.ok Result.exit
        other n e h = rw e at h

    interrupted :
        (ps : List (Rule S × PollFd)) (s : S) (revents : ℕ → Revents)
        → (polled ps s revents (system_call (Answer.failed eintr))).2 ≡ Attempt.ok Result.exit
    unfolding polled system_call
    interrupted ps s revents = refl

    exit_reason : (u : SetUp S) → ((poll_all poll u).2 ≡ Attempt.ok Result.exit) ↔ Ends u
    unfolding poll_all
    exit_reason (SetUp.threw s rs e) = (λ h. cc, λ h. elim h [ ])
    exit_reason (SetUp.ready s ps) =
        let (t, p) = poll s (map (λ (q : Rule S × PollFd). q.1) ps) in
        elim (Bool-cases (any_asked ps)) [
          | inl e ↦ rw e (
            λ h. inr (by_poll ps t p.revents p.polled_answer h),
            λ h. elim h [ inl f ↦ cc | inr f ↦ rw f (interrupted ps t p.revents) ],
          )
          | inr e ↦ rw e (λ h. inl refl, λ h. refl)
        ]

    -- A wait returns `Exit` exactly if, once the rules that are over are cancelled, no rule that is left
    -- is interested, or `poll` fails with EINTR. An empty list of rules is a case of the first.
    pub wait_next_event_exit :
        (rules : List (Rule S)) (s : S)
        → ((wait_next_event poll rules s).2 ≡ Attempt.ok Result.exit) ↔ Ends (set_up rules s)
    unfolding wait_next_event
    wait_next_event_exit rules s = exit_reason (set_up rules s)

    -- Where `poll` fails with another errno than EINTR, and leaves the `revents` at 0, the wait returns
    -- `Success`, though no callback was called, and all rules stay.
    pub poll_error_is_success :
        (rules : List (Rule S)) (s t : S) (ps : List (Rule S × PollFd)) (errno : ℕ)
        → set_up rules s ≡ SetUp.ready t ps
        → any_asked ps ≡ true
        → (poll t (map (λ q. q.1) ps)).1.polled_answer ≡ Answer.failed errno
        → errno ≢ eintr
        → ((i : ℕ) → (poll t (map (λ q. q.1) ps)).1.revents i ≡ no_revents)
        → wait_next_event poll rules s
          ≡ ((poll t (map (λ q. q.1) ps)).0, rules_of ps, Attempt.ok Result.success)
    unfolding wait_next_event poll_all polled system_call
    poll_error_is_success rules s t ps errno e a f n b =
        let other : (errno == eintr) ≡ false = ground arith in
        rw (e, a, f)
          (rw other (
            serve_nothing (poll t (map (λ (q : Rule S × PollFd). q.1) ps)).1.revents 0 ps
              (poll t (map (λ (q : Rule S × PollFd). q.1) ps)).0 b))
