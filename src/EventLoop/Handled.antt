-- ===== src/EventLoop/Handled.antt =====
-- eventloop.cc: the loop over the results of `poll`.
use cs144_introduction_to_co.Prelude.{
  ℕ, suc, ◌≡◌, refl, ap, ◌∙◌, arith, Bool, true, false, not, ◌&&◌, ◌||◌, List, [], ◌∷◌, All, ◌==◌,
  if◌then◌else◌,
}
use cs144_introduction_to_co.SystemCall.{Attempt, Exception}
use cs144_introduction_to_co.EventLoop.{
  Rule, PollFd, Revents, Result, Waited, rules_of, keep_rule, called, defunct, serve_rule, serve,
  poll_ready, service_count,
}

module _ {ℓ} {S : Type 0} (P : S → Type ℓ) where
  -- The callback returns, and reads or writes the descriptor, or is no longer interested.
  pub record IsPrompt (r : Rule S) : Type ℓ where
    pub keeps : (s : S) → P s → P (r.callback s).0
    pub returns : (s : S) → P s → (r.callback s).1 ≡ Attempt.ok tt
    pub moves :
        (s : S)
        → P s
        → (service_count r s == service_count r (r.callback s).0 && r.interest (r.callback s).0)
          ≡ false

  -- Each rule whose descriptor is ready, in order: the descriptors that are ready were read off at once.
  abbrev pub handled : (ℕ → Revents) → ℕ → List (Rule S × PollFd) → S → S
  handled revents idx [] s = s
  handled revents idx ((r, p) ∷ ps) s =
      handled revents (suc idx) ps
        (if poll_ready r.direction p.asked (revents idx) then (r.callback s).0 else s)

  abbrev pub NoError : Revents → Type 0
  NoError v = (v.pollerr ≡ false) × (v.pollnval ≡ false) × (v.pollhup ≡ false)

  called_lem :
      (r : Rule S) (rs : List (Rule S)) (rest : S → Waited S) (s : S)
      → IsPrompt r
      → P s
      → called r rs (service_count r s) (r.callback s) rest ≡ keep_rule r (rest (r.callback s).0)
  unfolding called
  called_lem r rs rest s k h = by_call (r.callback s) (k.returns s h) (k.moves s h)
    where
      by_call :
          (c : S × Attempt Unit)
          → c.1 ≡ Attempt.ok tt
          → (service_count r s == service_count r c.0 && r.interest c.0) ≡ false
          → called r rs (service_count r s) c rest ≡ keep_rule r (rest c.0)
      by_call (t, Attempt.ok tt) e m = rw m refl
      by_call (t, Attempt.raised x) e m = cc

  no_error_lem :
      (error hup : Bool) (x y z : Waited S)
      → error ≡ false
      → hup ≡ false
      → (if error then x else if hup then y else z) ≡ z
  no_error_lem error hup x y z e f = rw (e, f) refl

  no_bits : {a b : Bool} → a ≡ false → b ≡ false → (a || b) ≡ false
  no_bits h k = ground arith

  no_hup : {a : Bool} (b c : Bool) → a ≡ false → (a && b && c) ≡ false
  no_hup b c h = ground arith

  by_ready :
      (b : Bool) (z w : Waited S) (t s : S) (F : S → Waited S)
      → z ≡ F t
      → w ≡ F s
      → (if b then z else w) ≡ F (if b then t else s)
  by_ready true z w t s F e f = e
  by_ready false z w t s F e f = f

  -- Where no descriptor reports an error or a hangup, and every callback returns and does not leave its
  -- descriptor as ready as it was, in the states that `P` describes: the wait calls the callback of each
  -- rule that is ready, once and in order, keeps all rules and returns `Success`.
  pub serve-handled :
      (revents : ℕ → Revents) (idx : ℕ) (ps : List (Rule S × PollFd)) (s : S)
      → ((i : ℕ) → NoError (revents i))
      → All IsPrompt (rules_of ps)
      → P s
      → serve revents idx ps s ≡ (handled revents idx ps s, rules_of ps, Attempt.ok Result.success)
  unfolding serve serve_rule
  serve-handled revents idx [] s n ks h = refl
  serve-handled revents idx ((r, p) ∷ ps) s n (k, ks) h =
      let (a, b, c) = n idx in
      let go = serve-handled revents (suc idx) ps in
      let is_ready = poll_ready r.direction p.asked (revents idx) in
      let call =
        called r (rules_of ps) (service_count r s) (r.callback s) (serve revents (suc idx) ps) in
      let on = keep_rule r (serve revents (suc idx) ps s) in
      no_error_lem ((revents idx).pollerr || (revents idx).pollnval)
        ((revents idx).pollhup && p.asked && not is_ready)
        (s, r ∷ rules_of ps, Attempt.raised Exception.runtime_error)
        (defunct r (rules_of ps) (r.cancel s) (serve revents (suc idx) ps))
        (if is_ready then call else on) (no_bits a b) (no_hup p.asked (not is_ready) c)
      ∙ by_ready is_ready call on (r.callback s).0 s
          (λ t. (handled revents (suc idx) ps t, r ∷ rules_of ps, Attempt.ok Result.success))
          (called_lem r (rules_of ps) (serve revents (suc idx) ps) s k h
            ∙ ap (keep_rule r) (go (r.callback s).0 n ks (k.keeps s h)))
          (ap (keep_rule r) (go s n ks h))
