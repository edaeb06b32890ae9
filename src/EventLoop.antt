-- ===== src/EventLoop.antt =====
-- util/eventloop.hh and eventloop.cc: rules on descriptors, and the wait for the next event. `S` is all
-- that the callbacks share: the descriptors and the objects that they capture, and the kernel.
-- `interest` only looks at it. No callback adds a rule.
use cs144_introduction_to_co.Prelude.{
  ℕ, suc, Bool, true, false, not, ◌&&◌, ◌||◌, List, [], ◌∷◌, ◌++◌, map, ◌==◌, if◌then◌else◌,
}
use cs144_introduction_to_co.SystemCall.{Exception, Attempt, Answer, system_call}
use cs144_introduction_to_co.FileDescriptor.{FdWrapper}
pub mod Rounds
pub mod Keeps
pub mod Handled
mod Examples

pub data Direction : Type 0 where
  in_ out : Direction

abbrev pub is_in : Direction → Bool
is_in Direction.in_ = true
is_in Direction.out = false

pub record Rule (S : Type 0) : Type 0 where
  pub fd : S → FdWrapper
  pub direction : Direction
  pub callback : S → S × Attempt Unit
  pub interest : S → Bool
  pub cancel : S → S × Attempt Unit

-- `pollfd`: the number, and whether the direction of the rule is asked for.
pub record PollFd : Type 0 where
  pub fd : ℕ
  pub asked : Bool

-- The bits of `revents`.
pub record Revents : Type 0 where
  pub pollin : Bool
  pub pollout : Bool
  pub pollerr : Bool
  pub pollhup : Bool
  pub pollnval : Bool

-- What `poll` answers, and the `revents` of each place, on failure too.
pub record Polled : Type 0 where
  pub polled_answer : Answer ℕ
  pub revents : ℕ → Revents

pub data Result : Type 0 where
  success timeout exit : Result

-- The rules after the set-up, with their places in `pollfds`; or an exception of `cancel`.
pub data SetUp (S : Type 0) : Type 0 where
  ready : S → List (Rule S × PollFd) → SetUp S
  threw : S → List (Rule S) → Exception → SetUp S

-- The state, the rules that are left, and the result.
abbrev pub Waited : Type 0 → Type 0
Waited S = S × List (Rule S) × Attempt Result

-- `revents & events`.
abbrev pub poll_ready : Direction → Bool → Revents → Bool
poll_ready Direction.in_ asked v = asked && v.pollin
poll_ready Direction.out asked v = asked && v.pollout

-- EINTR.
abbrev pub eintr : ℕ
eintr = 4

module _ {S : Type 0} where
  unfoldable pub service_count : Rule S → S → ℕ
  service_count r s = if is_in r.direction then (r.fd s).read_count else (r.fd s).write_count

  -- `add_rule`: at the end of the list.
  unfoldable pub add_rule : List (Rule S) → Rule S → List (Rule S)
  add_rule rules r = rules ++ r ∷ []

  -- The tests of the set-up: the rule reads and is at the end, or the descriptor is closed.
  unfoldable pub is_over : Rule S → S → Bool
  is_over r s = (is_in r.direction && (r.fd s).eof) || (r.fd s).closed

  abbrev pub keep_place : Rule S × PollFd → SetUp S → SetUp S
  keep_place p (ready s ps) = ready s (p ∷ ps)
  keep_place p (threw s rs e) = threw s (p.0 ∷ rs) e

  abbrev pub set_up_cancelled : Rule S → List (Rule S) → S × Attempt Unit → (S → SetUp S) → SetUp S
  set_up_cancelled r rs (s, Attempt.ok u) rest = rest s
  set_up_cancelled r rs (s, Attempt.raised e) rest = threw s (r ∷ rs) e

  abbrev pub poll_fd : Rule S → S → PollFd
  poll_fd r s = record { fd = (r.fd s).fd; asked = r.interest s }

  unfoldable pub set_up : List (Rule S) → S → SetUp S
  set_up [] s = ready s []
  set_up (r ∷ rs) s =
      if is_over r s
      then set_up_cancelled r rs (r.cancel s) (set_up rs)
      else keep_place (r, poll_fd r s) (set_up rs s)

  unfoldable pub any_asked : List (Rule S × PollFd) → Bool
  any_asked [] = false
  any_asked (p ∷ ps) = p.1.asked || any_asked ps

  abbrev pub rules_of : List (Rule S × PollFd) → List (Rule S)
  rules_of ps = map (λ p. p.0) ps

  abbrev pub keep_rule : Rule S → Waited S → Waited S
  keep_rule r (s, rs, a) = (s, r ∷ rs, a)

  -- After the callback: the exception of the callback, or a busy wait, or the other rules.
  unfoldable pub called : Rule S → List (Rule S) → ℕ → S × Attempt Unit → (S → Waited S) → Waited S
  called r rs before (s, Attempt.raised e) rest = (s, r ∷ rs, Attempt.raised e)
  called r rs before (s, Attempt.ok u) rest =
      if before == service_count r s && r.interest s
      then (s, r ∷ rs, Attempt.raised Exception.runtime_error)
      else keep_rule r (rest s)

  abbrev pub defunct : Rule S → List (Rule S) → S × Attempt Unit → (S → Waited S) → Waited S
  defunct r rs (s, Attempt.raised e) rest = (s, r ∷ rs, Attempt.raised e)
  defunct r rs (s, Attempt.ok u) rest = rest s

  -- One round of the loop over the results; `rest` is the loop over the other rules.
  unfoldable pub serve_rule :
      Revents → Rule S × PollFd → List (Rule S) → (S → Waited S) → S → Waited S
  serve_rule v (r, p) rs rest s =
      let is_ready = poll_ready r.direction p.asked v in
      if v.pollerr || v.pollnval
      then (s, r ∷ rs, Attempt.raised Exception.runtime_error)
      else if v.pollhup && p.asked && not is_ready
      then defunct r rs (r.cancel s) rest
      else if is_ready
      then called r rs (service_count r s) (r.callback s) rest
      else keep_rule r (rest s)

  unfoldable pub serve : (ℕ → Revents) → ℕ → List (Rule S × PollFd) → S → Waited S
  serve revents idx [] s = (s, [], Attempt.ok Result.success)
  serve revents idx (p ∷ ps) s =
      serve_rule (revents idx) p (rules_of ps) (serve revents (suc idx) ps) s

  -- After `poll`. The `catch` takes every failure of `poll`, and returns on EINTR only.
  unfoldable pub polled : List (Rule S × PollFd) → S → (ℕ → Revents) → Attempt ℕ → Waited S
  polled ps s revents (Attempt.ok n) =
      if n == 0 then (s, rules_of ps, Attempt.ok Result.timeout) else serve revents 0 ps s
  polled ps s revents (Attempt.raised (Exception.unix_error errno)) =
      if errno == eintr then (s, rules_of ps, Attempt.ok Result.exit) else serve revents 0 ps s
  polled ps s revents (Attempt.raised Exception.runtime_error) =
      (s, rules_of ps, Attempt.raised Exception.runtime_error)

  -- `poll` is the call of the kernel, with the timeout of `wait_next_event`.
  module _ (poll : S → List PollFd → S × Polled) where
    unfoldable pub poll_all : SetUp S → Waited S
    poll_all (threw s rs e) = (s, rs, Attempt.raised e)
    poll_all (ready s ps) =
        let (t, p) = poll s (map (λ q. q.1) ps) in
        if not (any_asked ps)
        then (s, rules_of ps, Attempt.ok Result.exit)
        else polled ps t p.revents (system_call p.polled_answer)

    unfoldable pub wait_next_event : List (Rule S) → S → Waited S
    wait_next_event rules s = poll_all (set_up rules s)
