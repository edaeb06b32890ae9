-- ===== src/EventLoop/Examples.antt =====
-- Tests of eventloop.cc: two rules on one descriptor, which count their calls.
use cs144_introduction_to_co.Prelude.{◌≡◌, ◌↔◌, refl, arith, true, false, List, [], ◌∷◌}
use cs144_introduction_to_co.SystemCall.{Attempt, Answer}
use cs144_introduction_to_co.FileDescriptor.{FdWrapper, register_read, make}
use cs144_introduction_to_co.EventLoop.{
  any_asked, Rule, Direction, PollFd, Polled, Revents, Result, SetUp, set_up, poll_fd, serve,
  wait_next_event, is_over, service_count,
}
use cs144_introduction_to_co.EventLoop.Rounds.{
  Ends, no_revents, wait_next_event_exit, poll_error_is_success,
}
use cs144_introduction_to_co.EventLoop.Handled.{IsPrompt, serve-handled}

-- A rule that reads once whenever it is called.
abbrev reader : Rule FdWrapper
reader = record {
  fd = λ f. f;
  direction = Direction.in_;
  callback = λ f. (register_read f, Attempt.ok tt);
  interest = λ f. true;
  cancel = λ f. (f, Attempt.ok tt);
}

abbrev readable : Revents
readable = record {
  pollin = true;
  pollout = false;
  pollerr = false;
  pollhup = false;
  pollnval = false;
}

abbrev ready : FdWrapper → List PollFd → FdWrapper × Polled
ready f fds = (f, record { polled_answer = Answer.returned 2; revents = λ i. readable })

-- `poll` fails with ENOMEM.
abbrev failing : FdWrapper → List PollFd → FdWrapper × Polled
failing f fds = (f, record { polled_answer = Answer.failed 12; revents = λ i. no_revents })

abbrev two : List (Rule FdWrapper)
two = reader ∷ reader ∷ []

-- The number of the descriptor stays.
abbrev IsSeven : FdWrapper → Type 0
IsSeven f = f.fd ≡ 7

wait_next_event_exit_example :
    ((wait_next_event ready two (make 7)).2 ≡ Attempt.ok Result.exit)
    ↔ Ends ready (set_up two (make 7))
wait_next_event_exit_example = wait_next_event_exit ready two (make 7)

abbrev place : FdWrapper → Rule FdWrapper × PollFd
place f = (reader, poll_fd reader f)

set_up-two : set_up two (make 7) ≡ SetUp.ready (make 7) (place (make 7) ∷ place (make 7) ∷ [])
unfolding set_up is_over make
set_up-two = refl

poll_error_is_success_example :
    wait_next_event failing two (make 7) ≡ (make 7, two, Attempt.ok Result.success)
unfolding any_asked
poll_error_is_success_example =
    poll_error_is_success failing two (make 7) (make 7) (place (make 7) ∷ place (make 7) ∷ []) 12
      set_up-two refl refl (omega arith) (λ i. refl)

reader-IsPrompt : IsPrompt IsSeven reader
unfolding register_read service_count
reader-IsPrompt = record { keeps = λ f h. h; returns = λ f h. refl; moves = λ f h. ground arith }

serve-handled_example :
    serve (λ i. readable) 0 (place (make 7) ∷ place (make 7) ∷ []) (make 7)
    ≡ (register_read (register_read (make 7)), two, Attempt.ok Result.success)
unfolding make
serve-handled_example =
    serve-handled IsSeven (λ i. readable) 0 (place (make 7) ∷ place (make 7) ∷ []) (make 7)
      (λ i. (refl, refl, refl)) (reader-IsPrompt, (reader-IsPrompt, tt)) refl
