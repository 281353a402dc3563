-- ===== src/Core/Ask/Answers.antt =====
-- One question gets one answer.
use dignus_actor_server_rust.Common.{
  ◌≡◌, ◌⊎◌, inl, inr, refl, Bool, true, false, Option, none, some, List, [], ◌∷◌, cons?, if_cases,
  arith,
}
use dignus_actor_server_rust.Core.Ask.{
  timeout, AskAwaiterState, complete, set_response, set_timeout, Polled, pending, refused,
  downcasted, replace_waker, take_response, poll,
}

-- The calls that race to complete an awaiter.
pub data Completion (M : Type 0) : Type 0 where
  answered : M → Completion M
  timed_out : Completion M

module _ {M W : Type 0} where
  abbrev pub completed_by : Completion M → AskAwaiterState M W → AskAwaiterState M W × Option W
  completed_by (answered message) state = set_response state message
  completed_by timed_out state = set_timeout state

  -- All of them in the order in which they take the lock, and the wakers that are woken.
  abbrev pub complete_all : List (Completion M) → AskAwaiterState M W → AskAwaiterState M W × List W
  complete_all [] state = (state, [])
  complete_all (c ∷ cs) state =
      let rest = complete_all cs (completed_by c state).0 in
      (rest.0, cons? (completed_by c state).1 rest.1)

  completed_by-completed :
      (c : Completion M) (state : AskAwaiterState M W)
      → state.completed ≡ true
      → completed_by c state ≡ (state, none)
  unfolding set_response set_timeout complete
  completed_by-completed (answered m) state h = ground arith
  completed_by-completed timed_out state h = ground arith

  complete_all-completed :
      (cs : List (Completion M)) (state : AskAwaiterState M W)
      → state.completed ≡ true
      → complete_all cs state ≡ (state, [])
  complete_all-completed [] state h = refl
  complete_all-completed (c ∷ cs) state h =
      rw (completed_by-completed c state h) (complete_all-completed cs state h)

  completed_by-first :
      (c : Completion M) (state : AskAwaiterState M W)
      → state.completed ≡ false
      → ((completed_by c state).0.completed ≡ true) × ((completed_by c state).1 ≡ state.waker)
  unfolding set_response set_timeout complete
  completed_by-first (answered m) state h = rw h (refl, refl)
  completed_by-first timed_out state h = rw h (refl, refl)

  -- The answer that the poll of a completion gives.
  abbrev pub outcome_of : {R : Type 0} → (M → Option R) → (W → W → Bool) → Completion M → Polled R
  outcome_of downcast will_wake (answered message) =
      downcasted will_wake downcast (downcast message)
  outcome_of downcast will_wake timed_out = refused timeout

module _ {M W R : Type 0} (will_wake : W → W → Bool) (downcast : M → Option R) where
  poll-completed_by :
      (c : Completion M) (state : AskAwaiterState M W) (context : W)
      → state.completed ≡ false
      → (poll will_wake downcast (completed_by c state).0 context).1
        ≡ outcome_of downcast will_wake c
  unfolding set_response set_timeout complete poll take_response
  poll-completed_by (answered m) state context h = rw h refl
  poll-completed_by timed_out state context h = rw h refl

  -- Of all answers and timeouts that race, the first one counts: the poll behind them gives what it
  -- alone would give, be it the answer, the error of a mismatched type or that of a timeout, and the
  -- waker that was registered is woken exactly once.
  pub first_completion_wins :
      (c : Completion M) (cs : List (Completion M)) (state : AskAwaiterState M W) (context : W)
      → state.completed ≡ false
      → ((complete_all (c ∷ cs) state).1 ≡ cons? state.waker [])
        × ((poll will_wake downcast (complete_all (c ∷ cs) state).0 context).1
            ≡ outcome_of downcast will_wake c)
  first_completion_wins c cs state context h =
      let (done, woken) = completed_by-first c state h in
      let rest = complete_all-completed cs (completed_by c state).0 done in
      rw (rest, woken) (refl, poll-completed_by c state context h)

  poll_waiting :
      (state : AskAwaiterState M W) (context : W)
      → state.completed ≡ false
      → poll will_wake downcast state context ≡ (
        record state { waker = some (replace_waker will_wake downcast state.waker context) },
        pending,
      )
  unfolding poll
  poll_waiting state context h = ground arith

  replace_waker_wakes :
      (current : Option W) (context : W)
      → let w = replace_waker will_wake downcast current context in
        (w ≡ context) ⊎ (will_wake w context ≡ true)
  unfolding replace_waker
  replace_waker_wakes none context = inl refl
  replace_waker_wakes (some w) context =
      if_cases (λ x. (x ≡ context) ⊎ (will_wake x context ≡ true)) (will_wake w context) inr
        (λ _. inl refl)

  -- A question that waits is woken: a poll of an awaiter that is not complete is pending, and leaves
  -- a waker that is the poll's own or wakes the same task; the first completion wakes that one.
  pub poll_then_complete :
      (c : Completion M) (state : AskAwaiterState M W) (context : W)
      → state.completed ≡ false
      → let polled = poll will_wake downcast state context in
        (polled.1 ≡ pending)
        × (w : W) × ((w ≡ context) ⊎ (will_wake w context ≡ true))
        × ((completed_by c polled.0).1 ≡ some w)
  poll_then_complete c state context h =
      let w = replace_waker will_wake downcast state.waker context in
      rw (poll_waiting state context h) (
        refl,
        w,
        replace_waker_wakes state.waker context,
        (completed_by-first c (record state { waker = some w }) h).1,
      )
