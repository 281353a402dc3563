-- ===== src/Core/References/Asking.antt =====
-- A question to an actor, from `ask` to the answer or the timeout.
use dignus_actor_server_rust.Common.{
  ℕ, ◌+◌, ◌%◌, ◌≡◌, refl, ap, ◌∙◌, Bool, true, false, Option, none, some, List, [], ◌∷◌, ◌++◌, set,
  lookup, insert, lookup-insert, lookup-modify_self, ==_refl, if◌then◌else◌, Bool-cases, inl, inr,
}
use dignus_actor_server_rust.Core.Registry.{target}
use dignus_actor_server_rust.Core.Ask
use dignus_actor_server_rust.Core.Ask.{
  AskSystem, AskAwaiterState, new, register, sweep, set_timeout, set_response, complete,
  answer_state, poll, take_response, downcasted, Polled,
}
use dignus_actor_server_rust.Core.Ask.Sweeps.{due, sweep_lem}
use dignus_actor_server_rust.Core.References.{
  ActorRef, reply, World, mail_to, post, ask_registered, ask,
}

module _ {M W : Type 0} where
  abbrev pub answer_held : M → AskAwaiterState M W
  answer_held answer = record {
    response = some answer;
    completed = true;
    timed_out = false;
    waker = none;
  }

  set_response-new : (answer : M) → (set_response {W = W} new answer).0 ≡ answer_held answer
  unfolding set_response complete new
  set_response-new answer = refl

  set_response-answer_held :
      (answer answer' : M) → (set_response (answer_held answer) answer').0 ≡ answer_held answer
  unfolding set_response complete
  set_response-answer_held answer answer' = refl

  set_timeout-answer_held : (answer : M) → (set_timeout (answer_held answer)).0 ≡ answer_held answer
  unfolding set_timeout complete
  set_timeout-answer_held answer = refl

  poll-answer_held :
      {T : Type 0} (will_wake : W → W → Bool) (downcast : M → Option T) (answer : M) (context : W)
      → (poll will_wake downcast (answer_held answer) context).1
        ≡ downcasted will_wake downcast (downcast answer)
  unfolding poll take_response
  poll-answer_held will_wake downcast answer context = refl

  -- An answer to an awaiter that is held.
  answer_state_lem :
      (id : ℕ) (answer : M) (m : List (ℕ × AskAwaiterState M W)) (state : AskAwaiterState M W)
      → lookup id m ≡ some state
      → lookup id (answer_state M W id answer (lookup id m) m) ≡ some (set_response state answer).0
  unfolding answer_state
  answer_state_lem id answer m state h =
      rw h (lookup-modify_self id (set_response state answer).0 state m h)

  -- The first answer to an awaiter stays.
  answer_kept :
      (s : AskSystem M W) (id : ℕ) (answer answer' : M) (later : ℕ)
      → s.is_stopped ≡ false
      → lookup id s.awaiters ≡ some new
      → let s' = Ask.post M W s id answer in
        (lookup id s'.awaiters ≡ some (answer_held answer))
        × (lookup id (Ask.post M W s' id answer').awaiters ≡ some (answer_held answer))
        × (lookup id (sweep M W s' later).awaiters ≡ some (answer_held answer))
  answer_kept s id answer answer' later live waits =
      let s' : AskSystem M W = Ask.post M W s id answer in
      let first : lookup id s'.awaiters ≡ some (answer_held answer) =
        answer_state_lem id answer s.awaiters new waits ∙ ap some (set_response-new answer) in
      let second =
        answer_state_lem id answer' s'.awaiters (answer_held answer) first
        ∙ ap some (set_response-answer_held answer answer') in
      let same : (b : Bool)
          → (if b then (set_timeout (answer_held answer)).0 else answer_held answer)
            ≡ answer_held answer =
        λ b. elim (Bool-cases b) [
          | inl e ↦ rw e (set_timeout-answer_held answer)
          | inr e ↦ rw e refl
        ] in
      (
        first,
        second,
        sweep_lem s' later id (answer_held answer) live first
            ∙ ap some (same (due later id s'.slots)),
      )

  inserted :
      (id : ℕ) (state : AskAwaiterState M W) (m : List (ℕ × AskAwaiterState M W))
      → lookup id (insert id state m) ≡ some state
  inserted id state m = lookup-insert id id state m ∙ rw (==_refl id) refl

module _ {M W R : Type 0} where
  -- The world behind `register`.
  abbrev pub asked : World M W R → (id address now wait : ℕ) → AskSystem M W
  asked w id address now wait = record w.ask_system {
    awaiters = insert id new w.ask_system.awaiters;
    slots =
        set w.ask_system.slots (address % w.ask_system.slot_count)
          (some (record { ask_awaiter = id; deadline = now + wait }));
  }

  -- What a question leaves to the world.
  abbrev pub question :
      World M W R → (index generation : ℕ) → M → (id address now wait : ℕ) → World M W R
  question w index generation message id address now wait =
      mail_to (target R w.registry w.registry index generation)
        (record w { ask_system = asked w id address now wait })
        (record { message = message; sender = some (reply id) })

  ask_lem :
      (w : World M W R) (index generation : ℕ) (message : M) (id address now wait : ℕ)
      → w.ask_system.is_stopped ≡ false
      → ask w index generation message id address now wait
        ≡ some (question w index generation message id address now wait)
  unfolding ask ask_registered register post
  ask_lem w index generation message id address now wait live = rw live refl

  -- A question to a live actor adds to the calls of `enqueue_only` one mail for that actor's runner,
  -- with a reference to the new awaiter as its sender, and touches no other runner. What is sent to
  -- that reference first is the answer that a poll gives, if its type is the one asked for, and a
  -- mismatch if not; no later answer and no sweep changes the answer.
  pub ask_answered :
      {T : Type 0} (will_wake : W → W → Bool) (downcast : M → Option T) (w : World M W R)
      (index generation : ℕ) (runner : R) (message answer answer' : M)
      (id address now wait later : ℕ) (sender : Option ActorRef) (context : W)
      → w.ask_system.is_stopped ≡ false
      → target R w.registry w.registry index generation ≡ some runner
      → let w₁ = question w index generation message id address now wait in
        let w₂ = post w₁ (reply id) answer sender in
        let state : AskAwaiterState M W = answer_held answer in
        (ask w index generation message id address now wait ≡ some w₁)
        × (w₁.enqueued
            ≡ w.enqueued ++ ((runner, record { message = message; sender = some (reply id) }) ∷ []))
        × (lookup id w₂.ask_system.awaiters ≡ some state)
        × (lookup id (post w₂ (reply id) answer' sender).ask_system.awaiters ≡ some state)
        × (lookup id (sweep M W w₂.ask_system later).awaiters ≡ some state)
        × ((poll will_wake downcast state context).1
            ≡ downcasted will_wake downcast (downcast answer))
  unfolding post
  ask_answered will_wake downcast w index generation runner message answer answer' id address now
        wait later sender context live found =
      let s = asked w id address now wait in
      let (first, again, sweeps) =
        answer_kept s id answer answer' later live (inserted id new w.ask_system.awaiters) in
      (
        ask_lem w index generation message id address now wait live,
        rw found refl,
        rw found first,
        rw found again,
        rw found sweeps,
        poll-answer_held will_wake downcast answer context,
      )
