-- ===== src/Core/Await.antt =====
-- dignus-actor-core/src/actor_await.rs, with the waker of internals/actor_runner.rs: a receive that
-- awaits `ActorAwait::join` goes on on the dispatcher that it joins. A dispatcher is the number of
-- its `Arc`, and `current` is the one whose thread runs the code, if there is one.
pub mod Joining
mod Tests
use dignus_actor_server_rust.Common.{
  ℕ, Bool, true, false, Option, none, some, List, [], ◌∷◌, cons?, ◌==◌, if◌then◌else◌, not,
}
use dignus_actor_server_rust.Core.PollDriver.{
  PollDriver, FuturePoll, still, finished, try_mark_poll_scheduled,
}

pub record ActorAwaiter : Type 0 where
  pub dispatcher : ℕ
  pub is_scheduled : Bool

unfoldable pub new : ℕ → ActorAwaiter
new dispatcher = record { dispatcher = dispatcher; is_scheduled = false }

-- The test on the thread's dispatcher.
abbrev pub is_current : Option ℕ → ℕ → Bool
is_current none dispatcher = false
is_current (some current) dispatcher = current == dispatcher

-- `continuation` is the waker whose `wake` is passed to `enqueue_continuation` of the awaiter's
-- dispatcher.
pub record AwaiterPoll (W : Type 0) : Type 0 where
  pub awaiter : ActorAwaiter
  pub is_ready : Bool
  pub continuation : Option W

module _ {W : Type 0} where
  unfoldable pub poll : Option ℕ → W → ActorAwaiter → AwaiterPoll W
  poll current waker a =
      if is_current current a.dispatcher
      then record { awaiter = a; is_ready = true; continuation = none }
      else if not a.is_scheduled
      then record {
        awaiter = record a { is_scheduled = true };
        is_ready = false;
        continuation = some waker;
      }
      else record { awaiter = a; is_ready = false; continuation = none }

  -- An awaiter that is polled again and again: what the polls say, and what was enqueued.
  unfoldable pub polls : List (Option ℕ × W) → ActorAwaiter → List Bool × List W
  unfolding poll
  polls [] a = ([], [])
  polls ((current, waker) ∷ ps) a =
      let p = poll current waker a in
      let (results, enqueued) = polls ps p.awaiter in
      (p.is_ready ∷ results, cons? p.continuation enqueued)

-- `create_waker`: the dispatcher that the waker keeps.
unfoldable pub create_waker : Option ℕ → ℕ → ℕ
create_waker none own = own
create_waker (some current) own = current

module _ {F C : Type 0} where
  -- Where a wake schedules the runner, if it does, and the driver.
  unfoldable pub wake_by_ref : Option ℕ → ℕ → PollDriver F C → Option ℕ × PollDriver F C
  unfolding create_waker
  wake_by_ref current kept d =
      let dispatcher = create_waker current kept in
      let (marked, d') = try_mark_poll_scheduled F C d in
      if marked then (some dispatcher, d') else (none, d')

-- A receive that does nothing but join, and the continuations that its polls have enqueued on the
-- dispatcher that it joins, the last one first: each is the waker of its poll, by the dispatcher that
-- this keeps.
pub record Join : Type 0 where
  pub awaiter : ActorAwaiter
  pub enqueued : List ℕ

unfoldable pub join : ℕ → Join
unfolding new
join dispatcher = record { awaiter = new dispatcher; enqueued = [] }

-- As the future of a `PollDriver`, polled on `current` with the waker that keeps `kept`.
unfoldable pub join_future : Option ℕ → ℕ → Join → FuturePoll Join × Bool
unfolding poll
join_future current kept j =
    let p = poll current kept j.awaiter in
    (
      if p.is_ready
          then finished
          else still (record { awaiter = p.awaiter; enqueued = cons? p.continuation j.enqueued }),
      false,
    )

module _ {C : Type 0} where
  -- What the polls of the future in a slot have enqueued.
  abbrev pub enqueued_in : Option (Join × Option C) → List ℕ
  enqueued_in none = []
  enqueued_in (some (j, on_complete)) = j.enqueued

  -- The thread of `d` runs the continuation that was enqueued there, if there is one: `waker.wake()`.
  unfoldable pub continue_on_dispatcher :
      ℕ → List ℕ → PollDriver Join C → Option ℕ × PollDriver Join C
  unfolding wake_by_ref
  continue_on_dispatcher d [] x = (none, x)
  continue_on_dispatcher d (kept ∷ others) x = wake_by_ref (some d) kept x
