-- ===== src/Core/PollDriver.antt =====
-- dignus-actor-core/src/poll_driver.rs: the future of a receive that is pending, and who polls it
-- next. `F` is the type of futures and `C` of completion callbacks. A method runs whole, but a future
-- may wake its waker while it is polled, and the driver then marks itself as scheduled.
pub mod Completion
mod Tests
use dignus_actor_server_rust.Common.{
  ℕ, Bool, true, false, ◌&&◌, not, Option, none, some, if◌then◌else◌,
}

pub data PollOutcome : Type 0 where
  ready pending failed idle : PollOutcome

-- What polling a future does: it is still pending, it is done, or it panics.
pub data FuturePoll (F : Type 0) : Type 0 where
  still : F → FuturePoll F
  finished unwound : FuturePoll F

module _ (F C : Type 0) where
  pub record PollDriver : Type 0 where
    pub is_active : Bool
    pub is_poll_scheduled : Bool
    pub slot : Option (F × Option C)

  unfoldable pub new : PollDriver
  new = record { is_active = false; is_poll_scheduled = false; slot = none }

  unfoldable pub arm : PollDriver → F → Option C → PollDriver
  arm d future on_complete = record {
    is_active = true;
    is_poll_scheduled = false;
    slot = some (future, on_complete);
  }

  unfoldable pub clear : PollDriver → PollDriver
  clear d = record { is_active = false; is_poll_scheduled = false; slot = none }

  -- Whether the caller has to schedule the runner, and the driver.
  unfoldable pub try_mark_poll_scheduled : PollDriver → Bool × PollDriver
  try_mark_poll_scheduled d =
      if not d.is_active
      then (false, d)
      else if d.is_poll_scheduled
      then (false, d)
      else (true, record d { is_poll_scheduled = true })

  -- What a poll gives: the outcome, the callback that is called at its end, and whether a wake in the
  -- middle of it scheduled the runner.
  pub record Poll : Type 0 where
    pub driver : PollDriver
    pub outcome : PollOutcome
    pub callback : Option C
    pub scheduled : Bool

  -- The future was polled; `d` is the driver behind a wake, if there was one.
  unfoldable pub after_poll : PollDriver → Option C → Bool → FuturePoll F → Poll
  after_poll d on_complete scheduled (still future) = record {
    driver = record d { slot = some (future, on_complete) };
    outcome = pending;
    callback = none;
    scheduled = scheduled;
  }
  after_poll d on_complete scheduled finished = record {
    driver = record { is_active = false; is_poll_scheduled = false; slot = none };
    outcome = ready;
    callback = on_complete;
    scheduled = scheduled;
  }
  after_poll d on_complete scheduled unwound = record {
    driver = record { is_active = false; is_poll_scheduled = false; slot = none };
    outcome = failed;
    callback = none;
    scheduled = scheduled;
  }

  -- A wake in the middle of a poll, where the future made one.
  unfoldable pub wake_if : Bool → PollDriver → Bool × PollDriver
  unfolding try_mark_poll_scheduled
  wake_if woke d = if woke then try_mark_poll_scheduled d else (false, d)

  module _ (poll_future : F → FuturePoll F × Bool) where
    unfoldable pub poll_slot : PollDriver → Option (F × Option C) → Poll
    unfolding after_poll wake_if
    poll_slot d none = record {
      driver = record d { is_active = false };
      outcome = idle;
      callback = none;
      scheduled = false;
    }
    poll_slot d (some (future, on_complete)) =
        let (result, woke) = poll_future future in
        let (scheduled, d') = wake_if woke d in after_poll d' on_complete scheduled result

    unfoldable pub poll : PollDriver → Poll
    unfolding poll_slot
    poll d = poll_slot (record d { is_poll_scheduled = false }) d.slot
