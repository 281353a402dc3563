-- ===== src/Core/Wakes.antt =====
-- dignus-actor-core/src/internals/actor_runner.rs and poll_driver.rs together: the turns of one actor
-- while its receives are pending and wakes come at any time from any thread, interleaved at each
-- access to shared memory. Threads at the same point are alike, so they are counted. What a turn
-- does in the mailbox loop is Core/Runner; here the loop goes on, arms the driver, or gives the turn
-- back, in any order.
pub mod Turns
pub mod Heard
mod Tests
use dignus_actor_server_rust.Common.{ℕ, ◌+◌, ◌-◌, ◌≡◌, Bool, true, false}

-- `fresh` and `stray` are for the statements. `fresh` counts the turns that were given out to poll the
-- future in the slot and have not polled it yet. `stray` counts those that missed it: a poll ended
-- the future first, or they marked a driver that holds no future, or they came to the driver where
-- the future was not active.
pub record Wakes : Type 0 where
  -- `ActorRunner`: the flag that `enqueue_only`, `kill` and the end of `execute` swap
  pub is_scheduled : Bool
  -- `PollDriver`; `slot` says whether a future is in the slot
  pub is_active : Bool
  pub is_poll_scheduled : Bool
  pub slot : Bool
  -- threads in `dispatcher.schedule` and places in a dispatcher's queue
  pub scheduled : ℕ
  -- threads in `execute`, before the test of `is_active`
  pub starting : ℕ
  -- threads in `poll`, before `is_poll_scheduled` is reset, and behind it before the slot's lock
  pub polls : ℕ
  pub locking : ℕ
  -- threads that hold the lock and poll the future
  pub polling : ℕ
  -- threads whose poll ended the future, before each store and before the callback
  pub ended : ℕ
  pub resetting : ℕ
  pub calling : ℕ
  -- threads in the mailbox loop of `execute`, or on their way to its end
  pub looping : ℕ
  -- threads in `arm`, behind the write of the slot, before each store
  pub arming : ℕ
  pub activating : ℕ
  -- threads in `clear`, behind the write of the slot, before each store
  pub clearing : ℕ
  pub cleared : ℕ
  -- threads behind `clear`, in `on_kill` and `on_finalize`
  pub killing : ℕ
  -- threads in `try_mark_poll_scheduled` that saw `is_active` up
  pub waking : ℕ
  pub fresh : ℕ
  pub stray : ℕ

unfoldable pub new : Wakes
new = record {
  is_scheduled = false;
  is_active = false;
  is_poll_scheduled = false;
  slot = false;
  scheduled = 0;
  starting = 0;
  polls = 0;
  locking = 0;
  polling = 0;
  ended = 0;
  resetting = 0;
  calling = 0;
  looping = 0;
  arming = 0;
  activating = 0;
  clearing = 0;
  cleared = 0;
  killing = 0;
  waking = 0;
  fresh = 0;
  stray = 0;
}

pub data Step (r : Wakes) : Wakes → Type 0 where
  -- a swap that found `is_scheduled` down: of a post, of a kill, or of the end of `execute`
  give :
      r.is_scheduled ≡ false
      → Step r (record r { is_scheduled = true; scheduled = r.scheduled + 1 })
  start :
      {n : ℕ} → r.scheduled ≡ n + 1 → Step r (record r { scheduled = n; starting = r.starting + 1 })
  -- `execute_pending_receive`
  see_active :
      {n : ℕ}
      → r.starting ≡ n + 1
      → r.is_active ≡ true
      → Step r (record r { starting = n; polls = r.polls + 1 })
  see_idle :
      {n : ℕ}
      → r.starting ≡ n + 1
      → r.is_active ≡ false
      → r.slot ≡ false
      → Step r (record r { starting = n; looping = r.looping + 1 })
  see_idle_late :
      {n : ℕ}
      → r.starting ≡ n + 1
      → r.is_active ≡ false
      → r.slot ≡ true
      → Step r (record r {
        starting = n;
        looping = r.looping + 1;
        fresh = r.fresh - 1;
        stray = r.stray + 1;
      })
  -- `poll`
  reset :
      {n : ℕ}
      → r.polls ≡ n + 1
      → Step r (record r { polls = n; locking = r.locking + 1; is_poll_scheduled = false })
  lock_full :
      {n : ℕ}
      → r.locking ≡ n + 1
      → r.polling ≡ 0
      → r.slot ≡ true
      → Step r (record r { locking = n; polling = 1; fresh = r.fresh - 1 })
  lock_empty :
      {n : ℕ}
      → r.locking ≡ n + 1
      → r.slot ≡ false
      → Step r (record r { locking = n; looping = r.looping + 1; is_active = false })
  poll_pending : {n : ℕ} → r.polling ≡ n + 1 → Step r (record r { polling = n })
  -- the future is done, or it panicked
  poll_ended :
      {n : ℕ}
      → r.polling ≡ n + 1
      → Step r (record r {
        polling = n;
        slot = false;
        ended = r.ended + 1;
        fresh = 0;
        stray = r.stray + r.fresh;
      })
  deactivate :
      {n : ℕ}
      → r.ended ≡ n + 1
      → Step r (record r { ended = n; resetting = r.resetting + 1; is_active = false })
  reset_ended :
      {n : ℕ}
      → r.resetting ≡ n + 1
      → Step r (record r { resetting = n; calling = r.calling + 1; is_poll_scheduled = false })
  -- the completion callback; `schedule` where a later poll failed; and where the first one failed,
  -- the loop is left
  complete :
      {n : ℕ} → r.calling ≡ n + 1 → Step r (record r { calling = n; scheduled = r.scheduled + 1 })
  fail_first :
      {n : ℕ} → r.calling ≡ n + 1 → Step r (record r { calling = n; looping = r.looping + 1 })
  -- `arm` and the first poll
  arm :
      {n : ℕ}
      → r.looping ≡ n + 1
      → r.polling ≡ 0
      → Step r (record r { looping = n; slot = true; arming = r.arming + 1; fresh = r.fresh + 1 })
  activate :
      {n : ℕ}
      → r.arming ≡ n + 1
      → Step r (record r { arming = n; activating = r.activating + 1; is_active = true })
  reset_armed :
      {n : ℕ}
      → r.activating ≡ n + 1
      → Step r (record r { activating = n; polls = r.polls + 1; is_poll_scheduled = false })
  -- `wake_by_ref`
  wake : r.is_active ≡ true → Step r (record r { waking = r.waking + 1 })
  wake_lost :
      {n : ℕ} → r.waking ≡ n + 1 → r.is_poll_scheduled ≡ true → Step r (record r { waking = n })
  mark :
      {n : ℕ}
      → r.waking ≡ n + 1
      → r.is_poll_scheduled ≡ false
      → r.slot ≡ true
      → Step r (record r {
        waking = n;
        is_poll_scheduled = true;
        scheduled = r.scheduled + 1;
        fresh = r.fresh + 1;
      })
  mark_late :
      {n : ℕ}
      → r.waking ≡ n + 1
      → r.is_poll_scheduled ≡ false
      → r.slot ≡ false
      → Step r (record r {
        waking = n;
        is_poll_scheduled = true;
        scheduled = r.scheduled + 1;
        stray = r.stray + 1;
      })
  -- the end of `execute`, or its early return where the actor is stopped
  leave : {n : ℕ} → r.looping ≡ n + 1 → Step r (record r { looping = n })
  release : {n : ℕ} → r.looping ≡ n + 1 → Step r (record r { looping = n; is_scheduled = false })
  -- `finalize_kill`, with `clear`
  clear :
      {n : ℕ}
      → r.looping ≡ n + 1
      → r.polling ≡ 0
      → Step r (record r {
        looping = n;
        slot = false;
        clearing = r.clearing + 1;
        fresh = 0;
        stray = r.stray + r.fresh;
      })
  clear_active :
      {n : ℕ}
      → r.clearing ≡ n + 1
      → Step r (record r { clearing = n; cleared = r.cleared + 1; is_active = false })
  clear_reset :
      {n : ℕ}
      → r.cleared ≡ n + 1
      → Step r (record r { cleared = n; killing = r.killing + 1; is_poll_scheduled = false })
  killed : {n : ℕ} → r.killing ≡ n + 1 → Step r (record r { killing = n })

pub data Reach : Wakes → Type 0 where
  begin : Reach new
  later : {r t : Wakes} → Reach r → Step r t → Reach t
