-- ===== src/Core/Dispatcher.antt =====
-- dignus-actor-core/src/dispatcher/actor_dispatcher.rs and signal.rs: one worker thread and any
-- number of threads that schedule, interleaved at each access to shared memory. Threads that stand
-- at the same point of `schedule` or `dispose` are alike, so they are counted.
pub mod Wakeup
pub mod Signal
mod Tests
use dignus_actor_server_rust.Common.{ℕ, suc, ◌+◌, ◌≡◌, ◌≢◌, Bool, true, false, List, [], ◌∷◌, ◌++◌}

-- Where the worker stands in `process_scheduled_actors`.
pub data Worker : Type 0 where
  waiting : Worker  -- in `signal.wait`
  woken : Worker  -- before the test of `is_stopped` behind it
  resetting : Worker  -- before `signal_pending` is set to 0
  draining : Worker  -- before the queue is locked
  executing : Worker  -- in the loop over the batch
  ran_one : Worker  -- before the test of `is_stopped` in that loop
  checking : Worker  -- before the last test of `is_stopped`
  exited : Worker

-- `history` and `executed` are for the statements: what was pushed, and what was run, in order.
pub record Dispatcher (A : Type 0) : Type 0 where
  pub scheduled_actors : List A
  pub batch : List A
  pub signaled : Bool
  pub signal_pending : Bool
  pub is_stopped : Bool
  pub worker : Worker
  pub admitted : ℕ  -- threads in `schedule` that saw `is_stopped` false
  pub pushed : ℕ  -- threads before the compare-exchange of `signal_pending`
  pub releasing : ℕ  -- threads that won it, before `signal.release`
  pub disposing : ℕ  -- threads in `dispose` before `signal.release`
  pub history : List A
  pub executed : List A

unfoldable pub new : (A : Type 0) → Dispatcher A
new A = record {
  scheduled_actors = [];
  batch = [];
  signaled = false;
  signal_pending = false;
  is_stopped = false;
  worker = waiting;
  admitted = 0;
  pushed = 0;
  releasing = 0;
  disposing = 0;
  history = [];
  executed = [];
}

-- One access of one thread.
pub data Step {A : Type 0} (d : Dispatcher A) : Dispatcher A → Type 0 where
  -- `schedule`
  admit : d.is_stopped ≡ false → Step d (record d { admitted = d.admitted + 1 })
  refuse : d.is_stopped ≡ true → Step d d
  push :
      (a : A) {n : ℕ}
      → d.admitted ≡ n + 1
      → Step d (record d {
        admitted = n;
        scheduled_actors = d.scheduled_actors ++ (a ∷ []);
        history = d.history ++ (a ∷ []);
        pushed = d.pushed + 1;
      })
  win :
      {n : ℕ}
      → d.pushed ≡ n + 1
      → d.signal_pending ≡ false
      → Step d (record d { pushed = n; signal_pending = true; releasing = d.releasing + 1 })
  lose : {n : ℕ} → d.pushed ≡ n + 1 → d.signal_pending ≡ true → Step d (record d { pushed = n })
  release : {n : ℕ} → d.releasing ≡ n + 1 → Step d (record d { releasing = n; signaled = true })
  -- `dispose`
  stop : Step d (record d { is_stopped = true; disposing = d.disposing + 1 })
  release_stop :
      {n : ℕ} → d.disposing ≡ n + 1 → Step d (record d { disposing = n; signaled = true })
  -- the worker
  wake :
      d.worker ≡ waiting
      → d.signaled ≡ true
      → Step d (record d { worker = woken; signaled = false })
  woken_stopped : d.worker ≡ woken → d.is_stopped ≡ true → Step d (record d { worker = exited })
  woken_live : d.worker ≡ woken → d.is_stopped ≡ false → Step d (record d { worker = resetting })
  reset : d.worker ≡ resetting → Step d (record d { worker = draining; signal_pending = false })
  drain_empty :
      d.worker ≡ draining → d.scheduled_actors ≡ [] → Step d (record d { worker = checking })
  drain_batch :
      d.worker ≡ draining
      → d.scheduled_actors ≢ []
      → Step d (record d { worker = executing; batch = d.scheduled_actors; scheduled_actors = [] })
  execute :
      {a : A} {rest : List A}
      → d.worker ≡ executing
      → d.batch ≡ a ∷ rest
      → Step d (record d { worker = ran_one; batch = rest; executed = d.executed ++ (a ∷ []) })
  batch_done : d.worker ≡ executing → d.batch ≡ [] → Step d (record d { worker = draining })
  ran_stopped :
      d.worker ≡ ran_one → d.is_stopped ≡ true → Step d (record d { worker = checking; batch = [] })
  ran_live : d.worker ≡ ran_one → d.is_stopped ≡ false → Step d (record d { worker = executing })
  checked_stopped :
      d.worker ≡ checking → d.is_stopped ≡ true → Step d (record d { worker = exited })
  checked_live : d.worker ≡ checking → d.is_stopped ≡ false → Step d (record d { worker = waiting })

pub data Reach {A : Type 0} : Dispatcher A → Type 0 where
  start : Reach (new A)
  later : {d e : Dispatcher A} → Reach d → Step d e → Reach e
