-- ===== src/Core/Runner.antt =====
-- dignus-actor-core/src/internals/actor_runner.rs: one actor with its mailbox, its lifecycle and the
-- flag `is_scheduled`, under any number of threads that post, kill and execute, interleaved at each
-- atomic access, with the driver of poll_driver.rs: receives that are pending are polled by turns
-- that wakes give out, at any time. Threads at the same point are alike, so they are counted. The ring of
-- the mailbox is taken as the queue that it implements (Core/Queue), for one consumer: where `stray` is
-- not 0 there may be more, and what the mailbox then holds is not said.
pub mod Turn
pub mod Mail
pub mod Kill
mod Tests
use dignus_actor_server_rust.Common.{
  ℕ, suc, ◌+◌, ◌-◌, ◌<◌, ◌≤◌, ◌≡◌, ◌≢◌, Bool, true, false, List, [], ◌∷◌, ◌++◌, length,
}

-- `LIFECYCLE_RUNNING`, `LIFECYCLE_KILLING`, `LIFECYCLE_STOPPED`
pub data Lifecycle : Type 0 where
  running killing stopped : Lifecycle

-- `accepted`, `received` and `finalized` are for the statements: the mails that entered the mailbox,
-- those handed to the actor, and how often `on_finalize` was called; `died` counts the threads that
-- ended by a panic of `on_kill`. `fresh` counts the turns that were given out to poll the future in the
-- slot and have not polled it yet, and `stray` those that missed it: a poll or `clear` ended the future
-- first, or they marked a driver that holds no future, or came where it was not active yet.
pub record ActorRunner (M : Type 0) : Type 0 where
  pub lifecycle : Lifecycle
  pub is_scheduled : Bool
  pub mailbox : List M
  pub capacity : ℕ
  -- threads in `enqueue_only`: past the test of the lifecycle, past the enqueue, before the swap
  pub posting : ℕ
  pub posted : ℕ
  pub swapping : ℕ
  -- threads in `kill`, before the swap
  pub killers : ℕ
  -- threads that call `dispatcher.schedule`, and the actor's places in a dispatcher's queue
  pub scheduling : ℕ
  pub queued : ℕ
  -- threads in `execute`, in the order of its text: before the test of `is_active`, before that of the
  -- lifecycle, in the loop and behind it
  pub starting : ℕ
  pub checking : ℕ
  pub looping : ℕ
  pub holding : List M
  pub handling : ℕ
  pub crashing : ℕ
  pub crash_swapping : ℕ
  pub after : ℕ
  pub finalizing : ℕ
  pub releasing : ℕ
  pub peeking : ℕ
  pub reswapping : ℕ
  -- `PollDriver`; `slot` says whether a future is in the slot
  pub is_active : Bool
  pub is_poll_scheduled : Bool
  pub slot : Bool
  -- threads in `poll`: before the reset of `is_poll_scheduled`, before the lock, and in the future
  pub polls : ℕ
  pub locking : ℕ
  pub polling : ℕ
  -- threads whose poll ended the future: before each store, and before its outcome is acted on
  pub ended : ℕ
  pub resetting : ℕ
  pub calling : ℕ
  -- threads behind a later poll that failed, in `kill` and before its swap
  pub failing : ℕ
  pub fail_swapping : ℕ
  -- threads in `arm`, behind the write of the slot, before each store
  pub arming : ℕ
  pub activating : ℕ
  -- threads in `finalize_kill` behind its swap: in the loop over the mailbox, behind it, in `clear`
  -- before each store, in `on_kill`, and before `on_finalize`
  pub draining : ℕ
  pub emptied : ℕ
  pub clearing : ℕ
  pub cleared : ℕ
  pub hooking : ℕ
  pub finishing : ℕ
  -- threads in `try_mark_poll_scheduled` that saw `is_active` up
  pub waking : ℕ
  pub accepted : List M
  pub received : List M
  pub finalized : ℕ
  pub died : ℕ
  pub fresh : ℕ
  pub stray : ℕ

unfoldable pub new : (M : Type 0) → ℕ → ActorRunner M
new M capacity = record {
  lifecycle = running;
  is_scheduled = false;
  mailbox = [];
  capacity = capacity;
  posting = 0;
  posted = 0;
  swapping = 0;
  killers = 0;
  scheduling = 0;
  queued = 0;
  starting = 0;
  checking = 0;
  looping = 0;
  holding = [];
  handling = 0;
  crashing = 0;
  crash_swapping = 0;
  after = 0;
  finalizing = 0;
  releasing = 0;
  peeking = 0;
  reswapping = 0;
  is_active = false;
  is_poll_scheduled = false;
  slot = false;
  polls = 0;
  locking = 0;
  polling = 0;
  ended = 0;
  resetting = 0;
  calling = 0;
  failing = 0;
  fail_swapping = 0;
  arming = 0;
  activating = 0;
  draining = 0;
  emptied = 0;
  clearing = 0;
  cleared = 0;
  hooking = 0;
  finishing = 0;
  waking = 0;
  accepted = [];
  received = [];
  finalized = 0;
  died = 0;
  fresh = 0;
  stray = 0;
}

pub data Step {M : Type 0} (r : ActorRunner M) : ActorRunner M → Type 0 where
  -- `enqueue_only`, and `schedule_self` where it returned true
  post : r.lifecycle ≡ running → Step r (record r { posting = r.posting + 1 })
  refuse : r.lifecycle ≢ running → Step r r
  enqueue :
      (m : M) {n : ℕ}
      → r.posting ≡ n + 1
      → length r.mailbox < r.capacity
      → Step r (record r {
        posting = n;
        posted = r.posted + 1;
        mailbox = r.mailbox ++ (m ∷ []);
        accepted = r.accepted ++ (m ∷ []);
      })
  enqueue_full :
      {n : ℕ}
      → r.posting ≡ n + 1
      → r.capacity ≤ length r.mailbox
      → Step r (record r { posting = n })
  see_scheduled :
      {n : ℕ} → r.posted ≡ n + 1 → r.is_scheduled ≡ true → Step r (record r { posted = n })
  see_free :
      {n : ℕ}
      → r.posted ≡ n + 1
      → r.is_scheduled ≡ false
      → Step r (record r { posted = n; swapping = r.swapping + 1 })
  swap_lost :
      {n : ℕ} → r.swapping ≡ n + 1 → r.is_scheduled ≡ true → Step r (record r { swapping = n })
  swap_won :
      {n : ℕ}
      → r.swapping ≡ n + 1
      → r.is_scheduled ≡ false
      → Step r (record r { swapping = n; is_scheduled = true; scheduling = r.scheduling + 1 })
  -- `kill`
  kill : r.lifecycle ≡ running → Step r (record r { lifecycle = killing; killers = r.killers + 1 })
  kill_late : r.lifecycle ≢ running → Step r r
  kill_lost :
      {n : ℕ} → r.killers ≡ n + 1 → r.is_scheduled ≡ true → Step r (record r { killers = n })
  kill_won :
      {n : ℕ}
      → r.killers ≡ n + 1
      → r.is_scheduled ≡ false
      → Step r (record r { killers = n; is_scheduled = true; scheduling = r.scheduling + 1 })
  -- the dispatcher
  schedule :
      {n : ℕ} → r.scheduling ≡ n + 1 → Step r (record r { scheduling = n; queued = r.queued + 1 })
  start : {n : ℕ} → r.queued ≡ n + 1 → Step r (record r { queued = n; starting = r.starting + 1 })
  -- `execute_pending_receive`, up to the poll; the future may be in the slot and not active yet
  see_active :
      {n : ℕ}
      → r.starting ≡ n + 1
      → r.is_active ≡ true
      → Step r (record r { starting = n; polls = r.polls + 1 })
  see_idle :
      {n : ℕ}
      → r.starting ≡ n + 1
      → r.is_active ≡ false
      → r.slot ≡ false
      → Step r (record r { starting = n; checking = r.checking + 1 })
  see_idle_late :
      {n : ℕ}
      → r.starting ≡ n + 1
      → r.is_active ≡ false
      → r.slot ≡ true
      → Step r (record r {
        starting = n;
        checking = r.checking + 1;
        fresh = r.fresh - 1;
        stray = r.stray + 1;
      })
  -- `execute`, up to the loop
  start_running :
      {n : ℕ}
      → r.checking ≡ n + 1
      → r.lifecycle ≡ running
      → Step r (record r { checking = n; looping = r.looping + 1 })
  start_killing :
      {n : ℕ}
      → r.checking ≡ n + 1
      → r.lifecycle ≡ killing
      → Step r (record r { checking = n; finalizing = r.finalizing + 1 })
  start_stopped :
      {n : ℕ} → r.checking ≡ n + 1 → r.lifecycle ≡ stopped → Step r (record r { checking = n })
  -- its loop
  dequeue :
      {m : M} {rest : List M} {n : ℕ}
      → r.looping ≡ n + 1
      → r.mailbox ≡ m ∷ rest
      → Step r (record r { looping = n; mailbox = rest; holding = r.holding ++ (m ∷ []) })
  dequeue_none :
      {n : ℕ}
      → r.looping ≡ n + 1
      → r.mailbox ≡ []
      → Step r (record r { looping = n; after = r.after + 1 })
  receive :
      {m : M} {rest : List M}
      → r.holding ≡ m ∷ rest
      → r.lifecycle ≡ running
      → Step r (record r {
        holding = rest;
        handling = r.handling + 1;
        received = r.received ++ (m ∷ []);
      })
  drop_mail :
      {m : M} {rest : List M}
      → r.holding ≡ m ∷ rest
      → r.lifecycle ≢ running
      → Step r (record r { holding = rest; after = r.after + 1 })
  done : {n : ℕ} → r.handling ≡ n + 1 → Step r (record r { handling = n; looping = r.looping + 1 })
  panic :
      {n : ℕ} → r.handling ≡ n + 1 → Step r (record r { handling = n; crashing = r.crashing + 1 })
  crash_late :
      {n : ℕ}
      → r.crashing ≡ n + 1
      → r.lifecycle ≢ running
      → Step r (record r { crashing = n; after = r.after + 1 })
  crash_kill :
      {n : ℕ}
      → r.crashing ≡ n + 1
      → r.lifecycle ≡ running
      → Step r
          (record r { crashing = n; lifecycle = killing; crash_swapping = r.crash_swapping + 1 })
  crash_lost :
      {n : ℕ}
      → r.crash_swapping ≡ n + 1
      → r.is_scheduled ≡ true
      → Step r (record r { crash_swapping = n; after = r.after + 1 })
  crash_won :
      {n : ℕ}
      → r.crash_swapping ≡ n + 1
      → r.is_scheduled ≡ false
      → Step r (record r {
        crash_swapping = n;
        is_scheduled = true;
        after = r.after + 1;
        scheduling = r.scheduling + 1;
      })
  -- a receive that is pending: `arm`
  arm :
      {n : ℕ}
      → r.handling ≡ n + 1
      → r.polling ≡ 0
      → Step r (record r { handling = n; slot = true; arming = r.arming + 1; fresh = r.fresh + 1 })
  activate :
      {n : ℕ}
      → r.arming ≡ n + 1
      → Step r (record r { arming = n; activating = r.activating + 1; is_active = true })
  reset_armed :
      {n : ℕ}
      → r.activating ≡ n + 1
      → Step r (record r { activating = n; polls = r.polls + 1; is_poll_scheduled = false })
  -- `poll`. The first poll of a future, behind `arm`, and the later ones, of `execute_pending_receive`,
  -- are counted together: where they go different ways there is a step for each.
  reset :
      {n : ℕ}
      → r.polls ≡ n + 1
      → Step r (record r { polls = n; locking = r.locking + 1; is_poll_scheduled = false })
  lock_full :
      {n : ℕ}
      → r.locking ≡ n + 1
      → r.polling ≡ 0
      → r.slot ≡ true
      → Step r (record r { locking = n; polling = 1; fresh = r.fresh - 1 })
  lock_empty :
      {n : ℕ}
      → r.locking ≡ n + 1
      → r.slot ≡ false
      → Step r (record r { locking = n; checking = r.checking + 1; is_active = false })
  lock_empty_first :
      {n : ℕ}
      → r.locking ≡ n + 1
      → r.slot ≡ false
      → Step r (record r { locking = n; looping = r.looping + 1; is_active = false })
  poll_pending : {n : ℕ} → r.polling ≡ n + 1 → Step r (record r { polling = n })
  -- the future is done, or it panicked
  poll_ended :
      {n : ℕ}
      → r.polling ≡ n + 1
      → Step r (record r {
        polling = n;
        slot = false;
        ended = r.ended + 1;
        fresh = 0;
        stray = r.stray + r.fresh;
      })
  deactivate :
      {n : ℕ}
      → r.ended ≡ n + 1
      → Step r (record r { ended = n; resetting = r.resetting + 1; is_active = false })
  reset_ended :
      {n : ℕ}
      → r.resetting ≡ n + 1
      → Step r (record r { resetting = n; calling = r.calling + 1; is_poll_scheduled = false })
  -- it was done: the completion callback; or it panicked: in the first poll the loop is left as where
  -- `on_receive` panics, in a later one the actor is killed and scheduled
  complete :
      {n : ℕ} → r.calling ≡ n + 1 → Step r (record r { calling = n; scheduling = r.scheduling + 1 })
  fail_first :
      {n : ℕ} → r.calling ≡ n + 1 → Step r (record r { calling = n; crashing = r.crashing + 1 })
  fail : {n : ℕ} → r.calling ≡ n + 1 → Step r (record r { calling = n; failing = r.failing + 1 })
  fail_late :
      {n : ℕ}
      → r.failing ≡ n + 1
      → r.lifecycle ≢ running
      → Step r (record r { failing = n; scheduling = r.scheduling + 1 })
  fail_kill :
      {n : ℕ}
      → r.failing ≡ n + 1
      → r.lifecycle ≡ running
      → Step r (record r { failing = n; lifecycle = killing; fail_swapping = r.fail_swapping + 1 })
  fail_lost :
      {n : ℕ}
      → r.fail_swapping ≡ n + 1
      → r.is_scheduled ≡ true
      → Step r (record r { fail_swapping = n; scheduling = r.scheduling + 1 })
  fail_won :
      {n : ℕ}
      → r.fail_swapping ≡ n + 1
      → r.is_scheduled ≡ false
      → Step r (record r { fail_swapping = n; is_scheduled = true; scheduling = r.scheduling + 2 })
  -- `wake_by_ref`
  wake : r.is_active ≡ true → Step r (record r { waking = r.waking + 1 })
  wake_lost :
      {n : ℕ} → r.waking ≡ n + 1 → r.is_poll_scheduled ≡ true → Step r (record r { waking = n })
  mark :
      {n : ℕ}
      → r.waking ≡ n + 1
      → r.is_poll_scheduled ≡ false
      → r.slot ≡ true
      → Step r (record r {
        waking = n;
        is_poll_scheduled = true;
        scheduling = r.scheduling + 1;
        fresh = r.fresh + 1;
      })
  mark_late :
      {n : ℕ}
      → r.waking ≡ n + 1
      → r.is_poll_scheduled ≡ false
      → r.slot ≡ false
      → Step r (record r {
        waking = n;
        is_poll_scheduled = true;
        scheduling = r.scheduling + 1;
        stray = r.stray + 1;
      })
  -- the end of `execute`
  after_killing :
      {n : ℕ}
      → r.after ≡ n + 1
      → r.lifecycle ≡ killing
      → Step r (record r { after = n; finalizing = r.finalizing + 1 })
  after_live :
      {n : ℕ}
      → r.after ≡ n + 1
      → r.lifecycle ≢ killing
      → Step r (record r { after = n; releasing = r.releasing + 1 })
  release :
      {n : ℕ}
      → r.releasing ≡ n + 1
      → Step r (record r { releasing = n; is_scheduled = false; peeking = r.peeking + 1 })
  peek_none : {n : ℕ} → r.peeking ≡ n + 1 → r.mailbox ≡ [] → Step r (record r { peeking = n })
  peek_some :
      {n : ℕ}
      → r.peeking ≡ n + 1
      → r.mailbox ≢ []
      → Step r (record r { peeking = n; reswapping = r.reswapping + 1 })
  reswap_lost :
      {n : ℕ} → r.reswapping ≡ n + 1 → r.is_scheduled ≡ true → Step r (record r { reswapping = n })
  reswap_won :
      {n : ℕ}
      → r.reswapping ≡ n + 1
      → r.is_scheduled ≡ false
      → Step r (record r { reswapping = n; is_scheduled = true; scheduling = r.scheduling + 1 })
  -- `finalize_kill`
  finalize :
      {n : ℕ}
      → r.finalizing ≡ n + 1
      → r.lifecycle ≢ stopped
      → Step r (record r { finalizing = n; lifecycle = stopped; draining = r.draining + 1 })
  finalize_again :
      {n : ℕ} → r.finalizing ≡ n + 1 → r.lifecycle ≡ stopped → Step r (record r { finalizing = n })
  drain :
      {m : M} {rest : List M}
      → 0 < r.draining
      → r.mailbox ≡ m ∷ rest
      → Step r (record r { mailbox = rest })
  drain_none :
      {n : ℕ}
      → r.draining ≡ n + 1
      → r.mailbox ≡ []
      → Step r (record r { draining = n; emptied = r.emptied + 1 })
  clear :
      {n : ℕ}
      → r.emptied ≡ n + 1
      → r.polling ≡ 0
      → Step r (record r {
        emptied = n;
        slot = false;
        clearing = r.clearing + 1;
        fresh = 0;
        stray = r.stray + r.fresh;
      })
  clear_active :
      {n : ℕ}
      → r.clearing ≡ n + 1
      → Step r (record r { clearing = n; cleared = r.cleared + 1; is_active = false })
  clear_reset :
      {n : ℕ}
      → r.cleared ≡ n + 1
      → Step r (record r { cleared = n; hooking = r.hooking + 1; is_poll_scheduled = false })
  on_kill :
      {n : ℕ} → r.hooking ≡ n + 1 → Step r (record r { hooking = n; finishing = r.finishing + 1 })
  on_kill_panic : {n : ℕ} → r.hooking ≡ n + 1 → Step r (record r { hooking = n; died = r.died + 1 })
  on_finalize :
      {n : ℕ}
      → r.finishing ≡ n + 1
      → Step r (record r { finishing = n; finalized = r.finalized + 1 })

pub data Reach {M : Type 0} (s : ActorRunner M) : ActorRunner M → Type 0 where
  here : Reach s s
  later : {r t : ActorRunner M} → Reach s r → Step r t → Reach s t
