-- ===== src/Core/Runner/Tests.antt =====
-- An actor that receives one mail, and then goes idle, or loses a kill.
use dignus_actor_server_rust.Common.{
  ℕ, ◌≤◌, ◌≡◌, ◌≢◌, refl, ◌⊎◌, true, false, [], ◌∷◌, ◌++◌, length, arith,
}
use dignus_actor_server_rust.Core.Runner.{
  running, killing, stopped, ActorRunner, new, post, enqueue, see_free, swap_won, kill, kill_late,
  kill_lost, schedule, start, start_running, dequeue, dequeue_none, receive, done, after_live,
  after_killing, release, peek_none, finalize, see_idle, drain_none, clear, clear_active,
  clear_reset, on_kill, on_finalize, Reach, here, later, arm, activate, reset_armed, reset,
  lock_full, poll_pending, poll_ended, deactivate, reset_ended, complete, wake, mark, see_active,
}
use dignus_actor_server_rust.Core.Runner.Mail.{mails_in_order, idle_means_done}
use dignus_actor_server_rust.Core.Runner.Kill.{
  finalized_once, finalizers, Stuck, lost_kill_is_final,
}

abbrev blank : ActorRunner ℕ
blank = record {
  lifecycle = running;
  is_scheduled = false;
  mailbox = [];
  capacity = 2;
  posting = 0;
  posted = 0;
  swapping = 0;
  killers = 0;
  scheduling = 0;
  queued = 0;
  starting = 0;
  checking = 0;
  looping = 0;
  holding = [];
  handling = 0;
  crashing = 0;
  crash_swapping = 0;
  after = 0;
  finalizing = 0;
  releasing = 0;
  peeking = 0;
  reswapping = 0;
  is_active = false;
  is_poll_scheduled = false;
  slot = false;
  polls = 0;
  locking = 0;
  polling = 0;
  ended = 0;
  resetting = 0;
  calling = 0;
  failing = 0;
  fail_swapping = 0;
  arming = 0;
  activating = 0;
  draining = 0;
  emptied = 0;
  clearing = 0;
  cleared = 0;
  hooking = 0;
  finishing = 0;
  waking = 0;
  accepted = [];
  received = [];
  finalized = 0;
  died = 0;
  fresh = 0;
  stray = 0;
}

-- In its handler, with the mail 5.
abbrev busy : ActorRunner ℕ
busy = record blank { is_scheduled = true; handling = 1; accepted = 5 ∷ []; received = 5 ∷ [] }

abbrev idle : ActorRunner ℕ
idle = record busy { is_scheduled = false; handling = 0 }

abbrev ended : ActorRunner ℕ
ended = record idle { lifecycle = stopped; is_scheduled = true; finalized = 1 }

-- Killed between the last test of the lifecycle and the store of `is_scheduled`.
abbrev stuck : ActorRunner ℕ
stuck = record idle { lifecycle = killing }

-- Before that store.
abbrev releasing_turn : ActorRunner ℕ
releasing_turn = record busy { handling = 0; releasing = 1 }

busy_reached : Reach (new ℕ 2) busy
unfolding new
busy_reached =
    let posted = later (later here (post refl)) (enqueue 5 refl (omega arith)) in
    let scheduled = later (later posted (see_free refl refl)) (swap_won refl refl) in
    let started =
      later (later (later scheduled (schedule refl)) (start refl)) (see_idle refl refl refl) in
    let checked = later started (start_running refl refl) in
    later (later checked (dequeue refl refl)) (receive refl refl)

releasing_reached : Reach (new ℕ 2) releasing_turn
releasing_reached =
    later (later (later busy_reached (done refl)) (dequeue_none refl refl))
      (after_live refl (λ e. cc))

idle_reached : Reach (new ℕ 2) idle
idle_reached = later (later releasing_reached (release refl)) (peek_none refl refl)

-- The same through a receive that is pending first, is woken from outside, and is done by the next poll.
awaited_run : Reach (new ℕ 2) idle
awaited_run =
    let armed =
      later (later (later busy_reached (arm {n = 0} refl refl)) (activate {n = 0} refl))
        (reset_armed {n = 0} refl) in
    let first = later (later armed (reset {n = 0} refl)) (lock_full {n = 0} refl refl refl) in
    let woken =
      later (later (later first (poll_pending {n = 0} refl)) (wake refl))
        (mark {n = 0} refl refl refl) in
    let polls =
      later (later (later woken (schedule {n = 0} refl)) (start {n = 0} refl))
        (see_active {n = 0} refl refl) in
    let done =
      later (later (later polls (reset {n = 0} refl)) (lock_full {n = 0} refl refl refl))
        (poll_ended {n = 0} refl) in
    let called =
      later (later (later done (deactivate {n = 0} refl)) (reset_ended {n = 0} refl))
        (complete {n = 0} refl) in
    let back =
      later (later (later called (schedule {n = 0} refl)) (start {n = 0} refl))
        (see_idle {n = 0} refl refl refl) in
    let emptied =
      later (later back (start_running {n = 0} refl refl)) (dequeue_none {n = 0} refl refl) in
    later (later (later emptied (after_live {n = 0} refl (λ e. cc))) (release {n = 0} refl))
      (peek_none {n = 0} refl refl)

ended_reached : Reach (new ℕ 2) ended
ended_reached =
    let killed = later (later busy_reached (kill refl)) (kill_lost refl refl) in
    let emptied = later (later killed (done refl)) (dequeue_none refl refl) in
    let drained =
      later (later (later emptied (after_killing refl refl)) (finalize refl (λ e. cc)))
        (drain_none refl refl) in
    let empty =
      later (later (later drained (clear refl refl)) (clear_active refl)) (clear_reset refl) in
    later (later empty (on_kill refl)) (on_finalize refl)

-- The kill is lost by a run of the code.
stuck_reached : Reach (new ℕ 2) stuck
stuck_reached =
    let killed = later (later releasing_reached (kill refl)) (kill_lost refl refl) in
    later (later killed (release refl)) (peek_none refl refl)

stuck-Stuck : Stuck stuck
stuck-Stuck = record {
  dying = refl;
  idle = refl;
  no_thread = refl;
  inactive = refl;
  unpolled = refl;
}

mails_in_order_example :
    (busy.received ++ (busy.holding ++ busy.mailbox) ≡ busy.accepted) × (length busy.holding ≤ 1)
mails_in_order_example = mails_in_order 2 busy busy_reached refl refl

idle_means_done_example :
    (idle.mailbox ≡ []) × ((idle.is_scheduled ≡ false) × (idle.received ≡ idle.accepted))
idle_means_done_example = idle_means_done 2 idle awaited_run refl refl refl

finalized_once_example :
    ((ended.lifecycle ≡ stopped) × (finalizers ended ≡ 1))
    ⊎ ((ended.lifecycle ≢ stopped) × (finalizers ended ≡ 0))
finalized_once_example = finalized_once 2 ended ended_reached

lost_kill_is_final_example : (stuck.lifecycle ≡ killing) × (stuck.finalized ≡ stuck.finalized)
lost_kill_is_final_example =
    lost_kill_is_final stuck stuck stuck-Stuck (later here (kill_late (λ e. cc)))
