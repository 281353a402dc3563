-- ===== src/Core/Wakes/Turns.antt =====
-- One turn, and what wakes add to it.
use dignus_actor_server_rust.Common.{ℕ, ◌+◌, ◌≤◌, ◌≡◌, refl, ◌⊎◌, inr, Bool, true, false, arith}
use dignus_actor_server_rust.Core.Wakes.{
  Wakes, new, Step, give, start, see_active, see_idle, see_idle_late, reset, lock_full, lock_empty,
  poll_pending, poll_ended, deactivate, reset_ended, complete, fail_first, arm, activate,
  reset_armed, wake, wake_lost, mark, mark_late, leave, release, clear, clear_active, clear_reset,
  killed, Reach, begin, later,
}

abbrev pub one : Bool → ℕ
one true = 1
one false = 0

-- Turns on their way to a poll or to the mailbox loop.
abbrev pub coming : Wakes → ℕ
coming r = r.scheduled + r.starting + r.polls + r.locking + r.arming + r.activating

-- Turns that are neither on their way nor in a poll, with the one that rests in a pending future.
abbrev pub resting : Wakes → ℕ
resting r =
    one r.slot + r.looping + r.ended + r.resetting + r.calling + r.clearing + r.cleared + r.killing

pub record Inv (r : Wakes) : Type 0 where
  pub total : coming r + resting r ≤ one r.is_scheduled + r.stray + r.fresh
  pub owed : r.fresh ≤ coming r
  pub empty : (r.slot ≡ true) ⊎ ((r.fresh ≡ 0) × (r.polling ≡ 0))
  pub locked : r.polling ≤ 1

new-Inv : Inv new
unfolding new
new-Inv = record {
  total = omega arith;
  owed = omega arith;
  empty = inr (refl, refl);
  locked = omega arith;
}

Step-Inv : {r t : Wakes} → Step r t → Inv r → Inv t
Step-Inv (give h) v = ground arith
Step-Inv (start h) v = ground arith
Step-Inv (see_active h p) v = ground arith
Step-Inv (see_idle h p q) v = ground arith
Step-Inv (see_idle_late h p q) v = ground arith
Step-Inv (reset h) v = ground arith
Step-Inv (lock_full h p q) v = ground arith
Step-Inv (lock_empty h p) v = ground arith
Step-Inv (poll_pending h) v = ground arith
Step-Inv (poll_ended h) v = ground arith
Step-Inv (deactivate h) v = ground arith
Step-Inv (reset_ended h) v = ground arith
Step-Inv (complete h) v = ground arith
Step-Inv (fail_first h) v = ground arith
Step-Inv (arm h p) v = ground arith
Step-Inv (activate h) v = ground arith
Step-Inv (reset_armed h) v = ground arith
Step-Inv (wake h) v = ground arith
Step-Inv (wake_lost h p) v = ground arith
Step-Inv (mark h p q) v = ground arith
Step-Inv (mark_late h p q) v = ground arith
Step-Inv (leave h) v = ground arith
Step-Inv (release h) v = ground arith
Step-Inv (clear h p) v = ground arith
Step-Inv (clear_active h) v = ground arith
Step-Inv (clear_reset h) v = ground arith
Step-Inv (killed h) v = ground arith

pub Reach-Inv : {r : Wakes} → Reach r → Inv r
Reach-Inv begin = new-Inv
Reach-Inv (later r h) = Step-Inv h (Reach-Inv r)

-- However wakes fall between the steps of any number of threads, the threads that use the actor or
-- its mailbox are at most one, plus one for each turn that missed the poll that it was given out
-- for. So if no poll ends a future while such turns are outstanding, and no wake marks a driver
-- whose future is gone or not yet active, the actor is used by one thread at a time.
pub users_bounded :
    {r : Wakes} → Reach r → r.looping + r.polling + r.clearing + r.cleared + r.killing ≤ 1 + r.stray
users_bounded {r} reached =
    let v = Reach-Inv reached in
    let held : r.polling ≤ one r.slot = ground (arith, v.empty, v.locked) in
    let up : one r.is_scheduled ≤ 1 = ground arith in omega (arith, v.total, v.owed, held, up)
