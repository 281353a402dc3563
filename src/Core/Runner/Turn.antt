-- ===== src/Core/Runner/Turn.antt =====
-- One turn, and those gone astray: how many threads use the actor at a time.
use dignus_actor_server_rust.Common.{
  Bool, ℕ, ◌+◌, ◌≤◌, ◌<◌, ◌≡◌, refl, ◌⊎◌, inl, inr, true, false, [], ◌∷◌, length, arith,
  length-append, ap,
}
use dignus_actor_server_rust.Core.Runner.{
  stopped, ActorRunner, new, Step, post, refuse, enqueue, enqueue_full, see_scheduled, see_free,
  swap_lost, swap_won, kill, kill_late, kill_lost, kill_won, schedule, start, see_active, see_idle,
  see_idle_late, start_running, start_killing, start_stopped, dequeue, dequeue_none, receive,
  drop_mail, done, panic, crash_late, crash_kill, crash_lost, crash_won, arm, activate, reset_armed,
  reset, lock_full, lock_empty, lock_empty_first, poll_pending, poll_ended, deactivate, reset_ended,
  complete, fail_first, fail, fail_late, fail_kill, fail_lost, fail_won, wake, wake_lost, mark,
  mark_late, after_killing, after_live, release, peek_none, peek_some, reswap_lost, reswap_won,
  finalize, finalize_again, drain, drain_none, clear, clear_active, clear_reset, on_kill,
  on_kill_panic, on_finalize, Reach, here, later,
}

abbrev pub one : Bool → ℕ
one true = 1
one false = 0

-- Turns on their way to a poll or to the test of the lifecycle.
abbrev pub coming : {M : Type 0} → ActorRunner M → ℕ
coming r = r.scheduling + r.queued + r.starting + r.polls + r.locking + r.arming + r.activating

-- The threads that use the actor, its mailbox or its future.
abbrev pub users : {M : Type 0} → ActorRunner M → ℕ
users r =
    r.looping
    + length r.holding
    + r.handling
    + r.polling
    + r.finalizing
    + r.draining
    + r.emptied
    + r.clearing
    + r.cleared
    + r.hooking
    + r.finishing

-- All turns, with the one that rests in a pending future in the place of the thread that polls it.
abbrev pub turns : {M : Type 0} → ActorRunner M → ℕ
turns r =
    coming r
    + one r.slot
    + r.checking
    + r.looping
    + length r.holding
    + r.handling
    + r.crashing
    + r.crash_swapping
    + r.after
    + r.finalizing
    + r.releasing
    + r.ended
    + r.resetting
    + r.calling
    + r.failing
    + r.fail_swapping
    + r.draining
    + r.emptied
    + r.clearing
    + r.cleared
    + r.hooking
    + r.finishing

-- There are no more turns than the flag and the wakes account for, and while the flag is up on a live
-- actor there is one.
pub record Inv {M : Type 0} (r : ActorRunner M) : Type 0 where
  pub total : turns r ≤ one r.is_scheduled + r.stray + r.fresh
  pub owed : r.fresh ≤ coming r
  pub empty : (r.slot ≡ true) ⊎ ((r.fresh ≡ 0) × (r.polling ≡ 0))
  pub locked : r.polling ≤ 1
  pub dead :
      (r.lifecycle ≡ stopped)
      ⊎ (r.draining + r.emptied + r.clearing + r.cleared + r.hooking + r.finishing ≡ 0)
  pub taken : (r.is_scheduled ≡ false) ⊎ ((0 < turns r) ⊎ (r.lifecycle ≡ stopped))

Inv-new : (M : Type 0) (capacity : ℕ) → Inv (new M capacity)
unfolding new
Inv-new M capacity = record {
  total = omega arith;
  owed = omega arith;
  empty = inr (refl, refl);
  locked = omega arith;
  dead = inr refl;
  taken = inl refl;
}

module _ {M : Type 0} where
  Step-Inv : {r t : ActorRunner M} → Step r t → Inv r → Inv t
  Step-Inv (post h) v = ground arith
  Step-Inv (refuse h) v = ground arith
  Step-Inv (enqueue m h p) v = ground arith
  Step-Inv (enqueue_full h p) v = ground arith
  Step-Inv (see_scheduled h p) v = ground arith
  Step-Inv (see_free h p) v = ground arith
  Step-Inv (swap_lost h p) v = ground arith
  Step-Inv (swap_won h p) v = ground arith
  Step-Inv (kill h) v = ground arith
  Step-Inv (kill_late h) v = ground arith
  Step-Inv (kill_lost h p) v = ground arith
  Step-Inv (kill_won h p) v = ground arith
  Step-Inv (schedule h) v = ground arith
  Step-Inv (start h) v = ground arith
  Step-Inv (see_active h p) v = ground arith
  Step-Inv (see_idle h p q) v = ground arith
  Step-Inv (see_idle_late h p q) v = ground arith
  Step-Inv (start_running h p) v = ground arith
  Step-Inv (start_killing h p) v = ground arith
  Step-Inv (start_stopped h p) v = ground arith
  Step-Inv {r} (dequeue {m} h p) v = ground (arith, length-append r.holding (m ∷ []))
  Step-Inv (dequeue_none h p) v = ground arith
  Step-Inv (receive h p) v = ground (arith, ap length h)
  Step-Inv (drop_mail h p) v = ground (arith, ap length h)
  Step-Inv (done h) v = ground arith
  Step-Inv (panic h) v = ground arith
  Step-Inv (crash_late h p) v = ground arith
  Step-Inv (crash_kill h p) v = ground arith
  Step-Inv (crash_lost h p) v = ground arith
  Step-Inv (crash_won h p) v = ground arith
  Step-Inv (arm h p) v = ground arith
  Step-Inv (activate h) v = ground arith
  Step-Inv (reset_armed h) v = ground arith
  Step-Inv (reset h) v = ground arith
  Step-Inv (lock_full h p q) v = ground arith
  Step-Inv (lock_empty h p) v = ground arith
  Step-Inv (lock_empty_first h p) v = ground arith
  Step-Inv (poll_pending h) v = ground arith
  Step-Inv (poll_ended h) v = ground arith
  Step-Inv (deactivate h) v = ground arith
  Step-Inv (reset_ended h) v = ground arith
  Step-Inv (complete h) v = ground arith
  Step-Inv (fail_first h) v = ground arith
  Step-Inv (fail h) v = ground arith
  Step-Inv (fail_late h p) v = ground arith
  Step-Inv (fail_kill h p) v = ground arith
  Step-Inv (fail_lost h p) v = ground arith
  Step-Inv (fail_won h p) v = ground arith
  Step-Inv (wake h) v = ground arith
  Step-Inv (wake_lost h p) v = ground arith
  Step-Inv (mark h p q) v = ground arith
  Step-Inv (mark_late h p q) v = ground arith
  Step-Inv (after_killing h p) v = ground arith
  Step-Inv (after_live h p) v = ground arith
  Step-Inv (release h) v = ground arith
  Step-Inv (peek_none h p) v = ground arith
  Step-Inv (peek_some h p) v = ground arith
  Step-Inv (reswap_lost h p) v = ground arith
  Step-Inv (reswap_won h p) v = ground arith
  Step-Inv (finalize h p) v = ground arith
  Step-Inv (finalize_again h p) v = ground arith
  Step-Inv (drain h p) v = ground arith
  Step-Inv (drain_none h p) v = ground arith
  Step-Inv (clear h p) v = ground arith
  Step-Inv (clear_active h) v = ground arith
  Step-Inv (clear_reset h) v = ground arith
  Step-Inv (on_kill h) v = ground arith
  Step-Inv (on_kill_panic h) v = ground arith
  Step-Inv (on_finalize h) v = ground arith

  pub Reach-Inv : (capacity : ℕ) {r : ActorRunner M} → Reach (new M capacity) r → Inv r
  Reach-Inv capacity here = Inv-new M capacity
  Reach-Inv capacity (later s t) = Step-Inv t (Reach-Inv capacity s)

  pub one_turn :
      (capacity : ℕ) (r : ActorRunner M) → Reach (new M capacity) r → users r ≤ 1 + r.stray
  one_turn capacity r s =
      let v = Reach-Inv capacity s in
      let held : r.polling ≤ one r.slot = ground (arith, v.empty, v.locked) in
      let up : one r.is_scheduled ≤ 1 = ground arith in omega (arith, v.total, v.owed, held, up)
