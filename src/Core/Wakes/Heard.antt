-- ===== src/Core/Wakes/Heard.antt =====
-- A wake of a pending receive is not lost.
use dignus_actor_server_rust.Common.{◌+◌, ◌<◌, ◌≡◌, refl, ◌⊎◌, inl, inr, true, false, arith}
use dignus_actor_server_rust.Core.Wakes.{
  Wakes, new, Step, give, start, see_active, see_idle, see_idle_late, reset, lock_full, lock_empty,
  poll_pending, poll_ended, deactivate, reset_ended, complete, fail_first, arm, activate,
  reset_armed, wake, wake_lost, mark, mark_late, leave, release, clear, clear_active, clear_reset,
  killed, Reach, begin, later,
}
use dignus_actor_server_rust.Core.Wakes.Turns.{Inv, Reach-Inv}

-- While no turn has gone astray, a future that is in the slot is active, and a driver that is marked
-- has a turn on its way to a poll; but for the stores of `arm`.
record Heard (r : Wakes) : Type 0 where
  active : (0 < r.stray) ⊎ ((r.slot ≡ false) ⊎ ((r.is_active ≡ true) ⊎ (0 < r.arming)))
  marked :
      (0 < r.stray)
      ⊎ ((r.slot ≡ false)
          ⊎ ((r.is_poll_scheduled ≡ false)
              ⊎ (0 < r.scheduled + r.starting + r.polls + r.arming + r.activating)))

new-Heard : Heard new
unfolding new
new-Heard = record { active = inr (inl refl); marked = inr (inl refl) }

Step-Heard : {r t : Wakes} → Step r t → Inv r → Heard r → Heard t
Step-Heard (give h) v w = ground arith
Step-Heard (start h) v w = ground arith
Step-Heard (see_active h p) v w = ground arith
Step-Heard (see_idle h p q) v w = ground arith
Step-Heard (see_idle_late h p q) v w = ground arith
Step-Heard (reset h) v w = ground arith
Step-Heard (lock_full h p q) v w = ground arith
Step-Heard (lock_empty h p) v w = ground arith
Step-Heard (poll_pending h) v w = ground arith
Step-Heard (poll_ended h) v w = ground arith
Step-Heard (deactivate h) v w = ground arith
Step-Heard (reset_ended h) v w = ground arith
Step-Heard (complete h) v w = ground arith
Step-Heard (fail_first h) v w = ground arith
Step-Heard (arm h p) v w = ground arith
Step-Heard (activate h) v w = ground arith
Step-Heard (reset_armed h) v w = ground arith
Step-Heard (wake h) v w = ground arith
Step-Heard (wake_lost h p) v w = ground arith
Step-Heard (mark h p q) v w = ground arith
Step-Heard (mark_late h p q) v w = ground arith
Step-Heard (leave h) v w = ground arith
Step-Heard (release h) v w = ground arith
Step-Heard (clear h p) v w = ground arith
Step-Heard (clear_active h) v w = ground arith
Step-Heard (clear_reset h) v w = ground arith
Step-Heard (killed h) v w = ground arith

Reach-Heard : {r : Wakes} → Reach r → Heard r
Reach-Heard begin = new-Heard
Reach-Heard (later r h) = Step-Heard h (Reach-Inv r) (Reach-Heard r)

-- While every turn has reached the poll that it was given out for, a future that is in the slot, once
-- `arm` is done with it, is never forgotten: the driver is active, so a wake tries to mark it; and
-- either the driver is not marked, so the wake gives out a turn, or a turn is on its way that
-- will poll the future afterwards.
pub wakes_heard :
    {r : Wakes}
    → Reach r
    → r.stray ≡ 0
    → r.slot ≡ true
    → r.arming + r.activating ≡ 0
    → (r.is_active ≡ true)
      × ((r.is_poll_scheduled ≡ false) ⊎ (0 < r.scheduled + r.starting + r.polls))
wakes_heard {r} reached none_astray full armed =
    let w = Reach-Heard reached in (ground (arith, w.active), ground (arith, w.marked))
