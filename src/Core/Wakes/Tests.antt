-- ===== src/Core/Wakes/Tests.antt =====
-- A receive that is pending; it is woken once its poll is over, or in the poll that ends it.
use dignus_actor_server_rust.Common.{◌+◌, ◌≤◌, ◌<◌, ◌≡◌, refl, ◌⊎◌, true, false}
use dignus_actor_server_rust.Core.Wakes.{
  Wakes, new, give, start, see_idle, reset, lock_full, poll_pending, poll_ended, deactivate,
  reset_ended, complete, arm, activate, reset_armed, wake, mark, Reach, begin, later,
}
use dignus_actor_server_rust.Core.Wakes.Turns.{users_bounded}
use dignus_actor_server_rust.Core.Wakes.Heard.{wakes_heard}

abbrev first_poll : Wakes
first_poll = record {
  is_scheduled = true;
  is_active = true;
  is_poll_scheduled = false;
  slot = true;
  scheduled = 0;
  starting = 0;
  polls = 0;
  locking = 0;
  polling = 1;
  ended = 0;
  resetting = 0;
  calling = 0;
  looping = 0;
  arming = 0;
  activating = 0;
  clearing = 0;
  cleared = 0;
  killing = 0;
  waking = 0;
  fresh = 0;
  stray = 0;
}

first_poll_run : Reach first_poll
unfolding new
first_poll_run =
    later
      (later
        (later
          (later
            (later
              (later (later (later begin (give refl)) (start {n = 0} refl))
                (see_idle {n = 0} refl refl refl))
              (arm {n = 0} refl refl))
            (activate {n = 0} refl))
          (reset_armed {n = 0} refl))
        (reset {n = 0} refl))
      (lock_full {n = 0} refl refl refl)

abbrev woken : Wakes
woken = record {
  is_scheduled = true;
  is_active = true;
  is_poll_scheduled = true;
  slot = true;
  scheduled = 1;
  starting = 0;
  polls = 0;
  locking = 0;
  polling = 0;
  ended = 0;
  resetting = 0;
  calling = 0;
  looping = 0;
  arming = 0;
  activating = 0;
  clearing = 0;
  cleared = 0;
  killing = 0;
  waking = 0;
  fresh = 1;
  stray = 0;
}

woken_run : Reach woken
woken_run =
    later (later (later first_poll_run (poll_pending {n = 0} refl)) (wake refl))
      (mark {n = 0} refl refl refl)

-- Two threads in the mailbox loop: the wake and the completion callback each gave out a turn.
abbrev crowded : Wakes
crowded = record {
  is_scheduled = true;
  is_active = false;
  is_poll_scheduled = false;
  slot = false;
  scheduled = 0;
  starting = 0;
  polls = 0;
  locking = 0;
  polling = 0;
  ended = 0;
  resetting = 0;
  calling = 0;
  looping = 2;
  arming = 0;
  activating = 0;
  clearing = 0;
  cleared = 0;
  killing = 0;
  waking = 0;
  fresh = 0;
  stray = 1;
}

crowded_run : Reach crowded
crowded_run =
    later
      (later
        (later
          (later
            (later
              (later
                (later
                  (later (later (later first_poll_run (wake refl)) (mark {n = 0} refl refl refl))
                    (poll_ended {n = 0} refl))
                  (deactivate {n = 0} refl))
                (reset_ended {n = 0} refl))
              (complete {n = 0} refl))
            (start {n = 1} refl))
          (start {n = 0} refl))
        (see_idle {n = 1} refl refl refl))
      (see_idle {n = 0} refl refl refl)

users_bounded_example :
    crowded.looping + crowded.polling + crowded.clearing + crowded.cleared + crowded.killing
    ≤ 1 + crowded.stray
users_bounded_example = users_bounded crowded_run

wakes_heard_example :
    (woken.is_active ≡ true)
    × ((woken.is_poll_scheduled ≡ false) ⊎ (0 < woken.scheduled + woken.starting + woken.polls))
wakes_heard_example = wakes_heard woken_run refl refl refl
