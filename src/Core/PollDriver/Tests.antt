-- ===== src/Core/PollDriver/Tests.antt =====
-- A future that is pending as often as its number says, and wakes in each poll.
use dignus_actor_server_rust.Common.{ℕ, zero, suc, ◌≡◌, refl, Bool, true, some, [], ◌∷◌}
use dignus_actor_server_rust.Core.PollDriver.{
  FuturePoll, still, finished, PollDriver, new, arm, poll, poll_slot, after_poll, wake_if,
  try_mark_poll_scheduled,
}
use dignus_actor_server_rust.Core.PollDriver.Completion.{callbacks}

abbrev countdown : ℕ → FuturePoll ℕ × Bool
countdown zero = (finished, true)
countdown (suc n) = (still n, true)

abbrev empty : PollDriver ℕ ℕ
empty = new ℕ ℕ

callbacks_run : callbacks countdown 5 (arm ℕ ℕ empty 2 (some 9)) ≡ 9 ∷ []
unfolding arm poll poll_slot after_poll wake_if try_mark_poll_scheduled
callbacks_run = refl
