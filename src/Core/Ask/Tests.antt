-- ===== src/Core/Ask/Tests.antt =====
-- A question that is answered, one that times out, and two that fall on one slot.
use dignus_actor_server_rust.Common.{
  ℕ, ◌≤◌, ◌+◌, max, inl, inr, ◌≡◌, refl, false, none, some, [], ◌∷◌, arith, ◌==◌, lookup, replicate,
}
use dignus_actor_server_rust.Core.Ask.{AskAwaiterState, new, poll, AskSystem, register, sweep}
use dignus_actor_server_rust.Core.Ask.Answers.{
  answered, timed_out, complete_all, outcome_of, first_completion_wins,
}
use dignus_actor_server_rust.Core.Ask.{AskSlot, swept, should_remove}
use dignus_actor_server_rust.Core.Ask.Pause.{
  sweep_cap, next_deadline, wait_duration, Holds, sweeper_pause,
}
use dignus_actor_server_rust.Core.Ask.Sweeps.{collision_forgets}

abbrev waiting : AskAwaiterState ℕ ℕ
waiting = record { response = none; completed = false; timed_out = false; waker = some 3 }

abbrev empty : AskSystem ℕ ℕ
empty = record { slots = replicate 4 none; slot_count = 4; is_stopped = false; awaiters = [] }

-- The awaiter 6 waits until 10.
abbrev one_waits : AskSystem ℕ ℕ
one_waits = record empty {
  slots = none ∷ none ∷ some (record { ask_awaiter = 6; deadline = 10 }) ∷ none ∷ [];
  awaiters = (6, waiting) ∷ [];
}

abbrev first : AskSystem ℕ ℕ
first = record empty {
  slots = none ∷ none ∷ some (record { ask_awaiter = 6; deadline = 10 }) ∷ none ∷ [];
  awaiters = (6, new) ∷ [];
}

abbrev second : AskSystem ℕ ℕ
second = record empty {
  slots = none ∷ none ∷ some (record { ask_awaiter = 7; deadline = 20 }) ∷ none ∷ [];
  awaiters = (7, new) ∷ (6, new) ∷ [];
}

first_run : register ℕ ℕ empty 6 2 0 10 ≡ some first
unfolding register
first_run = refl

second_run : register ℕ ℕ first 7 6 5 15 ≡ some second
unfolding register
second_run = refl

first_completion_wins_example :
    ((complete_all (answered 8 ∷ timed_out ∷ []) waiting).1 ≡ 3 ∷ [])
    × ((poll ◌==◌ some (complete_all (answered 8 ∷ timed_out ∷ []) waiting).0 5).1
        ≡ outcome_of some ◌==◌ (answered 8))
first_completion_wins_example =
    first_completion_wins ◌==◌ some (answered 8) (timed_out ∷ []) waiting 5 refl

collision_forgets_example : lookup 6 (sweep ℕ ℕ second 1000).awaiters ≡ some new
collision_forgets_example =
    collision_forgets empty first second 6 7 2 6 0 10 5 15 1000 refl (omega arith) refl first_run
      second_run

abbrev left_over : AskSlot
left_over = record { ask_awaiter = 6; deadline = 10 }

left_over_run : Holds left_over (swept ℕ ℕ 4 one_waits.awaiters one_waits.slots)
unfolding swept should_remove
left_over_run = inr (inr (inl refl))

sweeper_pause_example :
    let pause = wait_duration (next_deadline 4 one_waits.awaiters one_waits.slots none) 5 in
    (pause ≤ sweep_cap) × (5 + pause ≤ max 5 10)
sweeper_pause_example = sweeper_pause 4 5 one_waits.awaiters one_waits.slots left_over left_over_run
