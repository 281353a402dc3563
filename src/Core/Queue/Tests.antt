-- ===== src/Core/Queue/Tests.antt =====
-- A ring of two slots that holds one item.
use dignus_actor_server_rust.Common.{
  ℕ, zero, suc, ◌+◌, ◌≤◌, ◌<◌, ◌≡◌, refl, ◌⊎◌, true, false, none, some, [], ◌∷◌, arith,
}
use dignus_actor_server_rust.Core.Queue
use dignus_actor_server_rust.Core.Queue.{
  MpscBoundedQueue, Attempt, enqueued, full, try_enqueue, try_dequeue, try_peek, new,
  normalize_to_power_of_two,
}
use dignus_actor_server_rust.Core.Queue.Fifo.{IsValid, contents}
use dignus_actor_server_rust.Core.Queue.Refine.{try_dequeue_lem}

abbrev one_waits : MpscBoundedQueue ℕ
one_waits = record {
  buffer = record { sequence = 1; item = some 7 } ∷ record { sequence = 1; item = none } ∷ [];
  capacity = 2;
  producer_index = 1;
  consumer_index = 0;
}

one_waits-IsValid : IsValid one_waits
one_waits-IsValid = record {
  big = omega arith;
  sized = refl;
  behind = omega arith;
  ahead = omega arith;
  filled = first;
  vacant = second;
}
  where
    first :
        (p : ℕ)
        → 0 ≤ p
        → p < 1
        → ((Queue.slot_at ℕ one_waits p).sequence ≡ p + 1)
          × ((x : ℕ) × ((Queue.slot_at ℕ one_waits p).item ≡ some x))
    first zero a b = (refl, (7, refl))
    first (suc p) a b = absurd (omega arith)

    second : (p : ℕ) → 1 ≤ p → p < 2 → (Queue.slot_at ℕ one_waits p).sequence ≡ p
    second zero a b = absurd (omega arith)
    second (suc zero) a b = refl
    second (suc (suc p)) a b = absurd (omega arith)

try_dequeue_lem_example :
    ((contents one_waits ≡ [])
      × (try_dequeue ℕ one_waits ≡ (none, one_waits))
      × (try_peek ℕ one_waits ≡ false))
    ⊎ ((x : ℕ) × (q' : MpscBoundedQueue ℕ) × (contents one_waits ≡ x ∷ contents q')
        × (try_dequeue ℕ one_waits ≡ (some x, q'))
        × IsValid q'
        × (q'.capacity ≡ 2)
        × (try_peek ℕ one_waits ≡ true))
try_dequeue_lem_example = try_dequeue_lem one_waits one_waits-IsValid

normalize_run : normalize_to_power_of_two 5 ≡ some 8
unfolding normalize_to_power_of_two Queue.normalize_loop Queue.checked_double
normalize_run = refl
