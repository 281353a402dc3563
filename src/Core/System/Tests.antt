-- ===== src/Core/System/Tests.antt =====
-- A system of two dispatchers in which one actor is spawned under the alias 4, and ends.
use dignus_actor_server_rust.Common.{
  ℕ, length, ◌+◌, ◌≡◌, get_elem?, ◌≢◌, List, ◌∷◌, refl, true, false, ◌&&◌, none, some, [], arith,
  if◌then◌else◌, ◌==◌,
}
use dignus_actor_server_rust.Core.Outcome.{returned, panicked, state_of}
use dignus_actor_server_rust.Core.Registry.{
  ActorRegistry, with_capacity, reserve, reserve_from, take_slot, commit, target, live_count,
}
use dignus_actor_server_rust.Core.Queue
use dignus_actor_server_rust.Core.System.{
  Spawned, ActorSystem, with_capacities, alias_is_free, register_actor, with_handle, with_mailbox,
  publish,
}
use dignus_actor_server_rust.Core.System.Aliases.{
  actor_at, Consistent, with_capacities-Consistent, register_actor-Consistent,
}
use dignus_actor_server_rust.Core.System.Emptying.{finalize_each, finalize_each-empties}
use dignus_actor_server_rust.Core.System.Leaks.{small_mailbox_leaks}
use dignus_actor_server_rust.Core.System.Waiting.{Turn, Waited, waiting, shutdown_timeout}
use dignus_actor_server_rust.Core.System.Waiting.Ending.{Decided, Reason, shutdown_timeout_returns}

abbrev empty : ActorSystem ℕ
empty = record {
  registry = with_capacity (Spawned ℕ) 2;
  alias_to_handle = [];
  alias_poisoned = false;
  dispatcher_count = 2;
  is_disposed = false;
}

empty-Consistent : Consistent empty
unfolding with_capacities
empty-Consistent = with_capacities-Consistent 2 2 empty refl

abbrev one_live : ActorSystem ℕ
one_live = state_of (register_actor empty empty 9 none (some 4) 2)

abbrev reserved : ActorRegistry (Spawned ℕ)
reserved = state_of (reserve (Spawned ℕ) empty.registry)

spawn_run : register_actor empty empty 9 none (some 4) 2 ≡ returned (0, 1) one_live
unfolding register_actor alias_is_free with_handle with_mailbox publish with_capacity reserve
    reserve_from take_slot Queue.new Queue.normalize_to_power_of_two Queue.normalize_loop
    Queue.checked_double Queue.fresh_slots
spawn_run = refl

healthy_run : (one_live.registry.poisoned ≡ false) × (one_live.alias_poisoned ≡ false)
unfolding register_actor alias_is_free with_handle with_mailbox publish with_capacity reserve
    reserve_from take_slot Queue.new Queue.normalize_to_power_of_two Queue.normalize_loop
    Queue.checked_double Queue.fresh_slots commit
healthy_run = (refl, refl)

reserve_run : reserve (Spawned ℕ) empty.registry ≡ returned (0, 1) reserved
unfolding with_capacity reserve reserve_from take_slot
reserve_run = refl

free_run : alias_is_free empty (some 4) ≡ true
unfolding alias_is_free
free_run = refl

one_live-Consistent : Consistent one_live
one_live-Consistent =
    (register_actor-Consistent empty empty one_live 9 none (some 4) 2 0 1 0 1 empty-Consistent
      spawn_run).0

register_actor-Consistent_example :
    Consistent one_live
    × (actor_at empty 0 1 ≡ none)
    × (r : Spawned ℕ) × (r.alias ≡ some 4)
    × (actor_at one_live 0 1 ≡ some r)
    × (actor_at one_live 1 1 ≡ (if (1 == 0) && (1 == 1) then some r else actor_at empty 1 1))
register_actor-Consistent_example =
    register_actor-Consistent empty empty one_live 9 none (some 4) 2 0 1 1 1 empty-Consistent
      spawn_run

small_mailbox_leaks_example :
    let s' = state_of (register_actor empty empty 9 none (some 4) 1) in
    (register_actor empty empty 9 none (some 4) 1 ≡ panicked s')
    × (actor_at s' 0 1 ≡ actor_at empty 0 1)
    × (s'.registry.live ≡ empty.registry.live + 1)
small_mailbox_leaks_example =
    small_mailbox_leaks empty reserved 9 none (some 4) 1 0 1 0 1 empty-Consistent.valid free_run
      (omega arith) reserve_run

abbrev disposed : ActorSystem ℕ
disposed = record empty { is_disposed = true }

-- The turns of a shutdown that begins at 90 and is given 20: the actor ends behind the deadline,
-- between the two counts of the second turn.
abbrev turns : List Turn
turns =
    record { live = some 1; now = 95; live_again = some 1 }
    ∷ record { live = some 1; now = 115; live_again = some 0 }
    ∷ []

abbrev runner : Spawned ℕ
runner = record {
  actor = 9;
  alias = some 4;
  dispatcher_index = 0;
  mailbox = record {
    buffer = record { sequence = 0; item = none } ∷ record { sequence = 1; item = none } ∷ [];
    capacity = 2;
    producer_index = 0;
    consumer_index = 0;
  };
}

live_run : target (Spawned ℕ) one_live.registry one_live.registry 0 1 ≡ some runner
unfolding register_actor alias_is_free with_handle with_mailbox publish with_capacity reserve
    reserve_from take_slot Queue.new Queue.normalize_to_power_of_two Queue.normalize_loop
    Queue.checked_double Queue.fresh_slots commit target
live_run = refl

open_run : one_live.is_disposed ≡ false
unfolding register_actor alias_is_free with_handle with_mailbox publish with_capacity reserve
    reserve_from take_slot Queue.new Queue.normalize_to_power_of_two Queue.normalize_loop
    Queue.checked_double Queue.fresh_slots commit
open_run = refl

shutdown_timeout_returns_example :
    let deadline = some (90 + 20) in
    (k : ℕ) × (runners : List (Spawned ℕ)) × (w : Waited) × (shutdown_timeout one_live 200 90 20
        turns
      ≡ returned (runners, w) (record one_live { is_disposed = true }))
    × (get_elem? runners k ≡ some runner)
    × (w ≢ waiting)
    × ((t : Turn) × Decided deadline t turns × Reason deadline t w)
shutdown_timeout_returns_example =
    shutdown_timeout_returns one_live 0 1 runner 200 90 20 turns one_live-Consistent.valid
      healthy_run.0 open_run live_run (omega arith) refl

one_run : length {A = ℕ × ℕ} ((0, 1) ∷ []) ≡ one_live.registry.live
unfolding register_actor alias_is_free with_handle with_mailbox publish with_capacity reserve
    reserve_from take_slot Queue.new Queue.normalize_to_power_of_two Queue.normalize_loop
    Queue.checked_double Queue.fresh_slots commit
one_run = refl

finalize_each-empties_example :
    let s' = finalize_each ((0, 1) ∷ []) one_live in
    (live_count (Spawned ℕ) s'.registry ≡ returned 0 s'.registry) × (actor_at s' 0 1 ≡ none)
finalize_each-empties_example =
    finalize_each-empties ((0, 1) ∷ []) one_live 0 1 one_live-Consistent healthy_run.0 healthy_run.1
      (tt, tt) ((runner, live_run), tt) one_run
