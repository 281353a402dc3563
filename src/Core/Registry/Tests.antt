-- ===== src/Core/Registry/Tests.antt =====
-- A registry for two actors, in which one is live under the handle (0, 1).
use dignus_actor_server_rust.Common.{
  ℕ, ◌+◌, ◌≤◌, ◌≡◌, ◌≢◌, refl, ◌∷◌, false, ◌&&◌, none, some, List, [], arith, if◌then◌else◌, ◌==◌,
}
use dignus_actor_server_rust.Core.Outcome.{returned, panicked, state_of}
use dignus_actor_server_rust.Core.Registry.{
  ActorRegistry, with_capacity, reserve, reserve_from, take_slot, commit, target, remove,
  snapshot_live, live_count, release,
}
use dignus_actor_server_rust.Core.Registry.Invariant.{
  IsValid, with_capacity-IsValid, reserve-IsValid,
}
use dignus_actor_server_rust.Core.Registry.Removal.{commit-IsValid}
use dignus_actor_server_rust.Core.Registry.Removing.{remove-target, found}
use dignus_actor_server_rust.Core.Registry.Snapshot.{reserve_full_poisons}
use dignus_actor_server_rust.Core.Registry.History.{
  Op, reserves, commits, removes, step, run, generation_at,
}
use dignus_actor_server_rust.Core.Registry.Gone.{removed_for_good}

abbrev empty : ActorRegistry ℕ
empty = with_capacity ℕ 2

abbrev reserved : ActorRegistry ℕ
reserved = state_of (reserve ℕ empty)

abbrev one_live : ActorRegistry ℕ
one_live = commit ℕ reserved 0 5

abbrev full : ActorRegistry ℕ
full = record one_live { next_unused = 2 }

reserve_run : reserve ℕ empty ≡ returned (0, 1) reserved
unfolding reserve reserve_from with_capacity take_slot
reserve_run = refl

empty-IsValid : IsValid empty
empty-IsValid = with_capacity-IsValid 2

one_live-IsValid : IsValid one_live
unfolding reserve reserve_from with_capacity take_slot
one_live-IsValid = commit-IsValid 0 5 (reserve-IsValid empty-IsValid) refl

live_run : target ℕ one_live one_live 0 1 ≡ some 5
unfolding reserve reserve_from with_capacity take_slot commit target
live_run = refl

healthy_run : one_live.poisoned ≡ false
unfolding reserve reserve_from with_capacity take_slot commit
healthy_run = refl

nothing_free : full.free ≡ []
unfolding reserve reserve_from with_capacity take_slot commit
nothing_free = refl

all_used : full.capacity ≤ full.next_unused
unfolding reserve reserve_from with_capacity take_slot commit
all_used = omega arith

remove-target_example :
    let r' = state_of (remove ℕ one_live 0 1) in
    (remove ℕ one_live 0 1 ≡ returned (target ℕ one_live one_live 0 1) r')
    × (target ℕ r' r' 0 1 ≡ (if (0 == 0) && (1 == 1) then none else target ℕ one_live one_live 0 1))
    × (r'.live + found (target ℕ one_live one_live 0 1) ≡ one_live.live)
remove-target_example = remove-target one_live 0 1 0 1 one_live-IsValid healthy_run

abbrev earlier : List (Op ℕ)
earlier = reserves ∷ commits 0 5 ∷ []

abbrev afterwards : List (Op ℕ)
afterwards = reserves ∷ commits 0 6 ∷ removes 0 3 ∷ []

abbrev taken_out : ActorRegistry ℕ
taken_out = state_of (remove ℕ (run earlier (with_capacity ℕ 2)) 0 1)

taken_out_given : remove ℕ (run earlier (with_capacity ℕ 2)) 0 1 ≡ returned (some 5) taken_out
unfolding run step reserve reserve_from with_capacity take_slot commit remove release
taken_out_given = refl

removed_for_good_example :
    (target ℕ (run afterwards taken_out) (run afterwards taken_out) 0 1 ≡ none)
    × (reserve ℕ (run afterwards taken_out) ≢ returned (0, 1) empty)
removed_for_good_example =
    removed_for_good 2 0 1 5 earlier afterwards taken_out empty taken_out_given (omega arith)

-- A full registry with one live actor, a reserve that panics, and three calls behind it.
reserve_full_poisons_example :
    let r' = run afterwards (state_of (reserve ℕ full)) in
    (reserve ℕ r' ≡ panicked r')
    × (remove ℕ r' 0 1 ≡ panicked r')
    × (snapshot_live ℕ r' ≡ panicked r')
    × (live_count ℕ r' ≡ panicked r')
    × (r'.live ≡ full.live)
    × (generation_at r' 0 ≡ generation_at full 0)
reserve_full_poisons_example =
    reserve_full_poisons full afterwards 0 1 0 healthy_run nothing_free all_used
