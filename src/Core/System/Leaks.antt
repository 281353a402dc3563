-- ===== src/Core/System/Leaks.antt =====
-- A spawn that panics after it has reserved its handle.
use dignus_actor_server_rust.Common.{ℕ, ◌+◌, ◌<◌, ◌≡◌, refl, true, Option, none, lt→ltb}
use dignus_actor_server_rust.Core.Outcome.{returned, panicked, state_of}
use dignus_actor_server_rust.Core.Registry.{ActorRegistry, reserve}
use dignus_actor_server_rust.Core.Registry.Invariant
use dignus_actor_server_rust.Core.Registry.Handles.{reserve-target}
use dignus_actor_server_rust.Core.Queue
use dignus_actor_server_rust.Core.System.{
  ActorSystem, Spawned, alias_is_free, register_actor, with_handle, with_mailbox,
}
use dignus_actor_server_rust.Core.System.Aliases.{actor_at}

module _ {A : Type 0} where
  new_small : (requested : ℕ) → requested < 2 → Queue.new A requested ≡ none
  unfolding Queue.new
  new_small requested h = rw (lt→ltb requested 2 h) refl

  -- A spawn whose mailbox capacity is below 2 panics after it has reserved a handle: no handle finds
  -- a new actor, but one more is counted as live, which a shutdown waits for.
  pub small_mailbox_leaks :
      (s : ActorSystem A) (r : ActorRegistry (Spawned A)) (actor : A) (d alias : Option ℕ)
      (capacity i g j h : ℕ)
      → Invariant.IsValid s.registry
      → alias_is_free s alias ≡ true
      → capacity < 2
      → reserve (Spawned A) s.registry ≡ returned (i, g) r
      → let s' = state_of (register_actor s s actor d alias capacity) in
        (register_actor s s actor d alias capacity ≡ panicked s')
        × (actor_at s' j h ≡ actor_at s j h)
        × (s'.registry.live ≡ s.registry.live + 1)
  unfolding register_actor with_handle with_mailbox
  small_mailbox_leaks s r actor d alias capacity i g j h v free small e =
      let t = reserve-target s.registry r i g j h v e in
      rw (free, e, new_small capacity small) (refl, t.3, t.4)
