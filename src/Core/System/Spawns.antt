-- ===== src/Core/System/Spawns.antt =====
-- The public ways to spawn in dignus-actor-core/src/actor_system.rs. `actor` is what
-- `TActor::default()` or the factory returns; the source makes it before it looks at the system.
use dignus_actor_server_rust.Common.{ℕ, true, Option, none, some, ◌≡◌, refl}
use dignus_actor_server_rust.Core.Outcome.{Outcome, panicked}
use dignus_actor_server_rust.Core.System.{
  ActorSystem, default_mailbox_capacity, spawn_with_auto_dispatcher, spawn_with_dispatcher,
}

module _ {A : Type 0} where
  unfoldable pub spawn_with_options :
      ActorSystem A → A → Option ℕ → ℕ → Outcome (ActorSystem A) (ℕ × ℕ)
  unfolding spawn_with_auto_dispatcher
  spawn_with_options s actor alias mailbox_capacity =
      spawn_with_auto_dispatcher s actor alias mailbox_capacity

  unfoldable pub spawn : ActorSystem A → A → Outcome (ActorSystem A) (ℕ × ℕ)
  unfolding spawn_with_options
  spawn s actor = spawn_with_options s actor none default_mailbox_capacity

  unfoldable pub spawn_with_alias : ActorSystem A → A → ℕ → Outcome (ActorSystem A) (ℕ × ℕ)
  unfolding spawn_with_options
  spawn_with_alias s actor alias = spawn_with_options s actor (some alias) default_mailbox_capacity

  unfoldable pub spawn_with_capacity : ActorSystem A → A → ℕ → Outcome (ActorSystem A) (ℕ × ℕ)
  unfolding spawn_with_options
  spawn_with_capacity s actor mailbox_capacity = spawn_with_options s actor none mailbox_capacity

  unfoldable pub spawn_with_factory_options :
      ActorSystem A → A → Option ℕ → ℕ → Outcome (ActorSystem A) (ℕ × ℕ)
  unfolding spawn_with_auto_dispatcher
  spawn_with_factory_options s actor alias mailbox_capacity =
      spawn_with_auto_dispatcher s actor alias mailbox_capacity

  unfoldable pub spawn_with_factory : ActorSystem A → A → Outcome (ActorSystem A) (ℕ × ℕ)
  unfolding spawn_with_factory_options
  spawn_with_factory s actor = spawn_with_factory_options s actor none default_mailbox_capacity

  unfoldable pub spawn_with_factory_and_alias :
      ActorSystem A → A → ℕ → Outcome (ActorSystem A) (ℕ × ℕ)
  unfolding spawn_with_factory_options
  spawn_with_factory_and_alias s actor alias =
      spawn_with_factory_options s actor (some alias) default_mailbox_capacity

  unfoldable pub spawn_with_factory_and_capacity :
      ActorSystem A → A → ℕ → Outcome (ActorSystem A) (ℕ × ℕ)
  unfolding spawn_with_factory_options
  spawn_with_factory_and_capacity s actor mailbox_capacity =
      spawn_with_factory_options s actor none mailbox_capacity

  unfoldable pub spawn_on_dispatcher_with_options :
      ActorSystem A → A → ℕ → Option ℕ → ℕ → Outcome (ActorSystem A) (ℕ × ℕ)
  unfolding spawn_with_dispatcher
  spawn_on_dispatcher_with_options s actor dispatcher_index alias mailbox_capacity =
      spawn_with_dispatcher s actor dispatcher_index alias mailbox_capacity

  unfoldable pub spawn_on_dispatcher : ActorSystem A → A → ℕ → Outcome (ActorSystem A) (ℕ × ℕ)
  unfolding spawn_on_dispatcher_with_options
  spawn_on_dispatcher s actor dispatcher_index =
      spawn_on_dispatcher_with_options s actor dispatcher_index none default_mailbox_capacity

  unfoldable pub spawn_on_dispatcher_with_alias :
      ActorSystem A → A → ℕ → ℕ → Outcome (ActorSystem A) (ℕ × ℕ)
  unfolding spawn_on_dispatcher_with_options
  spawn_on_dispatcher_with_alias s actor dispatcher_index alias =
      spawn_on_dispatcher_with_options s actor dispatcher_index (some alias)
        default_mailbox_capacity

  unfoldable pub spawn_on_dispatcher_with_capacity :
      ActorSystem A → A → ℕ → ℕ → Outcome (ActorSystem A) (ℕ × ℕ)
  unfolding spawn_on_dispatcher_with_options
  spawn_on_dispatcher_with_capacity s actor dispatcher_index mailbox_capacity =
      spawn_on_dispatcher_with_options s actor dispatcher_index none mailbox_capacity

  unfoldable pub spawn_on_dispatcher_with_factory_options :
      ActorSystem A → A → ℕ → Option ℕ → ℕ → Outcome (ActorSystem A) (ℕ × ℕ)
  unfolding spawn_with_dispatcher
  spawn_on_dispatcher_with_factory_options s actor dispatcher_index alias mailbox_capacity =
      spawn_with_dispatcher s actor dispatcher_index alias mailbox_capacity

  unfoldable pub spawn_on_dispatcher_with_factory :
      ActorSystem A → A → ℕ → Outcome (ActorSystem A) (ℕ × ℕ)
  unfolding spawn_on_dispatcher_with_factory_options
  spawn_on_dispatcher_with_factory s actor dispatcher_index =
      spawn_on_dispatcher_with_factory_options s actor dispatcher_index none
        default_mailbox_capacity

  unfoldable pub spawn_on_dispatcher_with_factory_and_alias :
      ActorSystem A → A → ℕ → ℕ → Outcome (ActorSystem A) (ℕ × ℕ)
  unfolding spawn_on_dispatcher_with_factory_options
  spawn_on_dispatcher_with_factory_and_alias s actor dispatcher_index alias =
      spawn_on_dispatcher_with_factory_options s actor dispatcher_index (some alias)
        default_mailbox_capacity

  unfoldable pub spawn_on_dispatcher_with_factory_and_capacity :
      ActorSystem A → A → ℕ → ℕ → Outcome (ActorSystem A) (ℕ × ℕ)
  unfolding spawn_on_dispatcher_with_factory_options
  spawn_on_dispatcher_with_factory_and_capacity s actor dispatcher_index mailbox_capacity =
      spawn_on_dispatcher_with_factory_options s actor dispatcher_index none mailbox_capacity

  refused :
      (s : ActorSystem A) (actor : A) (alias : Option ℕ) (capacity : ℕ)
      → s.is_disposed ≡ true
      → spawn_with_auto_dispatcher s actor alias capacity ≡ panicked s
  unfolding spawn_with_auto_dispatcher
  refused s actor alias capacity h = rw h refl

  refused_on :
      (s : ActorSystem A) (actor : A) (d : ℕ) (alias : Option ℕ) (capacity : ℕ)
      → s.is_disposed ≡ true
      → spawn_with_dispatcher s actor d alias capacity ≡ panicked s
  unfolding spawn_with_dispatcher
  refused_on s actor d alias capacity h = rw h refl

  -- Once a shutdown has begun, every public way to spawn panics and changes nothing, whatever its
  -- alias, dispatcher and mailbox capacity.
  pub spawn_disposed :
      (s : ActorSystem A) (actor : A) (d alias capacity : ℕ)
      → s.is_disposed ≡ true
      → (spawn s actor ≡ panicked s)
        × (spawn_with_alias s actor alias ≡ panicked s)
        × (spawn_with_capacity s actor capacity ≡ panicked s)
        × (spawn_with_factory s actor ≡ panicked s)
        × (spawn_with_factory_and_alias s actor alias ≡ panicked s)
        × (spawn_with_factory_and_capacity s actor capacity ≡ panicked s)
        × (spawn_on_dispatcher s actor d ≡ panicked s)
        × (spawn_on_dispatcher_with_alias s actor d alias ≡ panicked s)
        × (spawn_on_dispatcher_with_capacity s actor d capacity ≡ panicked s)
        × (spawn_on_dispatcher_with_factory s actor d ≡ panicked s)
        × (spawn_on_dispatcher_with_factory_and_alias s actor d alias ≡ panicked s)
        × (spawn_on_dispatcher_with_factory_and_capacity s actor d capacity ≡ panicked s)
        × (spawn_with_options s actor (some alias) capacity ≡ panicked s)
        × (spawn_with_factory_options s actor (some alias) capacity ≡ panicked s)
        × (spawn_on_dispatcher_with_options s actor d (some alias) capacity ≡ panicked s)
        × (spawn_on_dispatcher_with_factory_options s actor d (some alias) capacity ≡ panicked s)
  unfolding spawn spawn_with_alias spawn_with_capacity spawn_with_factory
      spawn_with_factory_and_alias spawn_with_factory_and_capacity spawn_on_dispatcher
      spawn_on_dispatcher_with_alias spawn_on_dispatcher_with_capacity
      spawn_on_dispatcher_with_factory spawn_on_dispatcher_with_factory_and_alias
      spawn_on_dispatcher_with_factory_and_capacity spawn_with_options spawn_with_factory_options
      spawn_on_dispatcher_with_options spawn_on_dispatcher_with_factory_options
  spawn_disposed s actor d alias capacity h =
      let auto = λ (a : Option ℕ) (c : ℕ). refused s actor a c h in
      let on = λ (a : Option ℕ) (c : ℕ). refused_on s actor d a c h in
      let usual = default_mailbox_capacity in
      (
        auto none usual,
        auto (some alias) usual,
        auto none capacity,
        auto none usual,
        auto (some alias) usual,
        auto none capacity,
        on none usual,
        on (some alias) usual,
        on none capacity,
        on none usual,
        on (some alias) usual,
        on none capacity,
        auto (some alias) capacity,
        auto (some alias) capacity,
        on (some alias) capacity,
        on (some alias) capacity,
      )
