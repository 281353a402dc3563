-- ===== src/Core/System.antt =====
-- dignus-actor-core/src/actor_system.rs: spawning actors, their aliases, and shutting down, over the
-- registry. Methods run whole, except that `register_actor` tests the alias in an earlier state. An
-- alias is a number, as only whether two aliases are equal matters.
pub mod Aliases
pub mod Spawning
pub mod Finalizing
pub mod Leaks
pub mod Spawns
pub mod Emptying
pub mod Waiting
pub mod DeadLetters
mod Tests
use dignus_actor_server_rust.Common.{
  ℕ, ◌%◌, Bool, true, false, Option, none, some, List, lookup, remove, insert, leb, [], not, ltb,
  ◌==◌, if◌then◌else◌,
}
use dignus_actor_server_rust.Core.Outcome.{Outcome, returned, panicked}
use dignus_actor_server_rust.Core.Registry.{
  ActorRegistry, reserve, commit, snapshot_live, live_count,
}
use dignus_actor_server_rust.Core.Registry
use dignus_actor_server_rust.Core.Queue.{MpscBoundedQueue}
use dignus_actor_server_rust.Core.Queue

abbrev pub default_mailbox_capacity : ℕ
default_mailbox_capacity = 1024

abbrev pub default_actor_capacity : ℕ
default_actor_capacity = 65536

-- What a spawn puts in the registry, of what `ActorRunner::new` is given: the actor itself, its
-- alias, its dispatcher and its mailbox.
pub record Spawned (A : Type 0) : Type 0 where
  pub actor : A
  pub alias : Option ℕ
  pub dispatcher_index : ℕ
  pub mailbox : MpscBoundedQueue A

pub record ActorSystem (A : Type 0) : Type 0 where
  pub registry : ActorRegistry (Spawned A)
  pub alias_to_handle : List (ℕ × (ℕ × ℕ))
  pub alias_poisoned : Bool
  pub dispatcher_count : ℕ
  pub is_disposed : Bool

abbrev pub is_some : {V : Type 0} → Option V → Bool
is_some none = false
is_some (some v) = true

abbrev pub or_shared : Option ℕ → ℕ → ℕ
or_shared none shared = shared
or_shared (some dispatcher_index) shared = dispatcher_index

module _ {A : Type 0} where
  -- `with_capacities`; `none` is its panic.
  unfoldable pub with_capacities : ℕ → ℕ → Option (ActorSystem A)
  with_capacities dispatcher_thread_count actor_capacity =
      if dispatcher_thread_count == 0
      then none
      else some (record {
        registry = Registry.with_capacity (Spawned A) actor_capacity;
        alias_to_handle = [];
        alias_poisoned = false;
        dispatcher_count = dispatcher_thread_count;
        is_disposed = false;
      })

  unfoldable pub with_capacity : ℕ → ℕ → Option (ActorSystem A)
  unfolding with_capacities
  with_capacity dispatcher_thread_count actor_capacity =
      with_capacities dispatcher_thread_count actor_capacity

  unfoldable pub new : ℕ → Option (ActorSystem A)
  unfolding with_capacity
  new dispatcher_thread_count = with_capacity dispatcher_thread_count default_actor_capacity

  -- The first test of an alias: false where it panics, of a duplicate or of a poisoned lock.
  unfoldable pub alias_is_free : ActorSystem A → Option ℕ → Bool
  alias_is_free s none = true
  alias_is_free s (some alias) =
      if s.alias_poisoned
      then false
      else if is_some (lookup alias s.alias_to_handle)
      then false
      else true

  -- The handle was reserved and the runner made: the alias, if there is one, and `commit`.
  unfoldable pub publish :
      ActorSystem A → Option ℕ → ℕ × ℕ → Spawned A → Outcome (ActorSystem A) (ℕ × ℕ)
  publish s none (index, generation) runner =
      returned (index, generation)
        (record s { registry = commit (Spawned A) s.registry index runner })
  publish s (some alias) (index, generation) runner =
      if s.alias_poisoned
      then panicked s
      else if is_some (lookup alias s.alias_to_handle)
      then panicked (record s { alias_poisoned = true })
      else returned (index, generation)
          (record s {
            alias_to_handle = insert alias (index, generation) s.alias_to_handle;
            registry = commit (Spawned A) s.registry index runner;
          })

  -- The mailbox of the runner was made, or its capacity refused by a panic.
  unfoldable pub with_mailbox :
      ActorSystem A
      → A
      → ℕ
      → Option ℕ
      → ℕ × ℕ
      → Option (MpscBoundedQueue A)
      → Outcome (ActorSystem A) (ℕ × ℕ)
  unfolding publish
  with_mailbox s actor dispatcher_index alias handle none = panicked s
  with_mailbox s actor dispatcher_index alias handle (some mailbox) =
      publish s alias handle (record {
        actor = actor;
        alias = alias;
        dispatcher_index = dispatcher_index;
        mailbox = mailbox;
      })

  -- `registry.reserve` has run.
  unfoldable pub with_handle :
      ActorSystem A
      → A
      → Option ℕ
      → Option ℕ
      → ℕ
      → Outcome (ActorRegistry (Spawned A)) (ℕ × ℕ)
      → Outcome (ActorSystem A) (ℕ × ℕ)
  unfolding with_mailbox
  with_handle s actor dispatcher_index alias mailbox_capacity (panicked registry) =
      panicked (record s { registry = registry })
  with_handle s actor dispatcher_index alias mailbox_capacity
        (returned (index, generation) registry) =
      with_mailbox (record s { registry = registry }) actor
        (or_shared dispatcher_index (index % s.dispatcher_count)) alias (index, generation)
        (Queue.new A mailbox_capacity)

  -- `early` is the state in which the alias was tested under the read lock.
  unfoldable pub register_actor :
      (early s : ActorSystem A) → A → Option ℕ → Option ℕ → ℕ → Outcome (ActorSystem A) (ℕ × ℕ)
  unfolding with_handle alias_is_free
  register_actor early s actor dispatcher_index alias mailbox_capacity =
      if alias_is_free early alias
      then with_handle s actor dispatcher_index alias mailbox_capacity
          (reserve (Spawned A) s.registry)
      else panicked s

  unfoldable pub spawn_with_dispatcher :
      ActorSystem A → A → ℕ → Option ℕ → ℕ → Outcome (ActorSystem A) (ℕ × ℕ)
  unfolding register_actor
  spawn_with_dispatcher s actor dispatcher_index alias mailbox_capacity =
      if s.is_disposed
      then panicked s
      else if leb s.dispatcher_count dispatcher_index
      then panicked s
      else register_actor s s actor (some dispatcher_index) alias mailbox_capacity

  unfoldable pub spawn_with_auto_dispatcher :
      ActorSystem A → A → Option ℕ → ℕ → Outcome (ActorSystem A) (ℕ × ℕ)
  unfolding register_actor
  spawn_with_auto_dispatcher s actor alias mailbox_capacity =
      if s.is_disposed then panicked s else register_actor s s actor none alias mailbox_capacity

  unfoldable pub try_get_actor_ref_by_alias :
      ActorSystem A → ℕ → Outcome (ActorSystem A) (Option (ℕ × ℕ))
  try_get_actor_ref_by_alias s alias =
      if s.alias_poisoned then panicked s else returned (lookup alias s.alias_to_handle) s

  unfoldable pub drop_alias_of : ActorSystem A → Option ℕ → Outcome (ActorSystem A) Unit
  drop_alias_of s none = returned tt s
  drop_alias_of s (some alias) =
      if s.alias_poisoned
      then panicked s
      else returned tt (record s { alias_to_handle = remove alias s.alias_to_handle })

  -- The alias of the actor that was removed, under the write lock.
  unfoldable pub drop_alias : ActorSystem A → Option (Spawned A) → Outcome (ActorSystem A) Unit
  unfolding drop_alias_of
  drop_alias s none = returned tt s
  drop_alias s (some runner) = drop_alias_of s runner.alias

  unfoldable pub with_removed :
      ActorSystem A
      → Outcome (ActorRegistry (Spawned A)) (Option (Spawned A))
      → Outcome (ActorSystem A) Unit
  unfolding drop_alias
  with_removed s (panicked registry) = panicked (record s { registry = registry })
  with_removed s (returned runner registry) = drop_alias (record s { registry = registry }) runner

  unfoldable pub finalize_kill : ActorSystem A → ℕ → ℕ → Outcome (ActorSystem A) Unit
  unfolding with_removed
  finalize_kill s index generation =
      with_removed s (Registry.remove (Spawned A) s.registry index generation)

  -- The actors that a shutdown kills, where it is the first. Before that the source stops the ask
  -- system, which is `stop` in Core/Ask.
  unfoldable pub begin_shutdown : ActorSystem A → Outcome (ActorSystem A) (List (Spawned A))
  begin_shutdown s =
      if s.is_disposed then returned [] s else elim (snapshot_live (Spawned A) s.registry) [
        | returned runners registry ↦
            returned runners (record s { registry = registry; is_disposed = true })
        | panicked registry ↦ panicked (record s { registry = registry; is_disposed = true })
      ]

  -- The test that `dispose` and `shutdown_timeout` spin on.
  unfoldable pub all_gone : ActorSystem A → Outcome (ActorRegistry (Spawned A)) ℕ
  all_gone s = live_count (Spawned A) s.registry
