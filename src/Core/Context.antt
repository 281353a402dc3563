-- ===== src/Core/Context.antt =====
-- `ActorContext` of dignus-actor-core/src/actor_base.rs: what an actor knows of its dispatcher and of
-- itself. A dispatcher is its id, `Ref` is the type of references. A `OnceLock` is an option that is
-- set once.
pub mod Once
mod Tests
use dignus_actor_server_rust.Common.{
  ℕ, Bool, not, true, false, Option, none, some, ◌==◌, if◌then◌else◌,
}
use dignus_actor_server_rust.Core.Outcome.{Outcome, returned, panicked}

pub record ActorContext (Ref : Type 0) : Type 0 where
  pub dispatcher : Option ℕ
  pub self_ref : Option Ref

module _ {Ref : Type 0} where
  unfoldable pub new : ActorContext Ref
  new = record { dispatcher = none; self_ref = none }

  -- `OnceLock::set` of `self_ref`, and its panic.
  unfoldable pub set_self_ref :
      Option Ref → ActorContext Ref → Ref → Outcome (ActorContext Ref) Unit
  set_self_ref none c actor_ref = returned tt (record c { self_ref = some actor_ref })
  set_self_ref (some old) c actor_ref = panicked c

  unfoldable pub set_dispatcher :
      Option ℕ → ActorContext Ref → ℕ → Ref → Outcome (ActorContext Ref) Unit
  unfolding set_self_ref
  set_dispatcher none c actor_dispatcher actor_ref =
      set_self_ref c.self_ref (record c { dispatcher = some actor_dispatcher }) actor_ref
  set_dispatcher (some old) c actor_dispatcher actor_ref = panicked c

  unfoldable pub initialize : ActorContext Ref → ℕ → Ref → Outcome (ActorContext Ref) Unit
  unfolding set_dispatcher
  initialize c actor_dispatcher actor_ref = set_dispatcher c.dispatcher c actor_dispatcher actor_ref

  abbrev pub expect : {A : Type 0} → Option A → ActorContext Ref → Outcome (ActorContext Ref) A
  expect none c = panicked c
  expect (some a) c = returned a c

  unfoldable pub dispatcher : ActorContext Ref → Outcome (ActorContext Ref) ℕ
  dispatcher c = expect c.dispatcher c

  unfoldable pub self_ref_trait : ActorContext Ref → Outcome (ActorContext Ref) Ref
  self_ref_trait c = expect c.self_ref c

  -- The dispatcher whose thread runs the code, if there is one, against the actor's; `dispatcher`
  -- panics on its own where the context was not initialized.
  unfoldable pub verify_own : Option ℕ → ℕ → ActorContext Ref → Outcome (ActorContext Ref) Unit
  verify_own none own c = panicked c
  verify_own (some current) own c = if not (current == own) then panicked c else returned tt c

  unfoldable pub verify_context : Option ℕ → ActorContext Ref → Outcome (ActorContext Ref) Unit
  unfolding verify_own
  verify_context current c = elim c.dispatcher [
    | none ↦ panicked c
    | some own ↦ verify_own current own c
  ]
