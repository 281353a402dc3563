-- ===== src/Core/Context/Once.antt =====
-- A context is initialized once.
use dignus_actor_server_rust.Common.{
  ℕ, ◌≡◌, refl, Option, none, some, ◌==◌, if◌then◌else◌, Bool-cases, inl, inr,
}
use dignus_actor_server_rust.Core.Outcome.{returned, panicked}
use dignus_actor_server_rust.Core.Context.{
  ActorContext, new, initialize, set_dispatcher, set_self_ref, dispatcher, self_ref_trait,
  verify_context, verify_own,
}

module _ {Ref : Type 0} where
  -- A new context panics at every use; once it is initialized it gives what it was initialized with,
  -- it panics and stays the same at every further initialization, and `verify_context` returns on the
  -- thread of the actor's dispatcher and panics on every other.
  pub initialize_once :
      (own own' : ℕ) (actor_ref actor_ref' : Ref) (current : Option ℕ)
      → let c : ActorContext Ref = record { dispatcher = some own; self_ref = some actor_ref } in
        (dispatcher {Ref = Ref} new ≡ panicked new)
        × (self_ref_trait {Ref = Ref} new ≡ panicked new)
        × (verify_context {Ref = Ref} current new ≡ panicked new)
        × (initialize new own actor_ref ≡ returned tt c)
        × (dispatcher c ≡ returned own c)
        × (self_ref_trait c ≡ returned actor_ref c)
        × (initialize c own' actor_ref' ≡ panicked c)
        × (verify_context none c ≡ panicked c)
        × (verify_context (some own') c ≡ (if own' == own then returned tt c else panicked c))
  unfolding dispatcher self_ref_trait verify_context initialize set_dispatcher set_self_ref new
      verify_own
  initialize_once own own' actor_ref actor_ref' current = (
    refl,
    refl,
    refl,
    refl,
    refl,
    refl,
    refl,
    refl,
    elim (Bool-cases (own' == own)) [ inl e ↦ rw e refl | inr e ↦ rw e refl ],
  )
