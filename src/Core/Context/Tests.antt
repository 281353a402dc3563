-- ===== src/Core/Context/Tests.antt =====
-- A context on the dispatcher 2.
use dignus_actor_server_rust.Common.{ℕ, ◌≡◌, refl, some}
use dignus_actor_server_rust.Core.Outcome.{returned, panicked}
use dignus_actor_server_rust.Core.Context.{
  ActorContext, initialize, set_dispatcher, verify_own, verify_context,
}

abbrev on_two : ActorContext ℕ
on_two = record { dispatcher = some 2; self_ref = some 8 }

again : initialize on_two 3 9 ≡ panicked on_two
unfolding initialize set_dispatcher
again = refl

elsewhere : verify_context (some 3) on_two ≡ panicked on_two
unfolding verify_context verify_own
elsewhere = refl

at_home : verify_context (some 2) on_two ≡ returned tt on_two
unfolding verify_context verify_own
at_home = refl
