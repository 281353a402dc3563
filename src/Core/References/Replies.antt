-- ===== src/Core/References/Replies.antt =====
-- What an actor sends says where it comes from.
use dignus_actor_server_rust.Common.{ℕ, ◌≡◌, refl, Option, some, [], ◌∷◌, ◌++◌}
use dignus_actor_server_rust.Core.Outcome.{returned}
use dignus_actor_server_rust.Core.Registry.{target}
use dignus_actor_server_rust.Core.Context.{ActorContext, self_ref_trait}
use dignus_actor_server_rust.Core.References.{
  ActorRef, actor, ActorMail, World, mail_to, post, posted_from, post_from,
}

module _ {M W R : Type 0} where
  -- A message between two live actors, sent through the context of the first, is one mail for the
  -- runner of the second, and what is sent back to its sender is one mail for the runner of the first.
  pub post_from-post :
      (w : World M W R) (c : ActorContext ActorRef) (i g j h : ℕ) (first second : R)
      (message answer : M) (sender : Option ActorRef)
      → c.self_ref ≡ some (actor i g)
      → target R w.registry w.registry i g ≡ some first
      → target R w.registry w.registry j h ≡ some second
      → let mail : ActorMail M = record { message = message; sender = some (actor i g) } in
        let back : ActorMail M = record { message = answer; sender = sender } in
        let w₁ = mail_to (some second) w mail in
        (post_from w c (actor j h) message ≡ returned tt w₁)
        × ((post w₁ (actor i g) answer sender).enqueued
            ≡ (w.enqueued ++ ((second, mail) ∷ [])) ++ ((first, back) ∷ []))
  unfolding post_from posted_from post self_ref_trait
  post_from-post w c i g j h first second message answer sender own from to =
      (rw (own, to) refl, rw from refl)
