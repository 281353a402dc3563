-- ===== src/Core/References.antt =====
-- dignus-actor-core/src/internals/actor_ref.rs, internals/ask_reply_actor_ref.rs and
-- messages/actor_mail.rs: what is sent through a reference, and `ask`. `M` is the type of messages, `W` of wakers and `R`
-- of `Arc<ActorRunner>`. The two implementations of `ActorRefTrait` are the constructors of
-- `ActorRef`; the registry and the ask system that a reference shares are one state, and a call runs
-- whole (the registry's two reads of a generation are in Core/Registry).
pub mod Asking
pub mod Replies
mod Tests
use dignus_actor_server_rust.Common.{ℕ, Option, none, some, List, [], ◌∷◌, ◌++◌}
use dignus_actor_server_rust.Core.Registry.{ActorRegistry, target}
use dignus_actor_server_rust.Core.Outcome.{Outcome, returned, panicked}
use dignus_actor_server_rust.Core.Context.{ActorContext, self_ref_trait}
use dignus_actor_server_rust.Core.Ask
use dignus_actor_server_rust.Core.Ask.{AskSystem, register}

-- An actor's index and generation, or the awaiter that a reply goes to.
pub data ActorRef : Type 0 where
  actor : (index generation : ℕ) → ActorRef
  reply : (ask_awaiter : ℕ) → ActorRef

pub record ActorMail (M : Type 0) : Type 0 where
  pub message : M
  pub sender : Option ActorRef

-- `enqueued` and `killed` are the calls of `enqueue_only` and `kill` on runners, in order.
pub record World (M W R : Type 0) : Type 0 where
  pub registry : ActorRegistry R
  pub ask_system : AskSystem M W
  pub enqueued : List (R × ActorMail M)
  pub killed : List R

module _ {M W R : Type 0} where
  abbrev pub mail_to : Option R → World M W R → ActorMail M → World M W R
  mail_to none w mail = w
  mail_to (some runner) w mail = record w { enqueued = w.enqueued ++ ((runner, mail) ∷ []) }

  abbrev pub kill_at : Option R → World M W R → World M W R
  kill_at none w = w
  kill_at (some runner) w = record w { killed = w.killed ++ (runner ∷ []) }

  -- `post` of the trait.
  unfoldable pub post : World M W R → ActorRef → M → Option ActorRef → World M W R
  post w (actor index generation) message sender =
      mail_to (target R w.registry w.registry index generation) w
        (record { message = message; sender = sender })
  post w (reply ask_awaiter) message sender = record w {
    ask_system = Ask.post M W w.ask_system ask_awaiter message;
  }

  unfoldable pub post_mail : World M W R → ActorRef → ActorMail M → World M W R
  unfolding post
  post_mail w (actor index generation) mail =
      mail_to (target R w.registry w.registry index generation) w mail
  post_mail w (reply ask_awaiter) mail = post w (reply ask_awaiter) mail.message mail.sender

  unfoldable pub kill : World M W R → ActorRef → World M W R
  kill w (actor index generation) = kill_at (target R w.registry w.registry index generation) w
  kill w (reply ask_awaiter) = w

  -- `ask` of an actor, once `register` has returned; `id` is the new awaiter, which the caller gets.
  unfoldable pub ask_registered :
      World M W R → (index generation : ℕ) → M → ℕ → Option (AskSystem M W) → Option (World M W R)
  unfolding post
  ask_registered w index generation message id none = none
  ask_registered w index generation message id (some ask_system) = some (
      post (record w { ask_system = ask_system }) (actor index generation) message
        (some (reply id)))

  -- `none` is the panic of a system that was stopped.
  unfoldable pub ask :
      World M W R → (index generation : ℕ) → M → (id address now wait : ℕ) → Option (World M W R)
  unfolding ask_registered
  ask w index generation message id address now wait =
      ask_registered w index generation message id (register M W w.ask_system id address now wait)

  -- `post` of an actor's context: the sender is the actor's own reference, which panics where the
  -- context was not initialized.
  unfoldable pub posted_from :
      World M W R
      → Outcome (ActorContext ActorRef) ActorRef
      → ActorRef
      → M
      → Outcome (World M W R) Unit
  unfolding post
  posted_from w (panicked c) target_ref message = panicked w
  posted_from w (returned self_ref c) target_ref message =
      returned tt (post w target_ref message (some self_ref))

  unfoldable pub post_from :
      World M W R → ActorContext ActorRef → ActorRef → M → Outcome (World M W R) Unit
  unfolding posted_from
  post_from w c target_ref message = posted_from w (self_ref_trait c) target_ref message
