-- ===== src/Core/DeadLetter.antt =====
-- dignus-actor-core/src/dead_letter/dead_letter_message.rs and dead_letter_reason.rs: a letter, and the
-- one that dignus-actor-core/src/internals/actor_runner.rs publishes. `M` is the type of messages and
-- `Ref` of references; a time is a number.
use dignus_actor_server_rust.Common.{ℕ, Option, none}
use dignus_actor_server_rust.Core.System.DeadLetters.{DeadLetters, publish}

pub data DeadLetterReason : Type 0 where
  unknown mailbox_full recipient_invalidated actor_stopped : DeadLetterReason
  actor_system_disposed execution_exception : DeadLetterReason

pub record DeadLetterMessage (M Ref : Type 0) : Type 0 where
  pub message : M
  pub sender : Option Ref
  pub recipient_actor_id : ℕ
  pub detected_timestamp : ℕ
  pub reason : DeadLetterReason

module _ {M Ref : Type 0} where
  -- `now` is what `SystemTime::now` answers. An id is an `i64` that was made of a `u32`.
  unfoldable pub new : ℕ → M → Option Ref → ℕ → DeadLetterReason → DeadLetterMessage M Ref
  new now message sender recipient_actor_id reason = record {
    message = message;
    sender = sender;
    recipient_actor_id = recipient_actor_id;
    detected_timestamp = now;
    reason = reason;
  }

  unfoldable pub into_message : DeadLetterMessage M Ref → M
  into_message letter = letter.message

  -- `ActorRunner::publish_execution_exception`, of the actor at an index.
  unfoldable pub publish_execution_exception :
      {Cb : Type 0}
      → DeadLetters Cb (DeadLetterMessage M Ref)
      → (now : ℕ) (exception : M) (index : ℕ) → DeadLetters Cb (DeadLetterMessage M Ref)
  unfolding new publish
  publish_execution_exception d now exception index =
      publish d (new now exception none index execution_exception)
