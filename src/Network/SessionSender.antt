-- ===== src/Network/SessionSender.antt =====
-- dignus-actor-network/src/session_sender.rs: what an actor writes through. `encoder` is its
-- `FrameEncoder`, and the session is held by what it points to.
pub mod Frames
use dignus_actor_server_rust.Common.{ℕ, Bool, List, [], ◌∷◌}
use dignus_actor_server_rust.Network.Session
use dignus_actor_server_rust.Network.Session.{
  Session, ReactorShared, SendResult, success, buffer_full, disposed,
}

-- `FrameEncoder`: its one method.
abbrev pub Encoder : Type 0
Encoder = List ℕ → List ℕ

pub record SessionSender : Type 0 where
  pub session : Session
  pub encoder : Encoder

unfoldable pub new : Session → Encoder → SessionSender
new session encoder = record { session = session; encoder = encoder }

unfoldable pub id : SessionSender → ℕ
id sender = (sender.session).id

unfoldable pub is_disposed : SessionSender → Bool
is_disposed sender = (sender.session).is_disposed

-- An operation of the session, whose new state the sender then points to.
abbrev after_send :
    SessionSender
    → SendResult × Session × ReactorShared
    → SendResult × SessionSender × ReactorShared
after_send sender (result, s, shared) = (result, record sender { session = s }, shared)

unfoldable pub send_raw :
    SessionSender → ReactorShared → List ℕ → SendResult × SessionSender × ReactorShared
send_raw sender shared bytes = after_send sender (Session.send sender.session shared bytes)

unfoldable pub send :
    SessionSender → ReactorShared → List ℕ → SendResult × SessionSender × ReactorShared
send sender shared payload =
    after_send sender (Session.send sender.session shared (sender.encoder payload))

unfoldable pub close : SessionSender → ReactorShared → SessionSender × ReactorShared
close sender shared =
    let (s, shared') = Session.close sender.session shared in
    (record sender { session = s }, shared')

abbrev pub if_success : SendResult → List ℕ → List (List ℕ) → List (List ℕ)
if_success success p accepted = p ∷ accepted
if_success buffer_full p accepted = accepted
if_success disposed p accepted = accepted

-- Payloads that an actor sends one after the other, whatever the answers: those that were accepted.
unfoldable pub send_each :
    SessionSender → ReactorShared → List (List ℕ) → List (List ℕ) × SessionSender × ReactorShared
unfolding send
send_each sender shared [] = ([], sender, shared)
send_each sender shared (p ∷ ps) =
    let (result, sender₁, shared₁) = send sender shared p in
    let (accepted, sender₂, shared₂) = send_each sender₁ shared₁ ps in
    (if_success result p accepted, sender₂, shared₂)
