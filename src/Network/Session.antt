-- ===== src/Network/Session.antt =====
-- dignus-actor-network/src/session.rs (with send_result.rs): a connection as its users see it. An
-- operation takes the session and the part of its reactor that it shares, and returns both. The
-- mutexes and atomics make each access atomic; `wake` only marks that the reactor has to wake up.
pub mod Sending
use dignus_actor_server_rust.Common.{
  ℕ, ◌≡◌, Bool, true, false, ◌||◌, List, [], ◌∷◌, ◌++◌, length, not, if◌then◌else◌,
}
use dignus_actor_server_rust.Network.SendBuffer
use dignus_actor_server_rust.Network.SendBuffer.{SendBuffer}

-- `SendResult`
pub data SendResult : Type 0 where
  success buffer_full disposed : SendResult

-- `ReactorShared`: `incoming` holds the streams' handles with their session ids, and `woken` stands
-- for the waker's event.
pub record ReactorShared : Type 0 where
  pub woken : Bool
  pub stopped : Bool
  pub pending_writes : List ℕ
  pub pending_closes : List ℕ
  pub incoming : List (ℕ × ℕ)

pub record Session : Type 0 where
  pub id : ℕ
  pub token : ℕ
  pub outbound : SendBuffer
  pub is_disposed : Bool
  pub close_requested : Bool

unfoldable pub new : ℕ → ℕ → ℕ → Session
new id token max_pending_send = record {
  id = id;
  token = token;
  outbound = SendBuffer.new max_pending_send;
  is_disposed = false;
  close_requested = false;
}

unfoldable pub send : Session → ReactorShared → List ℕ → SendResult × Session × ReactorShared
send s shared bytes =
    if s.is_disposed || shared.stopped
    then (disposed, s, shared)
    else if not (SendBuffer.can_write s.outbound (length bytes))
    then (buffer_full, s, shared)
    else (
      success,
      record s { outbound = SendBuffer.append s.outbound bytes },
      record shared { pending_writes = shared.pending_writes ++ (s.token ∷ []); woken = true },
    )

unfoldable pub close : Session → ReactorShared → Session × ReactorShared
close s shared = if s.is_disposed then (s, shared) else if s.close_requested then (s, shared) else (
  record s { close_requested = true },
  record shared { pending_closes = shared.pending_closes ++ (s.token ∷ []); woken = true },
)

unfoldable pub mark_disposed : Session → Session
mark_disposed s = record s { is_disposed = true }
