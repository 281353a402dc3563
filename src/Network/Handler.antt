-- ===== src/Network/Handler.antt =====
-- dignus-actor-network/src/handler.rs and transport.rs: what the reactor calls. A handler gets at the
-- reactor's sessions through `Session`, so it changes them by `send` and `close` only.
pub mod Sound
use dignus_actor_server_rust.Common.{ℕ, Bool, Option, List, ◌==◌, if◌then◌else◌, Returns}
use dignus_actor_server_rust.Network.SendBuffer.{SendBuffer}
use dignus_actor_server_rust.Network.Session
use dignus_actor_server_rust.Network.Session.{Session, ReactorShared}
use dignus_actor_server_rust.Network.Tcp.{TransportOutcome}

-- The reactor's sessions by token, as the `Arc<Session>`s that it shares with its users, and the part
-- of the reactor that the sessions share.
pub record Env : Type 0 where
  pub heap : ℕ → Session
  pub shared : ReactorShared

abbrev pub update : (ℕ → Session) → ℕ → Session → ℕ → Session
update heap token s t = if token == t then s else heap t

abbrev pub after_send : Env → ℕ → List ℕ → Env
after_send e token bytes =
    let (result, s, shared) = Session.send (e.heap token) e.shared bytes in
    record { heap = update e.heap token s; shared = shared }

abbrev pub after_close : Env → ℕ → Env
after_close e token =
    let (s, shared) = Session.close (e.heap token) e.shared in
    record { heap = update e.heap token s; shared = shared }

-- What users of sessions can make of them.
pub data Uses (e : Env) : Env → Type 0 where
  unused : Uses e e
  then_send :
      {f : Env} → Uses e f → (token : ℕ) (bytes : List ℕ) → Uses e (after_send f token bytes)
  then_close : {f : Env} → Uses e f → (token : ℕ) → Uses e (after_close f token)

-- `HostHandler`: its three methods, by the session's token or its id; `none` is a panic.
pub record HostHandler : Type 1 where
  pub State : Type 0
  pub on_accepted : State → Env → ℕ → Option (State × Env)
  pub on_data : State → Env → ℕ → List ℕ → Option (State × Env)
  pub on_disconnected : State → Env → ℕ → Option (State × Env)

-- A handler changes sessions only as their users can.
pub record HandlerLaws (h : HostHandler) : Type 0 where
  pub accepted_uses :
      (s : h.State) (e : Env) (token : ℕ) → Returns (λ x. Uses e x.1) (h.on_accepted s e token)
  pub data_uses :
      (s : h.State) (e : Env) (token : ℕ) (bytes : List ℕ)
      → Returns (λ x. Uses e x.1) (h.on_data s e token bytes)
  pub disconnected_uses :
      (s : h.State) (e : Env) (id : ℕ) → Returns (λ x. Uses e x.1) (h.on_disconnected s e id)

-- `Transport` with the stream that it works on; `create` is a connection of an accepted stream.
pub record TransportApi : Type 1 where
  pub Conn : Type 0
  pub create : ℕ → Conn
  pub read : Conn → TransportOutcome × List ℕ × Conn
  pub write : Conn → SendBuffer → TransportOutcome × SendBuffer × Conn
  pub wants_write : Conn → Bool
