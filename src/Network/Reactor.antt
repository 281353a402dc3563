-- ===== src/Network/Reactor.antt =====
-- dignus-actor-network/src/reactor.rs: the event loop of one worker, over its handler and its
-- transport. `peers` are the other workers' shared parts: where `accept` hands a stream to the worker
-- itself, the source's `peers` hold the same `Arc` as `shared`. The results of the poll's registry
-- are parameters. `calls` is for the statements: what the handler was called with.
pub mod Run
pub mod Protocol
pub mod Good
pub mod Keeps
pub mod Flushes
pub mod Arrivals
pub mod Turns
pub mod Sessions
pub mod SessionLaws
pub mod LastWords
pub mod Closing
mod Tests
pub mod Watch
pub mod Shutdown
pub mod Accepting
use dignus_actor_server_rust.Common.{
  ℕ, zero, suc, ◌+◌, ◌%◌, Bool, true, false, ◌&&◌, ◌||◌, not, Option, none, some, List, [], ◌∷◌,
  ◌++◌, ◌==◌, if◌then◌else◌, lookup, insert, modify, remove, keys, ◌>>=◌, ◌≡◌, max, map,
}
use dignus_actor_server_rust.Network.SendBuffer.{SendBuffer, has_pending}
use dignus_actor_server_rust.Network.Session
use dignus_actor_server_rust.Network.Session.{Session, ReactorShared, mark_disposed}
use dignus_actor_server_rust.Network.Tcp.{TransportOutcome, continue_on, closed}
use dignus_actor_server_rust.Network.Handler.{Env, Uses, update, HostHandler, TransportApi}

abbrev pub first_connection_token : ℕ
first_connection_token = 2

-- The calls of the handler, each with the token of its session.
pub data Call : Type 0 where
  accepted disconnected : ℕ → Call
  data_of : ℕ → List ℕ → Call

-- What `listener.accept` answers.
pub data AcceptResult : Type 0 where
  stream_of : ℕ → AcceptResult
  accept_would_block accept_interrupted accept_failed : AcceptResult

-- `Poll::registry`: whether `register` and `reregister` succeed, by token.
pub record Registry : Type 0 where
  pub register : ℕ → Bool
  pub reregister : ℕ → Bool

abbrev pub push_incoming : ReactorShared → ℕ × ℕ → ReactorShared
push_incoming shared stream = record shared {
  incoming = shared.incoming ++ (stream ∷ []);
  woken = true;
}

module _ (handler : HostHandler) (transport : TransportApi) (registry : Registry) where
  open handler use {on_accepted, on_data, on_disconnected}
  open transport use {create, read, write, wants_write}

  -- The session of a connection is the one of its token; `writable` is the interest in writing that
  -- the stream is registered with.
  pub record ManagedConnection : Type 0 where
    pub conn : transport.Conn
    pub writable : Bool

  pub record Reactor : Type 0 where
    pub env : Env
    pub connections : List (ℕ × ManagedConnection)
    pub handler_state : handler.State
    pub has_listener : Bool
    pub index : ℕ
    pub peers : ℕ → ReactorShared
    pub worker_count : ℕ
    pub next_token : ℕ
    pub next_session_id : ℕ
    pub next_worker : ℕ
    pub max_pending_send : ℕ
    pub calls : List Call

  -- The handler has returned.
  abbrev pub called : Reactor → Call → handler.State × Env → Reactor
  called r call (state, env) = record r {
    handler_state = state;
    env = env;
    calls = r.calls ++ (call ∷ []);
  }

  -- `accept`, up to where it blocks; `none` is an error that ends the worker.
  abbrev pub hand_over : Reactor → ℕ → Reactor
  hand_over r stream =
      let r' = record r {
        next_session_id = r.next_session_id + 1;
        next_worker = (r.next_worker + 1) % r.worker_count;
      } in
      if r.next_worker == r.index
      then record r' {
        env = record (r.env) { shared = push_incoming r.env.shared (stream, r.next_session_id) };
      }
      else record r' {
        peers = λ i.
            if r.next_worker == i
            then push_incoming (r.peers i) (stream, r.next_session_id)
            else r.peers i;
      }

  unfoldable pub accept_loop : List AcceptResult → Reactor → Option Reactor
  accept_loop [] r = some r
  accept_loop (stream_of stream ∷ results) r = accept_loop results (hand_over r stream)
  accept_loop (accept_would_block ∷ results) r = some r
  accept_loop (accept_interrupted ∷ results) r = accept_loop results r
  accept_loop (accept_failed ∷ results) r = none

  unfoldable pub accept : List AcceptResult → Reactor → Option Reactor
  unfolding accept_loop
  accept results r = if r.has_listener then accept_loop results r else some r

  -- A new connection, on a stream that was registered.
  abbrev pub connected : Reactor → ℕ → ℕ → ℕ → Reactor
  connected r token stream session_id = record r {
    env = record (r.env) {
      heap = update r.env.heap token (Session.new session_id token r.max_pending_send);
    };
    connections = insert token (record { conn = create stream; writable = false }) r.connections;
    next_token = token + 1;
  }

  unfoldable pub take_stream : Reactor → ℕ × ℕ → Option Reactor
  take_stream r (stream, session_id) =
      let token = r.next_token in
      if registry.register token
      then (on_accepted r.handler_state (connected r token stream session_id).env token
          >>= λ answer. some (called (connected r token stream session_id) (accepted token) answer))
      else some (record r { next_token = token + 1 })

  unfoldable pub take_streams : List (ℕ × ℕ) → Reactor → Option Reactor
  unfolding take_stream
  take_streams [] r = some r
  take_streams (stream ∷ streams) r = do r' ← take_stream r stream; take_streams streams r'

  abbrev pub set_shared : Reactor → ReactorShared → Reactor
  set_shared r shared = record r { env = record (r.env) { shared = shared } }

  unfoldable pub take_incoming : Reactor → Option Reactor
  unfolding take_streams
  take_incoming r =
      take_streams r.env.shared.incoming (set_shared r (record (r.env.shared) { incoming = [] }))

  -- `flush`: whether the connection has to be closed.
  abbrev pub flushed :
      Reactor
      → ℕ
      → ManagedConnection
      → TransportOutcome × SendBuffer × transport.Conn
      → Bool × Reactor
  flushed r token c (outcome, outbound, conn) =
      let env = record (r.env) {
        heap = update r.env.heap token (record (r.env.heap token) { outbound = outbound });
      } in
      elim outcome [
        | closed ↦ (
          true,
          record r {
            env = env;
            connections =
                modify token (record { conn = conn; writable = c.writable }) r.connections;
          },
        )
        | continue_on ↦ (
          false,
          record r {
            env = env;
            connections =
                modify token
                  (record {
                    conn = conn;
                    writable =
                        if registry.reregister token
                        then has_pending outbound || wants_write conn
                        else c.writable;
                  })
                  r.connections;
          },
        )
      ]

  unfoldable pub flush_connection : Reactor → ℕ → Option ManagedConnection → Bool × Reactor
  flush_connection r token none = (false, r)
  flush_connection r token (some c) = flushed r token c (write c.conn (r.env.heap token).outbound)

  abbrev pub flush : Reactor → ℕ → Bool × Reactor
  flush r token = flush_connection r token (lookup token r.connections)

  -- `close`
  abbrev pub dropped : Reactor → ℕ → Reactor
  dropped r token = record r {
    env = record (r.env) { heap = update r.env.heap token (mark_disposed (r.env.heap token)) };
    connections = remove token r.connections;
  }

  unfoldable pub close_connection : Reactor → ℕ → Option ManagedConnection → Option Reactor
  close_connection r token none = some r
  close_connection r token (some c) = do
    answer ← on_disconnected r.handler_state (dropped r token).env (r.env.heap token).id
    some (called (dropped r token) (disconnected token) answer)

  abbrev pub close : Reactor → ℕ → Option Reactor
  close r token = close_connection r token (lookup token r.connections)

  abbrev pub close_if : Bool × Reactor → ℕ → Option Reactor
  close_if (false, r) token = some r
  close_if (true, r) token = close r token

  unfoldable pub flush_all : List ℕ → Reactor → Option Reactor
  unfolding flush_connection close_connection
  flush_all [] r = some r
  flush_all (token ∷ tokens) r = do r' ← close_if (flush r token) token; flush_all tokens r'

  unfoldable pub flush_pending : Reactor → Option Reactor
  unfolding flush_all
  flush_pending r =
      flush_all r.env.shared.pending_writes
        (set_shared r (record (r.env.shared) { pending_writes = [] }))

  unfoldable pub close_each : List ℕ → Reactor → Option Reactor
  unfolding close_connection
  close_each [] r = some r
  close_each (token ∷ tokens) r = do r' ← close r token; close_each tokens r'

  unfoldable pub close_pending : Reactor → Option Reactor
  unfolding close_each
  close_pending r =
      close_each r.env.shared.pending_closes
        (set_shared r (record (r.env.shared) { pending_closes = [] }))

  unfoldable pub close_all : Reactor → Option Reactor
  unfolding close_each
  close_all r = close_each (keys r.connections) r

  -- The handler gets the bytes of a read, if there are any.
  unfoldable pub deliver : Reactor → ℕ → List ℕ → Option Reactor
  deliver r token [] = some r
  deliver r token (b ∷ bs) = do
    answer ← on_data r.handler_state r.env token (b ∷ bs)
    some (called r (data_of token (b ∷ bs)) answer)

  abbrev pub flush_unless : TransportOutcome → Reactor → ℕ → Bool × Reactor
  flush_unless closed r token = (true, r)
  flush_unless continue_on r token = flush r token

  unfoldable pub read_connection : Reactor → ℕ → Option ManagedConnection → Option (Bool × Reactor)
  unfolding deliver flush_connection
  read_connection r token none = some (false, r)
  read_connection r token (some c) =
      let (outcome, bytes, conn) = read c.conn in
      do
        r' ←
            deliver
              (record r {
                connections =
                    modify token (record { conn = conn; writable = c.writable }) r.connections;
              })
              token bytes
        some (flush_unless outcome r' token)

  abbrev pub read_if : Bool → Reactor → ℕ → Option (Bool × Reactor)
  read_if false r token = some (false, r)
  read_if true r token = read_connection r token (lookup token r.connections)

  abbrev pub flush_if : Bool → Bool × Reactor → ℕ → Bool × Reactor
  flush_if true (false, r) token = flush r token
  flush_if _ (is_closed, r) token = (is_closed, r)

  unfoldable pub handle_connection : Reactor → ℕ → Bool → Bool → Option Reactor
  unfolding read_connection flush_connection close_connection
  handle_connection r token readable writable = do
    after_read ← read_if readable r token
    close_if (flush_if writable after_read token) token
