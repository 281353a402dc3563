-- ===== src/Network/Reactor/Run.antt =====
-- dignus-actor-network/src/reactor.rs: `build_pool`, the loop of `run`, and a worker among the other
-- threads of the server.
use dignus_actor_server_rust.Common.{
  ℕ, Bool, true, false, Option, none, some, List, [], ◌∷◌, ◌==◌, if◌then◌else◌, ◌>>=◌, ◌≡◌, max,
}
use dignus_actor_server_rust.Network.Session
use dignus_actor_server_rust.Network.Session.{ReactorShared}
use dignus_actor_server_rust.Network.Handler.{Env, Uses, HostHandler, TransportApi}
use dignus_actor_server_rust.Network.Reactor.{
  first_connection_token, AcceptResult, Registry, Reactor, push_incoming, set_shared, accept,
  take_incoming, flush_pending, close_pending, close_all, handle_connection,
}

module _ (handler : HostHandler) (transport : TransportApi) (registry : Registry) where
  -- A reactor.
  abbrev Worker : Type 0
  Worker = Reactor handler transport registry

  -- An event of the poll, with what the listener answers.
  pub data Event : Type 0 where
    listener : List AcceptResult → Event
    waker : Event
    connection : (token : ℕ) (readable writable : Bool) → Event

  -- What an event leaves: a worker that goes on, one that has returned, or one that ended in an error
  -- or a panic.
  pub data Turn : Type 0 where
    goes_on returned : Worker → Turn
    ended : Turn

  abbrev pub turn_of : (Worker → Turn) → Option Worker → Turn
  turn_of f none = ended
  turn_of f (some r) = f r

  unfoldable pub woken_up : Worker → Option Worker
  unfolding take_incoming flush_pending close_pending
  woken_up r = do
    r₁ ← take_incoming handler transport registry r
    r₂ ← flush_pending handler transport registry r₁
    close_pending handler transport registry r₂

  -- The waker's event is used up before it is handled.
  unfoldable pub handle_event : Worker → Event → Turn
  unfolding accept handle_connection close_all woken_up
  handle_event r (listener results) = turn_of goes_on (accept handler transport registry results r)
  handle_event r waker =
      let r' = set_shared handler transport registry r (record (r.env.shared) { woken = false }) in
      if r.env.shared.stopped
      then turn_of returned (close_all handler transport registry r')
      else turn_of goes_on (woken_up r')
  handle_event r (connection token readable writable) =
      turn_of goes_on (handle_connection handler transport registry r token readable writable)

  unfoldable pub run : List Event → Worker → Turn
  unfolding handle_event
  run [] r = goes_on r
  run (event ∷ events) r = elim (handle_event r event) [
    | goes_on r' ↦ run events r'
    | returned r' ↦ returned r'
    | ended ↦ ended
  ]

  -- A worker of `build_pool`.
  unfoldable pub new : (index worker_count max_pending_send : ℕ) → handler.State → Worker
  new index worker_count max_pending_send state =
      let shared : ReactorShared = record {
        woken = false;
        stopped = false;
        pending_writes = [];
        pending_closes = [];
        incoming = [];
      } in
      record {
        env = record { heap = λ t. Session.new 0 t max_pending_send; shared = shared };
        connections = [];
        handler_state = state;
        has_listener = index == 0;
        index = index;
        peers = λ i. shared;
        worker_count = max worker_count 1;
        next_token = first_connection_token;
        next_session_id = 1;
        next_worker = 0;
        max_pending_send = max_pending_send;
        calls = [];
      }

  -- A worker among other threads, whose actions fall between its events: users of its sessions,
  -- another worker that hands over a stream, and `HostShutdown`.
  pub data Reach (index worker_count max_pending_send : ℕ) (state : handler.State)
      : Worker → Type 0 where
    start :
        Reach index worker_count max_pending_send state
          (new index worker_count max_pending_send state)
    by_event :
        {r r' : Worker}
        → Reach index worker_count max_pending_send state r
        → (event : Event) → handle_event r event ≡ goes_on r'
        → Reach index worker_count max_pending_send state r'
    by_users :
        {r : Worker} {env : Env}
        → Reach index worker_count max_pending_send state r
        → Uses r.env env
        → Reach index worker_count max_pending_send state (record r { env = env })
    by_peer :
        {r : Worker}
        → Reach index worker_count max_pending_send state r
        → (stream : ℕ × ℕ)
        → Reach index worker_count max_pending_send state
            (set_shared handler transport registry r (push_incoming r.env.shared stream))
    by_shutdown :
        {r : Worker}
        → Reach index worker_count max_pending_send state r
        → Reach index worker_count max_pending_send state (
            set_shared handler transport registry r
              (record (r.env.shared) { stopped = true; woken = true }))
