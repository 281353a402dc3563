-- ===== src/Network/Reactor/Sessions.antt =====
-- The worker that dignus-actor-network/src/session_actor_host.rs and tcp_transport.rs make together:
-- the host of the sessions' actors as the handler of dignus-actor-network/src/handler.rs, over TCP.
use dignus_actor_server_rust.Common.{ℕ, false, Option, none, some, List, [], ◌∷◌}
use dignus_actor_server_rust.Network.Codec.{Decoder}
use dignus_actor_server_rust.Network.Tcp.{ReadResult, WriteResult, read, write}
use dignus_actor_server_rust.Network.Handler.{Env, HostHandler, TransportApi}
use dignus_actor_server_rust.Network.SessionHost
use dignus_actor_server_rust.Network.SessionHost.{
  ActorApi, SessionEntry, SessionHostOptions, World, Handled, handled, panicked, spins, Loop,
  stopped, out_of_range, out_of_fuel, enter, close_session, update_heap, on_entry_data,
  finish_unbuffered, finish_buffered, decode_loop, is_empty, leave,
}

-- A TCP stream: what its socket answers to each call of `read` and of `write`, and what it has taken.
pub record TcpConn : Type 0 where
  pub reads : List (List ReadResult)
  pub writes : List (List WriteResult)
  pub sent : List ℕ

abbrev pub next_of : {A : Type 0} → List (List A) → List A × List (List A)
next_of [] = ([], [])
next_of (s ∷ ss) = (s, ss)

-- `TcpTransport`, where `net` tells how the socket of each stream behaves.
abbrev pub tcp : (ℕ → TcpConn) → TransportApi
tcp net = record {
  Conn = TcpConn;
  create = net;
  read = λ conn.
      let (script, reads) = next_of conn.reads in
      let (outcome, bytes) = read script [] in (outcome, bytes, record conn { reads = reads });
  write = λ conn outbound.
      let (script, writes) = next_of conn.writes in
      let (outcome, outbound', sent) = write script outbound conn.sent in
      (outcome, outbound', record conn { writes = writes; sent = sent });
  wants_write = λ conn. false;
}

module _ {M : Type 0} (api : ActorApi M) (decoder : Decoder M) where
  open api use {System}

  -- The host, without the sessions, which are the reactor's.
  pub record HostState : Type 0 where
    pub system : System
    pub options : SessionHostOptions
    pub entries : List (ℕ × SessionEntry api)

  unfoldable pub with_options : System → SessionHostOptions → HostState
  with_options system options = record { system = system; options = options; entries = [] }

  unfoldable pub new : System → HostState
  unfolding with_options
  new system = with_options system SessionHost.default_options

  abbrev pub world_of : HostState → Env → World api
  world_of s e = record {
    system = s.system;
    options = s.options;
    entries = s.entries;
    heap = e.heap;
    shared = e.shared;
  }

  abbrev pub split : World api → HostState × Env
  split w = (
    record { system = w.system; options = w.options; entries = w.entries },
    record { heap = w.heap; shared = w.shared },
  )

  abbrev pub answer_of : Handled api → Option (HostState × Env)
  answer_of (handled w) = some (split w)
  answer_of panicked = none
  answer_of spins = none

  -- `impl HostHandler for SessionActorHost`
  abbrev pub sessions : HostHandler
  sessions = record {
    State = HostState;
    on_accepted = λ s e token. answer_of (SessionHost.on_accepted api (world_of s e) token);
    on_data =
        λ s e token bytes. answer_of (SessionHost.on_data api decoder (world_of s e) token bytes);
    on_disconnected = λ s e id. some (split (SessionHost.on_disconnected api (world_of s e) id));
  }
