-- ===== src/Network/Hosts.antt =====
-- dignus-actor-network/src/tcp_host.rs, tls_host.rs and host_options.rs: a host is a pool of workers,
-- each with its reactor.
pub mod Ending
mod Tests
use dignus_actor_server_rust.Common.{
  ℕ, zero, suc, ◌+◌, Bool, true, false, Option, none, some, List, [], ◌∷◌, max, map, ◌^◌, ◌&&◌,
  ◌>>=◌, if◌then◌else◌,
}
use dignus_actor_server_rust.Network.Handler.{HostHandler, TransportApi}
use dignus_actor_server_rust.Network.Reactor.{Registry, Reactor, set_shared}
use dignus_actor_server_rust.Network.Reactor.Run
use dignus_actor_server_rust.Network.Reactor.Sessions.{TcpConn, tcp}
use dignus_actor_server_rust.Network.Tls.{ServerConnection}
use dignus_actor_server_rust.Network.Tls.Connected.{tls}

abbrev pub default_max_pending_send : ℕ
default_max_pending_send = 2 ^ 20

pub record HostOptions : Type 0 where
  pub worker_count : ℕ
  pub max_pending_send : ℕ

-- `HostOptions::default`, with what `available_parallelism` answers.
unfoldable pub default_options : Option ℕ → HostOptions
default_options none = record { worker_count = 1; max_pending_send = default_max_pending_send }
default_options (some n) = record { worker_count = n; max_pending_send = default_max_pending_send }

abbrev pub with_worker_count : HostOptions → ℕ → HostOptions
with_worker_count options n = record options { worker_count = max n 1 }

abbrev pub with_max_pending_send : HostOptions → ℕ → HostOptions
with_max_pending_send options n = record options { max_pending_send = n }

-- How a worker's thread ended.
pub data Joined : Type 0 where
  returned_ok returned_error panicked : Joined

-- `run_reactors`, once its threads have ended: whether it succeeds.
unfoldable pub run_reactors : List Joined → Bool
run_reactors [] = true
run_reactors (returned_ok ∷ handles) = run_reactors handles
run_reactors (_ ∷ handles) = false

-- What the operating system answers to `build_pool`: whether `Poll::new` and `Waker::new` succeed for a
-- worker, the address that `TcpListener::bind` got, and whether the listener could be registered.
pub record HostIo : Type 0 where
  pub poll_new : ℕ → Bool
  pub waker_new : ℕ → Bool
  pub listen : Option ℕ
  pub register_listener : Bool

unfoldable pub polls_from : HostIo → (index left : ℕ) → Bool
polls_from io index zero = true
polls_from io index (suc left) =
    (io.poll_new index && io.waker_new index) && polls_from io (index + 1) left

module _ (handler : HostHandler) (transport : TransportApi) (registry : Registry) where
  -- The last loop of `Reactor::build_pool`: the workers from `index` on, with a handler each from the factory.
  unfoldable pub workers_from :
      (index left worker_count max_pending_send : ℕ)
      → (ℕ → handler.State)
      → List (Reactor handler transport registry)
  workers_from index zero worker_count max_pending_send factory = []
  workers_from index (suc left) worker_count max_pending_send factory =
      Run.new handler transport registry index worker_count max_pending_send (factory index)
      ∷ workers_from (index + 1) left worker_count max_pending_send factory

  unfoldable pub build_pool :
      HostIo
      → (worker_count max_pending_send : ℕ) → (ℕ → handler.State)
      → Option (List (Reactor handler transport registry) × ℕ)
  unfolding polls_from workers_from
  build_pool io worker_count max_pending_send factory =
      if polls_from io 0 (max worker_count 1)
      then (io.listen >>= λ address.
          if io.register_listener
          then some
              (workers_from 0 (max worker_count 1) worker_count max_pending_send factory, address)
          else none)
      else none

  -- `TcpHost`, and `TlsHost`, which differ in the transport.
  pub record Host : Type 0 where
    pub reactors : List (Reactor handler transport registry)
    pub address : ℕ

  unfoldable pub bind : HostIo → HostOptions → (ℕ → handler.State) → Option Host
  unfolding build_pool
  bind io options factory =
      build_pool io options.worker_count options.max_pending_send factory >>= λ pool.
      some (record { reactors = pool.0; address = pool.1 })

  -- `run`, by how the thread that runs a reactor ends.
  unfoldable pub run : (Reactor handler transport registry → Joined) → Host → Bool
  unfolding run_reactors
  run thread host = run_reactors (map thread host.reactors)

  -- `HostShutdown::shutdown`
  abbrev pub stop_worker : Reactor handler transport registry → Reactor handler transport registry
  stop_worker r =
      set_shared handler transport registry r
        (record (r.env.shared) { stopped = true; woken = true })

  unfoldable pub shutdown :
      List (Reactor handler transport registry) → List (Reactor handler transport registry)
  shutdown [] = []
  shutdown (r ∷ workers) = stop_worker r ∷ shutdown workers

  -- `shutdown_handle`, and a `shutdown` of the handle.
  abbrev pub shutdown_host : Host → Host
  unfolding shutdown
  shutdown_host host = record host { reactors = shutdown host.reactors }

-- `TcpHost::bind`: the pool over `TcpTransportFactory`, where `net` is how the streams behave.
unfoldable pub tcp_bind :
    (handler : HostHandler) (net : ℕ → TcpConn) (registry : Registry)
    → HostIo
    → HostOptions
    → (ℕ → handler.State)
    → Option (Host handler (tcp net) registry)
unfolding bind
tcp_bind handler net registry = bind handler (tcp net) registry

-- `TlsHost::bind`: the pool over `TlsTransportFactory`, whose `ServerConnection::new` makes `connection`
-- for each stream.
unfoldable pub tls_bind :
    (handler : HostHandler) (api : ServerConnection) (connection : ℕ → api.Tls) (net : ℕ → TcpConn)
    (registry : Registry)
    → HostIo
    → HostOptions
    → (ℕ → handler.State)
    → Option (Host handler (tls api connection net) registry)
unfolding bind
tls_bind handler api connection net registry = bind handler (tls api connection net) registry
