-- ===== src/Network/Hosts/Tests.antt =====
-- dignus-actor-network/src/tcp_host.rs: a host of two workers on port 80, and one whose second waker
-- cannot be made.
use dignus_actor_server_rust.Common.{
  ℕ, ◌≡◌, refl, Bool, true, false, none, some, Option, [], ◌==◌, length,
}
use dignus_actor_server_rust.Network.Handler.{HostHandler}
use dignus_actor_server_rust.Network.Reactor.{Registry}
use dignus_actor_server_rust.Network.Reactor.Run
use dignus_actor_server_rust.Network.Reactor.Sessions.{TcpConn, tcp}
use dignus_actor_server_rust.Network.Hosts.{
  HostIo, HostOptions, returned_ok, returned_error, Host, polls_from, workers_from, build_pool,
  bind, tcp_bind, run, run_reactors,
}

-- A handler that counts the sessions it was given.
abbrev counting : HostHandler
counting = record {
  State = ℕ;
  on_accepted = λ n e token. some (n, e);
  on_data = λ n e token bytes. some (n, e);
  on_disconnected = λ n e id. some (n, e);
}

abbrev registry : Registry
registry = record { register = λ t. true; reregister = λ t. true }

abbrev net : ℕ → TcpConn
net stream = record { reads = []; writes = []; sent = [] }

abbrev io : HostIo
io = record {
  poll_new = λ i. true;
  waker_new = λ i. true;
  listen = some 80;
  register_listener = true;
}

abbrev two_workers : HostOptions
two_workers = record { worker_count = 2; max_pending_send = 64 }

-- The port, the workers, and whether `run` succeeds if the thread of worker 1 fails.
abbrev outcome : Option (Host counting (tcp net) registry) → Option (ℕ × ℕ × Bool)
outcome none = none
outcome (some host) = some (
  host.address,
  length host.reactors,
  run counting (tcp net) registry
      (λ r. elim (r.index == 1) [ true ↦ returned_error | false ↦ returned_ok ]) host,
)

tcp_bind_run :
    outcome (tcp_bind counting net registry io two_workers (λ index. 0)) ≡ some (80, 2, false)
unfolding tcp_bind bind build_pool polls_from workers_from run run_reactors Run.new
tcp_bind_run = refl

no_waker_run :
    tcp_bind counting net registry (record io { waker_new = λ i. i == 0 }) two_workers (λ index. 0)
    ≡ none
unfolding tcp_bind bind build_pool polls_from
no_waker_run = refl
