-- ===== src/Network/Hosts/Ending.antt =====
-- How a host ends.
use dignus_actor_server_rust.Common.{
  ℕ, zero, suc, ◌+◌, ◌≡◌, ◌≢◌, refl, ◌⊎◌, true, false, none, List, [], ◌∷◌, lookup, All, max,
  Returns, Returns-bind, Returns-after, if_cases,
}
use dignus_actor_server_rust.Network.Handler.{HostHandler, HandlerLaws, TransportApi}
use dignus_actor_server_rust.Network.Reactor.{Registry, Reactor, set_shared, close_all}
use dignus_actor_server_rust.Network.Reactor.Run.{
  Reach, by_shutdown, start, handle_event, waker, goes_on, returned,
}
use dignus_actor_server_rust.Network.Reactor.Protocol.{status, unseen, gone}
use dignus_actor_server_rust.Network.Reactor.Closing.{returned-ne-goes_on}
use dignus_actor_server_rust.Network.Reactor.Watch.{stopped_worker}
use dignus_actor_server_rust.Network.Hosts.{
  HostIo, HostOptions, polls_from, workers_from, build_pool, bind, stop_worker, shutdown,
}

module _ {handler : HostHandler} {transport : TransportApi} {registry : Registry} where
  -- A worker of a host, at any moment behind its start.
  abbrev pub Served : HostOptions → Reactor handler transport registry → Type 0
  Served options r =
      (index : ℕ) × (state : handler.State) × Reach handler transport registry index
        options.worker_count options.max_pending_send state r

  -- The next wake ends the worker: it does not go on, and if it returns, every connection is closed and
  -- the handler told of the end of every session.
  abbrev pub Ending : Reactor handler transport registry → Type 0
  Ending r =
      ((r' : Reactor handler transport registry)
        → handle_event handler transport registry r waker ≢ goes_on r')
      × ((r' : Reactor handler transport registry) (t : ℕ)
          → handle_event handler transport registry r waker ≡ returned r'
          → (lookup t r'.connections ≡ none)
            × ((status t r'.calls ≡ unseen) ⊎ (status t r'.calls ≡ gone)))

module _ (handler : HostHandler) (transport : TransportApi) (registry : Registry) where
  workers_from-Served :
      (options : HostOptions) (index left : ℕ) (factory : ℕ → handler.State)
      → All (Served options) (
          workers_from handler transport registry index left options.worker_count
            options.max_pending_send factory)
  unfolding workers_from
  workers_from-Served options index zero factory = tt
  workers_from-Served options index (suc left) factory =
      ((index, factory index, start), workers_from-Served options (index + 1) left factory)

  abbrev Pooled : HostOptions → List (Reactor handler transport registry) × ℕ → Type 0
  Pooled options pool = All (Served options) pool.0

  build_pool-Served :
      (io : HostIo) (options : HostOptions) (factory : ℕ → handler.State)
      → Returns (Pooled options) (
          build_pool handler transport registry io options.worker_count options.max_pending_send
            factory)
  unfolding build_pool
  build_pool-Served io options factory =
      if_cases (Returns (Pooled options)) (polls_from io 0 (max options.worker_count 1))
        (λ _. Returns-after (Pooled options) io.listen _ (λ address.
          if_cases (Returns (Pooled options)) io.register_listener
            (λ _. workers_from-Served options 0 (max options.worker_count 1) factory) (λ _. tt)))
        (λ _. tt)

  -- The workers of a host that is bound are each at their start, with a handler of their own.
  pub bind-Served :
      (io : HostIo) (options : HostOptions) (factory : ℕ → handler.State)
      → Returns
          (λ host. All (Served options) host.reactors)
          (bind handler transport registry io options factory)
  unfolding bind
  bind-Served io options factory =
      Returns-bind (λ host. All (Served options) host.reactors)
        (build_pool handler transport registry io options.worker_count options.max_pending_send
          factory)
        _ (build_pool-Served io options factory) (λ pool served. served)

module _ {handler : HostHandler} {transport : TransportApi} {registry : Registry}
    (laws : HandlerLaws handler) (reregisters : (t : ℕ) → registry.reregister t ≡ true) where
  stopped-ne-goes_on :
      (r r' : Reactor handler transport registry)
      → handle_event handler transport registry (stop_worker handler transport registry r) waker
        ≢ goes_on r'
  unfolding handle_event
  stopped-ne-goes_on r r' e =
      let stopping = stop_worker handler transport registry r in
      returned-ne-goes_on laws 0
        (close_all handler transport registry (
          set_shared handler transport registry stopping
            (record (stopping.env.shared) { woken = false })))
        r' e

  -- Shutting a host down, at any moment of any of its workers, leaves every worker woken and such that
  -- its next wake ends it, with every connection closed and every session's end told to the handler,
  -- unless the handler panics. The handler may use sessions as their other users do, and `reregister`
  -- does not fail.
  pub shutdown-Ending :
      (options : HostOptions) (workers : List (Reactor handler transport registry))
      → All (Served options) workers
      → All
          (λ r. (r.env.shared.woken ≡ true) × Ending r)
          (shutdown handler transport registry workers)
  unfolding shutdown
  shutdown-Ending options [] h = tt
  shutdown-Ending options (r ∷ workers) ((index, state, s), h) = (
    (
      refl,
      (
        stopped-ne-goes_on r,
        λ r' t e.
            stopped_worker laws reregisters index options.worker_count options.max_pending_send
              state (stop_worker handler transport registry r) r' t (by_shutdown s) e,
      ),
    ),
    shutdown-Ending options workers h,
  )
