-- ===== src/Network/Reactor/Watch.antt =====
-- What holds between any two events of a worker, whatever its peers, a shutdown and the users of its
-- sessions do meanwhile.
use dignus_actor_server_rust.Common.{
  ℕ, ◌≡◌, ◌≢◌, refl, ap, ◌∙◌, Bool, true, false, ◌||◌, ◌⊎◌, inl, inr, none, some, List, [], lookup,
  arith, map_right, subst,
}
use dignus_actor_server_rust.Network.SendBuffer.{has_pending}
use dignus_actor_server_rust.Network.Handler.{HostHandler, HandlerLaws, TransportApi}
use dignus_actor_server_rust.Network.Handler.Sound.{
  mem, Sound, Uses-Sound, Uses-AwakeWrites, Uses-AwakeCloses,
}
use dignus_actor_server_rust.Network.Reactor.{Registry, ManagedConnection, Reactor}
use dignus_actor_server_rust.Network.Reactor.Run.{
  new, goes_on, returned, waker, handle_event, Reach, start, by_event, by_users, by_peer,
  by_shutdown,
}
use dignus_actor_server_rust.Network.Reactor.Protocol.{
  unseen, gone, broken, is_open, is_some, status,
}
use dignus_actor_server_rust.Network.Reactor.Good.{Good}
use dignus_actor_server_rust.Network.Reactor.Closing.{waker-Closed}
use dignus_actor_server_rust.Network.Reactor.Shutdown.{ended_phase, ended_worker}
use dignus_actor_server_rust.Network.Reactor.Turns.{idle, AfterTurn, handle_event-Good}

watched :
    (t : ℕ) (queue : List ℕ) (woken : Bool)
    → (mem t queue || false) ≡ true
    → (queue ≡ []) ⊎ (woken ≡ true)
    → (mem t queue ≡ true) × (woken ≡ true)
watched t queue woken h a = ground arith

settled : {V S : Type 0} {a b : V} → (a ≢ b) → (a ≡ b) ⊎ S → S
settled ne (inl e) = absurd (ne e)
settled ne (inr s) = s

module _ {handler : HostHandler} {transport : TransportApi} {registry : Registry}
    (laws : HandlerLaws handler) (reregisters : (t : ℕ) → registry.reregister t ≡ true)
    (index worker_count max_pending_send : ℕ) (state : handler.State) where
  new-Good :
      Good idle none (new handler transport registry index worker_count max_pending_send state)
  unfolding new
  new-Good = record {
    protocol = record { opened = λ t. refl; obeyed = λ t. refl; fresh = λ t h. refl };
    sound = λ t c h. cc;
    awake_writes = inr (inl refl);
    awake_closes = inr (inl refl);
  }

  pub Reach-Good :
      {r : Reactor handler transport registry}
      → Reach handler transport registry index worker_count max_pending_send state r
      → Good idle none r
  Reach-Good start = new-Good
  Reach-Good (by_event {r} s event e) =
      subst (AfterTurn laws reregisters) e
        (handle_event-Good laws reregisters r event (Reach-Good s))
  Reach-Good (by_users {r} {env} s u) =
      let g = Reach-Good s in
      record {
        protocol = g.protocol;
        sound = λ t c h. map_right (Uses-Sound c.writable [] [] t u) (g.sound t c h);
        awake_writes = map_right (Uses-AwakeWrites u) g.awake_writes;
        awake_closes = map_right (Uses-AwakeCloses u) g.awake_closes;
      }
  Reach-Good (by_peer s stream) =
      let g = Reach-Good s in
      record {
        protocol = g.protocol;
        sound = λ t c h.
            map_right
              (λ v. record {
                named = v.named;
                alive = v.alive;
                written = v.written;
                closing = v.closing;
              })
              (g.sound t c h);
        awake_writes = inr (inr refl);
        awake_closes = inr (inr refl);
      }
  Reach-Good (by_shutdown s) =
      let g = Reach-Good s in
      record {
        protocol = g.protocol;
        sound = λ t c h.
            map_right
              (λ v. record {
                named = v.named;
                alive = v.alive;
                written = v.written;
                closing = v.closing;
              })
              (g.sound t c h);
        awake_writes = inr (inr refl);
        awake_closes = inr (inr refl);
      }

  -- Nothing that is asked of a session is forgotten: between any two events, an open session that has
  -- bytes to write is registered for writing, or its token is queued and the worker woken; and one
  -- whose close was requested is queued for that and the worker woken. The handler may use sessions
  -- as their other users do, and `reregister` does not fail.
  pub nothing_forgotten :
      (r : Reactor handler transport registry) (t : ℕ)
      (c : ManagedConnection handler transport registry)
      → Reach handler transport registry index worker_count max_pending_send state r
      → lookup t r.connections ≡ some c
      → ((r.env.heap t).is_disposed ≡ false)
        × ((has_pending (r.env.heap t).outbound ≡ false)
            ⊎ ((c.writable ≡ true)
                ⊎ ((mem t r.env.shared.pending_writes ≡ true) × (r.env.shared.woken ≡ true))))
        × (((r.env.heap t).close_requested ≡ false)
            ⊎ ((mem t r.env.shared.pending_closes ≡ true) × (r.env.shared.woken ≡ true)))
  nothing_forgotten r t c s h =
      let g = Reach-Good s in
      let v : Sound r.env c.writable [] [] t = settled (λ e. cc) (g.sound t c h) in
      let shared = r.env.shared in
      (
        v.alive,
        map_right
            (map_right (λ q.
              watched t shared.pending_writes shared.woken q (settled (λ e. cc) g.awake_writes)))
            v.written,
        map_right
            (λ q. watched t shared.pending_closes shared.woken q (settled (λ e. cc) g.awake_closes))
            v.closing,
      )

  -- The handler is called by the rules: for every token, it is told of the session once, then of its
  -- data, and at the end of the disconnection once; and the sessions that it was told of and not yet
  -- of their end are exactly the open connections. The handler may use sessions as their other users
  -- do, and `reregister` does not fail.
  pub handler_protocol :
      (r : Reactor handler transport registry) (t : ℕ)
      → Reach handler transport registry index worker_count max_pending_send state r
      → (status t r.calls ≢ broken)
        × (is_open (status t r.calls) ≡ is_some (lookup t r.connections))
  handler_protocol r t s =
      let o = (Reach-Good s).protocol in (λ e. ground (arith, o.obeyed t), o.opened t)

  -- When a stopped worker is woken and returns, no connection is left, and every session that the
  -- handler was told of has been disconnected.
  pub stopped_worker :
      (r r' : Reactor handler transport registry) (t : ℕ)
      → Reach handler transport registry index worker_count max_pending_send state r
      → handle_event handler transport registry r waker ≡ returned r'
      → (lookup t r'.connections ≡ none)
        × ((status t r'.calls ≡ unseen) ⊎ (status t r'.calls ≡ gone))
  unfolding handle_event
  stopped_worker r r' t s e =
      let o =
        subst (AfterTurn laws reregisters) e
          (handle_event-Good laws reregisters r waker (Reach-Good s)) in
      let empty = ended_worker r r' t e in
      (
        empty,
        ended_phase (status t r'.calls) (o.protocol.obeyed t)
            (o.protocol.opened t ∙ ap is_some empty),
      )

  -- A close that was requested of an open session is carried out when its worker wakes up next and
  -- goes on: then the connection is gone, and the handler, which had been told of the session, has
  -- been told of its end. The handler may use sessions as their other users do, and `reregister` does
  -- not fail.
  pub close_carried_out :
      (r r' : Reactor handler transport registry) (t : ℕ)
      (c : ManagedConnection handler transport registry)
      → Reach handler transport registry index worker_count max_pending_send state r
      → lookup t r.connections ≡ some c
      → (r.env.heap t).close_requested ≡ true
      → handle_event handler transport registry r waker ≡ goes_on r'
      → (lookup t r'.connections ≡ none)
        × (is_open (status t r.calls) ≡ true)
        × (is_open (status t r'.calls) ≡ false)
        × (status t r'.calls ≢ broken)
  close_carried_out r r' t c s h requested e =
      let (_, _, closing) = nothing_forgotten r t c s h in
      let (queued, _) = settled (λ not_requested. cc) closing in
      let gone = waker-Closed laws t r r' queued e in
      let (_, opened) = handler_protocol r t s in
      let (obeyed, opened') = handler_protocol r' t (by_event s waker e) in
      (gone, opened ∙ ap is_some h, opened' ∙ ap is_some gone, obeyed)
