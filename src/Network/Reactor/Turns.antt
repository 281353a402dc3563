-- ===== src/Network/Reactor/Turns.antt =====
-- Every event keeps the reactor's invariant: nothing that its sessions' users ask for is forgotten.
use dignus_actor_server_rust.Common.{
  map_right, ℕ, ◌≡◌, refl, Bool, true, false, inl, inr, Option, none, some, List, [], ◌∷◌, ◌==◌,
  if◌then◌else◌, lookup, modify, lookup-modify_self, Returns, Returns-bind, if_cases, keys,
}
use dignus_actor_server_rust.Network.Handler.{HostHandler, HandlerLaws, TransportApi}
use dignus_actor_server_rust.Network.Tcp.{TransportOutcome, continue_on, closed}
use dignus_actor_server_rust.Network.Reactor.{
  Registry, ManagedConnection, Reactor, deliver, flush_unless, read_connection, read_if, flush_if,
  handle_connection,
}
use dignus_actor_server_rust.Network.Reactor.Good.{Mode, Good, weaken}
use dignus_actor_server_rust.Network.Reactor.Keeps.{set_conn-Good, close_if-Good, deliver-Good}
use dignus_actor_server_rust.Network.Reactor.{
  accept_loop, accept, hand_over, AcceptResult, stream_of, accept_would_block, accept_interrupted,
  accept_failed, set_shared, take_incoming, flush_pending, close_all,
}
use dignus_actor_server_rust.Network.Reactor.Run.{
  woken_up, Event, listener, waker, connection, Turn, goes_on, returned, ended, turn_of,
  handle_event,
}
use dignus_actor_server_rust.Network.Reactor.Flushes.{
  flush-Good, flush_pending-Good, close_pending-Good, close_all-Good,
}
use dignus_actor_server_rust.Network.Reactor.Arrivals.{take_incoming-Good}

-- Between two events.
abbrev pub idle : Mode
idle = record { writes = []; closes = []; writes_awake = true; closes_awake = true }

module _ {handler : HostHandler} {transport : TransportApi} {registry : Registry}
    (laws : HandlerLaws handler) (reregisters : (t : ℕ) → registry.reregister t ≡ true) where
  woken_up-Good :
      (r : Reactor handler transport registry)
      → Good (record idle { writes_awake = false; closes_awake = false }) none r
      → Returns (Good idle none) (woken_up handler transport registry r)
  unfolding woken_up
  woken_up-Good r g =
      let m = record idle { writes_awake = false; closes_awake = false } in
      Returns-bind (Good idle none) (take_incoming handler transport registry r) _
        (take_incoming-Good laws reregisters m r g)
        (λ r₁ g₁.
          Returns-bind (Good idle none) (flush_pending handler transport registry r₁) _
            (flush_pending-Good laws reregisters m r₁ refl g₁)
            (λ r₂ g₂.
              close_pending-Good laws reregisters (record m { writes_awake = true }) r₂ refl g₂))

  read_connection-Good :
      (m : Mode) (r : Reactor handler transport registry) (t : ℕ)
      (o : Option (ManagedConnection handler transport registry))
      → lookup t r.connections ≡ o
      → Good m none r
      → Returns
          (λ after. Good m (if after.0 then some t else none) after.1)
          (read_connection handler transport registry r t o)
  unfolding read_connection
  read_connection-Good m r t none h g = g
  read_connection-Good m r t (some c) h g =
      let (outcome, bytes, conn) = transport.read c.conn in
      let after_read = record r {
        connections = modify t (record { conn = conn; writable = c.writable }) r.connections;
      } in
      Returns-bind (λ after. Good m (if after.0 then some t else none) after.1)
        (deliver handler transport registry after_read t bytes) _
        (deliver-Good m laws after_read t bytes _ (lookup-modify_self t _ c r.connections h)
          (set_conn-Good m r t c conn h g))
        (λ r' g'. end_of_read outcome r' g')
    where
      end_of_read :
          (outcome : TransportOutcome) (r' : Reactor handler transport registry)
          → Good m none r'
          → let after = flush_unless handler transport registry outcome r' t in
            Good m (if after.0 then some t else none) after.1
      end_of_read closed r' g' = weaken t g'
      end_of_read continue_on r' g' = flush-Good laws reregisters m r' t g'

  handle_connection-Good :
      (m : Mode) (r : Reactor handler transport registry) (t : ℕ) (readable writable : Bool)
      → Good m none r
      → Returns (Good m none) (handle_connection handler transport registry r t readable writable)
  unfolding handle_connection
  handle_connection-Good m r t readable writable g =
      Returns-bind (Good m none) (read_if handler transport registry readable r t) _
        (read_part readable)
        (λ after g'.
          close_if-Good m laws (flush_if handler transport registry writable after t) t
            (flush_part writable after g'))
    where
      read_part :
          (readable : Bool)
          → Returns
              (λ after. Good m (if after.0 then some t else none) after.1)
              (read_if handler transport registry readable r t)
      read_part false = g
      read_part true = read_connection-Good m r t (lookup t r.connections) refl g

      flush_part :
          (writable : Bool) (after : Bool × Reactor handler transport registry)
          → Good m (if after.0 then some t else none) after.1
          → let end = flush_if handler transport registry writable after t in
            Good m (if end.0 then some t else none) end.1
      flush_part true (false, r') g' = flush-Good laws reregisters m r' t g'
      flush_part true (true, r') g' = g'
      flush_part false (false, r') g' = g'
      flush_part false (true, r') g' = g'

  hand_over-Good :
      (r : Reactor handler transport registry) (stream : ℕ)
      → Good idle none r
      → Good idle none (hand_over handler transport registry r stream)
  hand_over-Good r stream g =
      if_cases (Good idle none) (r.next_worker == r.index)
        (λ _. record {
          protocol = g.protocol;
          sound = λ u c k.
              map_right
                (λ s. record {
                  named = s.named;
                  alive = s.alive;
                  written = s.written;
                  closing = s.closing;
                })
                (g.sound u c k);
          awake_writes = inr (inr refl);
          awake_closes = inr (inr refl);
        })
        (λ _. record {
          protocol = g.protocol;
          sound = g.sound;
          awake_writes = g.awake_writes;
          awake_closes = g.awake_closes;
        })

  accept_loop-Good :
      (results : List AcceptResult) (r : Reactor handler transport registry)
      → Good idle none r
      → Returns (Good idle none) (accept_loop handler transport registry results r)
  unfolding accept_loop
  accept_loop-Good [] r g = g
  accept_loop-Good (stream_of stream ∷ results) r g =
      accept_loop-Good results (hand_over handler transport registry r stream)
        (hand_over-Good r stream g)
  accept_loop-Good (accept_would_block ∷ results) r g = g
  accept_loop-Good (accept_interrupted ∷ results) r g = accept_loop-Good results r g
  accept_loop-Good (accept_failed ∷ results) r g = tt

  -- What a worker is like behind an event: one that goes on is good, and one that has returned has
  -- disconnected every session.
  abbrev pub AfterTurn : Turn handler transport registry → Type 0
  AfterTurn (goes_on r) = Good idle none r
  AfterTurn (returned r) = Good (record idle { writes_awake = false; closes_awake = false }) none r
  AfterTurn ended = Unit

  turn_goes_on :
      (o : Option (Reactor handler transport registry))
      → Returns (Good idle none) o
      → AfterTurn (turn_of handler transport registry goes_on o)
  turn_goes_on none g = tt
  turn_goes_on (some r) g = g

  turn_returned :
      (o : Option (Reactor handler transport registry))
      → Returns (Good (record idle { writes_awake = false; closes_awake = false }) none) o
      → AfterTurn (turn_of handler transport registry returned o)
  turn_returned none g = tt
  turn_returned (some r) g = g

  pub handle_event-Good :
      (r : Reactor handler transport registry) (event : Event handler transport registry)
      → Good idle none r
      → AfterTurn (handle_event handler transport registry r event)
  unfolding handle_event accept close_all
  handle_event-Good r (listener results) g =
      turn_goes_on (accept handler transport registry results r) (
        if_cases (Returns (Good idle none)) r.has_listener (λ _. accept_loop-Good results r g)
          (λ _. g))
  handle_event-Good r waker g =
      let r' = set_shared handler transport registry r (record (r.env.shared) { woken = false }) in
      let asleep : Good (record idle { writes_awake = false; closes_awake = false }) none r' =
        record {
          protocol = g.protocol;
          sound = λ u c k.
              map_right
                (λ s. record {
                  named = s.named;
                  alive = s.alive;
                  written = s.written;
                  closing = s.closing;
                })
                (g.sound u c k);
          awake_writes = inl refl;
          awake_closes = inl refl;
        } in
      if_cases AfterTurn r.env.shared.stopped
        (λ _. turn_returned (close_all handler transport registry r') (
          close_all-Good laws reregisters
            (record idle { writes_awake = false; closes_awake = false }) (keys r.connections) r'
            asleep))
        (λ _. turn_goes_on (woken_up handler transport registry r') (woken_up-Good r' asleep))
  handle_event-Good r (connection t readable writable) g =
      turn_goes_on (handle_connection handler transport registry r t readable writable)
        (handle_connection-Good idle r t readable writable g)
