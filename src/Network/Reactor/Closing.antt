-- ===== src/Network/Reactor/Closing.antt =====
-- A close that was requested is carried out when the worker wakes up.
use dignus_actor_server_rust.Common.{
  ℕ, ◌≡◌, ◌≢◌, refl, ◌∙◌, Bool, true, false, Option, none, some, List, [], ◌∷◌, if◌then◌else◌,
  arith, lookup, Returns, Returns-bind, Returns-map, if_cases,
}
use dignus_actor_server_rust.Network.SendBuffer.{SendBuffer}
use dignus_actor_server_rust.Network.Session.{send, close}
use dignus_actor_server_rust.Network.Tcp.{TransportOutcome, continue_on, closed}
use dignus_actor_server_rust.Network.Handler.{
  Env, after_send, after_close, Uses, unused, then_send, then_close, HostHandler, HandlerLaws,
  TransportApi,
}
use dignus_actor_server_rust.Network.Handler.Sound.{mem, mem-append}
use dignus_actor_server_rust.Network.Reactor
use dignus_actor_server_rust.Network.Reactor.{
  Registry, ManagedConnection, Reactor, connected, dropped, flushed, flush, flush_connection,
  close_connection, close_if, close_each, take_stream, take_streams, take_incoming, flush_all,
  flush_pending, close_pending, set_shared,
}
use dignus_actor_server_rust.Network.Reactor.Run.{
  woken_up, handle_event, waker, turn_of, goes_on, returned,
}
use dignus_actor_server_rust.Network.Reactor.Shutdown.{close_each_lookup}

after_close-mem :
    (t u : ℕ) (e : Env)
    → mem t e.shared.pending_closes ≡ true
    → mem t (after_close e u).shared.pending_closes ≡ true
unfolding close
after_close-mem t u e h =
    ground (arith, mem-append t e.shared.pending_closes ((e.heap u).token ∷ []))

after_send-mem :
    (t u : ℕ) (bytes : List ℕ) (e : Env)
    → mem t e.shared.pending_closes ≡ true
    → mem t (after_send e u bytes).shared.pending_closes ≡ true
unfolding send
after_send-mem t u bytes e h = ground arith

Uses-mem :
    (t : ℕ) {e f : Env}
    → Uses e f
    → mem t e.shared.pending_closes ≡ true
    → mem t f.shared.pending_closes ≡ true
Uses-mem t unused h = h
Uses-mem t (then_send {f} s u bytes) h = after_send-mem t u bytes f (Uses-mem t s h)
Uses-mem t (then_close {f} s u) h = after_close-mem t u f (Uses-mem t s h)

module _ {handler : HostHandler} {transport : TransportApi} {registry : Registry}
    (laws : HandlerLaws handler) (t : ℕ) where
  -- Token `t` waits to be closed.
  abbrev Queued : Reactor handler transport registry → Type 0
  Queued r = mem t r.env.shared.pending_closes ≡ true

  take_stream-Queued :
      (r : Reactor handler transport registry) (stream : ℕ × ℕ)
      → Queued r
      → Returns Queued (take_stream handler transport registry r stream)
  unfolding take_stream
  take_stream-Queued r (stream, session_id) q =
      let e = (connected handler transport registry r r.next_token stream session_id).env in
      if_cases (Returns Queued) (registry.register r.next_token)
        (λ _.
          Returns-bind Queued (handler.on_accepted r.handler_state e r.next_token) _
            (laws.accepted_uses r.handler_state e r.next_token) (λ answer u. Uses-mem t u q))
        (λ _. q)

  take_streams-Queued :
      (streams : List (ℕ × ℕ)) (r : Reactor handler transport registry)
      → Queued r
      → Returns Queued (take_streams handler transport registry streams r)
  unfolding take_streams
  take_streams-Queued [] r q = q
  take_streams-Queued (stream ∷ streams) r q =
      Returns-bind Queued (take_stream handler transport registry r stream) _
        (take_stream-Queued r stream q) (take_streams-Queued streams)

  flushed-Queued :
      (r : Reactor handler transport registry) (u : ℕ)
      (c : ManagedConnection handler transport registry)
      (x : TransportOutcome × SendBuffer × transport.Conn)
      → Queued r
      → Queued (flushed handler transport registry r u c x).1
  flushed-Queued r u c (closed, outbound, conn) q = q
  flushed-Queued r u c (continue_on, outbound, conn) q = q

  flush_connection-Queued :
      (r : Reactor handler transport registry) (u : ℕ)
      (o : Option (ManagedConnection handler transport registry))
      → Queued r
      → Queued (flush_connection handler transport registry r u o).1
  unfolding flush_connection
  flush_connection-Queued r u none q = q
  flush_connection-Queued r u (some c) q = flushed-Queued r u c _ q

  close_connection-Queued :
      (r : Reactor handler transport registry) (u : ℕ)
      (o : Option (ManagedConnection handler transport registry))
      → Queued r
      → Returns Queued (close_connection handler transport registry r u o)
  unfolding close_connection
  close_connection-Queued r u none q = q
  close_connection-Queued r u (some c) q =
      let e = (dropped handler transport registry r u).env in
      let id = (r.env.heap u).id in
      Returns-bind Queued (handler.on_disconnected r.handler_state e id) _
        (laws.disconnected_uses r.handler_state e id) (λ answer v. Uses-mem t v q)

  close_if-Queued :
      (flushed : Bool × Reactor handler transport registry) (u : ℕ)
      → Queued flushed.1
      → Returns Queued (close_if handler transport registry flushed u)
  close_if-Queued (false, r) u q = q
  close_if-Queued (true, r) u q = close_connection-Queued r u (lookup u r.connections) q

  flush_all-Queued :
      (tokens : List ℕ) (r : Reactor handler transport registry)
      → Queued r
      → Returns Queued (flush_all handler transport registry tokens r)
  unfolding flush_all
  flush_all-Queued [] r q = q
  flush_all-Queued (u ∷ us) r q =
      Returns-bind Queued
        (close_if handler transport registry (flush handler transport registry r u) u) _
        (close_if-Queued (flush handler transport registry r u) u
          (flush_connection-Queued r u (lookup u r.connections) q))
        (flush_all-Queued us)

  -- The connection of the token is closed.
  abbrev Closed : Reactor handler transport registry → Type 0
  Closed r = lookup t r.connections ≡ none

  close_pending-Closed :
      (r : Reactor handler transport registry)
      → Queued r
      → Returns Closed (close_pending handler transport registry r)
  unfolding close_pending
  close_pending-Closed r q =
      Returns-map (close_each handler transport registry r.env.shared.pending_closes _)
        (λ r' h. h t ∙ rw q refl) (close_each_lookup r.env.shared.pending_closes _)

  woken_up-Closed :
      (r : Reactor handler transport registry)
      → Queued r
      → Returns Closed (woken_up handler transport registry r)
  unfolding woken_up take_incoming flush_pending
  woken_up-Closed r q =
      Returns-bind Closed (take_incoming handler transport registry r) _
        (take_streams-Queued r.env.shared.incoming _ q)
        (λ r₁ q₁.
          Returns-bind Closed (flush_pending handler transport registry r₁) _
            (flush_all-Queued r₁.env.shared.pending_writes _ q₁) close_pending-Closed)

  left_open :
      (o : Option (Reactor handler transport registry)) (r' : Reactor handler transport registry)
      → turn_of handler transport registry goes_on o ≡ goes_on r'
      → Returns Closed o
      → Closed r'
  left_open none r' e h = cc
  left_open (some r) r' e h = let same : r ≡ r' = cc in rw (← same) h

  pub returned-ne-goes_on :
      (o : Option (Reactor handler transport registry)) (r' : Reactor handler transport registry)
      → turn_of handler transport registry returned o ≢ goes_on r'
  returned-ne-goes_on none r' e = cc
  returned-ne-goes_on (some r) r' e = cc

  by_stop :
      (stopped : Bool) (o o' : Option (Reactor handler transport registry))
      (r' : Reactor handler transport registry)
      → (if stopped
          then turn_of handler transport registry returned o
          else turn_of handler transport registry goes_on o')
        ≡ goes_on r'
      → Returns Closed o'
      → Closed r'
  by_stop true o o' r' e h = absurd (returned-ne-goes_on o r' e)
  by_stop false o o' r' e h = left_open o' r' e h

  pub waker-Closed :
      (r r' : Reactor handler transport registry)
      → Queued r
      → handle_event handler transport registry r waker ≡ goes_on r'
      → Closed r'
  unfolding handle_event
  waker-Closed r r' q e =
      let awake =
        set_shared handler transport registry r (record (r.env.shared) { woken = false }) in
      by_stop r.env.shared.stopped (Reactor.close_all handler transport registry awake)
        (woken_up handler transport registry awake) r' e (woken_up-Closed awake q)
