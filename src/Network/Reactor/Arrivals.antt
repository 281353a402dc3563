-- ===== src/Network/Reactor/Arrivals.antt =====
-- `take_incoming` keeps the reactor's invariant.
use dignus_actor_server_rust.Common.{
  map_right, ℕ, ◌≡◌, refl, Bool, true, false, Bool-cases, inl, inr, none, some, List, [], ◌∷◌, ◌==◌,
  arith, lookup, lookup-insert, Returns, Returns-bind, if_cases, ==_refl, ==-eq,
}
use dignus_actor_server_rust.Network.SendBuffer.{SendBuffer, has_pending}
use dignus_actor_server_rust.Network.SendBuffer
use dignus_actor_server_rust.Network.Session.{Session, ReactorShared, mark_disposed}
use dignus_actor_server_rust.Network.Session
use dignus_actor_server_rust.Network.Handler.{
  Env, update, Uses, HostHandler, HandlerLaws, TransportApi,
}
use dignus_actor_server_rust.Network.Handler.Sound.{
  Sound, Uses-Sound, Uses-AwakeWrites, Uses-AwakeCloses,
}
use dignus_actor_server_rust.Network.Reactor.{
  accepted, Registry, ManagedConnection, Reactor, called, connected, take_stream, take_streams,
}
use dignus_actor_server_rust.Network.Reactor.Protocol.{skip-Obeys, accepted-Obeys}
use dignus_actor_server_rust.Network.Reactor.Good.{Mode, Good, Sound-update, alive_at}
use dignus_actor_server_rust.Network.Reactor.{set_shared, take_incoming}

Sound-new :
    (e : Env) (t session_id max_pending_send : ℕ) (w : Bool) (writes closes : List ℕ)
    → Sound
        (record e { heap = update e.heap t (Session.new session_id t max_pending_send) })
        w
        writes
        closes
        t
unfolding Session.new SendBuffer.new has_pending
Sound-new e t session_id max_pending_send w writes closes = record {
  named = simp (==_refl t);
  alive = simp (==_refl t);
  written = inl (simp (==_refl t));
  closing = inl (simp (==_refl t));
}

module _ {handler : HostHandler} {transport : TransportApi} {registry : Registry}
    (laws : HandlerLaws handler) (reregisters : (t : ℕ) → registry.reregister t ≡ true) where
  connected-Good :
      (m : Mode) (r : Reactor handler transport registry) (stream session_id : ℕ)
      (answer : handler.State × Env)
      → Good m none r
      → Uses (connected handler transport registry r r.next_token stream session_id).env answer.1
      → Good m none (
          called handler transport registry
            (connected handler transport registry r r.next_token stream session_id)
            (accepted r.next_token)
            answer)
  connected-Good m r stream session_id answer g u = record {
    protocol = accepted-Obeys _ g.protocol;
    sound = λ v c k. inr (Uses-Sound c.writable m.writes m.closes v u (before v c k));
    awake_writes = map_right (Uses-AwakeWrites u) g.awake_writes;
    awake_closes = map_right (Uses-AwakeCloses u) g.awake_closes;
  }
    where
      before :
          (v : ℕ) (c : ManagedConnection handler transport registry)
          → lookup v
              (connected handler transport registry r r.next_token stream session_id).connections
            ≡ some c
          → Sound
              (connected handler transport registry r r.next_token stream session_id).env
              c.writable
              m.writes
              m.closes
              v
      before v c k = elim (Bool-cases (r.next_token == v)) [
        | inl same ↦ rw (← ==-eq r.next_token v same) (
            Sound-new r.env r.next_token session_id r.max_pending_send c.writable m.writes m.closes)
        | inr ne ↦
            Sound-update r.env r.next_token v
              (Session.new session_id r.next_token r.max_pending_send) c.writable m.writes m.writes
              m.closes ne refl
              (alive_at handler transport registry m r.next_token v c ne (inl refl) g (
                ground (
                  arith,
                  lookup-insert r.next_token v
                      (record { conn = transport.create stream; writable = false }) r.connections,
                )))
      ]

  take_stream-Good :
      (m : Mode) (r : Reactor handler transport registry) (stream : ℕ × ℕ)
      → Good m none r
      → Returns (Good m none) (take_stream handler transport registry r stream)
  unfolding take_stream
  take_stream-Good m r (stream, session_id) g =
      if_cases (Returns (Good m none)) (registry.register r.next_token)
        (λ _.
          Returns-bind (Good m none)
            (handler.on_accepted r.handler_state
              (connected handler transport registry r r.next_token stream session_id).env
              r.next_token)
            _
            (laws.accepted_uses r.handler_state
              (connected handler transport registry r r.next_token stream session_id).env
              r.next_token)
            (λ answer u. connected-Good m r stream session_id answer g u))
        (λ _. record {
          protocol = skip-Obeys g.protocol;
          sound = g.sound;
          awake_writes = g.awake_writes;
          awake_closes = g.awake_closes;
        })

  take_streams-Good :
      (m : Mode) (streams : List (ℕ × ℕ)) (r : Reactor handler transport registry)
      → Good m none r
      → Returns (Good m none) (take_streams handler transport registry streams r)
  unfolding take_streams
  take_streams-Good m [] r g = g
  take_streams-Good m (stream ∷ streams) r g =
      Returns-bind (Good m none) (take_stream handler transport registry r stream) _
        (take_stream-Good m r stream g) (take_streams-Good m streams)

  pub take_incoming-Good :
      (m : Mode) (r : Reactor handler transport registry)
      → Good m none r
      → Returns (Good m none) (take_incoming handler transport registry r)
  unfolding take_incoming
  take_incoming-Good m r g =
      take_streams-Good m r.env.shared.incoming
        (set_shared handler transport registry r (record (r.env.shared) { incoming = [] }))
        (record {
          protocol = g.protocol;
          sound = λ u c k.
              map_right
                (λ s. record {
                  named = s.named;
                  alive = s.alive;
                  written = s.written;
                  closing = s.closing;
                })
                (g.sound u c k);
          awake_writes = g.awake_writes;
          awake_closes = g.awake_closes;
        })
