-- ===== src/Network/Reactor/Flushes.antt =====
-- `flush`, `flush_pending`, `close_pending` and `close_all` keep the reactor's invariant.
use dignus_actor_server_rust.Common.{
  map_right, ℕ, ◌≡◌, refl, ap, Bool, true, false, ◌||◌, Bool-cases, inl, inr, Option, none, some,
  List, [], ◌∷◌, ◌==◌, if◌then◌else◌, arith, lookup, Returns, Returns-bind, ==-eq,
}
use dignus_actor_server_rust.Network.Handler.{HostHandler, HandlerLaws, TransportApi}
use dignus_actor_server_rust.Network.Handler.Sound.{mem}
use dignus_actor_server_rust.Network.Reactor.{
  Registry, ManagedConnection, Reactor, flush_connection, flush, close, close_if, flush_all,
  close_each,
}
use dignus_actor_server_rust.Network.Reactor.Good.{Mode, Good, weaken, flushed-Good}
use dignus_actor_server_rust.Network.Reactor.Keeps.{skip_close, close-Good, close_if-Good}
use dignus_actor_server_rust.Network.Reactor.{flush_pending, close_pending}

queued : (u : ℕ) (a : Bool) (tokens : List ℕ) → tokens ≡ [] → (a || mem u tokens) ≡ true → a ≡ true
queued u false tokens e h = ground (arith, ap (mem u) e)
queued u true tokens e h = refl

module _ {handler : HostHandler} {transport : TransportApi} {registry : Registry}
    (laws : HandlerLaws handler) (reregisters : (t : ℕ) → registry.reregister t ≡ true) where
  flush_connection-Good :
      (m : Mode) (writes : List ℕ) (r : Reactor handler transport registry) (t : ℕ)
      (o : Option (ManagedConnection handler transport registry))
      → lookup t r.connections ≡ o
      → ((u : ℕ) → (t == u) ≡ false → mem u m.writes ≡ mem u writes)
      → Good m none r
      → let (gone, r') = flush_connection handler transport registry r t o in
        Good (record m { writes = writes }) (if gone then some t else none) r'
  unfolding flush_connection
  flush_connection-Good m writes r t none h others g = record {
    protocol = g.protocol;
    sound = λ u c k. elim (Bool-cases (t == u)) [
      | inl same ↦ ground (arith, ==-eq t u same)
      | inr ne ↦ inr (elim (g.sound u c k) [
        | inl e ↦ cc
        | inr s ↦ record {
          named = s.named;
          alive = s.alive;
          written = simp (← others u ne) s.written;
          closing = s.closing;
        }
      ])
    ];
    awake_writes = g.awake_writes;
    awake_closes = g.awake_closes;
  }
  flush_connection-Good m writes r t (some c) h others g =
      flushed-Good handler transport registry m reregisters writes r t c _ h others g

  pub flush-Good :
      (m : Mode) (r : Reactor handler transport registry) (t : ℕ)
      → Good m none r
      → let (gone, r') = flush handler transport registry r t in
        Good m (if gone then some t else none) r'
  flush-Good m r t g =
      flush_connection-Good m m.writes r t (lookup t r.connections) refl (λ u ne. refl) g

  flush_all-Good :
      (m : Mode) (tokens : List ℕ) (r : Reactor handler transport registry)
      → Good (record m { writes = tokens }) none r
      → Returns
          (Good (record m { writes = [] }) none)
          (flush_all handler transport registry tokens r)
  unfolding flush_all
  flush_all-Good m [] r g = g
  flush_all-Good m (t ∷ ts) r g =
      Returns-bind (Good (record m { writes = [] }) none)
        (close_if handler transport registry (flush handler transport registry r t) t) _
        (close_if-Good (record m { writes = ts }) laws (flush handler transport registry r t) t
          (flush_connection-Good (record m { writes = t ∷ ts }) ts r t (lookup t r.connections) refl
            (λ u ne. simp ne) g))
        (flush_all-Good m ts)

  pub flush_pending-Good :
      (m : Mode) (r : Reactor handler transport registry)
      → m.writes ≡ []
      → Good m none r
      → Returns
          (Good (record m { writes = []; writes_awake = true }) none)
          (flush_pending handler transport registry r)
  unfolding flush_pending
  flush_pending-Good m r e g =
      flush_all-Good (record m { writes_awake = true }) r.env.shared.pending_writes _
        (record {
          protocol = g.protocol;
          sound = λ u c k.
              map_right
                (λ s. record {
                  named = s.named;
                  alive = s.alive;
                  written =
                      map_right
                        (map_right (queued u (mem u r.env.shared.pending_writes) m.writes e))
                        s.written;
                  closing = s.closing;
                })
                (g.sound u c k);
          awake_writes = inr (inl refl);
          awake_closes = g.awake_closes;
        })

  close_each-Good :
      (m : Mode) (tokens : List ℕ) (r : Reactor handler transport registry)
      → Good (record m { closes = tokens }) none r
      → Returns
          (Good (record m { closes = [] }) none)
          (close_each handler transport registry tokens r)
  unfolding close_each
  close_each-Good m [] r g = g
  close_each-Good m (t ∷ ts) r g =
      Returns-bind (Good (record m { closes = [] }) none) (close handler transport registry r t) _
        (close-Good (record m { closes = ts }) laws r t
          (skip_close (record m { closes = ts }) r t ts g))
        (close_each-Good m ts)

  pub close_pending-Good :
      (m : Mode) (r : Reactor handler transport registry)
      → m.closes ≡ []
      → Good m none r
      → Returns
          (Good (record m { closes = []; closes_awake = true }) none)
          (close_pending handler transport registry r)
  unfolding close_pending
  close_pending-Good m r e g =
      close_each-Good (record m { closes_awake = true }) r.env.shared.pending_closes _
        (record {
          protocol = g.protocol;
          sound = λ u c k.
              map_right
                (λ s. record {
                  named = s.named;
                  alive = s.alive;
                  written = s.written;
                  closing =
                      map_right (queued u (mem u r.env.shared.pending_closes) m.closes e) s.closing;
                })
                (g.sound u c k);
          awake_writes = g.awake_writes;
          awake_closes = inr (inl refl);
        })

  pub close_all-Good :
      (m : Mode) (tokens : List ℕ) (r : Reactor handler transport registry)
      → Good m none r
      → Returns (Good m none) (close_each handler transport registry tokens r)
  unfolding close_each
  close_all-Good m [] r g = g
  close_all-Good m (t ∷ ts) r g =
      Returns-bind (Good m none) (close handler transport registry r t) _
        (close-Good m laws r t (weaken t g)) (close_all-Good m ts)
