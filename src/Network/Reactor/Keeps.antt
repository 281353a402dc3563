-- ===== src/Network/Reactor/Keeps.antt =====
-- Each operation of the reactor keeps its invariant.
use dignus_actor_server_rust.Common.{
  ℕ, ◌≡◌, refl, sym, ap, ◌∙◌, Bool, true, false, Bool-cases, inl, inr, Option, none, some, List, [],
  ◌∷◌, ◌==◌, if◌then◌else◌, arith, lookup, modify, lookup-modify_self, lookup-modify_ne, Returns,
  Returns-bind, ==-eq, ℕ_discrete,
}
use dignus_actor_server_rust.Network.Handler.{HostHandler, HandlerLaws, TransportApi}
use dignus_actor_server_rust.Network.Reactor.{
  data_of, Registry, ManagedConnection, Reactor, dropped, close_connection, close, close_if,
  deliver,
}
use dignus_actor_server_rust.Network.Reactor.Protocol.{modify-Obeys, data-Obeys}
use dignus_actor_server_rust.Network.Reactor.Good.{Mode, Good, after-Uses, dropped-Good}

module _ {handler : HostHandler} {transport : TransportApi} {registry : Registry} (m : Mode) where
  -- Nothing is dying where the connection is not there.
  settle :
      (r : Reactor handler transport registry) (t : ℕ)
      → lookup t r.connections ≡ none
      → Good m (some t) r
      → Good m none r
  settle r t h g = record {
    protocol = g.protocol;
    sound = λ u c k. inr (elim (g.sound u c k) [ inl e ↦ ground arith | inr s ↦ s ]);
    awake_writes = g.awake_writes;
    awake_closes = g.awake_closes;
  }

  -- A token of the queue of closes that comes up.
  pub skip_close :
      (r : Reactor handler transport registry) (t : ℕ) (ts : List ℕ)
      → Good (record m { closes = t ∷ ts }) none r
      → Good (record m { closes = ts }) (some t) r
  skip_close r t ts g = record {
    protocol = g.protocol;
    sound = λ u c k. elim (Bool-cases (t == u)) [
      | inl same ↦ inl (ap some (==-eq t u same))
      | inr ne ↦ inr (elim (g.sound u c k) [
        | inl e ↦ ground arith
        | inr s ↦ record {
          named = s.named;
          alive = s.alive;
          written = s.written;
          closing = simp ne at s.closing;
        }
      ])
    ];
    awake_writes = g.awake_writes;
    awake_closes = g.awake_closes;
  }

  pub set_conn-Good :
      (r : Reactor handler transport registry) (t : ℕ)
      (c : ManagedConnection handler transport registry) (conn : transport.Conn)
      → lookup t r.connections ≡ some c
      → Good m none r
      → Good m none (record r {
        connections = modify t (record { conn = conn; writable = c.writable }) r.connections;
      })
  set_conn-Good r t c conn h g = record {
    protocol = modify-Obeys t _ g.protocol;
    sound = λ u c' k. elim (ℕ_discrete t u) [
      | yes same ↦
          let written_at =
            lookup-modify_self t (record { conn = conn; writable = c.writable }) c r.connections
              h in
          let kept : c'.writable ≡ c.writable = cc in rw kept (g.sound u c (rw (← same) h))
      | no ne ↦ g.sound u c' (sym (lookup-modify_ne t u _ r.connections ne) ∙ k)
    ];
    awake_writes = g.awake_writes;
    awake_closes = g.awake_closes;
  }

  module _ (laws : HandlerLaws handler) where
    close_connection-Good :
        (r : Reactor handler transport registry) (t : ℕ)
        (o : Option (ManagedConnection handler transport registry))
        → lookup t r.connections ≡ o
        → Good m (some t) r
        → Returns (Good m none) (close_connection handler transport registry r t o)
    unfolding close_connection
    close_connection-Good r t none h g = settle r t h g
    close_connection-Good r t (some c) h g =
        Returns-bind (Good m none)
          (handler.on_disconnected r.handler_state (dropped handler transport registry r t).env
            (r.env.heap t).id)
          _
          (laws.disconnected_uses r.handler_state (dropped handler transport registry r t).env
            (r.env.heap t).id)
          (λ answer u. dropped-Good handler transport registry m r t c answer h g u)

    pub close-Good :
        (r : Reactor handler transport registry) (t : ℕ)
        → Good m (some t) r
        → Returns (Good m none) (close handler transport registry r t)
    close-Good r t g = close_connection-Good r t (lookup t r.connections) refl g

    pub close_if-Good :
        (after : Bool × Reactor handler transport registry) (t : ℕ)
        → Good m (if after.0 then some t else none) after.1
        → Returns (Good m none) (close_if handler transport registry after t)
    close_if-Good (false, r) t g = g
    close_if-Good (true, r) t g = close-Good r t g

    pub deliver-Good :
        (r : Reactor handler transport registry) (t : ℕ) (bytes : List ℕ)
        (c : ManagedConnection handler transport registry)
        → lookup t r.connections ≡ some c
        → Good m none r
        → Returns (Good m none) (deliver handler transport registry r t bytes)
    unfolding deliver
    deliver-Good r t [] c h g = g
    deliver-Good r t (b ∷ bs) c h g =
        Returns-bind (Good m none) (handler.on_data r.handler_state r.env t (b ∷ bs)) _
          (laws.data_uses r.handler_state r.env t (b ∷ bs))
          (λ answer u.
            after-Uses (data_of t (b ∷ bs)) answer g u (data-Obeys t (b ∷ bs) g.protocol h))
