-- ===== src/Network/Reactor/Good.antt =====
-- The reactor's invariant: the handler is called by the rules, and no session's bytes or close are
-- forgotten. A handler may do with sessions what users can, and `reregister` must not fail.
use dignus_actor_server_rust.Common.{
  map_right, ℕ, ◌≡◌, refl, sym, ap, ◌∙◌, Bool, true, false, ◌||◌, Bool-cases, ◌⊎◌, inl, inr, Option,
  none, some, List, [], ◌∷◌, ◌++◌, ◌==◌, if◌then◌else◌, arith, lookup, modify, remove,
  lookup-remove, lookup-modify_self, lookup-modify_ne, ==_refl, ==-eq, ==-ne,
}
use dignus_actor_server_rust.Network.SendBuffer.{SendBuffer, has_pending}
use dignus_actor_server_rust.Network.Session.{Session, mark_disposed}
use dignus_actor_server_rust.Network.Handler.{Env, update, Uses, HostHandler, TransportApi}
use dignus_actor_server_rust.Network.Handler.Sound.{
  mem, Sound, Uses-Sound, AwakeWrites, AwakeCloses, Uses-AwakeWrites, Uses-AwakeCloses,
}
use dignus_actor_server_rust.Network.Tcp.{TransportOutcome, continue_on, closed}
use dignus_actor_server_rust.Network.Reactor.{
  Call, disconnected, Registry, ManagedConnection, Reactor, called, flushed, dropped,
}
use dignus_actor_server_rust.Network.Reactor.Protocol.{Obeys, modify-Obeys, disconnected-Obeys}

-- Tokens that were taken out of a queue and are still to come, and which queues are watched by the
-- flag `woken`.
pub record Mode : Type 0 where
  pub writes : List ℕ
  pub closes : List ℕ
  pub writes_awake : Bool
  pub closes_awake : Bool

module _ {handler : HostHandler} {transport : TransportApi} {registry : Registry} where
  -- `dying` is a connection that is about to be closed.
  pub record Good (m : Mode) (dying : Option ℕ) (r : Reactor handler transport registry)
      : Type 0 where
    pub protocol : Obeys r.connections r.next_token r.calls
    pub sound :
        (t : ℕ) (c : ManagedConnection handler transport registry)
        → lookup t r.connections ≡ some c
        → (dying ≡ some t) ⊎ Sound r.env c.writable m.writes m.closes t
    pub awake_writes : (m.writes_awake ≡ false) ⊎ AwakeWrites r.env
    pub awake_closes : (m.closes_awake ≡ false) ⊎ AwakeCloses r.env

  pub after-Uses :
      {m : Mode} {dying : Option ℕ} {r : Reactor handler transport registry} (call : Call)
      (answer : handler.State × Env)
      → Good m dying r
      → Uses r.env answer.1
      → Obeys r.connections r.next_token (r.calls ++ (call ∷ []))
      → Good m dying (called handler transport registry r call answer)
  after-Uses {m} call answer g u o = record {
    protocol = o;
    sound = λ t c h. map_right (Uses-Sound c.writable m.writes m.closes t u) (g.sound t c h);
    awake_writes = map_right (Uses-AwakeWrites u) g.awake_writes;
    awake_closes = map_right (Uses-AwakeCloses u) g.awake_closes;
  }

  pub weaken :
      {m : Mode} {r : Reactor handler transport registry} (t : ℕ)
      → Good m none r
      → Good m (some t) r
  weaken t g = record {
    protocol = g.protocol;
    sound = λ u c h. inr (alive (g.sound u c h));
    awake_writes = g.awake_writes;
    awake_closes = g.awake_closes;
  }
    where
      alive : {u : ℕ} {S : Type 0} → (none ≡ some u) ⊎ S → S
      alive (inl e) = cc
      alive (inr s) = s

-- The sessions but one are untouched where a heap is updated at that one.
pub Sound-update :
    (e : Env) (t u : ℕ) (s : Session) (w : Bool) (writes writes' closes : List ℕ)
    → (t == u) ≡ false
    → mem u writes ≡ mem u writes'
    → Sound e w writes closes u
    → Sound (record e { heap = update e.heap t s }) w writes' closes u
Sound-update e t u s w writes writes' closes h k v = record {
  named = simp h v.named;
  alive = simp h v.alive;
  written = simp (h, ← k) v.written;
  closing = simp h v.closing;
}

wants_pending : (a b : Bool) → (a ≡ false) ⊎ ((a || b) ≡ true)
wants_pending false b = inl refl
wants_pending true b = inr refl

-- A connection that was flushed is interested in writing where bytes are left.
Sound-flushed :
    (e : Env) (t : ℕ) (outbound : SendBuffer) (w wants : Bool) (writes writes' closes : List ℕ)
    → (has_pending outbound ≡ false) ⊎ (wants ≡ true)
    → Sound e w writes closes t
    → Sound
        (record e { heap = update e.heap t (record (e.heap t) { outbound = outbound }) })
        wants
        writes'
        closes
        t
Sound-flushed e t outbound w wants writes writes' closes h v = record {
  named = simp (==_refl t) v.named;
  alive = simp (==_refl t) v.alive;
  written = simp (==_refl t) (map_right inl h);
  closing = simp (==_refl t) v.closing;
}

module _ (handler : HostHandler) (transport : TransportApi) (registry : Registry) (m : Mode) where
  abbrev pub Conn : Type 0
  Conn = ManagedConnection handler transport registry

  pub alive_at :
      {dying : Option ℕ} {r : Reactor handler transport registry} (t u : ℕ) (c : Conn)
      → (t == u) ≡ false
      → (dying ≡ none) ⊎ (dying ≡ some t)
      → Good m dying r
      → lookup u r.connections ≡ some c
      → Sound r.env c.writable m.writes m.closes u
  alive_at {r = r} t u c ne d g h = elim (g.sound u c h) [ inl e ↦ ground arith | inr s ↦ s ]

  pub dropped-Good :
      (r : Reactor handler transport registry) (t : ℕ) (c : Conn) (answer : handler.State × Env)
      → lookup t r.connections ≡ some c
      → Good m (some t) r
      → Uses (dropped handler transport registry r t).env answer.1
      → Good m none (
          called handler transport registry
            (dropped handler transport registry r t)
            (disconnected t)
            answer)
  dropped-Good r t c answer h g u = record {
    protocol = disconnected-Obeys t g.protocol h;
    sound = λ v c' k. inr (Uses-Sound c'.writable m.writes m.closes v u (kept v c' k));
    awake_writes = map_right (Uses-AwakeWrites u) g.awake_writes;
    awake_closes = map_right (Uses-AwakeCloses u) g.awake_closes;
  }
    where
      kept :
          (v : ℕ) (c' : Conn)
          → lookup v (remove t r.connections) ≡ some c'
          → Sound (dropped handler transport registry r t).env c'.writable m.writes m.closes v
      kept v c' k = elim (Bool-cases (t == v)) [
        | inl same ↦ ground (arith, lookup-remove t v r.connections)
        | inr ne ↦
            Sound-update r.env t v (mark_disposed (r.env.heap t)) c'.writable m.writes m.writes
              m.closes ne refl
              (alive_at t v c' ne (inr refl) g (ground (arith, lookup-remove t v r.connections)))
      ]

  module _ (reregisters : (t : ℕ) → registry.reregister t ≡ true) (writes : List ℕ) where
    pub flushed-Good :
        (r : Reactor handler transport registry) (t : ℕ) (c : Conn)
        (written : TransportOutcome × SendBuffer × transport.Conn)
        → lookup t r.connections ≡ some c
        → ((u : ℕ) → (t == u) ≡ false → mem u m.writes ≡ mem u writes)
        → Good m none r
        → let (gone, r') = flushed handler transport registry r t c written in
          Good (record m { writes = writes }) (if gone then some t else none) r'
    flushed-Good r t c (closed, outbound, conn) h others g = record {
      protocol = modify-Obeys t _ g.protocol;
      sound = λ v c' k. elim (Bool-cases (t == v)) [
        | inl same ↦ inl (ap some (==-eq t v same))
        | inr ne ↦ inr (
            Sound-update r.env t v (record (r.env.heap t) { outbound = outbound }) c'.writable
              m.writes writes m.closes ne (others v ne)
              (alive_at t v c' ne (inl refl) g
                (sym (lookup-modify_ne t v _ r.connections (==-ne t v ne)) ∙ k)))
      ];
      awake_writes = g.awake_writes;
      awake_closes = g.awake_closes;
    }
    flushed-Good r t c (continue_on, outbound, conn) h others g = record {
      protocol = modify-Obeys t _ g.protocol;
      sound = λ v c' k. elim (Bool-cases (t == v)) [
        | inl same ↦ inr (at_token v c' (==-eq t v same) k)
        | inr ne ↦ inr (
            Sound-update r.env t v (record (r.env.heap t) { outbound = outbound }) c'.writable
              m.writes writes m.closes ne (others v ne)
              (alive_at t v c' ne (inl refl) g
                (sym (lookup-modify_ne t v _ r.connections (==-ne t v ne)) ∙ k)))
      ];
      awake_writes = g.awake_writes;
      awake_closes = g.awake_closes;
    }
      where
        wants : Bool
        wants =
            if registry.reregister t
            then has_pending outbound || transport.wants_write conn
            else c.writable

        old : Sound r.env c.writable m.writes m.closes t
        old = elim (g.sound t c h) [ inl e ↦ cc | inr s ↦ s ]

        at_token :
            (v : ℕ) (c' : Conn)
            → t ≡ v
            → lookup v (modify t (record { conn = conn; writable = wants }) r.connections) ≡ some c'
            → Sound
                (record (r.env) {
                  heap = update r.env.heap t (record (r.env.heap t) { outbound = outbound });
                })
                c'.writable
                writes
                m.closes
                v
        at_token v c' e k =
            let written_at =
              lookup-modify_self t (record { conn = conn; writable = wants }) c r.connections h in
            let same : c'.writable ≡ wants = cc in
            rw (same, ← e)
              (Sound-flushed r.env t outbound c.writable wants m.writes writes m.closes
                (simp (reregisters t)
                  (wants_pending (has_pending outbound) (transport.wants_write conn)))
                old)
