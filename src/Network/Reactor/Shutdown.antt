-- ===== src/Network/Reactor/Shutdown.antt =====
-- How a worker ends: every session is disconnected.
use dignus_actor_server_rust.Common.{
  ℕ, ◌≡◌, ◌≢◌, refl, ◌∙◌, Bool, true, false, ◌||◌, ◌⊎◌, inl, inr, Option, none, some, List, [], ◌∷◌,
  ◌==◌, if◌then◌else◌, arith, lookup, keys, lookup-remove, Returns, Returns-bind, Returns-after,
  Returns-map,
}
use dignus_actor_server_rust.Network.Handler.{HostHandler, TransportApi}
use dignus_actor_server_rust.Network.Handler.Sound.{mem}
use dignus_actor_server_rust.Network.Reactor.{
  Registry, ManagedConnection, Reactor, close, close_connection, close_each, close_all, set_shared,
}
use dignus_actor_server_rust.Network.Reactor.Run.{
  handle_event, waker, turn_of, returned, goes_on, woken_up,
}
use dignus_actor_server_rust.Network.Reactor.Protocol.{
  Phase, unseen, gone, open_now, broken, is_open, is_broken, is_some,
}

mem-keys : {V : Type 0} (t : ℕ) (m : List (ℕ × V)) → mem t (keys m) ≡ is_some (lookup t m)
mem-keys t [] = refl
mem-keys t ((k, v) ∷ m) = ground (arith, mem-keys t m)

both :
    {V : Type 0} (a b : Bool) (o p : Option V)
    → o ≡ (if a then none else p)
    → (if b then none else o) ≡ (if a || b then none else p)
both true true o p h = refl
both true false o p h = h
both false true o p h = refl
both false false o p h = h

pub ended_phase : (p : Phase) → is_broken p ≡ false → is_open p ≡ false → (p ≡ unseen) ⊎ (p ≡ gone)
ended_phase unseen b o = inl refl
ended_phase gone b o = inr refl
ended_phase open_now b o = cc
ended_phase broken b o = cc

module _ {handler : HostHandler} {transport : TransportApi} {registry : Registry} where
  close_lookup :
      (t : ℕ) (r : Reactor handler transport registry)
      (o : Option (ManagedConnection handler transport registry))
      → lookup t r.connections ≡ o
      → Returns
          (λ (r' : Reactor handler transport registry).
            (u : ℕ) → lookup u r'.connections ≡ (if t == u then none else lookup u r.connections))
          (close_connection handler transport registry r t o)
  unfolding close_connection
  close_lookup t r none h = λ u. ground arith
  close_lookup t r (some c) h =
      Returns-after _ (handler.on_disconnected r.handler_state _ (r.env.heap t).id) _
        (λ answer u. lookup-remove t u r.connections)

  pub close_each_lookup :
      (tokens : List ℕ) (r : Reactor handler transport registry)
      → Returns
          (λ (r' : Reactor handler transport registry).
            (u : ℕ)
            → lookup u r'.connections ≡ (if mem u tokens then none else lookup u r.connections))
          (close_each handler transport registry tokens r)
  unfolding close_each
  close_each_lookup [] r = λ u. refl
  close_each_lookup (t ∷ ts) r =
      Returns-bind _ (close handler transport registry r t) _
        (close_lookup t r (lookup t r.connections) refl)
        (λ r₁ h₁.
          Returns-map (close_each handler transport registry ts r₁)
            (λ r₂ h₂ u. h₂ u ∙ both (t == u) (mem u ts) _ _ (h₁ u)) (close_each_lookup ts r₁))

  close_all_lookup :
      (r : Reactor handler transport registry)
      → Returns
          (λ (r' : Reactor handler transport registry). (u : ℕ) → lookup u r'.connections ≡ none)
          (close_all handler transport registry r)
  unfolding close_all
  close_all_lookup r =
      Returns-map (close_each handler transport registry (keys r.connections) r)
        (λ r' h u. h u ∙ emptied u) (close_each_lookup (keys r.connections) r)
    where
      emptied :
          (u : ℕ) → (if mem u (keys r.connections) then none else lookup u r.connections) ≡ none
      emptied u = ground (arith, mem-keys u r.connections)

  none_left :
      (o : Option (Reactor handler transport registry)) (r' : Reactor handler transport registry)
      (t : ℕ)
      → turn_of handler transport registry returned o ≡ returned r'
      → Returns
          (λ (r' : Reactor handler transport registry). (u : ℕ) → lookup u r'.connections ≡ none)
          o
      → lookup t r'.connections ≡ none
  none_left none r' t e h = cc
  none_left (some r) r' t e h = let same : r ≡ r' = cc in rw (← same) (h t)

  goes_on-ne-returned :
      (o : Option (Reactor handler transport registry)) (r' : Reactor handler transport registry)
      → turn_of handler transport registry goes_on o ≢ returned r'
  goes_on-ne-returned none r' e = cc
  goes_on-ne-returned (some r) r' e = cc

  by_stop :
      (stopped : Bool) (o o' : Option (Reactor handler transport registry))
      (r' : Reactor handler transport registry) (t : ℕ)
      → (if stopped
          then turn_of handler transport registry returned o
          else turn_of handler transport registry goes_on o')
        ≡ returned r'
      → Returns
          (λ (r' : Reactor handler transport registry). (u : ℕ) → lookup u r'.connections ≡ none)
          o
      → lookup t r'.connections ≡ none
  by_stop true o o' r' t e h = none_left o r' t e h
  by_stop false o o' r' t e h = absurd (goes_on-ne-returned o' r' e)

  pub ended_worker :
      (r r' : Reactor handler transport registry) (t : ℕ)
      → handle_event handler transport registry r waker ≡ returned r'
      → lookup t r'.connections ≡ none
  unfolding handle_event
  ended_worker r r' t e =
      let awake =
        set_shared handler transport registry r (record (r.env.shared) { woken = false }) in
      by_stop r.env.shared.stopped (close_all handler transport registry awake)
        (woken_up handler transport registry awake) r' t e (close_all_lookup awake)
