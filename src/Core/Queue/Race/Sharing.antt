-- ===== src/Core/Queue/Race/Sharing.antt =====
-- Who may touch a slot's memory, and when a producer is turned away.
use dignus_actor_server_rust.Common.{ℕ, ◌+◌, ◌<◌, ◌≤◌, ◌≡◌, ◌≢◌, sym, ap, ◌∙◌, length, arith}
use dignus_actor_server_rust.Core.Queue.Race.{loaded, claimed, resting, Ring, slot, empty, Reach}
use dignus_actor_server_rust.Core.Queue.Race.Slots.{head, head_of, Fine, Inv, empty-Inv, apart}
use dignus_actor_server_rust.Core.Queue.Race.Handoff.{Reach-Inv, Reach-capacity}

module _ {T : Type 0} where
  own_slots :
      (r : Ring T) (p q : ℕ)
      → Inv r
      → head r ≤ p
      → p < r.producer_index
      → head r ≤ q
      → q < r.producer_index
      → p ≢ q
      → slot r p ≢ slot r q
  own_slots r p q v a b c d ne same = ground (
    arith,
    apart r.capacity (head r) p q a (omega (arith, b, v.ahead)) c (omega (arith, d, v.ahead)) ne,
    same,
  )

  -- No data race on a slot's memory: a thread that is about to write an item is the only one that is
  -- about to write to that slot, and the consumer is not about to read it.
  pub no_data_race :
      (capacity : ℕ) (r : Ring T) (t p : ℕ) (x : T)
      → 2 ≤ capacity
      → Reach (empty T capacity) r
      → r.producer t ≡ claimed x p
      → ((u q : ℕ) (y : T) → r.producer u ≡ claimed y q → t ≢ u → slot r p ≢ slot r q)
        × (r.consumer ≡ resting
            → r.sequence (slot r r.consumer_index) ≡ r.consumer_index + 1
            → slot r p ≢ slot r r.consumer_index)
  unfolding empty
  no_data_race capacity r t p x h s e =
      let v = Reach-Inv s (empty-Inv capacity h) in
      let f : Fine r t (claimed x p) = rw e at (v.fine t) in
      (
        λ u q y e' ne.
            let g : Fine r u (claimed y q) = rw e' at (v.fine u) in
            own_slots r p q v f.0.live f.0.won g.0.live g.0.won
              (λ same. ne (sym f.0.winner ∙ ap r.owner same ∙ g.0.winner)),
        λ rest full same.
            let c = r.consumer_index in
            let hd : head r ≡ c = ap (λ k. head_of k c) rest in
            let next : p ≡ c + 1 = omega (arith, f.0.unpublished, ap r.sequence same, full) in
            own_slots r p c v f.0.live f.0.won (omega (arith, hd)) (omega (arith, next, f.0.won))
              (λ equal. omega (arith, equal, next)) same,
      )

  -- A producer is turned away only while the ring is full: at that moment every position that was won
  -- and not given back by the consumer, `capacity` of them, is in use.
  pub refused_when_full :
      (capacity : ℕ) (r : Ring T) (t p : ℕ) (x : T)
      → 2 ≤ capacity
      → Reach (empty T capacity) r
      → r.producer t ≡ loaded x p
      → r.sequence (slot r p) < p
      → length r.accepted ≡ head r + capacity
  unfolding empty
  refused_when_full capacity r t p x h s e less =
      let v = Reach-Inv s (empty-Inv capacity h) in
      let f : Fine r t (loaded x p) = rw e at (v.fine t) in
      ground
        (arith, v.past p, v.filled p, v.vacant p, v.ahead, v.counted, f, Reach-capacity s, less)
