-- ===== src/Core/Queue/Race/Moves.antt =====
-- What a step of one thread needs of the other threads and slots.
use dignus_actor_server_rust.Common.{
  put, ℕ, ◌+◌, ◌<◌, ◌≤◌, ◌≡◌, ◌≢◌, sym, ap, ◌∙◌, ◌⊎◌, inl, inr, false, ◌==◌, arith, ==-eq, ==-ne,
  Bool-cases, dec_lt,
}
use dignus_actor_server_rust.Core.Queue.Modulo.{mod_wrap}
use dignus_actor_server_rust.Core.Queue.Race.{
  Producer, outside, entered, loaded, matched, claimed, written, Ring, slot, at,
}
use dignus_actor_server_rust.Core.Queue.Race.Slots.{nth, apart, head, Owns, Fine, Inv}

module _ {T : Type 0} where
  -- One thread has moved; the others stand where they stood.
  pub by_thread :
      (r s : Ring T) (t : ℕ) (p : Producer T)
      → Fine s t p
      → ((u : ℕ) → t ≢ u → Fine s u (r.producer u))
      → (u : ℕ) → Fine s u (put r.producer t p u)
  by_thread r s t p moved others u = elim (Bool-cases (t == u)) [
    | inl same ↦ rw (same, ← ==-eq t u same) moved
    | inr ne ↦ rw ne (others u (==-ne t u ne))
  ]

  -- A step that moves only a thread.
  pub at-Inv : (r : Ring T) (t : ℕ) (p : Producer T) → Fine r t p → Inv r → Inv (at r t p)
  at-Inv r t p moved v = record {
    big = v.big;
    behind = v.behind;
    ahead = v.ahead;
    counted = v.counted;
    got = v.got;
    in_order = v.in_order;
    filled = v.filled;
    seen = v.seen;
    vacant = v.vacant;
    past = v.past;
    fine = λ u. same_fine u _ (by_thread r r t p moved (λ u ne. v.fine u) u);
  }
    where
      same_fine : (u : ℕ) (q : Producer T) → Fine r u q → Fine (at r t p) u q
      same_fine u outside f = tt
      same_fine u (entered x) f = tt
      same_fine u (loaded x q) f = f
      same_fine u (matched x q) f = f
      same_fine u (claimed x q) (o, e) =
          (record { winner = o.winner; live = o.live; won = o.won; unpublished = o.unpublished }, e)
      same_fine u (written q) (o, e) =
          (record { winner = o.winner; live = o.live; won = o.won; unpublished = o.unpublished }, e)

  -- What a thread that does not move needs of a step.
  pub carry :
      (r s : Ring T) (u : ℕ)
      → r.producer_index ≤ s.producer_index
      → head r + r.capacity ≤ head s + s.capacity
      → ((p : ℕ)
          → Owns r u p
          → Owns s u p
            × (nth s.accepted p ≡ nth r.accepted p)
            × (s.item (slot s p) ≡ r.item (slot r p)))
      → (q : Producer T) → Fine r u q
      → Fine s u q
  carry r s u more further owned outside f = tt
  carry r s u more further owned (entered x) f = tt
  carry r s u more further owned (loaded x p) f = omega (arith, f, more)
  carry r s u more further owned (matched x p) f = ground (arith, more, further, f)
  carry r s u more further owned (claimed x p) (o, e) =
      let (o', accepted, item) = owned p o in (o', accepted ∙ e)
  carry r s u more further owned (written p) (o, e) =
      let (o', accepted, item) = owned p o in (o', item ∙ e ∙ sym accepted)

  -- Other positions that wait or are owned stand at other slots.
  pub others :
      (r : Ring T) (p q : ℕ)
      → Inv r
      → head r ≤ p
      → p < head r + r.capacity
      → head r ≤ q
      → q < head r + r.capacity
      → p ≢ q
      → (slot r p == slot r q) ≡ false
  others r p q v a b c d ne = apart r.capacity (head r) p q a b c d ne

  -- Where a sequence is its position's own, the position is taken, or there is room for it.
  pub room :
      (r : Ring T) (p : ℕ)
      → Inv r
      → p ≤ r.producer_index
      → r.sequence (slot r p) ≡ p
      → (p < r.producer_index) ⊎ (p < head r + r.capacity)
  room r p v h e = elim (dec_lt p (head r + r.capacity)) [
    | yes lt ↦ inr lt
    | no ge ↦
        let here : p ≡ head r + r.capacity = omega (arith, v.ahead, v.big) in
        let wrapped : slot r (head r) ≡ slot r p =
          sym (ap (slot r) here ∙ mod_wrap (head r) r.capacity) in
        ground (arith, v.filled (head r), v.big, v.ahead, ap r.sequence wrapped)
  ]
