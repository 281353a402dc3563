-- ===== src/Core/Registry/Removal.antt =====
-- The registry's invariant under `commit` and `remove`.
use dignus_actor_server_rust.Common.{
  ℕ, ◌-◌, ◌%◌, ◌<◌, ◌≡◌, ◌≢◌, Option, none, some, List, ◌∷◌, length, set, arith, All, All-without,
  All-map, set_cases, not, not-eq-false, ==-eq, ap, dec_lt, total-set, le-total, length-set,
  get_or-set_self, leb, ◌==◌,
}
use dignus_actor_server_rust.Core.Outcome.{state_of, if_state}
use dignus_actor_server_rust.Core.Registry.{
  ActorRegistry, empty_slot, slot_at, commit, release, remove, wrapping_add_one,
}
use dignus_actor_server_rust.Core.Registry.Invariant.{odd, IsFree, IsValid}

module _ {R : Type 0} where
  used_of_odd :
      {r : ActorRegistry R} → IsValid r → (i : ℕ) → odd (slot_at R r i) ≡ 1 → i < r.next_unused
  used_of_odd {r} v i h = elim (dec_lt i r.next_unused) [
    | yes p ↦ p
    | no p ↦ absurd (omega (arith, v.fresh i (omega arith), h))
  ]

  not_free_of_odd :
      (r : ActorRegistry R) (i : ℕ)
      → odd (slot_at R r i) ≡ 1
      → (free : List ℕ) → All (IsFree r) free
      → All (λ j. i ≢ j) free
  not_free_of_odd r i h free all =
      All-map (λ j f e. absurd (omega (arith, h, f.1, ap (λ k. odd (slot_at R r k)) e))) free all

  -- `commit` into a slot that was reserved keeps the registry valid.
  pub commit-IsValid :
      {r : ActorRegistry R} (index : ℕ) (runner : R)
      → IsValid r
      → odd (slot_at R r index) ≡ 1
      → IsValid (commit R r index runner)
  unfolding commit
  commit-IsValid {r} i runner v h = record {
    sized = omega (arith, v.sized, length-set r.slots i _);
    small = v.small;
    used = v.used;
    counted = v.counted;
    taken = omega (arith, total-set odd r.slots i _ (empty_slot R) inside, v.taken);
    free_slots =
        All-without i
          (λ j p q.
            set_cases (λ s. (j < r.next_unused) × (odd s ≡ 0) × (s.owner ≡ none)) r.slots i j _
              (empty_slot R) inside (λ e. absurd (p e)) (λ _. q))
          r.free (not_free_of_odd r i h r.free v.free_slots) v.free_slots;
    distinct = v.distinct;
    fresh = λ j q.
        set_cases (λ s. (odd s ≡ 0) × (s.owner ≡ none)) r.slots i j _ (empty_slot R) inside
          (λ e. absurd (omega (arith, e, used_of_odd v i h, q))) (λ _. v.fresh j q);
    owned = λ j other.
        set_cases (λ s. s.owner ≡ some other → odd s ≡ 1) r.slots i j _ (empty_slot R) inside
          (λ _ _. h) (λ _. v.owned j other);
  }
    where
      inside : i < length r.slots
      inside = omega (arith, used_of_odd v i h, v.used, v.sized)

  -- The slot of a removed handle: even, without an owner.
  cleared : ActorRegistry R → ℕ → ActorRegistry R
  cleared r i = record r {
    slots =
        set r.slots i
          (record { generation = wrapping_add_one (slot_at R r i).generation; owner = none });
  }

  cleared-IsValid :
      {r : ActorRegistry R} (i : ℕ) → IsValid r → odd (slot_at R r i) ≡ 1 → IsValid (cleared r i)
  unfolding cleared
  cleared-IsValid {r} i v h = record {
    sized = omega (arith, v.sized, length-set r.slots i _);
    small = v.small;
    used = v.used;
    counted = v.counted;
    taken = omega (arith, total-set odd r.slots i _ (empty_slot R) inside, v.taken);
    free_slots =
        All-without i
          (λ j p q.
            set_cases (λ s. (j < r.next_unused) × (odd s ≡ 0) × (s.owner ≡ none)) r.slots i j _
              (empty_slot R) inside (λ e. absurd (p e)) (λ _. q))
          r.free (not_free_of_odd r i h r.free v.free_slots) v.free_slots;
    distinct = v.distinct;
    fresh = λ j q.
        set_cases (λ s. (odd s ≡ 0) × (s.owner ≡ none)) r.slots i j _ (empty_slot R) inside
          (λ e. absurd (omega (arith, e, used_of_odd v i h, q))) (λ _. v.fresh j q);
    owned = λ j other.
        set_cases (λ s. s.owner ≡ some other → odd s ≡ 1) r.slots i j _ (empty_slot R) inside
          (λ _ q. cc) (λ _. v.owned j other);
  }
    where
      inside : i < length r.slots
      inside = omega (arith, used_of_odd v i h, v.used, v.sized)

  -- Giving the cleared slot back to the free list, where an owner had been.
  freed-IsValid :
      {r : ActorRegistry R} (i : ℕ)
      → IsValid r
      → odd (slot_at R r i) ≡ 1
      → IsValid (record (cleared r i) { free = i ∷ r.free; live = r.live - 1 })
  unfolding cleared
  freed-IsValid {r} i v h = record {
    sized = c.sized;
    small = v.small;
    used = v.used;
    counted = omega (arith, v.counted, v.taken, le-total odd r.slots i (empty_slot R) inside, h);
    taken = omega (arith, total-set odd r.slots i _ (empty_slot R) inside, v.taken);
    free_slots = ((used_of_odd v i h, rw again (omega arith), rw again), c.free_slots);
    distinct = (not_free_of_odd r i h r.free v.free_slots, v.distinct);
    fresh = c.fresh;
    owned = c.owned;
  }
    where
      inside : i < length r.slots
      inside = omega (arith, used_of_odd v i h, v.used, v.sized)

      again :
          slot_at R (cleared r i) i
          ≡ record { generation = wrapping_add_one (slot_at R r i).generation; owner = none }
      again = get_or-set_self r.slots i _ (empty_slot R) inside

      c : IsValid (cleared r i)
      c = cleared-IsValid i v h

  released-IsValid :
      {r : ActorRegistry R} (i : ℕ) (owner : Option R)
      → IsValid r
      → odd (slot_at R r i) ≡ 1
      → IsValid (release R (cleared r i) i owner)
  unfolding release cleared
  released-IsValid i none v h = cleared-IsValid i v h
  released-IsValid i (some runner) v h = freed-IsValid i v h

  -- `remove` keeps the registry valid, whether the handle is live, stale or out of range.
  pub remove-IsValid :
      {r : ActorRegistry R} (index generation : ℕ)
      → IsValid r
      → generation % 2 ≡ 1
      → IsValid (state_of (remove R r index generation))
  unfolding remove cleared
  remove-IsValid {r} i g v h =
      if_state IsValid r.poisoned _ _ (λ _. v)
        (λ _.
          if_state IsValid (leb r.capacity i) _ _ (λ _. v)
            (λ _.
              if_state IsValid (not ((slot_at R r i).generation == g)) _ _ (λ _. v)
                (λ same.
                  let e = ==-eq (slot_at R r i).generation g (not-eq-false _ same) in
                  rw (← e) (released-IsValid i (slot_at R r i).owner v (rw e h)))))
