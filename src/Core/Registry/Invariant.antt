-- ===== src/Core/Registry/Invariant.antt =====
-- The registry's invariant, kept by every method on every branch.
use dignus_actor_server_rust.Common.{
  ℕ, ◌+◌, ◌-◌, ◌%◌, ◌≤◌, ◌<◌, ◌≡◌, ◌≢◌, refl, true, inl, inr, none, some, List, [], ◌∷◌, length,
  arith, All, Distinct, All-without, set_cases, ap, subst, total, total-set, total-replicate,
  length-set, length-replicate, get_or-replicate, Bool-cases, leb,
}
use dignus_actor_server_rust.Core.Outcome.{state_of, if_state}
use dignus_actor_server_rust.Core.Registry.{
  Slot, ActorRegistry, empty_slot, slot_at, with_capacity, take_slot, reserve_from, reserve,
  u32_mod,
}

module _ {R : Type 0} where
  -- 1 for a slot that is taken.
  abbrev pub odd : Slot R → ℕ
  odd s = s.generation % 2

  abbrev pub IsFree : ActorRegistry R → ℕ → Type 0
  IsFree r i = (i < r.next_unused) × (odd (slot_at R r i) ≡ 0) × ((slot_at R r i).owner ≡ none)

  -- `gap` slots have left the free list, or the unused part, and are not counted as live yet.
  pub record IsValidWith (gap : ℕ) (r : ActorRegistry R) : Type 0 where
    pub sized : length r.slots ≡ r.capacity
    pub small : r.capacity ≤ u32_mod - 2
    pub used : r.next_unused ≤ r.capacity
    pub counted : r.live + length r.free + gap ≡ r.next_unused
    pub taken : total odd r.slots ≤ r.live
    pub free_slots : All (IsFree r) r.free
    pub distinct : Distinct r.free
    pub fresh :
        (i : ℕ) → r.next_unused ≤ i → (odd (slot_at R r i) ≡ 0) × ((slot_at R r i).owner ≡ none)
    pub owned : (i : ℕ) (runner : R) → (slot_at R r i).owner ≡ some runner → odd (slot_at R r i) ≡ 1

  abbrev pub IsValid : ActorRegistry R → Type 0
  IsValid r = IsValidWith 0 r

  -- The constructor makes a valid registry, whatever capacity is asked for.
  pub with_capacity-IsValid : (requested : ℕ) → IsValid (with_capacity R requested)
  unfolding with_capacity
  with_capacity-IsValid requested = record {
    sized = length-replicate _ _;
    small = omega arith;
    used = omega arith;
    counted = omega arith;
    taken = omega (arith, total-replicate odd _ (empty_slot R) refl);
    free_slots = tt;
    distinct = tt;
    fresh = λ i h. rw (get_or-replicate _ i (empty_slot R)) (refl, refl);
    owned = λ i runner h. cc (ap Slot.owner (get_or-replicate _ i (empty_slot R)));
  }

  take_slot-IsValid :
      {r : ActorRegistry R} (i : ℕ)
      → IsValidWith 1 r
      → IsFree r i
      → All (λ j. i ≢ j) r.free
      → IsValid (take_slot R r i).0
  unfolding take_slot
  take_slot-IsValid {r} i v f ne = record {
    sized = omega (arith, v.sized, length-set r.slots i _);
    small = v.small;
    used = v.used;
    counted = omega (arith, v.counted);
    taken = omega (arith, total-set odd r.slots i _ (empty_slot R) inside, f.1, v.taken);
    free_slots =
        All-without i
          (λ j p q.
            set_cases (λ s. (j < r.next_unused) × (odd s ≡ 0) × (s.owner ≡ none)) r.slots i j _
              (empty_slot R) inside (λ e. absurd (p e)) (λ _. q))
          r.free ne v.free_slots;
    distinct = v.distinct;
    fresh = λ j h.
        set_cases (λ s. (odd s ≡ 0) × (s.owner ≡ none)) r.slots i j _ (empty_slot R) inside
          (λ e. absurd (omega (arith, e, f.0, h))) (λ _. v.fresh j h);
    owned = λ j runner.
        set_cases (λ s. s.owner ≡ some runner → odd s ≡ 1) r.slots i j _ (empty_slot R) inside
          (λ _ h. cc f.2) (λ _. v.owned j runner);
  }
    where
      inside : i < length r.slots
      inside = omega (arith, f.0, v.used, v.sized)

  poisoned-IsValid : {r : ActorRegistry R} → IsValid r → IsValid (record r { poisoned = true })
  poisoned-IsValid v = record {
    sized = v.sized;
    small = v.small;
    used = v.used;
    counted = v.counted;
    taken = v.taken;
    free_slots = v.free_slots;
    distinct = v.distinct;
    fresh = v.fresh;
    owned = v.owned;
  }

  reserve_from-IsValid :
      {r : ActorRegistry R} (free : List ℕ)
      → IsValid r
      → r.free ≡ free
      → IsValid (state_of (reserve_from R r free))
  unfolding reserve_from
  reserve_from-IsValid {r} (i ∷ rest) v e =
      let all : All (IsFree r) (i ∷ rest) = subst (All (IsFree r)) e v.free_slots in
      let apart : Distinct (i ∷ rest) = subst Distinct e v.distinct in
      take_slot-IsValid i
        (record {
          sized = v.sized;
          small = v.small;
          used = v.used;
          counted = omega (arith, v.counted, ap length e);
          taken = v.taken;
          free_slots = all.1;
          distinct = apart.1;
          fresh = v.fresh;
          owned = v.owned;
        })
        all.0 apart.0
  reserve_from-IsValid {r} [] v e = elim (Bool-cases (leb r.capacity r.next_unused)) [
    | inl full ↦ rw full (poisoned-IsValid v)
    | inr room ↦ rw room (
        take_slot-IsValid {r = record r { next_unused = r.next_unused + 1 }} r.next_unused
          (record {
            sized = v.sized;
            small = v.small;
            used = ground (arith, v.used);
            counted = omega (arith, v.counted);
            taken = v.taken;
            free_slots = rw e tt;
            distinct = v.distinct;
            fresh = λ j h. v.fresh j (omega arith);
            owned = v.owned;
          })
          (
            omega arith,
            (v.fresh r.next_unused (omega arith)).0,
            (v.fresh r.next_unused (omega arith)).1,
          )
          (rw e tt))
  ]

  -- `reserve` keeps the registry valid, also where it panics.
  pub reserve-IsValid : {r : ActorRegistry R} → IsValid r → IsValid (state_of (reserve R r))
  unfolding reserve
  reserve-IsValid {r} v =
      if_state IsValid r.poisoned _ _ (λ _. v) (λ _. reserve_from-IsValid r.free v refl)
