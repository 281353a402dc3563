-- ===== src/Core/Registry/Gone.antt =====
-- A handle that was removed finds nothing again.
use dignus_actor_server_rust.Common.{
  ℕ, ◌+◌, ◌-◌, ◌<◌, ◌≡◌, ◌≢◌, refl, sym, ap, ◌∙◌, Option, none, some, List, [], ◌∷◌, length, get_or,
  set, get_or-set_self, arith, leb, not, ◌==◌, if_cases, get_or-replicate, min, max, zero, suc,
  ==-eq, not-eq-false,
}
use dignus_actor_server_rust.Core.Outcome.{Outcome, returned, panicked, state_of}
use dignus_actor_server_rust.Core.Registry.{
  Slot, ActorRegistry, empty_slot, slot_at, with_capacity, take_slot, reserve_from, reserve, target,
  remove, wrapping_add_one, u32_mod,
}
use dignus_actor_server_rust.Core.Registry.Removing.{released_lem, target_stale}
use dignus_actor_server_rust.Core.Registry.History.{Op, run, generation_at, run-generation}

module _ {R : Type 0} where
  abbrev found_of : Outcome (ActorRegistry R) (Option R) → Option R
  found_of (returned o r) = o
  found_of (panicked r) = none

  abbrev handle_of : Outcome (ActorRegistry R) (ℕ × ℕ) → ℕ × ℕ
  handle_of (returned h r) = h
  handle_of (panicked r) = (0, 0)

  pub owned_inside :
      (xs : List (Slot R)) (i : ℕ) (runner : R)
      → (get_or xs i (empty_slot R)).owner ≡ some runner
      → i < length xs
  owned_inside [] i runner h = absurd (cc h)
  owned_inside (x ∷ xs) zero runner h = omega arith
  owned_inside (x ∷ xs) (suc i) runner h = omega (arith, owned_inside xs i runner h)

  -- What `remove` did when it gave a runner.
  removed_lem :
      (r s : ActorRegistry R) (i g : ℕ) (runner : R)
      → remove R r i g ≡ returned (some runner) s
      → (generation_at r i ≡ g) × (generation_at s i ≡ wrapping_add_one g)
  unfolding remove
  removed_lem r s i g runner =
      if_cases Gives r.poisoned (λ _ h. absurd (cc h))
        (λ _.
          if_cases Gives (leb r.capacity i) (λ _ h. absurd (cc h))
            (λ _.
              if_cases Gives (not ((slot_at R r i).generation == g)) (λ _ h. absurd (cc h))
                (λ same h.
                  let current : generation_at r i ≡ g =
                    ==-eq (generation_at r i) g (not-eq-false _ same) in
                  let owned : (slot_at R r i).owner ≡ some runner = ap found_of h in
                  let inside = owned_inside r.slots i runner owned in
                  let s' : ActorRegistry R = record r {
                    slots =
                        set r.slots i (record { generation = wrapping_add_one g; owner = none });
                  } in
                  (
                    current,
                    ap (λ q. generation_at q i) (sym (ap state_of h))
                        ∙ ap Slot.generation (
                            ap (λ l. get_or l i (empty_slot R))
                              (released_lem s' i (slot_at R r i).owner).0
                            ∙ get_or-set_self r.slots i
                                (record { generation = wrapping_add_one g; owner = none })
                                (empty_slot R) inside),
                  ))))
    where
      Gives : Outcome (ActorRegistry R) (Option R) → Type 0
      Gives o =
          o ≡ returned (some runner) s
          → (generation_at r i ≡ g) × (generation_at s i ≡ wrapping_add_one g)

  taken_generation :
      (r q : ActorRegistry R) (i index g : ℕ)
      → q.slots ≡ r.slots
      → index ≡ i
      → (take_slot R q index).1 ≡ g
      → g ≡ wrapping_add_one (generation_at r i)
  unfolding take_slot
  taken_generation r q i index g e at given =
      sym given
      ∙ ap (λ l. wrapping_add_one (get_or l index (empty_slot R)).generation) e
      ∙ ap (λ k. wrapping_add_one (generation_at r k)) at

  reserved_generation :
      (r s : ActorRegistry R) (i g : ℕ)
      → reserve R r ≡ returned (i, g) s
      → g ≡ wrapping_add_one (generation_at r i)
  unfolding reserve reserve_from
  reserved_generation r s i g =
      if_cases Gives r.poisoned (λ _ h. absurd (cc h)) (λ _. from_free r.free)
    where
      Gives : Outcome (ActorRegistry R) (ℕ × ℕ) → Type 0
      Gives o = o ≡ returned (i, g) s → g ≡ wrapping_add_one (generation_at r i)

      from_free : (free : List ℕ) → Gives (reserve_from R r free)
      from_free (index ∷ rest) h =
          taken_generation r (record r { free = rest }) i index g refl (ap (λ o. (handle_of o).0) h)
            (ap (λ o. (handle_of o).1) h)
      from_free [] h =
          if_cases Gives (leb r.capacity r.next_unused) (λ _ h. absurd (cc h))
            (λ _ h.
              taken_generation r (record r { next_unused = r.next_unused + 1 }) i r.next_unused g
                refl (ap (λ o. (handle_of o).0) h) (ap (λ o. (handle_of o).1) h))
            h

  -- A handle whose removal gave a runner is dead for good, as long as fewer than 2 ^ 32 - 2 calls
  -- that change the registry come before the removal and after it: whatever is called, the handle
  -- finds no runner, and `reserve` does not hand it out again.
  pub removed_for_good :
      (capacity i g : ℕ) (runner : R) (before after : List (Op R)) (s t : ActorRegistry R)
      → remove R (run before (with_capacity R capacity)) i g ≡ returned (some runner) s
      → length before + length after + 2 < u32_mod
      → (target R (run after s) (run after s) i g ≡ none)
        × (reserve R (run after s) ≢ returned (i, g) t)
  removed_for_good capacity i g runner before after s t removed few =
      let (current, next) =
        removed_lem (run before (with_capacity R capacity)) s i g runner removed in
      let (_, young) =
        run-generation before (with_capacity R capacity) i (omega (arith, few, fresh i)) in
      let (kept, bounded) =
        run-generation after s i (omega (arith, few, fresh i, current, young, next)) in
      (
        target_stale (run after s) i g
            (λ same. absurd (omega (arith, fresh i, current, young, next, kept, few, same))),
        (λ again. absurd (
            omega (
              arith,
              reserved_generation (run after s) t i g again,
              fresh i,
              current,
              young,
              next,
              kept,
              bounded,
              few,
            ))),
      )
    where
      fresh : (j : ℕ) → generation_at (with_capacity R capacity) j ≡ 0
      fresh j =
          unfold with_capacity in
          (ap Slot.generation
            (get_or-replicate (min (max capacity 1) (u32_mod - 2)) j (empty_slot R)))
