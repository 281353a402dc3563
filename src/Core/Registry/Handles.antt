-- ===== src/Core/Registry/Handles.antt =====
-- The registry as a map from handles to runners: `target` at one state is its lookup.
use dignus_actor_server_rust.Common.{
  ℕ, ◌+◌, ◌%◌, ◌<◌, ◌≡◌, refl, sym, ap, ◌∙◌, ◌&&◌, inl, inr, none, some, List, [], ◌∷◌, length,
  get_or, set, arith, All, leb, ◌==◌, if◌then◌else◌, Bool-cases, length-set, get_or-set_self,
  get_or-set_ne, ℕ_discrete, subst,
}
use dignus_actor_server_rust.Core.Outcome.{Outcome, returned, panicked}
use dignus_actor_server_rust.Core.Registry.{
  Slot, ActorRegistry, empty_slot, slot_at, take_slot, reserve_from, reserve, commit, target,
  wrapping_add_one,
}
use dignus_actor_server_rust.Core.Registry.Invariant.{odd, IsFree, IsValid}

module _ {R : Type 0} where
  -- What `reserve` did, where it returned.
  record Reserved (r r' : ActorRegistry R) (i g : ℕ) : Type 0 where
    inside : i < length r.slots
    in_range : i < r.capacity
    was_even : odd (slot_at R r i) ≡ 0
    no_owner : (slot_at R r i).owner ≡ none
    generation : g ≡ wrapping_add_one (slot_at R r i).generation
    slots : r'.slots ≡ set r.slots i (record (slot_at R r i) { generation = g })
    capacity : r'.capacity ≡ r.capacity
    live : r'.live ≡ r.live + 1
    healthy : r'.poisoned ≡ r.poisoned

  take_slot-Reserved :
      (r r₁ : ActorRegistry R) (i : ℕ)
      → IsValid r
      → odd (slot_at R r i) ≡ 0
      → (slot_at R r i).owner ≡ none
      → i < r.capacity
      → r₁.slots ≡ r.slots
      → r₁.capacity ≡ r.capacity
      → r₁.live ≡ r.live
      → r₁.poisoned ≡ r.poisoned
      → Reserved r (take_slot R r₁ i).0 i (take_slot R r₁ i).1
  unfolding take_slot
  take_slot-Reserved r r₁ i v even free within s c l p = record {
    inside = omega (arith, v.sized);
    in_range = within;
    was_even = even;
    no_owner = free;
    generation = rw s;
    slots = rw s;
    capacity = c;
    live = omega (arith, l);
    healthy = p;
  }

  abbrev ReservedBy : ActorRegistry R → Outcome (ActorRegistry R) (ℕ × ℕ) → Type 0
  ReservedBy r (returned (i, g) s) = Reserved r s i g
  ReservedBy r (panicked s) = Unit

  reserve_from-Reserved :
      {r r' : ActorRegistry R} {i g : ℕ} (free : List ℕ)
      → IsValid r
      → r.free ≡ free
      → reserve_from R r free ≡ returned (i, g) r'
      → Reserved r r' i g
  unfolding reserve_from
  reserve_from-Reserved {r} {r'} {i} {g} (k ∷ rest) v e h =
      let f : IsFree r k = (subst (All (IsFree r)) e v.free_slots).0 in
      subst (ReservedBy r) h (
        take_slot-Reserved r (record r { free = rest }) k v f.1 f.2 (omega (arith, f.0, v.used))
          refl refl refl refl)
  reserve_from-Reserved {r} {r'} {i} {g} [] v e h =
      elim (Bool-cases (leb r.capacity r.next_unused)) [
        | inl full ↦ cc (rw full at h)
        | inr room ↦
            let f = v.fresh r.next_unused (omega arith) in
            subst (ReservedBy r) (rw room at h) (
              take_slot-Reserved r (record r { next_unused = r.next_unused + 1 }) r.next_unused v
                f.0 f.1 (ground arith) refl refl refl refl)
      ]

  reserve-Reserved :
      {r r' : ActorRegistry R} {i g : ℕ}
      → IsValid r
      → reserve R r ≡ returned (i, g) r'
      → Reserved r r' i g
  unfolding reserve
  reserve-Reserved {r} v h = elim (Bool-cases r.poisoned) [
    | inl p ↦ cc (simp p at h)
    | inr p ↦
        reserve_from-Reserved r.free v refl
          (ap (λ b. if b then panicked r else reserve_from R r r.free) (sym p) ∙ h)
  ]

  -- A slot read after a write.
  pub target-set :
      (r r' : ActorRegistry R) (i : ℕ) (s : Slot R) (j h : ℕ)
      → r'.slots ≡ set r.slots i s
      → r'.capacity ≡ r.capacity
      → i < length r.slots
      → i < r.capacity
      → target R r' r' j h
        ≡ (if j == i then (if s.generation == h then s.owner else none) else target R r r j h)
  unfolding target
  target-set r r' i s j h e c inside within = elim (ℕ_discrete i j) [
    | yes same ↦
        let read : get_or r'.slots j (empty_slot R) ≡ s =
          rw (e, ← same) (get_or-set_self r.slots i s (empty_slot R) inside) in
        rw (read, c) (ground arith)
    | no other ↦
        let read : get_or r'.slots j (empty_slot R) ≡ get_or r.slots j (empty_slot R) =
          rw e (get_or-set_ne r.slots i j s (empty_slot R) other) in
        rw (read, c) (ground arith)
  ]

  pub target_no_owner :
      (r : ActorRegistry R) (i g : ℕ) → (slot_at R r i).owner ≡ none → target R r r i g ≡ none
  unfolding target
  target_no_owner r i g e = ground arith

  -- Reserving a slot changes no lookup: the new handle finds nothing yet, and every other what it
  -- found before. The index is in range, the generation odd and new to the slot, one more is live.
  pub reserve-target :
      (r r' : ActorRegistry R) (i g j h : ℕ)
      → IsValid r
      → reserve R r ≡ returned (i, g) r'
      → (i < r.capacity)
        × (g % 2 ≡ 1)
        × (target R r r i g ≡ none)
        × (target R r' r' j h ≡ target R r r j h)
        × (r'.live ≡ r.live + 1)
  reserve-target r r' i g j h v e =
      let t = reserve-Reserved v e in
      (
        t.in_range,
        omega (arith, t.generation, t.was_even),
        target_no_owner r i g t.no_owner,
        target-set r r' i _ j h t.slots t.capacity t.inside t.in_range
            ∙ ground (arith, t.no_owner, target_no_owner r i h t.no_owner),
        t.live,
      )

  pub reserve-odd :
      (r r' : ActorRegistry R) (i g : ℕ)
      → IsValid r
      → reserve R r ≡ returned (i, g) r'
      → odd (slot_at R r' i) ≡ 1
  reserve-odd r r' i g v e =
      let t = reserve-Reserved v e in
      let current : (slot_at R r' i).generation ≡ g = rw t.slots (
        ap Slot.generation (
          get_or-set_self r.slots i (record (slot_at R r i) { generation = g }) (empty_slot R)
            t.inside)) in
      omega (arith, current, t.generation, t.was_even)

  -- Committing a runner under a handle that was just reserved adds it to the lookup, and changes
  -- nothing else.
  pub commit-target :
      (r r' : ActorRegistry R) (i g j h : ℕ) (runner : R)
      → IsValid r
      → reserve R r ≡ returned (i, g) r'
      → let r'' = commit R r' i runner in
        target R r'' r'' j h ≡ (if (j == i) && (h == g) then some runner else target R r r j h)
  unfolding commit
  commit-target r r' i g j h runner v e =
      let t = reserve-Reserved v e in
      let inside' : i < length r'.slots = omega (
        arith,
        t.inside,
        ap length t.slots,
        length-set r.slots i (record (slot_at R r i) { generation = g }),
      ) in
      let current : (slot_at R r' i).generation ≡ g = rw t.slots (
        ap Slot.generation (
          get_or-set_self r.slots i (record (slot_at R r i) { generation = g }) (empty_slot R)
            t.inside)) in
      target-set r' (commit R r' i runner) i (record (slot_at R r' i) { owner = some runner }) j h
        refl refl inside' (omega (arith, t.in_range, t.capacity))
      ∙ ground
          (arith, current, (reserve-target r r' i g j h v e).3, target_no_owner r i h t.no_owner)
