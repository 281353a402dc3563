-- ===== src/Core/Registry/Removing.antt =====
-- What `remove` does to the lookup of handles.
use dignus_actor_server_rust.Common.{
  ℕ, ◌+◌, ◌-◌, ◌≤◌, ◌<◌, ◌≡◌, ◌≢◌, refl, sym, ap, ◌∙◌, false, not, ◌&&◌, Option, none, some, set,
  arith, leb, ◌==◌, if◌then◌else◌, ==-eq, ==-ne, not-eq-true, leb→le, if_cases, le-total,
  not-eq-false,
}
use dignus_actor_server_rust.Core.Outcome.{Outcome, returned, state_of}
use dignus_actor_server_rust.Core.Registry.{
  Slot, ActorRegistry, empty_slot, slot_at, target, release, remove, wrapping_add_one,
}
use dignus_actor_server_rust.Core.Registry.Invariant.{odd, IsValid}
use dignus_actor_server_rust.Core.Registry.Handles.{target-set}

module _ {R : Type 0} where
  -- 1 if a runner was found.
  abbrev pub found : Option R → ℕ
  found none = 0
  found (some runner) = 1

  pub released_lem :
      (r : ActorRegistry R) (i : ℕ) (o : Option R)
      → ((release R r i o).slots ≡ r.slots)
        × ((release R r i o).capacity ≡ r.capacity)
        × ((release R r i o).live ≡ r.live - found o)
  unfolding release
  released_lem r i none = (refl, refl, omega arith)
  released_lem r i (some runner) = (refl, refl, refl)

  target_current :
      (r : ActorRegistry R) (i g : ℕ)
      → i < r.capacity
      → (slot_at R r i).generation ≡ g
      → target R r r i g ≡ (slot_at R r i).owner
  unfolding target
  target_current r i g within same = ground arith

  target_out : (r : ActorRegistry R) (i g : ℕ) → r.capacity ≤ i → target R r r i g ≡ none
  unfolding target
  target_out r i g out = ground arith

  pub target_stale :
      (r : ActorRegistry R) (i g : ℕ) → (slot_at R r i).generation ≢ g → target R r r i g ≡ none
  unfolding target
  target_stale r i g stale = ground arith

  target_other :
      (r : ActorRegistry R) (i j g h : ℕ)
      → (slot_at R r i).generation ≡ g
      → j ≡ i
      → h ≢ g
      → target R r r j h ≡ none
  target_other r i j g h same here other =
      target_stale r j h (λ e. other (sym e ∙ ap (λ k. (slot_at R r k).generation) here ∙ same))

  record Removed (r : ActorRegistry R) (i g j h : ℕ) (o : Outcome (ActorRegistry R) (Option R))
      : Type 0 where
    result : o ≡ returned (target R r r i g) (state_of o)
    lookup :
        target R (state_of o) (state_of o) j h
        ≡ (if (j == i) && (h == g) then none else target R r r j h)
    live : (state_of o).live + found (target R r r i g) ≡ r.live

  -- A handle that finds nothing.
  Removed-none :
      (r : ActorRegistry R) (i g j h : ℕ)
      → target R r r i g ≡ none
      → Removed r i g j h (returned none r)
  Removed-none r i g j h e = record {
    result = rw e;
    lookup = ground (arith, e);
    live = rw e (omega arith);
  }

  Removed-live :
      (r : ActorRegistry R) (i g j h : ℕ)
      → IsValid r
      → i < r.capacity
      → (slot_at R r i).generation ≡ g
      → Removed r i g j h (
          returned (slot_at R r i).owner (
            release R
              (record r {
                slots = set r.slots i (record { generation = wrapping_add_one g; owner = none });
              })
              i
              (slot_at R r i).owner))
  Removed-live r i g j h v within same =
      let s : Slot R = record { generation = wrapping_add_one g; owner = none } in
      let owner = (slot_at R r i).owner in
      let (slots, capacity, live) = released_lem (record r { slots = set r.slots i s }) i owner in
      let finds = target_current r i g within same in
      record {
        result = rw finds;
        lookup =
            target-set r _ i s j h slots capacity (omega (arith, within, v.sized)) within
            ∙ ground (arith, same, target_other r i j g h same);
        live = rw finds (live_of_owner owner refl);
      }
    where
      live_of_owner :
          (o : Option R)
          → (slot_at R r i).owner ≡ o
          → (release R
                (record r {
                  slots = set r.slots i (record { generation = wrapping_add_one g; owner = none });
                })
                i
                o).live
              + found o
            ≡ r.live
      live_of_owner none e = unfold release in (omega arith)
      live_of_owner (some runner) e =
          unfold release in
          (omega (
            arith,
            v.owned i runner e,
            v.taken,
            le-total odd r.slots i (empty_slot R) (omega (arith, within, v.sized)),
          ))

  remove-Removed :
      (r : ActorRegistry R) (i g j h : ℕ)
      → IsValid r
      → r.poisoned ≡ false
      → Removed r i g j h (remove R r i g)
  unfolding remove
  remove-Removed r i g j h v p =
      if_cases (Removed r i g j h) r.poisoned (λ q. cc)
        (λ _.
          if_cases (Removed r i g j h) (leb r.capacity i)
            (λ out. Removed-none r i g j h (target_out r i g (leb→le _ _ out)))
            (λ out.
              if_cases (Removed r i g j h) (not ((slot_at R r i).generation == g))
                (λ stale.
                  Removed-none r i g j h (target_stale r i g (==-ne _ g (not-eq-true _ stale))))
                (λ same.
                  Removed-live r i g j h v (ground arith) (==-eq _ g (not-eq-false _ same)))))

  -- Removing a handle returns what it stood for and takes it out of the lookup, and changes nothing
  -- else; a stale handle, or one out of range, stands for nothing. One less is live exactly if there
  -- was a runner.
  pub remove-target :
      (r : ActorRegistry R) (i g j h : ℕ)
      → IsValid r
      → r.poisoned ≡ false
      → let r' = state_of (remove R r i g) in
        (remove R r i g ≡ returned (target R r r i g) r')
        × (target R r' r' j h ≡ (if (j == i) && (h == g) then none else target R r r j h))
        × (r'.live + found (target R r r i g) ≡ r.live)
  remove-target r i g j h v p = let t = remove-Removed r i g j h v p in (t.result, t.lookup, t.live)
