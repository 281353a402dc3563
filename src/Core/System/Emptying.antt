-- ===== src/Core/System/Emptying.antt =====
-- The end of a shutdown: the actors that it killed are finalized, in any order.
use dignus_actor_server_rust.Common.{
  ℕ, ◌+◌, ◌%◌, ◌≡◌, ◌≢◌, refl, ap, ap₂, Bool-cases, true, Option-cases, ◌∙◌, false, not, ◌&&◌, inl,
  inr, Option, none, some, List, [], ◌∷◌, length, All, All-without, Distinct, if_cases, ◌==◌, arith,
  leb, le-total,
}
use dignus_actor_server_rust.Core.Outcome.{Outcome, returned, state_of}
use dignus_actor_server_rust.Core.Registry
use dignus_actor_server_rust.Core.Registry.{
  ActorRegistry, slot_at, empty_slot, live_count, release, target, wrapping_add_one,
}
use dignus_actor_server_rust.Core.Registry.Invariant.{odd}
use dignus_actor_server_rust.Core.Registry.Handles.{target_no_owner}
use dignus_actor_server_rust.Core.Registry.Gone.{owned_inside}
use dignus_actor_server_rust.Core.Registry.Removing.{remove-target, found}
use dignus_actor_server_rust.Core.System.{
  Spawned, ActorSystem, finalize_kill, with_removed, drop_alias, drop_alias_of,
}
use dignus_actor_server_rust.Core.System.Aliases.{actor_at, Consistent}
use dignus_actor_server_rust.Core.System.Finalizing.{finalize_kill-Consistent, drop_alias-registry}

both : (i g j k : ℕ) → ((j == i) && (k == g)) ≡ true → (i ≡ j) × (g ≡ k)
both i g j k h = (ground (arith, h), ground (arith, h))

module _ {A : Type 0} where
  -- `finalize_kill` of each handle, as the runners call it.
  unfoldable pub finalize_each : List (ℕ × ℕ) → ActorSystem A → ActorSystem A
  finalize_each [] s = s
  finalize_each ((i, g) ∷ hs) s = finalize_each hs (state_of (finalize_kill s i g))

  abbrev pub Live : ActorSystem A → ℕ × ℕ → Type 0
  Live s (i, g) = (r : Spawned A) × (actor_at s i g ≡ some r)

  abbrev HealthyAfter :
      ActorRegistry (Spawned A) → Outcome (ActorRegistry (Spawned A)) (Option (Spawned A)) → Type 0
  HealthyAfter r o = (state_of o).poisoned ≡ r.poisoned

  release-poisoned :
      (r : ActorRegistry (Spawned A)) (i : ℕ) (o : Option (Spawned A))
      → (release (Spawned A) r i o).poisoned ≡ r.poisoned
  unfolding release
  release-poisoned r i none = refl
  release-poisoned r i (some runner) = refl

  remove-poisoned :
      (r : ActorRegistry (Spawned A)) (i g : ℕ) → HealthyAfter r (Registry.remove (Spawned A) r i g)
  unfolding Registry.remove
  remove-poisoned r i g =
      if_cases (HealthyAfter r) r.poisoned (λ _. refl)
        (λ _.
          if_cases (HealthyAfter r) (leb r.capacity i) (λ _. refl)
            (λ _.
              if_cases (HealthyAfter r) (not ((slot_at (Spawned A) r i).generation == g))
                (λ _. refl) (λ _. release-poisoned _ i (slot_at (Spawned A) r i).owner)))

  drop_alias-poisoned :
      (s : ActorSystem A) (o : Option (Spawned A))
      → (state_of (drop_alias s o)).alias_poisoned ≡ s.alias_poisoned
  unfolding drop_alias drop_alias_of
  drop_alias-poisoned s none = refl
  drop_alias-poisoned s (some r) = ground arith

  -- What one `finalize_kill` leaves, of a live actor.
  record Ended (s : ActorSystem A) (i g : ℕ) : Type 0 where
    consistent : Consistent (state_of (finalize_kill s i g))
    healthy : (state_of (finalize_kill s i g)).registry.poisoned ≡ false
    unpoisoned : (state_of (finalize_kill s i g)).alias_poisoned ≡ false
    one_less : (state_of (finalize_kill s i g)).registry.live + 1 ≡ s.registry.live
    others : (h : ℕ × ℕ) → (i, g) ≢ h → Live s h → Live (state_of (finalize_kill s i g)) h

  live_slot :
      (s : ActorSystem A) (i g : ℕ) (r : Spawned A)
      → actor_at s i g ≡ some r
      → ((slot_at (Spawned A) s.registry i).owner ≡ some r)
        × ((slot_at (Spawned A) s.registry i).generation ≡ g)
  unfolding target
  live_slot s i g r at = (ground arith, ground arith)

  Live-odd : (s : ActorSystem A) (i g : ℕ) → Consistent s → Live s (i, g) → g % 2 ≡ 1
  Live-odd s i g v (r, at) =
      let (owner, generation) = live_slot s i g r at in
      omega (arith, generation, v.valid.owned i r owner)

  abbrev removed : ActorSystem A → ℕ → ℕ → ActorSystem A
  removed s i g = record s { registry = state_of (Registry.remove (Spawned A) s.registry i g) }

  finalize_kill_eq :
      (s : ActorSystem A) (i g : ℕ)
      → Consistent s
      → s.registry.poisoned ≡ false
      → finalize_kill s i g ≡ drop_alias (removed s i g) (actor_at s i g)
  unfolding finalize_kill with_removed
  finalize_kill_eq s i g v p = ap (with_removed s) (remove-target s.registry i g i g v.valid p).0

  finalize_kill-registry :
      (s : ActorSystem A) (i g : ℕ)
      → Consistent s
      → s.registry.poisoned ≡ false
      → (state_of (finalize_kill s i g)).registry
        ≡ state_of (Registry.remove (Spawned A) s.registry i g)
  finalize_kill-registry s i g v p =
      ap (λ (o : Outcome (ActorSystem A) Unit). (state_of o).registry) (finalize_kill_eq s i g v p)
      ∙ drop_alias-registry (removed s i g) (actor_at s i g)

  finalize_kill-other :
      (s : ActorSystem A) (i g j k : ℕ)
      → Consistent s
      → s.registry.poisoned ≡ false
      → s.alias_poisoned ≡ false
      → g % 2 ≡ 1
      → ◌≢◌ {A = ℕ × ℕ} (i, g) (j, k)
      → actor_at (state_of (finalize_kill s i g)) j k ≡ actor_at s j k
  finalize_kill-other s i g j k v p q m ne =
      let (_, lookup) = finalize_kill-Consistent s i g j k v p q m in
      elim (Bool-cases ((j == i) && (k == g))) [
        | inl same ↦
            let (index, generation) = both i g j k same in
            absurd (ne (ap₂ (λ (a : ℕ) (b : ℕ). (a, b)) index generation))
        | inr other ↦ lookup ∙ rw other refl
      ]

  finalize_kill-Ended :
      (s : ActorSystem A) (i g : ℕ)
      → Consistent s
      → s.registry.poisoned ≡ false
      → s.alias_poisoned ≡ false
      → Live s (i, g)
      → Ended s i g
  finalize_kill-Ended s i g v p q (r, at) =
      let m = Live-odd s i g v (r, at) in
      let registry = finalize_kill-registry s i g v p in
      let (_, _, live) = remove-target s.registry i g i g v.valid p in
      record {
        consistent = (finalize_kill-Consistent s i g i g v p q m).0;
        healthy = ap ActorRegistry.poisoned registry ∙ remove-poisoned s.registry i g ∙ p;
        unpoisoned =
            ap (λ (o : Outcome (ActorSystem A) Unit). (state_of o).alias_poisoned)
              (finalize_kill_eq s i g v p)
            ∙ drop_alias-poisoned (removed s i g) (actor_at s i g)
            ∙ q;
        one_less = omega (arith, ap ActorRegistry.live registry, live, ap found at);
        others =
            λ (j, k) ne (t, found_at). (t, finalize_kill-other s i g j k v p q m ne ∙ found_at);
      }

  -- What finalizing live actors leaves, each once and in any order.
  record AllEnded (s : ActorSystem A) (hs : List (ℕ × ℕ)) : Type 0 where
    consistent : Consistent (finalize_each hs s)
    healthy : (finalize_each hs s).registry.poisoned ≡ false
    fewer : (finalize_each hs s).registry.live + length hs ≡ s.registry.live

  finalize_each-AllEnded :
      (hs : List (ℕ × ℕ)) (s : ActorSystem A)
      → Consistent s
      → s.registry.poisoned ≡ false
      → s.alias_poisoned ≡ false
      → Distinct hs
      → All (Live s) hs
      → AllEnded s hs
  unfolding finalize_each
  finalize_each-AllEnded [] s v p q d h = record {
    consistent = v;
    healthy = p;
    fewer = omega arith;
  }
  finalize_each-AllEnded ((i, g) ∷ hs) s v p q (ne, d) (live, h) =
      let first = finalize_kill-Ended s i g v p q live in
      let rest =
        finalize_each-AllEnded hs (state_of (finalize_kill s i g)) first.consistent first.healthy
          first.unpoisoned d (All-without (i, g) (λ k. first.others k) hs ne h) in
      record {
        consistent = rest.consistent;
        healthy = rest.healthy;
        fewer = omega (arith, rest.fewer, first.one_less);
      }

  -- Nobody is left in a registry that counts no actor.
  nobody :
      (s : ActorSystem A) (j k : ℕ) → Consistent s → s.registry.live ≡ 0 → actor_at s j k ≡ none
  nobody s j k v none_live = elim (Option-cases (slot_at (Spawned A) s.registry j).owner) [
    | inl free ↦ target_no_owner s.registry j k free
    | inr taken ↦
        let (r, owner) = taken in
        let inside = owned_inside s.registry.slots j r owner in
        absurd (
          omega (
            arith,
            v.valid.taken,
            none_live,
            v.valid.owned j r owner,
            le-total odd s.registry.slots j (empty_slot (Spawned A)) inside,
          ))
  ]

  -- Once the actors that are counted as live have ended, each once and in any order, the count that a
  -- shutdown waits for is zero, and no handle finds an actor.
  pub finalize_each-empties :
      (hs : List (ℕ × ℕ)) (s : ActorSystem A) (j k : ℕ)
      → Consistent s
      → s.registry.poisoned ≡ false
      → s.alias_poisoned ≡ false
      → Distinct hs
      → All (Live s) hs
      → length hs ≡ s.registry.live
      → let s' = finalize_each hs s in
        (live_count (Spawned A) s'.registry ≡ returned 0 s'.registry) × (actor_at s' j k ≡ none)
  unfolding live_count
  finalize_each-empties hs s j k v p q d h counted =
      let t = finalize_each-AllEnded hs s v p q d h in
      let none_live : (finalize_each hs s).registry.live ≡ 0 = omega (arith, t.fewer, counted) in
      (
        rw t.healthy (ap (λ n. returned n (finalize_each hs s).registry) none_live),
        nobody (finalize_each hs s) j k t.consistent none_live,
      )
