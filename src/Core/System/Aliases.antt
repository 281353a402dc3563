-- ===== src/Core/System/Aliases.antt =====
-- Aliases and actors agree: an alias leads to the one live actor that was spawned with it.
use dignus_actor_server_rust.Common.{
  ℕ, ◌≡◌, sym, ap, subst, ◌∙◌, false, Bool-cases, ◌&&◌, inl, inr, Option, none, some, [], lookup,
  lookup-insert, ◌==◌, if◌then◌else◌, arith,
}
use dignus_actor_server_rust.Core.Outcome.{returned, state_of}
use dignus_actor_server_rust.Core.Registry.{ActorRegistry, reserve, commit, target}
use dignus_actor_server_rust.Core.Registry
use dignus_actor_server_rust.Core.Registry.Invariant
use dignus_actor_server_rust.Core.Registry.Removal.{commit-IsValid}
use dignus_actor_server_rust.Core.Registry.Handles.{
  target_no_owner, reserve-target, reserve-odd, commit-target,
}
use dignus_actor_server_rust.Core.System.{Spawned, ActorSystem, with_capacities, register_actor}
use dignus_actor_server_rust.Core.System.Spawning.{
  with_alias, IsFree, Registered, register_actor-Registered,
}

module _ {A : Type 0} where
  abbrev pub actor_at : ActorSystem A → ℕ → ℕ → Option (Spawned A)
  actor_at s i g = target (Spawned A) s.registry s.registry i g

  pub record Consistent (s : ActorSystem A) : Type 0 where
    pub valid : Invariant.IsValid s.registry
    pub named :
        (a i g : ℕ)
        → lookup a s.alias_to_handle ≡ some (i, g)
        → (r : Spawned A) × (actor_at s i g ≡ some r) × (r.alias ≡ some a)
    pub listed :
        (a i g : ℕ) (r : Spawned A)
        → actor_at s i g ≡ some r
        → r.alias ≡ some a
        → lookup a s.alias_to_handle ≡ some (i, g)

  pub with_capacities-Consistent :
      (dispatcher_thread_count actor_capacity : ℕ) (s : ActorSystem A)
      → with_capacities dispatcher_thread_count actor_capacity ≡ some s
      → Consistent s
  unfolding with_capacities
  with_capacities-Consistent threads capacity s e =
      let made : s.registry ≡ Registry.with_capacity (Spawned A) capacity = ground arith in
      let no_aliases : s.alias_to_handle ≡ [] = ground arith in
      let valid : Invariant.IsValid s.registry =
        rw made (Invariant.with_capacity-IsValid capacity) in
      let unused : s.registry.next_unused ≡ 0 =
        unfold Registry.with_capacity in (ap ActorRegistry.next_unused made) in
      let nobody : (i g : ℕ) → actor_at s i g ≡ none =
        λ i g. target_no_owner s.registry i g (valid.fresh i (omega (arith, unused))).1 in
      record {
        valid = valid;
        named = λ a i g h. cc (ap (lookup a) no_aliases, h);
        listed = λ a i g r h w. cc (nobody i g, h);
      }

  -- The lookup of a handle once an actor was spawned.
  actor_at-spawned :
      (s s' : ActorSystem A) (alias : Option ℕ) (i g : ℕ)
      → Consistent s
      → (d : Registered s s' alias i g) → (j h : ℕ)
      → actor_at s' j h ≡ (if (j == i) && (h == g) then some d.runner else actor_at s j h)
  actor_at-spawned s s' alias i g v d j h =
      rw d.registry (commit-target s.registry d.reserved i g j h d.runner v.valid d.reserve_eq)

  was_absent :
      (s s' : ActorSystem A) (alias : Option ℕ) (i g : ℕ)
      → Consistent s
      → Registered s s' alias i g
      → actor_at s i g ≡ none
  was_absent s s' alias i g v d =
      (reserve-target s.registry d.reserved i g i g v.valid d.reserve_eq).2

  listed-spawned :
      (s s' : ActorSystem A) (alias : Option ℕ) (i g a j h : ℕ) (r : Spawned A)
      → Consistent s
      → (d : Registered s s' alias i g) → IsFree s alias
      → d.runner.alias ≡ alias
      → actor_at s' j h ≡ some r
      → r.alias ≡ some a
      → lookup a (with_alias alias (i, g) s.alias_to_handle) ≡ some (j, h)
  listed-spawned s s' none i g a j h r v d f e t w =
      ground (arith, actor_at-spawned s s' none i g v d j h, v.listed a j h r)
  listed-spawned s s' (some b) i g a j h r v d f e t w = ground (
    arith,
    actor_at-spawned s s' (some b) i g v d j h,
    v.listed a j h r,
    lookup-insert b a (i, g) s.alias_to_handle,
  )

  named-spawned :
      (s s' : ActorSystem A) (alias : Option ℕ) (i g a j h : ℕ)
      → Consistent s
      → (d : Registered s s' alias i g) → IsFree s alias
      → d.runner.alias ≡ alias
      → lookup a (with_alias alias (i, g) s.alias_to_handle) ≡ some (j, h)
      → (r : Spawned A) × (actor_at s' j h ≡ some r) × (r.alias ≡ some a)
  named-spawned s s' none i g a j h v d f e t =
      let (r, at, w) = v.named a j h t in
      (r, ground (arith, actor_at-spawned s s' none i g v d j h, was_absent s s' none i g v d), w)
  named-spawned s s' (some b) i g a j h v d f e t = elim (Bool-cases (b == a)) [
    | inl same ↦ (
      d.runner,
      ground (
        arith,
        actor_at-spawned s s' (some b) i g v d j h,
        lookup-insert b a (i, g) s.alias_to_handle,
      ),
      ground arith,
    )
    | inr differ ↦
        let (r, at, w) = v.named a j h (before differ) in
        (
          r,
          ground
              (arith, actor_at-spawned s s' (some b) i g v d j h, was_absent s s' (some b) i g v d),
          w,
        )
  ]
    where
      before : (b == a) ≡ false → lookup a s.alias_to_handle ≡ some (j, h)
      before differ = ground (arith, lookup-insert b a (i, g) s.alias_to_handle)

  spawned-IsValid :
      (s s' : ActorSystem A) (alias : Option ℕ) (i g : ℕ)
      → Consistent s
      → Registered s s' alias i g
      → Invariant.IsValid s'.registry
  spawned-IsValid s s' alias i g v d = rw d.registry (
      commit-IsValid i d.runner
        (subst (λ o. Invariant.IsValid (state_of o)) d.reserve_eq
          (Invariant.reserve-IsValid v.valid))
        (reserve-odd s.registry d.reserved i g v.valid d.reserve_eq))

  -- A spawn that returns keeps aliases and actors in agreement: each alias leads to a live actor that
  -- has it, and each live actor with an alias is found under it. The handle that it returns is new,
  -- and finds an actor with the alias that was asked for; all other handles find what they found.
  -- It does not matter how old the state was in which the alias was first tested.
  pub register_actor-Consistent :
      (early s s' : ActorSystem A) (actor : A) (d alias : Option ℕ) (capacity i g j h : ℕ)
      → Consistent s
      → register_actor early s actor d alias capacity ≡ returned (i, g) s'
      → Consistent s'
        × (actor_at s i g ≡ none)
        × (r : Spawned A) × (r.alias ≡ alias)
        × (actor_at s' i g ≡ some r)
        × (actor_at s' j h ≡ (if (j == i) && (h == g) then some r else actor_at s j h))
  register_actor-Consistent early s s' actor d alias capacity i g j h v e =
      let t = register_actor-Registered early s s' actor d alias capacity i g e in
      (
        record {
          valid = spawned-IsValid s s' alias i g v t;
          named = λ a j h f.
              named-spawned s s' alias i g a j h v t t.was_free t.alias_kept
                (ap (lookup a) (sym t.aliases) ∙ f);
          listed = λ a j h r f w.
              ap (lookup a) t.aliases
              ∙ listed-spawned s s' alias i g a j h r v t t.was_free t.alias_kept f w;
        },
        was_absent s s' alias i g v t,
        t.runner,
        t.alias_kept,
        ground (arith, actor_at-spawned s s' alias i g v t i g),
        actor_at-spawned s s' alias i g v t j h,
      )
