-- ===== src/Core/System/Finalizing.antt =====
-- What the end of an actor does to the registry and to the aliases.
use dignus_actor_server_rust.Common.{
  ℕ, ◌%◌, ◌≡◌, refl, sym, ap, false, ◌&&◌, Option, none, some, lookup, remove, lookup-remove, ◌==◌,
  if◌then◌else◌, arith, subst,
}
use dignus_actor_server_rust.Core.Outcome.{returned, panicked, state_of}
use dignus_actor_server_rust.Core.Registry.{ActorRegistry, target}
use dignus_actor_server_rust.Core.Registry
use dignus_actor_server_rust.Core.Registry.Invariant
use dignus_actor_server_rust.Core.Registry.Removal.{remove-IsValid}
use dignus_actor_server_rust.Core.Registry.Removing.{remove-target}
use dignus_actor_server_rust.Core.System.{
  Spawned, ActorSystem, drop_alias_of, drop_alias, with_removed, finalize_kill,
}
use dignus_actor_server_rust.Core.System.Aliases.{actor_at, Consistent}

module _ {A : Type 0} where
  -- The registry without one handle.
  record Without (s : ActorSystem A) (i g : ℕ) (r' : ActorRegistry (Spawned A)) : Type 0 where
    pub valid : Invariant.IsValid r'
    pub lookups :
        (j h : ℕ)
        → target (Spawned A) r' r' j h ≡ (if (j == i) && (h == g) then none else actor_at s j h)

  drop_alias_of-Consistent :
      (s : ActorSystem A) (i g : ℕ) (r' : ActorRegistry (Spawned A)) (r : Spawned A) (o : Option ℕ)
      → Consistent s
      → s.alias_poisoned ≡ false
      → Without s i g r'
      → actor_at s i g ≡ some r
      → r.alias ≡ o
      → Consistent (state_of (drop_alias_of (record s { registry = r' }) o))
  unfolding drop_alias_of
  drop_alias_of-Consistent s i g r' r none v p w at e = record {
    valid = w.valid;
    named = λ a j h f.
        let (q, found, alias) = v.named a j h f in (q, ground (arith, w.lookups j h), alias);
    listed = λ a j h q f alias. ground (arith, w.lookups j h, v.listed a j h q);
  }
  drop_alias_of-Consistent s i g r' r (some b) v p w at e =
      subst
        (λ t. Consistent (
          state_of (
            if t
            then panicked (record s { registry = r' })
            else returned tt
                (record s { registry = r'; alias_to_handle = remove b s.alias_to_handle }))))
        (sym p)
        (record {
          valid = w.valid;
          named = λ a j h f.
              let (q, found, alias) = v.named a j h (kept a j h f) in
              (q, ground (arith, w.lookups j h, lookup-remove b a s.alias_to_handle), alias);
          listed = λ a j h q f alias. ground (
            arith,
            w.lookups j h,
            v.listed a j h q,
            v.listed b i g r,
            v.listed b j h q,
            lookup-remove b a s.alias_to_handle,
          );
        })
    where
      kept :
          (a j h : ℕ)
          → lookup a (remove b s.alias_to_handle) ≡ some (j, h)
          → lookup a s.alias_to_handle ≡ some (j, h)
      kept a j h f = ground (arith, lookup-remove b a s.alias_to_handle)

  drop_alias-Consistent :
      (s : ActorSystem A) (i g : ℕ) (r' : ActorRegistry (Spawned A)) (o : Option (Spawned A))
      → Consistent s
      → s.alias_poisoned ≡ false
      → Without s i g r'
      → actor_at s i g ≡ o
      → Consistent (state_of (drop_alias (record s { registry = r' }) o))
  unfolding drop_alias
  drop_alias-Consistent s i g r' none v p w at = record {
    valid = w.valid;
    named = λ a j h f.
        let (q, found, alias) = v.named a j h f in (q, ground (arith, w.lookups j h), alias);
    listed = λ a j h q f alias. ground (arith, w.lookups j h, v.listed a j h q);
  }
  drop_alias-Consistent s i g r' (some r) v p w at =
      drop_alias_of-Consistent s i g r' r r.alias v p w at refl

  pub drop_alias-registry :
      (s : ActorSystem A) (o : Option (Spawned A))
      → (state_of (drop_alias s o)).registry ≡ s.registry
  unfolding drop_alias drop_alias_of
  drop_alias-registry s none = refl
  drop_alias-registry s (some r) = ground arith

  -- When an actor ends, its handle finds nothing any more, every other handle finds what it found,
  -- and aliases and live actors still agree; this holds for a stale handle too.
  pub finalize_kill-Consistent :
      (s : ActorSystem A) (i g j h : ℕ)
      → Consistent s
      → s.registry.poisoned ≡ false
      → s.alias_poisoned ≡ false
      → g % 2 ≡ 1
      → let s' = state_of (finalize_kill s i g) in
        Consistent s' × (actor_at s' j h ≡ (if (j == i) && (h == g) then none else actor_at s j h))
  unfolding finalize_kill with_removed
  finalize_kill-Consistent s i g j h v p q m =
      let t = remove-target s.registry i g i g v.valid p in
      let w : Without s i g (state_of (Registry.remove (Spawned A) s.registry i g)) = record {
        valid = remove-IsValid i g v.valid m;
        lookups = λ j h. (remove-target s.registry i g j h v.valid p).1;
      } in
      let e : finalize_kill s i g
          ≡ drop_alias
              (record s { registry = state_of (Registry.remove (Spawned A) s.registry i g) })
              (actor_at s i g) =
        ap (with_removed s) t.0 in
      (
        subst (λ o. Consistent (state_of o)) (sym e) (drop_alias-Consistent s i g _ _ v q w refl),
        rw
            (
              e,
              drop_alias-registry
                  (record s { registry = state_of (Registry.remove (Spawned A) s.registry i g) })
                  (actor_at s i g),
            )
            (w.lookups j h),
      )
