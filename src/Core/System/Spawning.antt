-- ===== src/Core/System/Spawning.antt =====
-- What a spawn and a finalization do to the registry and to the aliases.
use dignus_actor_server_rust.Common.{
  ℕ, ◌≡◌, refl, sym, ◌∙◌, true, false, Bool-cases, Option-cases, inl, inr, Option, none, some, List,
  lookup, insert, arith,
}
use dignus_actor_server_rust.Core.Outcome.{Outcome, returned, panicked}
use dignus_actor_server_rust.Core.Registry.{ActorRegistry, reserve, commit}
use dignus_actor_server_rust.Core.Queue.{MpscBoundedQueue}
use dignus_actor_server_rust.Core.System.{
  Spawned, ActorSystem, alias_is_free, publish, with_mailbox, with_handle, register_actor,
}

abbrev pub with_alias : Option ℕ → ℕ × ℕ → List (ℕ × (ℕ × ℕ)) → List (ℕ × (ℕ × ℕ))
with_alias none handle m = m
with_alias (some alias) handle m = insert alias handle m

module _ {A : Type 0} where
  abbrev pub IsFree : ActorSystem A → Option ℕ → Type 0
  IsFree s none = Unit
  IsFree s (some alias) = lookup alias s.alias_to_handle ≡ none

  -- What a call of `register_actor` that returned has done.
  pub record Registered (s s' : ActorSystem A) (alias : Option ℕ) (i g : ℕ) : Type 0 where
    pub runner : Spawned A
    pub alias_kept : runner.alias ≡ alias
    pub reserved : ActorRegistry (Spawned A)
    pub reserve_eq : reserve (Spawned A) s.registry ≡ returned (i, g) reserved
    pub registry : s'.registry ≡ commit (Spawned A) reserved i runner
    pub aliases : s'.alias_to_handle ≡ with_alias alias (i, g) s.alias_to_handle
    pub was_free : IsFree s alias

  abbrev ok : ℕ → ℕ → ActorSystem A → Outcome (ActorSystem A) (ℕ × ℕ)
  ok i g s = returned (i, g) s

  unwound : {X : Type 0} (t s' : ActorSystem A) (i g : ℕ) → panicked t ≡ ok i g s' → X
  unwound t s' i g h = cc

  published :
      (s s' : ActorSystem A) (r : ActorRegistry (Spawned A)) (alias : Option ℕ) (t : ActorSystem A)
      (j h i g : ℕ) (runner : Spawned A)
      → runner.alias ≡ alias
      → IsFree s alias
      → reserve (Spawned A) s.registry ≡ returned (j, h) r
      → t.registry ≡ commit (Spawned A) r j runner
      → t.alias_to_handle ≡ with_alias alias (j, h) s.alias_to_handle
      → ok j h t ≡ ok i g s'
      → Registered s s' alias i g
  published s s' r alias t j h i g runner a free e c m p =
      let same : t ≡ s' = cc in
      let index : j ≡ i = cc in
      let generation : h ≡ g = cc in
      record {
        runner = runner;
        alias_kept = a;
        reserved = r;
        reserve_eq = cc;
        registry = cc;
        aliases = cc;
        was_free = free;
      }

  publish-Registered :
      (s s' : ActorSystem A) (r : ActorRegistry (Spawned A)) (alias : Option ℕ) (j h i g : ℕ)
      (runner : Spawned A)
      → runner.alias ≡ alias
      → reserve (Spawned A) s.registry ≡ returned (j, h) r
      → publish (record s { registry = r }) alias (j, h) runner ≡ returned (i, g) s'
      → Registered s s' alias i g
  unfolding publish
  publish-Registered s s' r none j h i g runner a e p =
      published s s' r none _ j h i g runner a tt e refl refl p
  publish-Registered s s' r (some alias) j h i g runner a e p = elim (Bool-cases s.alias_poisoned) [
    | inl poisoned ↦
        unwound (record s { registry = r; alias_poisoned = true }) s' i g (rw poisoned at p)
    | inr healthy ↦ elim (Option-cases (lookup alias s.alias_to_handle)) [
      | inl free ↦
          published s s' r (some alias)
            (record s {
              registry = commit (Spawned A) r j runner;
              alias_to_handle = insert alias (j, h) s.alias_to_handle;
              alias_poisoned = false;
            })
            j h i g runner a free e refl refl (rw (healthy, free) at p)
      | inr (k, used) ↦
          unwound (record s { registry = r; alias_poisoned = true }) s' i g
            (rw (healthy, used) at p)
    ]
  ]

  with_mailbox-Registered :
      (s s' : ActorSystem A) (r : ActorRegistry (Spawned A)) (actor : A) (d : ℕ) (alias : Option ℕ)
      (j h i g : ℕ) (o : Option (MpscBoundedQueue A))
      → reserve (Spawned A) s.registry ≡ returned (j, h) r
      → with_mailbox (record s { registry = r }) actor d alias (j, h) o ≡ returned (i, g) s'
      → Registered s s' alias i g
  unfolding with_mailbox
  with_mailbox-Registered s s' r actor d alias j h i g none e p = ground arith
  with_mailbox-Registered s s' r actor d alias j h i g (some mailbox) e p =
      publish-Registered s s' r alias j h i g _ refl e p

  with_handle-Registered :
      (s s' : ActorSystem A) (actor : A) (d alias : Option ℕ) (capacity i g : ℕ)
      (o : Outcome (ActorRegistry (Spawned A)) (ℕ × ℕ))
      → reserve (Spawned A) s.registry ≡ o
      → with_handle s actor d alias capacity o ≡ returned (i, g) s'
      → Registered s s' alias i g
  unfolding with_handle
  with_handle-Registered s s' actor d alias capacity i g (panicked r) e p = ground arith
  with_handle-Registered s s' actor d alias capacity i g (returned (j, h) r) e p =
      with_mailbox-Registered s s' r actor _ alias j h i g _ e p

  pub register_actor-Registered :
      (early s s' : ActorSystem A) (actor : A) (d alias : Option ℕ) (capacity i g : ℕ)
      → register_actor early s actor d alias capacity ≡ returned (i, g) s'
      → Registered s s' alias i g
  unfolding register_actor
  register_actor-Registered early s s' actor d alias capacity i g p =
      elim (Bool-cases (alias_is_free early alias)) [
        | inl free ↦
            with_handle-Registered s s' actor d alias capacity i g _ refl (sym (rw free refl) ∙ p)
        | inr used ↦ unwound s s' i g (rw used at p)
      ]
