-- ===== src/Core/Registry/Snapshot.antt =====
-- What a shutdown sees of the registry: the runners to kill, and a registry that panicked.
use dignus_actor_server_rust.Common.{
  ℕ, zero, suc, ◌≤◌, ◌<◌, ◌≡◌, refl, sym, ap, ◌∙◌, inl, inr, true, false, Option, none, some, List,
  [], ◌∷◌, get_or, get_elem?, cons?, arith, le→leb, dec_lt,
}
use dignus_actor_server_rust.Core.Outcome.{returned, panicked, state_of}
use dignus_actor_server_rust.Core.Registry.{
  Slot, ActorRegistry, empty_slot, slot_at, reserve, reserve_from, commit, remove, target,
  live_count, snapshot_live, owners,
}
use dignus_actor_server_rust.Core.Registry.History.{
  Op, reserves, commits, removes, step, run, generation_at, get_or-set_either,
}
use dignus_actor_server_rust.Core.Registry.Invariant.{IsValid}

module _ {R : Type 0} where
  behind :
      (o : Option R) (l : List R) (k : ℕ) {runner : R}
      → get_elem? l k ≡ some runner
      → (j : ℕ) × (get_elem? (cons? o l) j ≡ some runner)
  behind none l k e = (k, e)
  behind (some x) l k e = (suc k, e)

  owners_complete :
      (slots : List (Slot R)) (n i : ℕ) {runner : R}
      → (get_or slots i (empty_slot R)).owner ≡ some runner
      → i < n
      → (k : ℕ) × (get_elem? (owners R slots n) k ≡ some runner)
  unfolding owners
  owners_complete [] n i e h = cc
  owners_complete (s ∷ ss) zero i e h = absurd (omega arith)
  owners_complete (s ∷ ss) (suc n) zero e h = (0, rw e)
  owners_complete (s ∷ ss) (suc n) (suc i) e h =
      let (k, at) = owners_complete ss n i e (omega arith) in behind s.owner (owners R ss n) k at

  owner_of_target :
      (r : ActorRegistry R) (i g : ℕ) {runner : R}
      → target R r r i g ≡ some runner
      → (slot_at R r i).owner ≡ some runner
  unfolding target
  owner_of_target r i g e = ground arith

  used_of_owner :
      {r : ActorRegistry R} (i : ℕ) {runner : R}
      → IsValid r
      → (slot_at R r i).owner ≡ some runner
      → i < r.next_unused
  used_of_owner {r} i v e = elim (dec_lt i r.next_unused) [
    | yes h ↦ h
    | no h ↦ cc (sym e ∙ (v.fresh i (omega arith)).1)
  ]

  -- The snapshot that a shutdown kills misses no actor: whatever runner a handle finds is in it.
  pub snapshot_live_complete :
      (r : ActorRegistry R) (i g : ℕ) (runner : R)
      → IsValid r
      → r.poisoned ≡ false
      → target R r r i g ≡ some runner
      → (k : ℕ) × (l : List R) × (snapshot_live R r ≡ returned l r) × (get_elem? l k ≡ some runner)
  unfolding snapshot_live
  snapshot_live_complete r i g runner v p e =
      let owner = owner_of_target r i g e in
      let (k, at) = owners_complete r.slots r.next_unused i owner (used_of_owner i v owner) in
      (k, owners R r.slots r.next_unused, ground arith, at)

  -- A registry whose mutex is poisoned, and what of `r` it has kept.
  record Dead (r r' : ActorRegistry R) : Type 0 where
    poisoned : r'.poisoned ≡ true
    live : r'.live ≡ r.live
    aged : (j : ℕ) → generation_at r' j ≡ generation_at r j

  commit-generation_at :
      (r : ActorRegistry R) (i j : ℕ) (runner : R)
      → generation_at (commit R r i runner) j ≡ generation_at r j
  unfolding commit
  commit-generation_at r i j runner =
      elim (get_or-set_either r.slots i j (record (slot_at R r i) { owner = some runner })
        (empty_slot R)) [
          | inl (same, read) ↦ ap Slot.generation read ∙ ap (generation_at r) same
          | inr read ↦ ap Slot.generation read
        ]

  step-Dead : (r r' : ActorRegistry R) (op : Op R) → Dead r r' → Dead r (step r' op)
  unfolding step reserve remove commit
  step-Dead r r' reserves v = record {
    poisoned = ground arith;
    live = ground arith;
    aged = λ j. rw v.poisoned (v.aged j);
  }
  step-Dead r r' (commits index runner) v = record {
    poisoned = v.poisoned;
    live = v.live;
    aged = λ j. commit-generation_at r' index j runner ∙ v.aged j;
  }
  step-Dead r r' (removes index generation) v = record {
    poisoned = ground arith;
    live = ground arith;
    aged = λ j. rw v.poisoned (v.aged j);
  }

  run-Dead : (ops : List (Op R)) (r r' : ActorRegistry R) → Dead r r' → Dead r (run ops r')
  unfolding run
  run-Dead [] r r' v = v
  run-Dead (op ∷ ops) r r' v = run-Dead ops r (step r' op) (step-Dead r r' op v)

  full-Dead :
      (r : ActorRegistry R)
      → r.poisoned ≡ false
      → r.free ≡ []
      → r.capacity ≤ r.next_unused
      → Dead r (state_of (reserve R r))
  unfolding reserve reserve_from
  full-Dead r p f h =
      rw (p, f, reserve_from, le→leb _ _ h)
        (record { poisoned = refl; live = refl; aged = λ j. refl })

  poisoned_panics :
      (s : ActorRegistry R) (i g : ℕ)
      → s.poisoned ≡ true
      → (reserve R s ≡ panicked s)
        × (remove R s i g ≡ panicked s)
        × (snapshot_live R s ≡ panicked s)
        × (live_count R s ≡ panicked s)
  unfolding reserve remove snapshot_live live_count
  poisoned_panics s i g e = (ground arith, ground arith, ground arith, ground arith)

  -- A registry with no slot left panics in `reserve` while it holds its mutex, and is of no use from
  -- then on. Whatever calls of `reserve`, `commit` and `remove` follow, the methods that take the mutex,
  -- `reserve`, `remove`, `snapshot_live` and `live_count`, panic; and as no actor is removed any more,
  -- the live actors stay counted and every handle keeps the generation that it had.
  pub reserve_full_poisons :
      (r : ActorRegistry R) (ops : List (Op R)) (i g j : ℕ)
      → r.poisoned ≡ false
      → r.free ≡ []
      → r.capacity ≤ r.next_unused
      → let r' = run ops (state_of (reserve R r)) in
        (reserve R r' ≡ panicked r')
        × (remove R r' i g ≡ panicked r')
        × (snapshot_live R r' ≡ panicked r')
        × (live_count R r' ≡ panicked r')
        × (r'.live ≡ r.live)
        × (generation_at r' j ≡ generation_at r j)
  reserve_full_poisons r ops i g j p f h =
      let r' = run ops (state_of (reserve R r)) in
      let v = run-Dead ops r (state_of (reserve R r)) (full-Dead r p f h) in
      let (no_reserve, no_remove, no_snapshot, no_count) = poisoned_panics r' i g v.poisoned in
      (no_reserve, no_remove, no_snapshot, no_count, v.live, v.aged j)
