-- ===== src/Core/Registry/History.antt =====
-- The generations of a registry's slots over its whole life.
use dignus_actor_server_rust.Common.{
  ℕ, ◌+◌, ◌≤◌, ◌<◌, ◌≡◌, refl, sym, ap, ◌∙◌, ◌⊎◌, inl, inr, Option, none, some, List, [], ◌∷◌,
  length, get_or, set, arith, leb, not, ◌==◌, if_cases, subst, zero, suc, ==-eq, not-eq-false,
}
use dignus_actor_server_rust.Core.Outcome.{Outcome, state_of}
use dignus_actor_server_rust.Core.Registry.{
  Slot, ActorRegistry, empty_slot, slot_at, take_slot, reserve_from, reserve, commit, release,
  remove, wrapping_add_one, u32_mod,
}

-- A call of a method that changes the registry.
pub data Op (R : Type 0) : Type 0 where
  reserves : Op R
  commits : ℕ → R → Op R
  removes : (index generation : ℕ) → Op R

pub get_or-set_either :
    {A : Type 0} (xs : List A) (i j : ℕ) (v d : A)
    → ((i ≡ j) × (get_or (set xs i v) j d ≡ v)) ⊎ (get_or (set xs i v) j d ≡ get_or xs j d)
get_or-set_either [] i j v d = inr refl
get_or-set_either (x ∷ xs) zero zero v d = inl (refl, refl)
get_or-set_either (x ∷ xs) zero (suc j) v d = inr refl
get_or-set_either (x ∷ xs) (suc i) zero v d = inr refl
get_or-set_either (x ∷ xs) (suc i) (suc j) v d = elim (get_or-set_either xs i j v d) [
  | inl (same, read) ↦ inl (ap suc same, read)
  | inr read ↦ inr read
]

module _ {R : Type 0} where
  unfoldable pub step : ActorRegistry R → Op R → ActorRegistry R
  step r reserves = state_of (reserve R r)
  step r (commits index runner) = commit R r index runner
  step r (removes index generation) = state_of (remove R r index generation)

  unfoldable pub run : List (Op R) → ActorRegistry R → ActorRegistry R
  unfolding step
  run [] r = r
  run (op ∷ ops) r = run ops (step r op)

  abbrev pub generation_at : ActorRegistry R → ℕ → ℕ
  generation_at r i = (slot_at R r i).generation

  -- A generation stays, or goes one on.
  abbrev Ages : ActorRegistry R → ActorRegistry R → ℕ → Type 0
  Ages r s i =
      (generation_at s i ≡ generation_at r i)
      ⊎ (generation_at s i ≡ wrapping_add_one (generation_at r i))

  abbrev AgesBy : (A : Type 0) → ActorRegistry R → ℕ → Outcome (ActorRegistry R) A → Type 0
  AgesBy A r i o = Ages r (state_of o) i

  set-Ages :
      (r s : ActorRegistry R) (i j : ℕ) (v : Slot R)
      → s.slots ≡ set r.slots i v
      → (v.generation ≡ generation_at r i) ⊎ (v.generation ≡ wrapping_add_one (generation_at r i))
      → Ages r s j
  set-Ages r s i j v e g =
      let read : generation_at s j ≡ (get_or (set r.slots i v) j (empty_slot R)).generation =
        ap (λ l. (get_or l j (empty_slot R)).generation) e in
      elim (get_or-set_either r.slots i j v (empty_slot R)) [
        | inl (same, new) ↦
            subst (λ k. Ages r s k) same
              (moved (ap (generation_at s) same ∙ read ∙ ap Slot.generation new) g)
        | inr old ↦ inl (read ∙ ap Slot.generation old)
      ]
    where
      moved : {a b c d : ℕ} → a ≡ b → (b ≡ c) ⊎ (b ≡ d) → (a ≡ c) ⊎ (a ≡ d)
      moved e (inl h) = inl (e ∙ h)
      moved e (inr h) = inr (e ∙ h)

  take_slot-Ages :
      (r s : ActorRegistry R) (i j : ℕ) → s.slots ≡ r.slots → Ages r (take_slot R s i).0 j
  unfolding take_slot
  take_slot-Ages r s i j e =
      set-Ages r (take_slot R s i).0 i j
        (record (slot_at R s i) { generation = wrapping_add_one (slot_at R s i).generation })
        (ap
          (λ l.
            set l i
              (record (slot_at R s i) { generation = wrapping_add_one (slot_at R s i).generation }))
          e)
        (inr (ap (λ l. wrapping_add_one (get_or l i (empty_slot R)).generation) e))

  reserve_from-Ages :
      (r : ActorRegistry R) (free : List ℕ) (j : ℕ) → Ages r (state_of (reserve_from R r free)) j
  unfolding reserve_from
  reserve_from-Ages r (index ∷ rest) j = take_slot-Ages r (record r { free = rest }) index j refl
  reserve_from-Ages r [] j =
      if_cases (AgesBy (ℕ × ℕ) r j) (leb r.capacity r.next_unused) (λ _. inl refl)
        (λ _. take_slot-Ages r (record r { next_unused = r.next_unused + 1 }) r.next_unused j refl)

  reserve-Ages : (r : ActorRegistry R) (j : ℕ) → Ages r (state_of (reserve R r)) j
  unfolding reserve
  reserve-Ages r j =
      if_cases (AgesBy (ℕ × ℕ) r j) r.poisoned (λ _. inl refl) (λ _. reserve_from-Ages r r.free j)

  release-Ages :
      (r s : ActorRegistry R) (i j : ℕ) (o : Option R) → Ages r s j → Ages r (release R s i o) j
  unfolding release
  release-Ages r s i j none h = h
  release-Ages r s i j (some runner) h = h

  remove-Ages : (r : ActorRegistry R) (i g j : ℕ) → Ages r (state_of (remove R r i g)) j
  unfolding remove
  remove-Ages r i g j =
      if_cases (AgesBy (Option R) r j) r.poisoned (λ _. inl refl)
        (λ _.
          if_cases (AgesBy (Option R) r j) (leb r.capacity i) (λ _. inl refl)
            (λ _.
              if_cases (AgesBy (Option R) r j) (not ((slot_at R r i).generation == g))
                (λ _. inl refl)
                (λ same.
                  release-Ages r
                    (record r {
                      slots =
                          set r.slots i (record { generation = wrapping_add_one g; owner = none });
                    })
                    i j (slot_at R r i).owner
                    (set-Ages r
                      (record r {
                        slots =
                            set r.slots i
                              (record { generation = wrapping_add_one g; owner = none });
                      })
                      i j (record { generation = wrapping_add_one g; owner = none }) refl
                      (inr (
                        ap wrapping_add_one
                          (sym (==-eq (generation_at r i) g (not-eq-false _ same)))))))))

  step-Ages : (r : ActorRegistry R) (op : Op R) (j : ℕ) → Ages r (step r op) j
  unfolding step commit
  step-Ages r reserves j = reserve-Ages r j
  step-Ages r (commits index runner) j =
      set-Ages r (commit R r index runner) index j
        (record (slot_at R r index) { owner = some runner }) refl (inl refl)
  step-Ages r (removes index generation) j = remove-Ages r index generation j

  Ages-le :
      (r s : ActorRegistry R) (i : ℕ)
      → Ages r s i
      → generation_at r i + 1 < u32_mod
      → (generation_at r i ≤ generation_at s i) × (generation_at s i ≤ generation_at r i + 1)
  Ages-le r s i (inl same) fits = (omega (arith, same), omega (arith, same))
  Ages-le r s i (inr next) fits = (omega (arith, next, fits), omega (arith, next, fits))

  pub run-generation :
      (ops : List (Op R)) (r : ActorRegistry R) (i : ℕ)
      → generation_at r i + length ops < u32_mod
      → (generation_at r i ≤ generation_at (run ops r) i)
        × (generation_at (run ops r) i ≤ generation_at r i + length ops)
  unfolding run
  run-generation [] r i fits = (omega arith, omega arith)
  run-generation (op ∷ ops) r i fits =
      let (lo, hi) = Ages-le r (step r op) i (step-Ages r op i) (omega (arith, fits)) in
      let (more, less) = run-generation ops (step r op) i (omega (arith, fits, hi)) in
      (omega (arith, lo, more), omega (arith, hi, less))
