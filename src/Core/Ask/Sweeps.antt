-- ===== src/Core/Ask/Sweeps.antt =====
-- Timeouts: a sweep times out the awaiters that are due, and no other.
use dignus_actor_server_rust.Common.{
  ℕ, zero, suc, ◌+◌, ◌%◌, ◌≡◌, ◌≢◌, refl, ap, ◌∙◌, Bool, false, ◌&&◌, ◌||◌, Option, none, some,
  List, [], ◌∷◌, leb, ◌==◌, if◌then◌else◌, arith, lookup, insert, set, lookup-modify_self,
  lookup-modify_ne, lookup-insert,
}
use dignus_actor_server_rust.Core.Ask.{
  AskAwaiterState, new, complete, set_timeout, AskSlot, AskSystem, time_out_state, time_out,
  register, should_remove, expired, time_out_all, sweep,
}

-- Whether some slot holds the awaiter, and whether one does whose deadline has passed.
abbrev pub names : ℕ → List (Option AskSlot) → Bool
names id [] = false
names id (none ∷ slots) = names id slots
names id (some entry ∷ slots) = (entry.ask_awaiter == id) || names id slots

abbrev pub due : ℕ → ℕ → List (Option AskSlot) → Bool
due now id [] = false
due now id (none ∷ slots) = due now id slots
due now id (some entry ∷ slots) =
    ((entry.ask_awaiter == id) && leb entry.deadline now) || due now id slots

abbrev mem : ℕ → List ℕ → Bool
mem id [] = false
mem id (i ∷ is) = (i == id) || mem id is

set-set : {A : Type 0} (l : List A) (k : ℕ) (a b : A) → set (set l k a) k b ≡ set l k b
set-set [] k a b = refl
set-set (x ∷ l) zero a b = refl
set-set (x ∷ l) (suc k) a b = ap (λ t. x ∷ t) (set-set l k a b)

names-set :
    (id k : ℕ) (entry : AskSlot) (slots : List (Option AskSlot))
    → names id slots ≡ false
    → entry.ask_awaiter ≢ id
    → names id (set slots k (some entry)) ≡ false
names-set id k entry [] h e = refl
names-set id zero entry (none ∷ slots) h e = ground arith
names-set id zero entry (some x ∷ slots) h e = ground arith
names-set id (suc k) entry (none ∷ slots) h e = names-set id k entry slots h e
names-set id (suc k) entry (some x ∷ slots) h e = ground (arith, names-set id k entry slots)

due_of_names :
    (now id : ℕ) (slots : List (Option AskSlot)) → names id slots ≡ false → due now id slots ≡ false
due_of_names now id [] h = refl
due_of_names now id (none ∷ slots) h = due_of_names now id slots h
due_of_names now id (some x ∷ slots) h = ground (arith, due_of_names now id slots)

module _ {M W : Type 0} where
  set_timeout_twice :
      (state : AskAwaiterState M W)
      → set_timeout (set_timeout state).0 ≡ ((set_timeout state).0, none)
  unfolding set_timeout complete
  set_timeout_twice state = ground arith

  lookup-time_out :
      (id i : ℕ) (o : Option (AskAwaiterState M W)) (m : List (ℕ × AskAwaiterState M W))
      (state : AskAwaiterState M W)
      → lookup i m ≡ o
      → lookup id m ≡ some state
      → lookup id (time_out_state M W i o m)
        ≡ some (if i == id then (set_timeout state).0 else state)
  unfolding time_out_state
  lookup-time_out id i none m state e h = ground arith
  lookup-time_out id i (some s) m state e h =
      ground (
        arith,
        lookup-modify_self i (set_timeout s).0 s m,
        lookup-modify_ne i id (set_timeout s).0 m,
      )

  lookup-time_out_all :
      (id : ℕ) (is : List ℕ) (m : List (ℕ × AskAwaiterState M W)) (state : AskAwaiterState M W)
      → lookup id m ≡ some state
      → lookup id (time_out_all M W is m)
        ≡ some (if mem id is then (set_timeout state).0 else state)
  unfolding time_out_all
  lookup-time_out_all id [] m state h = h
  lookup-time_out_all id (i ∷ is) m state h =
      lookup-time_out_all id is (time_out M W i m) _
        (lookup-time_out id i (lookup i m) m state refl h)
      ∙ ground (arith, set_timeout_twice state)

  -- The awaiters that are alive and expire are those that are due.
  mem-expired :
      (now id : ℕ) (m : List (ℕ × AskAwaiterState M W)) (state : AskAwaiterState M W)
      (slots : List (Option AskSlot))
      → lookup id m ≡ some state
      → mem id (expired M W now m slots) ≡ due now id slots
  unfolding expired should_remove
  mem-expired now id m state [] h = refl
  mem-expired now id m state (none ∷ slots) h = mem-expired now id m state slots h
  mem-expired now id m state (some entry ∷ slots) h =
      ground (arith, mem-expired now id m state slots h)

  -- A sweep of a running system times out an awaiter that somebody still holds exactly if one of its
  -- slots has a deadline that has passed, and leaves it as it is otherwise.
  pub sweep_lem :
      (s : AskSystem M W) (now id : ℕ) (state : AskAwaiterState M W)
      → s.is_stopped ≡ false
      → lookup id s.awaiters ≡ some state
      → lookup id (sweep M W s now).awaiters
        ≡ some (if due now id s.slots then (set_timeout state).0 else state)
  unfolding sweep
  sweep_lem s now id state live h = simp live (
      lookup-time_out_all id (expired M W now s.awaiters s.slots) s.awaiters state h
      ∙ ap (λ b. some (if b then (set_timeout state).0 else state))
          (mem-expired now id s.awaiters state s.slots h))

  -- What a registration did, where it did not panic.
  registered :
      (s s' : AskSystem M W) (id address now wait : ℕ)
      → register M W s id address now wait ≡ some s'
      → (s'.slots
          ≡ set s.slots
              (address % s.slot_count)
              (some (record { ask_awaiter = id; deadline = now + wait })))
        × (s'.awaiters ≡ insert id new s.awaiters)
        × (s'.slot_count ≡ s.slot_count)
        × (s'.is_stopped ≡ false)
  unfolding register
  registered s s' id address now wait h = ground arith

  -- Two questions whose awaiters' addresses fall on one slot: the second takes the slot, and no sweep
  -- at any time completes the first, however long ago its deadline was.
  pub collision_forgets :
      (s s₁ s₂ : AskSystem M W) (id id' address address' t wait t' wait' now : ℕ)
      → names id s.slots ≡ false
      → id' ≢ id
      → address % s.slot_count ≡ address' % s.slot_count
      → register M W s id address t wait ≡ some s₁
      → register M W s₁ id' address' t' wait' ≡ some s₂
      → lookup id (sweep M W s₂ now).awaiters ≡ some new
  collision_forgets s s₁ s₂ id id' address address' t wait t' wait' now absent differ same h h' =
      let (slots, awaiters, count, live) = registered s s₁ id address t wait h in
      let (slots', awaiters', count', live') = registered s₁ s₂ id' address' t' wait' h' in
      let k : ℕ = address % s.slot_count in
      let overwritten : s₂.slots
          ≡ set s.slots k (some (record { ask_awaiter = id'; deadline = t' + wait' })) =
        cc (
          slots',
          set-set s.slots k (some (record { ask_awaiter = id; deadline = t + wait }))
              (some (record { ask_awaiter = id'; deadline = t' + wait' })),
        ) in
      let gone : names id s₂.slots ≡ false =
        ap (names id) overwritten ∙ names-set id k _ s.slots absent differ in
      let found : lookup id s₂.awaiters ≡ some new =
        ground (arith, lookup-insert id' id new s₁.awaiters, lookup-insert id id new s.awaiters) in
      rw (due_of_names now id s₂.slots gone) at (sweep_lem s₂ now id new live' found)
