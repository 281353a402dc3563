-- ===== src/Core/Ask/Pause.antt =====
-- How long the sweeper sleeps between two rounds. Times are in milliseconds.
use dignus_actor_server_rust.Common.{
  ℕ, ◌⊎◌, ap, subst, ◌+◌, ◌-◌, ◌≤◌, ◌≡◌, min, max, Bool, true, false, Option, none, some, List, [],
  ◌∷◌, if◌then◌else◌, arith, Bool-cases, inl, inr, if_cases,
}
use dignus_actor_server_rust.Core.Ask.{AskSlot, AskAwaiterState, should_remove, swept}

abbrev pub sweep_cap : ℕ
sweep_cap = 100

-- `map_or`, of the deadline that was the least until then.
abbrev pub earlier : Option ℕ → ℕ → Option ℕ
earlier none deadline = some deadline
earlier (some current) deadline = some (min current deadline)

module _ {M W : Type 0} where
  -- The deadline that a round finds, going through the slots from the first.
  unfoldable pub next_deadline :
      ℕ → List (ℕ × AskAwaiterState M W) → List (Option AskSlot) → Option ℕ → Option ℕ
  unfolding should_remove
  next_deadline now awaiters [] found = found
  next_deadline now awaiters (none ∷ slots) found = next_deadline now awaiters slots found
  next_deadline now awaiters (some entry ∷ slots) found =
      let gone = next_deadline now awaiters slots found in
      let kept = next_deadline now awaiters slots (earlier found entry.deadline) in
      if should_remove M W now awaiters entry then gone else kept

-- The pause, at a time behind the round.
unfoldable pub wait_duration : Option ℕ → ℕ → ℕ
wait_duration none now = sweep_cap
wait_duration (some deadline) now = min (deadline - now) sweep_cap

-- An entry that a table holds.
abbrev pub Holds : AskSlot → List (Option AskSlot) → Type 0
Holds entry [] = ⊥
Holds entry (slot ∷ slots) = (slot ≡ some entry) ⊎ Holds entry slots

-- A deadline that is found, and is not behind `bound`.
abbrev pub Within : ℕ → Option ℕ → Type 0
Within bound none = ⊥
Within bound (some deadline) = deadline ≤ bound

pause_of :
    (later bound : ℕ) (o : Option ℕ)
    → Within bound o
    → later + wait_duration o later ≤ max later bound
unfolding wait_duration
pause_of later bound none h = absurd h
pause_of later bound (some deadline) h = ground (arith, h)

capped : (later : ℕ) (o : Option ℕ) → wait_duration o later ≤ sweep_cap
unfolding wait_duration
capped later none = omega arith
capped later (some deadline) = ground arith

module _ {M W : Type 0} where
  next_deadline-Within :
      (now bound : ℕ) (awaiters : List (ℕ × AskAwaiterState M W)) (slots : List (Option AskSlot))
      (found : Option ℕ)
      → Within bound found
      → Within bound (next_deadline now awaiters slots found)
  unfolding next_deadline
  next_deadline-Within now bound awaiters [] found h = h
  next_deadline-Within now bound awaiters (none ∷ slots) found h =
      next_deadline-Within now bound awaiters slots found h
  next_deadline-Within now bound awaiters (some entry ∷ slots) found h =
      if_cases (Within bound) (should_remove M W now awaiters entry)
        (λ _. next_deadline-Within now bound awaiters slots found h)
        (λ _.
          next_deadline-Within now bound awaiters slots (earlier found entry.deadline)
            (sooner found h))
    where
      sooner : (o : Option ℕ) → Within bound o → Within bound (earlier o entry.deadline)
      sooner none h = absurd h
      sooner (some d) h = ground (arith, h)

  next_deadline-Holds :
      (now : ℕ) (awaiters : List (ℕ × AskAwaiterState M W)) (slots : List (Option AskSlot))
      (found : Option ℕ) (entry : AskSlot)
      → Holds entry (swept M W now awaiters slots)
      → Within entry.deadline (next_deadline now awaiters slots found)
  unfolding next_deadline swept
  next_deadline-Holds now awaiters [] found entry h = absurd h
  next_deadline-Holds now awaiters (none ∷ slots) found entry (inl e) = absurd (cc e)
  next_deadline-Holds now awaiters (none ∷ slots) found entry (inr h) =
      next_deadline-Holds now awaiters slots found entry h
  next_deadline-Holds now awaiters (some first ∷ slots) found entry h =
      elim (Bool-cases (should_remove M W now awaiters first)) [
        | inl gone ↦
            rw gone
              (next_deadline-Holds now awaiters slots found entry (removed (branch true gone)))
        | inr kept ↦
            rw kept (left (branch false kept) (λ f. next_deadline-Holds now awaiters slots f entry))
      ]
    where
      rest : List (Option AskSlot)
      rest = swept M W now awaiters slots

      branch :
          (b : Bool)
          → should_remove M W now awaiters first ≡ b
          → Holds entry (if b then none ∷ rest else some first ∷ rest)
      branch b e = subst (λ c. Holds entry (if c then none ∷ rest else some first ∷ rest)) e h

      removed : Holds entry (none ∷ rest) → Holds entry rest
      removed (inl e) = absurd (cc e)
      removed (inr held) = held

      soonest :
          (o : Option ℕ)
          → some first ≡ some entry
          → Within entry.deadline (earlier o first.deadline)
      soonest none e = let same : first ≡ entry = cc e in omega (arith, ap AskSlot.deadline same)
      soonest (some current) e =
          let same : first ≡ entry = cc e in ground (arith, ap AskSlot.deadline same)

      left :
          Holds entry (some first ∷ rest)
          → ((f : Option ℕ)
              → Holds entry rest
              → Within entry.deadline (next_deadline now awaiters slots f))
          → Within entry.deadline (next_deadline now awaiters slots (earlier found first.deadline))
      left (inr held) ih = ih (earlier found first.deadline) held
      left (inl e) ih =
          next_deadline-Within now entry.deadline awaiters slots (earlier found first.deadline)
            (soonest found e)

  -- Behind a round the sweeper sleeps for 100 ms at most, and it does not sleep past the deadline of
  -- any question that the round left in the table, however the round's slots stood.
  pub sweeper_pause :
      (now later : ℕ) (awaiters : List (ℕ × AskAwaiterState M W)) (slots : List (Option AskSlot))
      (entry : AskSlot)
      → Holds entry (swept M W now awaiters slots)
      → let pause = wait_duration (next_deadline now awaiters slots none) later in
        (pause ≤ sweep_cap) × (later + pause ≤ max later entry.deadline)
  sweeper_pause now later awaiters slots entry held =
      let found = next_deadline now awaiters slots none in
      (
        capped later found,
        pause_of later entry.deadline found
            (next_deadline-Holds now awaiters slots none entry held),
      )
