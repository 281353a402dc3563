-- ===== src/Core/Ask/Slots.antt =====
-- The table of slots, from `AskSystem::new` on.
use dignus_actor_server_rust.Common.{
  ℕ, zero, suc, ◌+◌, ◌*◌, ◌%◌, ◌^◌, ◌≤◌, ◌<◌, ◌≡◌, refl, sym, ap, ◌∙◌, false, Option, none, some,
  List, [], ◌∷◌, length, replicate, max, leb, if◌then◌else◌, arith, if_cases, leb→le, Bool-cases,
  inl, inr, length-set, length-replicate, subst, dec_le,
}
use native.Mathlib.Nat.{mod-lt, pow-suc}
use dignus_actor_server_rust.Core.Ask.{
  AskSystem, AskSlot, AskAwaiterState, register, sweep, swept, stop, post, should_remove,
}

abbrev pub min_slot_count : ℕ
min_slot_count = 2 ^ 18

-- The first of `p`, `2 * p`, ... that is not below `n`, of the first `fuel` of them.
unfoldable pub doubled : (fuel p n : ℕ) → ℕ
doubled zero p n = p
doubled (suc fuel) p n = let rest = doubled fuel (p * 2) n in if leb n p then p else rest

-- `usize::next_power_of_two`, up to 2 ^ 63.
unfoldable pub next_power_of_two : ℕ → ℕ
unfolding doubled
next_power_of_two n = doubled 63 1 n

module _ (M W : Type 0) where
  unfoldable pub new : ℕ → AskSystem M W
  unfolding next_power_of_two
  new slot_count_hint =
      let slot_count = max (next_power_of_two (max slot_count_hint 1)) min_slot_count in
      record {
        slots = replicate slot_count none;
        slot_count = slot_count;
        is_stopped = false;
        awaiters = [];
      }

-- A call that changes the system; a registration that panics changes nothing.
pub data Call (M : Type 0) : Type 0 where
  registers : (id address now wait : ℕ) → Call M
  answers : ℕ → M → Call M
  sweeps : ℕ → Call M
  stops : Call M

module _ {M W : Type 0} where
  abbrev pub registered_or : AskSystem M W → Option (AskSystem M W) → AskSystem M W
  registered_or s none = s
  registered_or s (some s') = s'

  unfoldable pub call : AskSystem M W → Call M → AskSystem M W
  call s (registers id address now wait) = registered_or s (register M W s id address now wait)
  call s (answers id message) = post M W s id message
  call s (sweeps now) = sweep M W s now
  call s stops = stop M W s

  unfoldable pub calls : List (Call M) → AskSystem M W → AskSystem M W
  unfolding call
  calls [] s = s
  calls (c ∷ cs) s = calls cs (call s c)

doubled_lem :
    (fuel j n : ℕ) → n ≤ 2 ^ (fuel + j) → (k : ℕ) × (doubled fuel (2 ^ j) n ≡ 2 ^ k) × (n ≤ 2 ^ k)
unfolding doubled
doubled_lem zero j n h =
    let none_left : zero + j ≡ j = omega arith in (j, refl, subst (λ i. n ≤ 2 ^ i) none_left h)
doubled_lem (suc fuel) j n h = elim (Bool-cases (leb n (2 ^ j))) [
  | inl reached ↦ (j, rw reached refl, leb→le n (2 ^ j) reached)
  | inr more ↦
      let shift : suc fuel + j ≡ fuel + suc j = omega arith in
      let (k, e, reach) = doubled_lem fuel (suc j) n (subst (λ i. n ≤ 2 ^ i) shift h) in
      (k, rw more (ap (λ p. doubled fuel p n) (sym (pow-suc 2 j)) ∙ e), reach)
]

max_power : (j k : ℕ) → (i : ℕ) × (max (2 ^ j) (2 ^ k) ≡ 2 ^ i)
max_power j k = elim (dec_le (2 ^ j) (2 ^ k)) [
  | yes h ↦ (k, ground (arith, h))
  | no h ↦ (j, ground (arith, h))
]

-- A new system has as many slots as it says, none of them in use: a power of two, which is what
-- makes the mask of an address its remainder, at least 2 ^ 18, and at least the hint, for every hint
-- up to 2 ^ 63.
pub new_lem :
    (M W : Type 0) (slot_count_hint : ℕ)
    → slot_count_hint ≤ 2 ^ 63
    → let s = new M W slot_count_hint in
      ((k : ℕ) × (s.slot_count ≡ 2 ^ k))
      × (min_slot_count ≤ s.slot_count)
      × (slot_count_hint ≤ s.slot_count)
      × (s.slots ≡ replicate s.slot_count none)
      × (s.is_stopped ≡ false)
unfolding new next_power_of_two
new_lem M W slot_count_hint fits =
    let (k, e, reach) = doubled_lem 63 0 (max slot_count_hint 1) (ground (arith, fits)) in
    let (i, power) = max_power k 18 in
    (
      (i, ap (λ p. max p min_slot_count) e ∙ power),
      ground arith,
      ground (arith, e, reach),
      refl,
      refl,
    )

module _ {M W : Type 0} where
  -- The slot of every address is there.
  abbrev pub Shaped : AskSystem M W → Type 0
  Shaped s = (length s.slots ≡ s.slot_count) × (0 < s.slot_count)

  length-swept :
      (now : ℕ) (awaiters : List (ℕ × AskAwaiterState M W)) (slots : List (Option AskSlot))
      → length (swept M W now awaiters slots) ≡ length slots
  unfolding swept
  length-swept now awaiters [] = refl
  length-swept now awaiters (none ∷ slots) = ap suc (length-swept now awaiters slots)
  length-swept now awaiters (some entry ∷ slots) =
      if_cases (λ (l : List (Option AskSlot)). length l ≡ suc (length slots))
        (should_remove M W now awaiters entry) (λ _. ap suc (length-swept now awaiters slots))
        (λ _. ap suc (length-swept now awaiters slots))

  register-Shaped :
      (s : AskSystem M W) (id address now wait : ℕ)
      → Shaped s
      → Shaped (registered_or s (register M W s id address now wait))
  unfolding register
  register-Shaped s id address now wait (sized, pos) = elim (Bool-cases s.is_stopped) [
    | inl stopped ↦ rw stopped (sized, pos)
    | inr live ↦ rw live (
      length-set s.slots (address % s.slot_count)
            (some (record { ask_awaiter = id; deadline = now + wait }))
          ∙ sized,
      pos,
    )
  ]

  sweep-Shaped : (s : AskSystem M W) (now : ℕ) → Shaped s → Shaped (sweep M W s now)
  unfolding sweep
  sweep-Shaped s now (sized, pos) =
      if_cases Shaped s.is_stopped (λ _. (sized, pos))
        (λ _. (length-swept now s.awaiters s.slots ∙ sized, pos))

  stop-Shaped : (s : AskSystem M W) → Shaped s → Shaped (stop M W s)
  unfolding stop
  stop-Shaped s (sized, pos) =
      if_cases Shaped s.is_stopped (λ _. (sized, pos))
        (λ _. (length-replicate (length s.slots) none ∙ sized, pos))

  call-Shaped : (s : AskSystem M W) (c : Call M) → Shaped s → Shaped (call s c)
  unfolding call
  call-Shaped s (registers id address now wait) h = register-Shaped s id address now wait h
  call-Shaped s (answers id message) h = h
  call-Shaped s (sweeps now) h = sweep-Shaped s now h
  call-Shaped s stops h = stop-Shaped s h

  calls-Shaped : (cs : List (Call M)) (s : AskSystem M W) → Shaped s → Shaped (calls cs s)
  unfolding calls
  calls-Shaped [] s h = h
  calls-Shaped (c ∷ cs) s h = calls-Shaped cs (call s c) (call-Shaped s c h)

-- Whatever is called on a system that was made with a hint of up to 2 ^ 63, the slot that the masked
-- address of an awaiter gives is in the table.
pub slot_in_table :
    (M W : Type 0) (slot_count_hint address : ℕ) (cs : List (Call M))
    → slot_count_hint ≤ 2 ^ 63
    → let s = calls cs (new M W slot_count_hint) in address % s.slot_count < length s.slots
slot_in_table M W slot_count_hint address cs fits =
    let (_, least, _, slots, _) = new_lem M W slot_count_hint fits in
    let s₀ : AskSystem M W = new M W slot_count_hint in
    let (sized, pos) =
      calls-Shaped cs s₀
        (ap length slots ∙ length-replicate s₀.slot_count none, omega (arith, least)) in
    let s : AskSystem M W = calls cs s₀ in
    omega (arith, sized, mod-lt address {m = s.slot_count} (omega (arith, pos)))
