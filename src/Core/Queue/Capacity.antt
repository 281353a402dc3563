-- ===== src/Core/Queue/Capacity.antt =====
-- The capacity that a ring is made with.
use dignus_actor_server_rust.Common.{
  ℕ, zero, suc, ◌+◌, ◌*◌, ◌^◌, ◌≤◌, ◌<◌, ◌≡◌, refl, ap, ◌∙◌, Bool-cases, ◌⊎◌, inl, inr, none, some,
  [], length, get_or, arith, ltb, lt→ltb, ltb→lt, le→ltb-false, dec_lt,
}
use native.Mathlib.Nat.{pow-suc, mod-eq_of_lt}
use dignus_actor_server_rust.Core.Queue.{
  MpscBoundedQueue, no_slot, checked_double, normalize_loop, normalize_to_power_of_two, fresh_slots,
  new,
}
use dignus_actor_server_rust.Core.Queue.Fifo.{IsValid, contents}

checked_double_lem : (n : ℕ) → n < 2 ^ 63 → checked_double n ≡ some (n * 2)
unfolding checked_double
checked_double_lem n h = ground arith

not_last : (k capacity : ℕ) → 2 ^ k < capacity → capacity ≤ 2 ^ 63 → k ≤ 63 → suc k ≤ 63
not_last k capacity h small few = elim (dec_lt k 63) [
  | yes below ↦ below
  | no last ↦
      let e : k ≡ 63 = omega arith in absurd (omega (arith, ap (λ (j : ℕ). 2 ^ j) e, h, small))
]

-- From a power of two below twice the capacity, the loop ends at the first that reaches it.
normalize_loop_lem :
    (fuel capacity k : ℕ)
    → 0 < capacity
    → capacity ≤ 2 ^ 63
    → 2 ^ k < 2 * capacity
    → 63 < fuel + k
    → k ≤ 63
    → (m : ℕ) × (normalize_loop fuel capacity (2 ^ k) ≡ some (2 ^ m))
      × (capacity ≤ 2 ^ m)
      × (2 ^ m < 2 * capacity)
unfolding normalize_loop
normalize_loop_lem zero capacity k pos small low enough few = absurd (omega arith)
normalize_loop_lem (suc fuel) capacity k pos small low enough few =
    elim (Bool-cases (ltb (2 ^ k) capacity)) [
      | inr done ↦ (k, rw done, ground arith, low)
      | inl more ↦
          let double : 2 ^ suc k ≡ 2 ^ k * 2 = pow-suc 2 k in
          let (m, e, reach, tight) =
            normalize_loop_lem fuel capacity (suc k) pos small
              (omega (arith, double, ltb→lt _ _ more)) (omega arith)
              (not_last k capacity (ltb→lt _ _ more) small few) in
          (
            m,
            rw (more, checked_double_lem (2 ^ k) (omega (arith, ltb→lt _ _ more)), normalize_loop)
                (rw (← double) e),
            reach,
            tight,
          )
    ]

-- The capacity is rounded up to the next power of two: the first that is at least what was asked for.
-- The loop ends, and no doubling overflows, for every request up to 2^63.
pub normalize_to_power_of_two_lem :
    (capacity : ℕ)
    → 0 < capacity
    → capacity ≤ 2 ^ 63
    → (m : ℕ) × (normalize_to_power_of_two capacity ≡ some (2 ^ m))
      × (capacity ≤ 2 ^ m)
      × (2 ^ m < 2 * capacity)
unfolding normalize_to_power_of_two
normalize_to_power_of_two_lem capacity pos small =
    normalize_loop_lem 66 capacity 0 pos small (omega arith) (omega arith) (omega arith)

length-fresh_slots : (T : Type 0) (first n : ℕ) → length (fresh_slots T first n) ≡ n
unfolding fresh_slots
length-fresh_slots T first zero = refl
length-fresh_slots T first (suc n) = ap suc (length-fresh_slots T (suc first) n)

get_or-fresh_slots :
    (T : Type 0) (first n i : ℕ)
    → i < n
    → (get_or (fresh_slots T first n) i (no_slot T)).sequence ≡ first + i
unfolding fresh_slots
get_or-fresh_slots T first zero i h = absurd (omega arith)
get_or-fresh_slots T first (suc n) zero h = omega arith
get_or-fresh_slots T first (suc n) (suc i) h =
    get_or-fresh_slots T (suc first) n i (omega arith) ∙ omega arith

module _ (T : Type 0) where
  made : ℕ → MpscBoundedQueue T
  made capacity = record {
    buffer = fresh_slots T 0 capacity;
    capacity = capacity;
    producer_index = 0;
    consumer_index = 0;
  }

  made-IsValid : (capacity : ℕ) → 2 ≤ capacity → IsValid (made capacity)
  unfolding made
  made-IsValid capacity big = record {
    big = big;
    sized = length-fresh_slots T 0 capacity;
    behind = omega arith;
    ahead = omega arith;
    filled = λ p a b. absurd (omega (arith, b));
    vacant = λ p a b.
        rw (mod-eq_of_lt {n = p} {m = capacity} (omega (arith, b)))
          (get_or-fresh_slots T 0 capacity p (omega (arith, b)) ∙ omega arith);
  }

  -- A ring that is asked for with a capacity from 2 to 2^63 is valid and empty, and has room for at
  -- least that many items and less than twice as many. A capacity below 2 panics.
  pub new-IsValid :
      (requested : ℕ)
      → requested ≤ 2 ^ 63
      → ((requested < 2) × (new T requested ≡ none))
        ⊎ ((2 ≤ requested)
            × (q : MpscBoundedQueue T) × (new T requested ≡ some q)
            × IsValid q
            × (contents q ≡ [])
            × (requested ≤ q.capacity)
            × (q.capacity < 2 * requested))
  unfolding new made
  new-IsValid requested small = elim (dec_lt requested 2) [
    | yes low ↦ inl (low, rw (lt→ltb requested 2 low))
    | no big ↦
        let (m, e, reach, tight) = normalize_to_power_of_two_lem requested (omega arith) small in
        inr (
          omega arith,
          made (2 ^ m),
          rw (le→ltb-false requested 2 (omega arith), e, new),
          made-IsValid (2 ^ m) (omega (arith, reach)),
          refl,
          reach,
          tight,
        )
  ]
