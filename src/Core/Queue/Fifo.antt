-- ===== src/Core/Queue/Fifo.antt =====
-- The ring is a bounded queue: first in, first out, at most `capacity` items.
use dignus_actor_server_rust.Common.{
  ℕ, zero, suc, ◌+◌, ◌-◌, ◌≤◌, ◌<◌, ◌≡◌, ◌≢◌, refl, sym, ap, ap₂, ◌∙◌, Option, none, some, List, [],
  ◌∷◌, ◌++◌, length, get_or, set, arith, cons?, cons?-append, get_or-set_self, get_or-set_ne,
  length-set, dec_lt, ℕ_discrete,
}
use native.Mathlib.Nat.{mod-lt}
use dignus_actor_server_rust.Core.Queue.{
  Slot, MpscBoundedQueue, no_slot, slot_at, slot_index, enqueued, try_enqueue, try_dequeue,
}
use dignus_actor_server_rust.Core.Queue.Modulo.{mod_injective, mod_wrap}

module _ {T : Type 0} where
  -- The items at the `n` positions from `p` on.
  abbrev pub items : (ℕ → Option T) → ℕ → ℕ → List T
  items f p zero = []
  items f p (suc n) = cons? (f p) (items f (p + 1) n)

  items_ext :
      (f g : ℕ → Option T) (p n : ℕ)
      → ((j : ℕ) → p ≤ j → j < p + n → f j ≡ g j)
      → items f p n ≡ items g p n
  items_ext f g p zero h = refl
  items_ext f g p (suc n) h = rw (
    h p (omega arith) (omega arith),
    items_ext f g (p + 1) n (λ j a b. h j (omega arith) (omega arith)),
  )

  items_snoc :
      (f : ℕ → Option T) (p n : ℕ) → items f p (suc n) ≡ items f p n ++ cons? (f (p + n)) []
  items_snoc f p zero = ap (λ k. cons? (f k) []) (omega arith)
  items_snoc f p (suc n) =
      ap (cons? (f p))
        (items_snoc f (p + 1) n ∙ ap (λ k. items f (p + 1) n ++ cons? (f k) []) (omega arith))
      ∙ cons?-append (f p) _ _

  pub record IsValid (q : MpscBoundedQueue T) : Type 0 where
    pub big : 2 ≤ q.capacity
    pub sized : length q.buffer ≡ q.capacity
    pub behind : q.consumer_index ≤ q.producer_index
    pub ahead : q.producer_index ≤ q.consumer_index + q.capacity
    pub filled :
        (p : ℕ)
        → q.consumer_index ≤ p
        → p < q.producer_index
        → ((slot_at T q p).sequence ≡ p + 1) × ((x : T) × ((slot_at T q p).item ≡ some x))
    pub vacant :
        (p : ℕ)
        → q.producer_index ≤ p
        → p < q.consumer_index + q.capacity
        → (slot_at T q p).sequence ≡ p

  -- What waits in the ring, oldest first.
  abbrev pub contents : MpscBoundedQueue T → List T
  contents q =
      items (λ p. (slot_at T q p).item) q.consumer_index (q.producer_index - q.consumer_index)

  -- A write to the slot of one position of a window leaves the others of the window alone.
  module _ (q : MpscBoundedQueue T) (s : Slot T) (big : 2 ≤ q.capacity)
      (sized : length q.buffer ≡ q.capacity) (p : ℕ) where
    write : ℕ → Slot T
    write j = get_or (set q.buffer (slot_index T q p) s) (slot_index T q j) (no_slot T)

    write_self : write p ≡ s
    unfolding write
    write_self =
        get_or-set_self q.buffer (slot_index T q p) s (no_slot T)
          (omega (arith, sized, mod-lt p {m = q.capacity} (omega arith)))

    write_other :
        (j : ℕ) → p ≢ j → j < p + q.capacity → p < j + q.capacity → write j ≡ slot_at T q j
    unfolding write
    write_other j ne near far =
        get_or-set_ne q.buffer (slot_index T q p) (slot_index T q j) s (no_slot T) (λ e.
          elim (dec_lt p j) [
            | yes below ↦ ne (mod_injective p j q.capacity (omega arith) near e)
            | no above ↦ ne (sym (mod_injective j p q.capacity (omega arith) far (sym e)))
          ])

  -- The ring after an item was put at the producer's position.
  unfoldable pub pushed : MpscBoundedQueue T → T → MpscBoundedQueue T
  pushed q x = record q {
    producer_index = q.producer_index + 1;
    buffer =
        set q.buffer (slot_index T q q.producer_index)
          (record { sequence = q.producer_index + 1; item = some x });
  }

  module _ {q : MpscBoundedQueue T} (x : T) (v : IsValid q)
      (room : q.producer_index < q.consumer_index + q.capacity) where
    slot : Slot T
    slot = record { sequence = q.producer_index + 1; item = some x }

    pushed_self : slot_at T (pushed q x) q.producer_index ≡ slot
    unfolding pushed slot write
    pushed_self = write_self q slot v.big v.sized q.producer_index

    pushed_other :
        (j : ℕ)
        → q.producer_index ≢ j
        → j < q.producer_index + q.capacity
        → q.producer_index < j + q.capacity
        → slot_at T (pushed q x) j ≡ slot_at T q j
    unfolding pushed slot write
    pushed_other j ne near far = write_other q slot v.big v.sized q.producer_index j ne near far

    pub pushed-IsValid : IsValid (pushed q x)
    unfolding pushed slot
    pushed-IsValid = record {
      big = v.big;
      sized = omega (arith, v.sized, length-set q.buffer (slot_index T q q.producer_index) slot);
      behind = omega (arith, v.behind);
      ahead = omega arith;
      filled = λ j a b. elim (ℕ_discrete q.producer_index j) [
        | yes e ↦ rw (← e, pushed_self) (refl, (x, refl))
        | no ne ↦
            rw (pushed_other j ne (omega (arith, b)) (omega (arith, a, room)))
              (v.filled j a (omega (arith, ne, b)))
      ];
      vacant = λ j a b.
          rw (pushed_other j (omega (arith, a)) (omega (arith, b, v.behind)) (omega (arith, a)))
            (v.vacant j (omega (arith, a)) b);
    }

    pub contents-pushed : contents (pushed q x) ≡ contents q ++ (x ∷ [])
    unfolding pushed slot
    contents-pushed =
        let n = q.producer_index - q.consumer_index in
        let more : q.producer_index + 1 - q.consumer_index ≡ suc n = omega (arith, v.behind) in
        let here : q.consumer_index + n ≡ q.producer_index = omega (arith, v.behind) in
        rw (more, items_snoc item' q.consumer_index n, here)
          (ap₂ (λ (l : List T) (o : Option T). l ++ cons? o [])
            (items_ext item' (λ j. (slot_at T q j).item) q.consumer_index n
              (λ j a b.
                ap Slot.item (pushed_other j (omega arith) (omega arith) (omega (arith, room)))))
            (ap Slot.item pushed_self))
      where
        item' : ℕ → Option T
        item' j = (slot_at T (pushed q x) j).item

    pub try_enqueue_room : try_enqueue T q x ≡ enqueued (pushed q x)
    unfolding try_enqueue pushed
    try_enqueue_room = ground (arith, v.vacant q.producer_index (omega arith) room)

  -- The ring after the item at the consumer's position was taken.
  unfoldable pub popped : MpscBoundedQueue T → MpscBoundedQueue T
  popped q = record q {
    consumer_index = q.consumer_index + 1;
    buffer =
        set q.buffer (slot_index T q q.consumer_index)
          (record { sequence = q.consumer_index + q.capacity; item = none });
  }

  module _ {q : MpscBoundedQueue T} (v : IsValid q)
      (waiting : q.consumer_index < q.producer_index) where
    freed : Slot T
    freed = record { sequence = q.consumer_index + q.capacity; item = none }

    popped_self : slot_at T (popped q) q.consumer_index ≡ freed
    unfolding popped freed write
    popped_self = write_self q freed v.big v.sized q.consumer_index

    popped_other :
        (j : ℕ)
        → q.consumer_index ≢ j
        → j < q.consumer_index + q.capacity
        → q.consumer_index < j + q.capacity
        → slot_at T (popped q) j ≡ slot_at T q j
    unfolding popped freed write
    popped_other j ne near far = write_other q freed v.big v.sized q.consumer_index j ne near far

    -- The slot that was freed is the one of the position that enters the window.
    popped_next : slot_at T (popped q) (q.consumer_index + q.capacity) ≡ freed
    unfolding popped
    popped_next = rw (mod_wrap q.consumer_index q.capacity) popped_self

    pub popped-IsValid : IsValid (popped q)
    unfolding popped freed
    popped-IsValid = record {
      big = v.big;
      sized = omega (arith, v.sized, length-set q.buffer (slot_index T q q.consumer_index) freed);
      behind = omega arith;
      ahead = omega (arith, v.ahead);
      filled = λ j a b.
          rw (popped_other j (omega (arith, a)) (omega (arith, b, v.ahead)) (omega (arith, a)))
            (v.filled j (omega (arith, a)) b);
      vacant = λ j a b. elim (ℕ_discrete (q.consumer_index + q.capacity) j) [
        | yes e ↦ rw (← e) (ap Slot.sequence popped_next)
        | no ne ↦
            rw (popped_other j (omega (arith, a)) (omega (arith, b, ne)) (omega (arith, a)))
              (v.vacant j a (omega (arith, b, ne)))
      ];
    }

    pub contents-popped :
        {x : T}
        → (slot_at T q q.consumer_index).item ≡ some x
        → contents q ≡ x ∷ contents (popped q)
    unfolding popped freed
    contents-popped {x} e =
        let n = q.producer_index - (q.consumer_index + 1) in
        let more : q.producer_index - q.consumer_index ≡ suc n = omega (arith) in
        rw (more, e)
          (ap (◌∷◌ x) (
            items_ext (λ j. (slot_at T q j).item) (λ j. (slot_at T (popped q) j).item)
              (q.consumer_index + 1) n
              (λ j a b. sym (
                ap Slot.item (
                  popped_other j (omega (arith, a)) (omega (arith, b, v.ahead))
                    (omega (arith, a)))))))

    pub try_dequeue_waiting : try_dequeue T q ≡ ((slot_at T q q.consumer_index).item, popped q)
    unfolding try_dequeue popped
    try_dequeue_waiting = ground (arith, (v.filled q.consumer_index (omega arith) waiting).0)
