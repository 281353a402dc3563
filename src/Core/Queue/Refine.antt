-- ===== src/Core/Queue/Refine.antt =====
-- What each operation of the ring promises, in terms of its contents.
use dignus_actor_server_rust.Common.{
  ℕ, zero, suc, ◌+◌, ◌-◌, ◌≤◌, ◌<◌, ◌≡◌, refl, ap, true, false, Option, none, some, [], ◌∷◌, ◌++◌,
  length, get_or, arith, dec_lt, ◌⊎◌, inl, inr,
}
use dignus_actor_server_rust.Core.Queue.{
  MpscBoundedQueue, no_slot, slot_at, enqueued, full, try_enqueue, try_peek, try_dequeue,
}
use dignus_actor_server_rust.Core.Queue.Modulo.{mod_wrap}
use dignus_actor_server_rust.Core.Queue.Fifo.{
  IsValid, items, contents, pushed, popped, pushed-IsValid, contents-pushed, try_enqueue_room,
  popped-IsValid, contents-popped, try_dequeue_waiting,
}

module _ {T : Type 0} where
  length-items :
      (f : ℕ → Option T) (p n : ℕ)
      → ((j : ℕ) → p ≤ j → j < p + n → (x : T) × (f j ≡ some x))
      → length (items f p n) ≡ n
  length-items f p zero h = refl
  length-items f p (suc n) h =
      let (x, e) = h p (omega arith) (omega arith) in
      rw e (ap suc (length-items f (p + 1) n (λ j a b. h j (omega arith) (omega arith))))

  pub length-contents :
      {q : MpscBoundedQueue T}
      → IsValid q
      → length (contents q) ≡ q.producer_index - q.consumer_index
  length-contents {q} v =
      length-items (λ p. (slot_at T q p).item) q.consumer_index
        (q.producer_index - q.consumer_index)
        (λ j a b. (v.filled j a (omega (arith, b, v.behind))).1)

  try_enqueue-full :
      {q : MpscBoundedQueue T} (x : T)
      → IsValid q
      → q.producer_index ≡ q.consumer_index + q.capacity
      → try_enqueue T q x ≡ full
  unfolding try_enqueue
  try_enqueue-full {q} x v e = ground (
    arith,
    v.big,
    (v.filled q.consumer_index (omega arith) (omega (arith, e, v.big))).0,
    ap (λ p. slot_at T q p) e,
    ap (λ k. (get_or q.buffer k (no_slot T)).sequence) (mod_wrap q.consumer_index q.capacity),
  )

  -- An enqueue succeeds exactly while fewer than `capacity` items wait. Then the item goes behind
  -- those that wait; otherwise the ring is reported full and stays. The loop ends in its first round
  -- where no other thread interferes.
  pub try_enqueue_lem :
      (q : MpscBoundedQueue T) (x : T)
      → IsValid q
      → ((length (contents q) < q.capacity)
          × (q' : MpscBoundedQueue T) × (try_enqueue T q x ≡ enqueued q')
          × IsValid q'
          × (q'.capacity ≡ q.capacity)
          × (contents q' ≡ contents q ++ (x ∷ [])))
        ⊎ ((length (contents q) ≡ q.capacity) × (try_enqueue T q x ≡ full))
  unfolding pushed
  try_enqueue_lem q x v = elim (dec_lt q.producer_index (q.consumer_index + q.capacity)) [
    | yes room ↦ inl (
      omega (arith, length-contents v, room, v.behind),
      pushed q x,
      try_enqueue_room x v room,
      pushed-IsValid x v room,
      refl,
      contents-pushed x v room,
    )
    | no none_left ↦
        let e : q.producer_index ≡ q.consumer_index + q.capacity = omega (arith, v.ahead) in
        inr (omega (arith, length-contents v, e), try_enqueue-full x v e)
  ]

  empty_ring :
      {q : MpscBoundedQueue T}
      → IsValid q
      → q.producer_index ≡ q.consumer_index
      → (contents q ≡ []) × (try_dequeue T q ≡ (none, q)) × (try_peek T q ≡ false)
  unfolding try_dequeue try_peek
  empty_ring {q} v e =
      let idle = v.vacant q.consumer_index (omega arith) (omega (arith, v.big)) in
      (rw (none_between e), ground arith, ground arith)
    where
      none_between : q.producer_index ≡ q.consumer_index → q.producer_index - q.consumer_index ≡ 0
      none_between h = omega arith

  -- A dequeue takes the oldest item, and nothing from an empty ring, which it leaves as it is;
  -- `try_peek` tells beforehand which of the two it will be.
  pub try_dequeue_lem :
      (q : MpscBoundedQueue T)
      → IsValid q
      → ((contents q ≡ []) × (try_dequeue T q ≡ (none, q)) × (try_peek T q ≡ false))
        ⊎ ((x : T) × (q' : MpscBoundedQueue T) × (contents q ≡ x ∷ contents q')
            × (try_dequeue T q ≡ (some x, q'))
            × IsValid q'
            × (q'.capacity ≡ q.capacity)
            × (try_peek T q ≡ true))
  unfolding try_peek popped
  try_dequeue_lem q v = elim (dec_lt q.consumer_index q.producer_index) [
    | yes waiting ↦
        let (turn, (x, e)) = v.filled q.consumer_index (omega arith) waiting in
        inr (
          x,
          popped q,
          contents-popped v waiting e,
          rw (← e) (try_dequeue_waiting v waiting),
          popped-IsValid v waiting,
          refl,
          ground arith,
        )
    | no idle ↦ inl (empty_ring v (omega (arith, v.behind)))
  ]
