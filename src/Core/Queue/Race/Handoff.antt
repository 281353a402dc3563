-- ===== src/Core/Queue/Race/Handoff.antt =====
-- The handing over of items from the producers to the consumer.
use dignus_actor_server_rust.Common.{ℕ, ◌+◌, ◌≤◌, ◌≡◌, refl, sym, ap, ◌∙◌, length, arith}
use dignus_actor_server_rust.Core.Queue.Race.{
  outside, entered, loaded, matched, Consumer, resting, taking, released, Ring, empty, Step, enter,
  load, match_free, full, again, lose, win, write, publish, take_item, release, advance, Reach,
  here, later,
}
use dignus_actor_server_rust.Core.Queue.Race.Slots.{
  first, length-first, head_of, got_of, Fine, Inv, empty-Inv,
}
use dignus_actor_server_rust.Core.Queue.Race.Moves.{at-Inv, room}
use dignus_actor_server_rust.Core.Queue.Race.Producing.{win-Inv, write-Inv, publish-Inv}
use dignus_actor_server_rust.Core.Queue.Race.Consuming.{take_item-Inv, release-Inv, advance-Inv}

head_got : (k : Consumer) (c : ℕ) → head_of k c ≤ got_of k c
head_got resting c = omega arith
head_got taking c = omega arith
head_got released c = omega arith

module _ {T : Type 0} where
  Step-Inv : {r s : Ring T} → Step r s → Inv r → Inv s
  Step-Inv {r} (enter t x h) v = at-Inv r t (entered x) tt v
  Step-Inv {r} (load t x h) v = at-Inv r t (loaded x r.producer_index) (omega arith) v
  Step-Inv {r} (match_free t x p h e) v =
      let f : Fine r t (loaded x p) = rw h at (v.fine t) in
      at-Inv r t (matched x p) (f, room r p v f e) v
  Step-Inv {r} (full t x p h e) v = at-Inv r t outside tt v
  Step-Inv {r} (again t x p h e) v = at-Inv r t (entered x) tt v
  Step-Inv {r} (lose t x p h e) v = at-Inv r t (entered x) tt v
  Step-Inv {r} (win t x p h e) v = win-Inv r t x p h e v
  Step-Inv {r} (write t x p h) v = write-Inv r t x p h v
  Step-Inv {r} (publish t p h) v = publish-Inv r t p h v
  Step-Inv {r} (take_item h e) v = take_item-Inv r h e v
  Step-Inv {r} (release h) v = release-Inv r h v
  Step-Inv {r} (advance h) v = advance-Inv r h v

  pub Reach-Inv : {r s : Ring T} → Reach r s → Inv r → Inv s
  Reach-Inv here v = v
  Reach-Inv (later s t) v = Step-Inv t (Reach-Inv s v)

  Step-capacity : {r s : Ring T} → Step r s → s.capacity ≡ r.capacity
  Step-capacity (enter t x h) = refl
  Step-capacity (load t x h) = refl
  Step-capacity (match_free t x p h e) = refl
  Step-capacity (full t x p h e) = refl
  Step-capacity (again t x p h e) = refl
  Step-capacity (lose t x p h e) = refl
  Step-capacity (win t x p h e) = refl
  Step-capacity (write t x p h) = refl
  Step-capacity (publish t p h) = refl
  Step-capacity (take_item h e) = refl
  Step-capacity (release h) = refl
  Step-capacity (advance h) = refl

  pub Reach-capacity : {r s : Ring T} → Reach r s → s.capacity ≡ r.capacity
  Reach-capacity here = refl
  Reach-capacity (later s t) = Step-capacity t ∙ Reach-capacity s

  -- Whatever the interleaving of any number of producers with the consumer, what the consumer has read
  -- are the first of the items whose producers won a position, in the order in which they won, each
  -- once; it never reads memory that holds no item, and at most `capacity` won items are ahead of it.
  pub race_in_order :
      (capacity : ℕ) (r : Ring T)
      → 2 ≤ capacity
      → Reach (empty T capacity) r
      → (r.received ≡ first (length r.received) r.accepted)
        × (length r.received ≤ length r.accepted)
        × (length r.accepted ≤ length r.received + capacity)
  unfolding empty
  race_in_order capacity r h s =
      let v = Reach-Inv s (empty-Inv capacity h) in
      let size : r.capacity ≡ capacity = Reach-capacity s in
      let read : length r.received ≡ got_of r.consumer r.consumer_index =
        ap length v.in_order ∙ length-first _ r.accepted (omega (arith, v.got, v.counted)) in
      (
        v.in_order ∙ ap (λ n. first n r.accepted) (sym read),
        omega (arith, read, v.got, v.counted),
        omega (arith, read, v.counted, v.ahead, size, head_got r.consumer r.consumer_index),
      )
