-- ===== src/Core/Queue.antt =====
-- dignus-actor-core/src/queues/mpsc_bounded_queue.rs: the bounded ring of an actor's mailbox, each
-- operation taken whole. A slot's sequence number says whose turn it is: `p` for the producer of
-- position `p`, `p + 1` for its consumer. Positions count up and are taken to stay below 2^63.
pub mod Capacity
pub mod Modulo
pub mod Fifo
pub mod Refine
pub mod Race
mod Tests
use dignus_actor_server_rust.Common.{
  ℕ, zero, suc, ◌+◌, ◌-◌, ◌*◌, ◌%◌, ◌^◌, Bool, true, false, Option, none, some, List, [], ◌∷◌,
  length, get_or, set, ltb, leb, ◌==◌, if◌then◌else◌, cons?,
}

abbrev pub usize_mod : ℕ
usize_mod = 2 ^ 64

-- `checked_mul(2)`
unfoldable pub checked_double : ℕ → Option ℕ
checked_double n = if ltb (n * 2) usize_mod then some (n * 2) else none

-- The loop of `normalize_to_power_of_two`, with fuel for its rounds; `none` is the panic of
-- `expect` on overflow, or the end of the fuel.
unfoldable pub normalize_loop : ℕ → ℕ → ℕ → Option ℕ
unfolding checked_double
normalize_loop zero capacity n = none
normalize_loop (suc fuel) capacity n =
    if ltb n capacity
    then (elim (checked_double n) [
      | none ↦ none
      | some doubled ↦ normalize_loop fuel capacity doubled
    ])
    else some n

unfoldable pub normalize_to_power_of_two : ℕ → Option ℕ
normalize_to_power_of_two capacity = normalize_loop 66 capacity 1

module _ (T : Type 0) where
  -- `data` is the slot's memory; `none` is memory that holds no item.
  pub record Slot : Type 0 where
    pub sequence : ℕ
    pub item : Option T

  pub record MpscBoundedQueue : Type 0 where
    pub buffer : List Slot
    pub capacity : ℕ
    pub producer_index : ℕ
    pub consumer_index : ℕ

  abbrev pub no_slot : Slot
  no_slot = record { sequence = 0; item = none }

  -- `position as usize & self.index_mask`, where the mask is a power of two less one.
  abbrev pub slot_index : MpscBoundedQueue → ℕ → ℕ
  slot_index q position = position % q.capacity

  abbrev pub slot_at : MpscBoundedQueue → ℕ → Slot
  slot_at q position = get_or q.buffer (slot_index q position) no_slot

  unfoldable pub fresh_slots : ℕ → ℕ → List Slot
  fresh_slots first zero = []
  fresh_slots first (suc n) = record { sequence = first; item = none } ∷ fresh_slots (suc first) n

  -- `none` is a panic: a capacity below 2, or one that cannot be rounded up.
  unfoldable pub new : ℕ → Option MpscBoundedQueue
  unfolding fresh_slots normalize_to_power_of_two
  new requested = if ltb requested 2 then none else elim (normalize_to_power_of_two requested) [
    | none ↦ none
    | some capacity ↦ some (record {
      buffer = fresh_slots 0 capacity;
      capacity = capacity;
      producer_index = 0;
      consumer_index = 0;
    })
  ]

  -- One round of the loop of `try_enqueue`.
  pub data Attempt : Type 0 where
    enqueued : MpscBoundedQueue → Attempt
    full again : Attempt

  unfoldable pub try_enqueue : MpscBoundedQueue → T → Attempt
  try_enqueue q x =
      let position = q.producer_index in
      if (slot_at q position).sequence == position
      then enqueued (record q {
        producer_index = position + 1;
        buffer =
            set q.buffer (slot_index q position)
              (record { sequence = position + 1; item = some x });
      })
      else if ltb (slot_at q position).sequence position
      then full
      else again

  unfoldable pub try_peek : MpscBoundedQueue → Bool
  try_peek q = (slot_at q q.consumer_index).sequence == q.consumer_index + 1

  unfoldable pub try_dequeue : MpscBoundedQueue → Option T × MpscBoundedQueue
  unfolding try_peek
  try_dequeue q =
      let position = q.consumer_index in
      if (slot_at q position).sequence == position + 1
      then (
        (slot_at q position).item,
        record q {
          consumer_index = position + 1;
          buffer =
              set q.buffer (slot_index q position)
                (record { sequence = position + q.capacity; item = none });
        },
      )
      else (none, q)
