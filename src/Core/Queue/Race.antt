-- ===== src/Core/Queue/Race.antt =====
-- dignus-actor-core/src/queues/mpsc_bounded_queue.rs: the ring under any number of producers and one
-- consumer, interleaved at each access to shared memory. Slots are given by their index.
pub mod Slots
pub mod Moves
pub mod Producing
pub mod Consuming
pub mod Handoff
pub mod Sharing
mod Tests
use dignus_actor_server_rust.Common.{
  put, ℕ, ◌+◌, ◌%◌, ◌<◌, ◌≤◌, ◌≡◌, ◌≢◌, Option, none, some, List, [], ◌∷◌, ◌++◌, ◌==◌,
  if◌then◌else◌,
}

-- A thread in `try_enqueue`: not in it, before the load of `producer_index`, behind it, behind the
-- test of the slot's sequence, behind the exchange that it won, and behind the write of the item.
pub data Producer (T : Type 0) : Type 0 where
  outside : Producer T
  entered : T → Producer T
  loaded matched claimed : T → ℕ → Producer T
  written : ℕ → Producer T

-- The consumer in `try_dequeue`: before it has seen an item, behind the read of it, and behind the
-- store of the slot's sequence.
pub data Consumer : Type 0 where
  resting taking released : Consumer

-- `accepted`, `received` and `owner` are for the statements: the items in the order in which their
-- producers won positions, what the consumer read, and who won a position. `none` is memory that
-- holds no item.
pub record Ring (T : Type 0) : Type 0 where
  pub capacity : ℕ
  pub sequence : ℕ → ℕ
  pub item : ℕ → Option T
  pub producer_index : ℕ
  pub consumer_index : ℕ
  pub producer : ℕ → Producer T
  pub consumer : Consumer
  pub accepted : List T
  pub received : List (Option T)
  pub owner : ℕ → ℕ

-- A ring of `MpscBoundedQueue::new`, once the capacity is rounded up.
unfoldable pub empty : (T : Type 0) → ℕ → Ring T
empty T capacity = record {
  capacity = capacity;
  sequence = λ i. i;
  item = λ i. none;
  producer_index = 0;
  consumer_index = 0;
  producer = λ t. outside;
  consumer = resting;
  accepted = [];
  received = [];
  owner = λ p. 0;
}

module _ {T : Type 0} where
  abbrev pub slot : Ring T → ℕ → ℕ
  slot r p = p % r.capacity

  abbrev pub at : Ring T → ℕ → Producer T → Ring T
  at r t p = record r { producer = put r.producer t p }

  abbrev pub won : Ring T → ℕ → T → ℕ → Ring T
  won r t x p = record r {
    producer = put r.producer t (claimed x p);
    producer_index = p + 1;
    accepted = r.accepted ++ (x ∷ []);
    owner = put r.owner p t;
  }

  abbrev pub wrote : Ring T → ℕ → T → ℕ → Ring T
  wrote r t x p = record r {
    producer = put r.producer t (written p);
    item = put r.item (slot r p) (some x);
  }

  abbrev pub published : Ring T → ℕ → ℕ → Ring T
  published r t p = record r {
    producer = put r.producer t outside;
    sequence = put r.sequence (slot r p) (p + 1);
  }

  abbrev pub taken : Ring T → Ring T
  taken r = record r {
    consumer = taking;
    received = r.received ++ (r.item (slot r r.consumer_index) ∷ []);
    item = put r.item (slot r r.consumer_index) none;
  }

  abbrev pub let_go : Ring T → Ring T
  let_go r = record r {
    consumer = released;
    sequence = put r.sequence (slot r r.consumer_index) (r.consumer_index + r.capacity);
  }

  abbrev pub advanced : Ring T → Ring T
  advanced r = record r { consumer = resting; consumer_index = r.consumer_index + 1 }

  pub data Step (r : Ring T) : Ring T → Type 0 where
    enter : (t : ℕ) (x : T) → r.producer t ≡ outside → Step r (at r t (entered x))
    load : (t : ℕ) (x : T) → r.producer t ≡ entered x → Step r (at r t (loaded x r.producer_index))
    match_free :
        (t : ℕ) (x : T) (p : ℕ)
        → r.producer t ≡ loaded x p
        → r.sequence (slot r p) ≡ p
        → Step r (at r t (matched x p))
    full :
        (t : ℕ) (x : T) (p : ℕ)
        → r.producer t ≡ loaded x p
        → r.sequence (slot r p) < p
        → Step r (at r t outside)
    again :
        (t : ℕ) (x : T) (p : ℕ)
        → r.producer t ≡ loaded x p
        → p < r.sequence (slot r p)
        → Step r (at r t (entered x))
    lose :
        (t : ℕ) (x : T) (p : ℕ)
        → r.producer t ≡ matched x p
        → r.producer_index ≢ p
        → Step r (at r t (entered x))
    win :
        (t : ℕ) (x : T) (p : ℕ)
        → r.producer t ≡ matched x p
        → r.producer_index ≡ p
        → Step r (won r t x p)
    write : (t : ℕ) (x : T) (p : ℕ) → r.producer t ≡ claimed x p → Step r (wrote r t x p)
    publish : (t : ℕ) (p : ℕ) → r.producer t ≡ written p → Step r (published r t p)
    -- `try_dequeue`; where the sequence is another, it changes nothing
    take_item :
        r.consumer ≡ resting
        → r.sequence (slot r r.consumer_index) ≡ r.consumer_index + 1
        → Step r (taken r)
    release : r.consumer ≡ taking → Step r (let_go r)
    advance : r.consumer ≡ released → Step r (advanced r)

  pub data Reach (r : Ring T) : Ring T → Type 0 where
    here : Reach r r
    later : {s t : Ring T} → Reach r s → Step s t → Reach r t
