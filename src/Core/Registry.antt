-- ===== src/Core/Registry.antt =====
-- dignus-actor-core/src/internals/registry.rs: the table of actors. A handle is an index and a
-- generation, which is odd while the slot is taken and even while it is free. `R` is the type of
-- `Arc<ActorRunner>`. The methods run under the mutex `alloc`, and are atomic but for `post` and
-- `kill`, which read a slot twice; a panic under the mutex poisons it.
pub mod Invariant
pub mod Removal
pub mod Handles
pub mod Removing
pub mod Snapshot
pub mod History
pub mod Gone
mod Tests
use dignus_actor_server_rust.Common.{
  ℕ, suc, ◌+◌, ◌-◌, ◌%◌, ◌^◌, min, max, Bool, true, false, ◌&&◌, Option, none, some, List, [], ◌∷◌,
  length, get_or, set, replicate, ◌==◌, leb, if◌then◌else◌, cons?, not,
}
use dignus_actor_server_rust.Core.Outcome.{Outcome, returned, panicked}

abbrev pub u32_mod : ℕ
u32_mod = 2 ^ 32

abbrev pub wrapping_add_one : ℕ → ℕ
wrapping_add_one g = (g + 1) % u32_mod

module _ (R : Type 0) where
  pub record Slot : Type 0 where
    pub generation : ℕ
    pub owner : Option R

  -- `AllocState` stands in the registry itself, with its mutex's poison flag. The top of the vector
  -- `free` is the head of the list.
  pub record ActorRegistry : Type 0 where
    pub slots : List Slot
    pub capacity : ℕ
    pub free : List ℕ
    pub next_unused : ℕ
    pub live : ℕ
    pub poisoned : Bool

  abbrev pub empty_slot : Slot
  empty_slot = record { generation = 0; owner = none }

  abbrev pub slot_at : ActorRegistry → ℕ → Slot
  slot_at r index = get_or r.slots index empty_slot

  unfoldable pub with_capacity : ℕ → ActorRegistry
  with_capacity requested =
      let capacity = min (max requested 1) (u32_mod - 2) in
      record {
        slots = replicate capacity empty_slot;
        capacity = capacity;
        free = [];
        next_unused = 0;
        live = 0;
        poisoned = false;
      }

  -- The second half of `reserve`, at the index that was found.
  unfoldable pub take_slot : ActorRegistry → ℕ → ActorRegistry × ℕ
  take_slot r index =
      let generation = wrapping_add_one (slot_at r index).generation in
      (
        record r {
          slots = set r.slots index (record (slot_at r index) { generation = generation });
          live = r.live + 1;
        },
        generation,
      )

  unfoldable pub reserve_from : ActorRegistry → List ℕ → Outcome ActorRegistry (ℕ × ℕ)
  unfolding take_slot
  reserve_from r (index ∷ rest) =
      let (r', generation) = take_slot (record r { free = rest }) index in
      returned (index, generation) r'
  reserve_from r [] =
      if leb r.capacity r.next_unused
      then panicked (record r { poisoned = true })
      else (let (r', generation) =
            take_slot (record r { next_unused = r.next_unused + 1 }) r.next_unused in
          returned (r.next_unused, generation) r')

  unfoldable pub reserve : ActorRegistry → Outcome ActorRegistry (ℕ × ℕ)
  unfolding reserve_from
  reserve r = if r.poisoned then panicked r else reserve_from r r.free

  unfoldable pub commit : ActorRegistry → ℕ → R → ActorRegistry
  commit r index runner = record r {
    slots = set r.slots index (record (slot_at r index) { owner = some runner });
  }

  -- The runner that `post` and `kill` act on. The generation is read twice, before the slot's lock
  -- is taken, in the state `early`, and under it, in the state `r`.
  unfoldable pub target : (early r : ActorRegistry) → ℕ → ℕ → Option R
  target early r index generation =
      if leb r.capacity index
      then none
      else if not ((slot_at early index).generation == generation)
      then none
      else if not ((slot_at r index).generation == generation)
      then none
      else (slot_at r index).owner

  -- The slot's owner was taken out: its index is free again, if there was an owner.
  unfoldable pub release : ActorRegistry → ℕ → Option R → ActorRegistry
  release r index none = r
  release r index (some runner) = record r { free = index ∷ r.free; live = r.live - 1 }

  unfoldable pub remove : ActorRegistry → ℕ → ℕ → Outcome ActorRegistry (Option R)
  unfolding release
  remove r index generation =
      if r.poisoned
      then panicked r
      else if leb r.capacity index
      then returned none r
      else if not ((slot_at r index).generation == generation)
      then returned none r
      else returned (slot_at r index).owner (
          release
            (record r {
              slots =
                  set r.slots index
                    (record { generation = wrapping_add_one generation; owner = none });
            })
            index (slot_at r index).owner)

  unfoldable pub owners : List Slot → ℕ → List R
  owners [] n = []
  owners (s ∷ ss) ℕ.zero = []
  owners (s ∷ ss) (suc n) = cons? s.owner (owners ss n)

  unfoldable pub snapshot_live : ActorRegistry → Outcome ActorRegistry (List R)
  unfolding owners
  snapshot_live r = if r.poisoned then panicked r else returned (owners r.slots r.next_unused) r

  unfoldable pub live_count : ActorRegistry → Outcome ActorRegistry ℕ
  live_count r = if r.poisoned then panicked r else returned r.live r
