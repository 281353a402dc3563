-- ===== src/Core/Ask.antt =====
-- dignus-actor-core/src/internals/ask_awaiter.rs, ask_reply_actor_ref.rs and ask_system.rs: the
-- answer to a question, and its timeout. `M` is the type of messages, `W` of wakers. Awaiters are
-- known by a number, under which the store holds those that somebody still holds strongly; times are
-- numbers. A round of the sweeper runs whole; the pause behind it is in Ask/Pause.
pub mod Answers
pub mod Sweeps
pub mod Slots
pub mod Pause
mod Tests
use dignus_actor_server_rust.Common.{
  ℕ, ◌+◌, ◌-◌, ◌%◌, min, Bool, true, false, Option, none, some, List, [], ◌∷◌, ◌++◌, set, lookup,
  modify, insert, leb, length, replicate, if◌then◌else◌,
}

pub data AskError : Type 0 where
  timeout response_type_mismatch : AskError

pub record AskAwaiterState (M W : Type 0) : Type 0 where
  pub response : Option M
  pub completed : Bool
  pub timed_out : Bool
  pub waker : Option W

module _ {M W : Type 0} where
  unfoldable pub new : AskAwaiterState M W
  new = record { response = none; completed = false; timed_out = false; waker = none }

  -- The state, and the waker that is woken.
  unfoldable pub complete : AskAwaiterState M W → Option M → Bool → AskAwaiterState M W × Option W
  complete state response timed_out = if state.completed then (state, none) else (
    record { response = response; completed = true; timed_out = timed_out; waker = none },
    state.waker,
  )

  unfoldable pub set_response : AskAwaiterState M W → M → AskAwaiterState M W × Option W
  unfolding complete
  set_response state message = complete state (some message) false

  unfoldable pub set_timeout : AskAwaiterState M W → AskAwaiterState M W × Option W
  unfolding complete
  set_timeout state = complete state none true

-- What a poll gives; `consumed` is the panic of a poll after the answer was taken.
pub data Polled (R : Type 0) : Type 0 where
  pending consumed : Polled R
  ready : R → Polled R
  refused : AskError → Polled R

-- `will_wake` and `downcast` are the standard library's.
module _ {M W R : Type 0} (will_wake : W → W → Bool) (downcast : M → Option R) where
  abbrev pub downcasted : Option R → Polled R
  downcasted none = refused response_type_mismatch
  downcasted (some response) = ready response

  unfoldable pub replace_waker : Option W → W → W
  replace_waker none context = context
  replace_waker (some current) context = if will_wake current context then current else context

  unfoldable pub take_response : AskAwaiterState M W → Option M → AskAwaiterState M W × Polled R
  take_response state none = (state, consumed)
  take_response state (some response) =
      (record state { response = none }, downcasted (downcast response))

  unfoldable pub poll : AskAwaiterState M W → W → AskAwaiterState M W × Polled R
  unfolding replace_waker take_response
  poll state context =
      if state.completed
      then (if state.timed_out
          then (state, refused timeout)
          else take_response state state.response)
      else (record state { waker = some (replace_waker state.waker context) }, pending)

pub record AskSlot : Type 0 where
  pub ask_awaiter : ℕ
  pub deadline : ℕ

module _ (M W : Type 0) where
  pub record AskSystem : Type 0 where
    pub slots : List (Option AskSlot)
    pub slot_count : ℕ
    pub is_stopped : Bool
    pub awaiters : List (ℕ × AskAwaiterState M W)

  -- `set_timeout` through a weak reference.
  unfoldable pub time_out_state :
      ℕ
      → Option (AskAwaiterState M W)
      → List (ℕ × AskAwaiterState M W)
      → List (ℕ × AskAwaiterState M W)
  unfolding set_timeout
  time_out_state id none awaiters = awaiters
  time_out_state id (some state) awaiters = modify id (set_timeout state).0 awaiters

  abbrev pub time_out : ℕ → List (ℕ × AskAwaiterState M W) → List (ℕ × AskAwaiterState M W)
  time_out id awaiters = time_out_state id (lookup id awaiters) awaiters

  -- The answer of a `AskReplyActorRef`, through its weak reference.
  unfoldable pub answer_state :
      ℕ
      → M
      → Option (AskAwaiterState M W)
      → List (ℕ × AskAwaiterState M W)
      → List (ℕ × AskAwaiterState M W)
  unfolding set_response
  answer_state id message none awaiters = awaiters
  answer_state id message (some state) awaiters = modify id (set_response state message).0 awaiters

  abbrev pub post : AskSystem → ℕ → M → AskSystem
  post s id message = record s {
    awaiters = answer_state id message (lookup id s.awaiters) s.awaiters;
  }

  -- `reserve_slot` at the index that the awaiter's address gives; `none` is the panic of a system
  -- that was stopped. `address` is the address shifted by 5 bits, and the mask a power of two less
  -- one.
  unfoldable pub register : AskSystem → (id address now wait : ℕ) → Option AskSystem
  register s id address now wait =
      if s.is_stopped
      then none
      else some (record s {
        awaiters = insert id new s.awaiters;
        slots =
            set s.slots (address % s.slot_count)
              (some (record { ask_awaiter = id; deadline = now + wait }));
      })

  -- Whether the sweep takes an entry out of its slot.
  unfoldable pub should_remove : ℕ → List (ℕ × AskAwaiterState M W) → AskSlot → Bool
  should_remove now awaiters entry =
      if leb entry.deadline now
      then true
      else elim (lookup entry.ask_awaiter awaiters) [ none ↦ true | some state ↦ false ]

  -- The slots behind a sweep, and the awaiters that it times out, in order.
  unfoldable pub swept :
      ℕ → List (ℕ × AskAwaiterState M W) → List (Option AskSlot) → List (Option AskSlot)
  unfolding should_remove
  swept now awaiters [] = []
  swept now awaiters (none ∷ slots) = none ∷ swept now awaiters slots
  swept now awaiters (some entry ∷ slots) =
      let rest = swept now awaiters slots in
      if should_remove now awaiters entry then none ∷ rest else some entry ∷ rest

  unfoldable pub expired : ℕ → List (ℕ × AskAwaiterState M W) → List (Option AskSlot) → List ℕ
  unfolding should_remove
  expired now awaiters [] = []
  expired now awaiters (none ∷ slots) = expired now awaiters slots
  expired now awaiters (some entry ∷ slots) =
      let rest = expired now awaiters slots in
      if should_remove now awaiters entry then entry.ask_awaiter ∷ rest else rest

  unfoldable pub time_out_all :
      List ℕ → List (ℕ × AskAwaiterState M W) → List (ℕ × AskAwaiterState M W)
  time_out_all [] awaiters = awaiters
  time_out_all (id ∷ ids) awaiters = time_out_all ids (time_out id awaiters)

  -- One round of `run_sweeper`.
  unfoldable pub sweep : AskSystem → ℕ → AskSystem
  unfolding swept expired time_out_all
  sweep s now = if s.is_stopped then s else record s {
    slots = swept now s.awaiters s.slots;
    awaiters = time_out_all (expired now s.awaiters s.slots) s.awaiters;
  }

  unfoldable pub entries : List (Option AskSlot) → List ℕ
  entries [] = []
  entries (none ∷ slots) = entries slots
  entries (some entry ∷ slots) = entry.ask_awaiter ∷ entries slots

  -- `stop`, behind the join of the sweeper.
  unfoldable pub stop : AskSystem → AskSystem
  unfolding entries time_out_all
  stop s = if s.is_stopped then s else record s {
    is_stopped = true;
    slots = replicate (length s.slots) none;
    awaiters = time_out_all (entries s.slots) s.awaiters;
  }
