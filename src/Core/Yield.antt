-- ===== src/Core/Yield.antt =====
-- dignus-actor-core/src/dispatcher/actor_yield_task.rs, object_pool/actor_yield_task_pool.rs and
-- `enqueue_continuation` of dispatcher/actor_dispatcher.rs: the reused tasks that carry
-- continuations to one dispatcher, interleaved at each access to shared memory. A task is a number,
-- the place of its `Arc`; `C` is the type of `SendOrPostCallback`. Of the dispatcher's queue and its
-- worker's batch the model keeps the yield tasks, in the order in which the worker gets to them, or
-- never will once it has exited; the queue itself is that of Core/Dispatcher.
pub mod Tasks
pub mod Moves
pub mod Posting
pub mod Order
mod Tests
use dignus_actor_server_rust.Common.{
  ℕ, ◌+◌, ◌≡◌, Bool, true, false, Option, none, some, List, [], ◌∷◌, ◌++◌, length, put,
}

-- A thread in `enqueue_continuation`: it has a task from the pool, it has set the callback, and
-- `schedule` has seen that the dispatcher is not stopped.
pub data Poster (C : Type 0) : Type 0 where
  outside : Poster C
  popped filled admitted : C → ℕ → Poster C

-- The dispatcher's thread: in its wait or before a test of `is_stopped`, which stands before the first
-- task of all and behind each; behind such a test, before the next task; in `execute`, where it has
-- taken what the task held, the callback has returned, and `recycle` has emptied the task; or it has
-- seen the stop and left its loops.
pub data Worker (C : Type 0) : Type 0 where
  idle ready exited : Worker C
  took : Option C → ℕ → Worker C
  called emptied : ℕ → Worker C

-- Who has a task: nobody yet, the pool at some depth, a thread, the queue as its n-th task ever, the
-- worker; `schedule` drops the task of a dispatcher that is stopped.
pub data Place : Type 0 where
  unborn working dropped : Place
  pooled posting queued : ℕ → Place

-- The top of the vector `inner_pool` is the head of `pool`. `served`, `place`, `accepted` and
-- `executed` are for the statements: how many tasks the worker took, where each task is, and which
-- continuations were pushed and called, in order.
pub record Yield (C : Type 0) : Type 0 where
  pub callback : ℕ → Option C
  pub pool : List ℕ
  pub created : ℕ
  pub poster : ℕ → Poster C
  pub scheduled : List ℕ
  pub is_stopped : Bool
  pub worker : Worker C
  pub served : ℕ
  pub place : ℕ → Place
  pub accepted : List C
  pub executed : List C

unfoldable pub new : (C : Type 0) → Yield C
new C = record {
  callback = λ t. none;
  pool = [];
  created = 0;
  poster = λ u. outside;
  scheduled = [];
  is_stopped = false;
  worker = idle;
  served = 0;
  place = λ t. unborn;
  accepted = [];
  executed = [];
}

module _ {C : Type 0} where
  -- `pop` finds the pool empty and makes a task.
  abbrev pub pop_new : Yield C → ℕ → C → Yield C
  pop_new s u c = record s {
    callback = put s.callback s.created none;
    created = s.created + 1;
    poster = put s.poster u (popped c s.created);
    place = put s.place s.created (posting u);
  }

  abbrev pub pop_pooled : Yield C → ℕ → C → ℕ → List ℕ → Yield C
  pop_pooled s u c t rest = record s {
    pool = rest;
    poster = put s.poster u (popped c t);
    place = put s.place t (posting u);
  }

  abbrev pub set : Yield C → ℕ → C → ℕ → Yield C
  set s u c t = record s {
    callback = put s.callback t (some c);
    poster = put s.poster u (filled c t);
  }

  abbrev pub admit : Yield C → ℕ → C → ℕ → Yield C
  admit s u c t = record s { poster = put s.poster u (admitted c t) }

  abbrev pub refuse : Yield C → ℕ → ℕ → Yield C
  refuse s u t = record s { poster = put s.poster u outside; place = put s.place t dropped }

  abbrev pub push_task : Yield C → ℕ → C → ℕ → Yield C
  push_task s u c t = record s {
    poster = put s.poster u outside;
    scheduled = s.scheduled ++ (t ∷ []);
    place = put s.place t (queued (s.served + length s.scheduled));
    accepted = s.accepted ++ (c ∷ []);
  }

  -- The worker comes to the next task and takes its callback.
  abbrev pub take_callback : Yield C → ℕ → List ℕ → Yield C
  take_callback s t rest = record s {
    callback = put s.callback t none;
    scheduled = rest;
    worker = took (s.callback t) t;
    served = s.served + 1;
    place = put s.place t working;
  }

  abbrev pub call : Yield C → C → ℕ → Yield C
  call s c t = record s { worker = called t; executed = s.executed ++ (c ∷ []) }

  abbrev pub recycle : Yield C → ℕ → Yield C
  recycle s t = record s { callback = put s.callback t none; worker = emptied t }

  abbrev pub give_back : Yield C → ℕ → Yield C
  give_back s t = record s {
    pool = t ∷ s.pool;
    worker = idle;
    place = put s.place t (pooled (length s.pool));
  }

  pub data Step (s : Yield C) : Yield C → Type 0 where
    pops_new : (u : ℕ) (c : C) → s.poster u ≡ outside → s.pool ≡ [] → Step s (pop_new s u c)
    pops_pooled :
        (u : ℕ) (c : C) (t : ℕ) (rest : List ℕ)
        → s.poster u ≡ outside
        → s.pool ≡ t ∷ rest
        → Step s (pop_pooled s u c t rest)
    sets : (u : ℕ) (c : C) (t : ℕ) → s.poster u ≡ popped c t → Step s (set s u c t)
    admits :
        (u : ℕ) (c : C) (t : ℕ)
        → s.poster u ≡ filled c t
        → s.is_stopped ≡ false
        → Step s (admit s u c t)
    refuses :
        (u : ℕ) (c : C) (t : ℕ)
        → s.poster u ≡ filled c t
        → s.is_stopped ≡ true
        → Step s (refuse s u t)
    pushes : (u : ℕ) (c : C) (t : ℕ) → s.poster u ≡ admitted c t → Step s (push_task s u c t)
    stops : Step s (record s { is_stopped = true })
    goes_on : s.worker ≡ idle → s.is_stopped ≡ false → Step s (record s { worker = ready })
    exits : s.worker ≡ idle → s.is_stopped ≡ true → Step s (record s { worker = exited })
    -- an actor's turn in the batch, or nothing left to do
    passes : s.worker ≡ ready → Step s (record s { worker = idle })
    takes :
        (t : ℕ) (rest : List ℕ)
        → s.worker ≡ ready
        → s.scheduled ≡ t ∷ rest
        → Step s (take_callback s t rest)
    calls : (c : C) (t : ℕ) → s.worker ≡ took (some c) t → Step s (call s c t)
    finds_nothing : (t : ℕ) → s.worker ≡ took none t → Step s (record s { worker = called t })
    recycles : (t : ℕ) → s.worker ≡ called t → Step s (recycle s t)
    gives_back : (t : ℕ) → s.worker ≡ emptied t → Step s (give_back s t)

pub data Reach {C : Type 0} : Yield C → Type 0 where
  start : Reach (new C)
  later : {s s' : Yield C} → Reach s → Step s s' → Reach s'
