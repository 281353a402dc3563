-- ===== src/Core/Yield/Moves.antt =====
-- A step that moves one task leaves the others where they are.
use dignus_actor_server_rust.Common.{ℕ, ◌<◌, ◌≤◌, ◌≡◌, ◌≢◌, Option, List, ◌++◌, length, subst}
use dignus_actor_server_rust.Core.Yield.{
  Yield, Poster, Worker, Place, unborn, working, pooled, posting, queued,
}
use dignus_actor_server_rust.Core.Yield.Tasks.{
  Agree, Pooled, Queued, held, Fine, Working, hand, Inv, stays, Pooled-rest, Queued-rest, Fine-rest,
  Working-rest,
}

pub posting_ne : (u k : ℕ) → u ≢ k → posting u ≢ posting k
posting_ne u k ne e = ne (cc e)

module _ {C : Type 0} where
  -- What a thread's place says of it.
  pub poster_at :
      (s : Yield C) → Inv s → (u : ℕ) (p : Poster C) → s.poster u ≡ p → Fine s.place s.callback u p
  poster_at s v u p e = subst (Fine s.place s.callback u) e (v.with_poster u)

  pub worker_at : (s : Yield C) → Inv s → (w : Worker C) → s.worker ≡ w → Working s.place w
  worker_at s v w e = subst (Working s.place) e v.with_worker

  pub ordered_at :
      (s : Yield C)
      → Inv s
      → (w : Worker C) → s.worker ≡ w
      → s.executed ++ (hand w ++ held s.callback s.scheduled) ≡ s.accepted
  ordered_at s v w e =
      subst (λ w. s.executed ++ (hand w ++ held s.callback s.scheduled) ≡ s.accepted) e v.in_order

  -- A step that moves one task, or changes what it holds.
  pub record Move (s : Yield C) (place' : ℕ → Place) (callback' : ℕ → Option C) : Type 0 where
    pub task : ℕ
    pub from : Place
    pub at_from : s.place task ≡ from
    pub places : Agree task s.place place'
    pub callbacks : Agree task s.callback callback'

  module _ (s : Yield C) (v : Inv s) {place' : ℕ → Place} {callback' : ℕ → Option C} where
    pub pool_kept :
        (m : Move s place' callback') (ts : List ℕ)
        → ((n : ℕ) → n < length ts → m.from ≢ pooled n)
        → Pooled s.place ts
        → Pooled place' ts
    pool_kept m ts =
        Pooled-rest s.place place' s.callback callback' m.task m.from m.at_from m.places m.callbacks
          ts

    pub queue_kept :
        (m : Move s place' callback') (n : ℕ) (ts : List ℕ)
        → ((k : ℕ) → n ≤ k → m.from ≢ queued k)
        → Queued s.place s.callback n ts
        → Queued place' callback' n ts × (held callback' ts ≡ held s.callback ts)
    queue_kept m n ts =
        Queued-rest s.place place' s.callback callback' m.task m.from m.at_from m.places m.callbacks
          ts n

    pub posters_kept :
        (m : Move s place' callback') (u : ℕ)
        → m.from ≢ posting u
        → Fine place' callback' u (s.poster u)
    posters_kept m u ne =
        Fine-rest s.place place' s.callback callback' m.task m.from m.at_from m.places m.callbacks u
          (s.poster u) ne (v.with_poster u)

    pub worker_kept : (m : Move s place' callback') → m.from ≢ working → Working place' s.worker
    worker_kept m ne =
        Working-rest s.place place' s.callback callback' m.task m.from m.at_from m.places
          m.callbacks s.worker ne v.with_worker

    pub unborn_kept :
        (m : Move s place' callback')
        → m.from ≢ unborn
        → (k : ℕ) → s.created ≤ k
        → place' k ≡ unborn
    unborn_kept m ne k h =
        stays s.place place' s.callback callback' m.task m.from m.at_from m.places m.callbacks k
          unborn ne (v.none_yet k h)
