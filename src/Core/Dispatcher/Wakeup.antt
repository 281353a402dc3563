-- ===== src/Core/Dispatcher/Wakeup.antt =====
-- No wakeup is lost, and the worker runs what was scheduled in order, each once.
use dignus_actor_server_rust.Common.{
  ◌<◌, ◌≡◌, ◌≢◌, refl, sym, ap, ap₂, Bool-cases, ◌∙◌, ◌⊎◌, inl, inr, Bool, true, false, List, [],
  ◌∷◌, ◌++◌, arith, append-nil, append_assoc,
}
use dignus_actor_server_rust.Core.Dispatcher.{
  Worker, waiting, woken, resetting, draining, executing, ran_one, exited, Dispatcher, new, Step,
  admit, refuse, push, win, lose, release, stop, release_stop, wake, woken_stopped, woken_live,
  reset, drain_empty, drain_batch, execute, batch_done, ran_stopped, ran_live, checked_stopped,
  checked_live, Reach, start, later,
}

-- The worker will look at the queue before it waits again.
abbrev will_drain : Worker → Bool
will_drain woken = true
will_drain resetting = true
will_drain draining = true
will_drain executing = true
will_drain ran_one = true
will_drain _ = false

-- The worker has yet to reset `signal_pending`.
abbrev will_reset : Worker → Bool
will_reset woken = true
will_reset resetting = true
will_reset _ = false

-- A batch is at hand.
abbrev has_batch : Worker → Bool
has_batch executing = true
has_batch ran_one = true
has_batch _ = false

-- While the dispatcher is not stopped: a queue with something in it, and a flag that is up, have
-- somebody who will see to them.
pub record Inv {A : Type 0} (d : Dispatcher A) : Type 0 where
  pub seen :
      (d.scheduled_actors ≡ [])
      ⊎ ((0 < d.pushed)
          ⊎ ((0 < d.releasing) ⊎ ((d.signaled ≡ true) ⊎ (will_drain d.worker ≡ true))))
  pub raised :
      (d.signal_pending ≡ false)
      ⊎ ((0 < d.releasing) ⊎ ((d.signaled ≡ true) ⊎ (will_reset d.worker ≡ true)))
  pub idle : (d.batch ≡ []) ⊎ (has_batch d.worker ≡ true)
  pub ordered : d.executed ++ (d.batch ++ d.scheduled_actors) ≡ d.history
  pub running : d.worker ≢ exited

abbrev pub Live : {A : Type 0} → Dispatcher A → Type 0
Live d = (d.is_stopped ≡ true) ⊎ Inv d

Inv-new : (A : Type 0) → Inv (new A)
unfolding new
Inv-new A = record {
  seen = inl refl;
  raised = inl refl;
  idle = inl refl;
  ordered = refl;
  running = ground arith;
}

module _ {A : Type 0} where
  ordered_push :
      (d : Dispatcher A) (a : A)
      → d.executed ++ (d.batch ++ d.scheduled_actors) ≡ d.history
      → d.executed ++ (d.batch ++ (d.scheduled_actors ++ (a ∷ []))) ≡ d.history ++ (a ∷ [])
  ordered_push d a h =
      ap (λ l. d.executed ++ l) (sym (append_assoc d.batch d.scheduled_actors (a ∷ [])))
      ∙ sym (append_assoc d.executed (d.batch ++ d.scheduled_actors) (a ∷ []))
      ∙ ap (λ l. l ++ (a ∷ [])) h

  ordered_batch :
      (d : Dispatcher A)
      → d.batch ≡ []
      → d.executed ++ (d.batch ++ d.scheduled_actors) ≡ d.history
      → d.executed ++ (d.scheduled_actors ++ []) ≡ d.history
  ordered_batch d e h =
      ap (λ l. d.executed ++ l)
        (append-nil d.scheduled_actors ∙ ap (λ b. b ++ d.scheduled_actors) (sym e))
      ∙ h

  ordered_execute :
      (d : Dispatcher A) (a : A) (rest : List A)
      → d.batch ≡ a ∷ rest
      → d.executed ++ (d.batch ++ d.scheduled_actors) ≡ d.history
      → (d.executed ++ (a ∷ [])) ++ (rest ++ d.scheduled_actors) ≡ d.history
  ordered_execute d a rest e h =
      append_assoc d.executed (a ∷ []) (rest ++ d.scheduled_actors)
      ∙ ap (λ b. d.executed ++ (b ++ d.scheduled_actors)) (sym e)
      ∙ h

  Step-Inv : {d e : Dispatcher A} → Step d e → e.is_stopped ≡ false → Inv d → Inv e
  Step-Inv (admit h) s v = ground arith
  Step-Inv (refuse h) s v = v
  Step-Inv {d} (push a h) s v = record {
    seen = ground arith;
    raised = v.raised;
    idle = v.idle;
    ordered = ordered_push d a v.ordered;
    running = v.running;
  }
  Step-Inv (win h p) s v = ground arith
  Step-Inv (lose h p) s v = ground arith
  Step-Inv (release h) s v = ground arith
  Step-Inv stop s v = cc
  Step-Inv (release_stop h) s v = ground arith
  Step-Inv (wake h p) s v = ground arith
  Step-Inv (woken_stopped h p) s v = ground arith
  Step-Inv (woken_live h p) s v = ground arith
  Step-Inv (reset h) s v = ground arith
  Step-Inv (drain_empty h p) s v = ground arith
  Step-Inv {d} (drain_batch h p) s v =
      let none_left : d.batch ≡ [] = ground arith in
      record {
        seen = inl refl;
        raised = ground arith;
        idle = inr refl;
        ordered = ordered_batch d none_left v.ordered;
        running = ground arith;
      }
  Step-Inv {d} (execute {a} {rest} h p) s v = record {
    seen = ground arith;
    raised = ground arith;
    idle = inr refl;
    ordered = ordered_execute d a rest p v.ordered;
    running = ground arith;
  }
  Step-Inv (batch_done h p) s v = ground arith
  Step-Inv (ran_stopped h p) s v = ground arith
  Step-Inv (ran_live h p) s v = ground arith
  Step-Inv (checked_stopped h p) s v = ground arith
  Step-Inv (checked_live h p) s v = ground arith

  Step-stopped : {d e : Dispatcher A} → Step d e → d.is_stopped ≡ true → e.is_stopped ≡ true
  Step-stopped (admit h) s = s
  Step-stopped stop s = refl
  Step-stopped _ s = s

  Step-Live : {d e : Dispatcher A} → Step d e → Live d → Live e
  Step-Live t (inl s) = inl (Step-stopped t s)
  Step-Live {e = e} t (inr v) = elim (Bool-cases e.is_stopped) [
    | inl s ↦ inl s
    | inr s ↦ inr (Step-Inv t s v)
  ]

  pub Reach-Live : {d : Dispatcher A} → Reach d → Live d
  Reach-Live start = inr (Inv-new A)
  Reach-Live (later r t) = Step-Live t (Reach-Live r)

  -- No wakeup is lost: in every interleaving, when the worker waits with its signal down, no thread
  -- is on its way to raise it, and the dispatcher was not stopped, then the queue is empty and all
  -- that was ever scheduled has been run, in the order in which it was pushed, each once.
  pub asleep_means_done :
      (d : Dispatcher A)
      → Reach d
      → d.is_stopped ≡ false
      → d.worker ≡ waiting
      → d.signaled ≡ false
      → d.pushed ≡ 0
      → d.releasing ≡ 0
      → (d.scheduled_actors ≡ []) × (d.executed ≡ d.history)
  asleep_means_done d r live w s p q = elim (Reach-Live r) [
    | inl stopped ↦ cc
    | inr v ↦
        let none_scheduled : d.scheduled_actors ≡ [] = ground arith in
        let none_left : d.batch ≡ [] = ground arith in
        (
          none_scheduled,
          sym (append-nil d.executed)
              ∙ ap₂ (λ b c. d.executed ++ (b ++ c)) (sym none_left) (sym none_scheduled)
              ∙ v.ordered,
        )
  ]

  -- What was run is at every moment a beginning of what was pushed, while the dispatcher is live, and
  -- the worker has not exited.
  pub executed_in_order :
      (d : Dispatcher A)
      → Reach d
      → d.is_stopped ≡ false
      → (d.worker ≢ exited) × ((rest : List A) × (d.executed ++ rest ≡ d.history))
  executed_in_order d r live = elim (Reach-Live r) [
    | inl stopped ↦ cc
    | inr v ↦ (v.running, (d.batch ++ d.scheduled_actors, v.ordered))
  ]
