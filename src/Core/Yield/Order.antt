-- ===== src/Core/Yield/Order.antt =====
-- No continuation is lost, called twice or overtaken, in the order in which `schedule` took them.
use dignus_actor_server_rust.Common.{
  ℕ, ◌+◌, ◌≡◌, ◌≢◌, refl, sym, ap, ◌∙◌, false, none, some, List, [], ◌∷◌, ◌++◌, length, arith, put,
  cons?, cons?-append, append_assoc, subst,
}
use dignus_actor_server_rust.Core.Yield.{
  Yield, Worker, idle, ready, exited, took, called, emptied, working, pooled, queued, Step, Reach,
  start, later, pops_new, pops_pooled, sets, admits, refuses, pushes, stops, goes_on, exits, passes,
  takes, calls, finds_nothing, recycles, gives_back, new, take_callback, call, recycle, give_back,
}
use dignus_actor_server_rust.Core.Yield.Tasks.{
  put-Agree, put_self, same-Agree, Queued, Working, held, hand, Inv, new-Inv,
}
use dignus_actor_server_rust.Core.Yield.Moves.{
  Move, pool_kept, queue_kept, posters_kept, unborn_kept, worker_at, ordered_at,
}
use dignus_actor_server_rust.Core.Yield.Posting.{
  admit-Inv, stop-Inv, pop_new-Inv, pop_pooled-Inv, set-Inv, refuse-Inv, push_task-Inv,
}

module _ {C : Type 0} where
  take_callback-Inv :
      (s : Yield C) (t : ℕ) (rest : List ℕ)
      → s.worker ≡ ready
      → s.scheduled ≡ t ∷ rest
      → Inv s
      → Inv (take_callback s t rest)
  take_callback-Inv s t rest free e v =
      let mine : Queued s.place s.callback s.served (t ∷ rest) =
        subst (Queued s.place s.callback s.served) e v.in_queue in
      let m : Move s (put s.place t working) (put s.callback t none) = record {
        task = t;
        from = queued s.served;
        at_from = mine.0;
        places = put-Agree s.place t working;
        callbacks = put-Agree s.callback t none;
      } in
      let (queue, same) =
        queue_kept s v m (s.served + 1) rest
          (λ k h q. let back : s.served ≡ k = cc q in absurd (omega (arith, back, h))) mine.2 in
      record {
        in_pool = pool_kept s v m s.pool (λ n h q. cc) v.in_pool;
        in_queue = queue;
        with_poster = λ u. posters_kept s v m u (λ q. cc);
        with_worker = (put_self s.place t working, mine.1);
        none_yet = unborn_kept s v m (λ q. cc);
        in_order =
            ap (λ l. s.executed ++ (cons? (s.callback t) [] ++ l)) same
            ∙ ap (λ l. s.executed ++ l)
                (sym (cons?-append (s.callback t) [] (held s.callback rest)))
            ∙ ap (λ l. s.executed ++ held s.callback l) (sym e)
            ∙ ordered_at s v ready free;
      }

  -- A worker that has no task goes where it has none.
  rest-Inv :
      (s : Yield C) (w w' : Worker C)
      → s.worker ≡ w
      → Working s.place w'
      → hand w' ≡ hand w
      → Inv s
      → Inv (record s { worker = w' })
  rest-Inv s w w' e free same v = record {
    in_pool = v.in_pool;
    in_queue = v.in_queue;
    with_poster = v.with_poster;
    with_worker = free;
    none_yet = v.none_yet;
    in_order = rw same (ordered_at s v w e);
  }

  call-Inv : (s : Yield C) (c : C) (t : ℕ) → s.worker ≡ took (some c) t → Inv s → Inv (call s c t)
  call-Inv s c t e v = record {
    in_pool = v.in_pool;
    in_queue = v.in_queue;
    with_poster = v.with_poster;
    with_worker = (worker_at s v (took (some c) t) e).0;
    none_yet = v.none_yet;
    in_order =
        append_assoc s.executed (c ∷ []) (held s.callback s.scheduled)
        ∙ ordered_at s v (took (some c) t) e;
  }

  finds_nothing-absurd : (s : Yield C) (t : ℕ) → Inv s → s.worker ≢ took none t
  finds_nothing-absurd s t v e =
      let (_, (c, full)) = worker_at s v (took none t) e in absurd (cc full)

  recycle-Inv : (s : Yield C) (t : ℕ) → s.worker ≡ called t → Inv s → Inv (recycle s t)
  recycle-Inv s t e v =
      let mine = worker_at s v (called t) e in
      let m : Move s s.place (put s.callback t none) = record {
        task = t;
        from = working;
        at_from = mine;
        places = same-Agree s.place t;
        callbacks = put-Agree s.callback t none;
      } in
      let (queue, same) = queue_kept s v m s.served s.scheduled (λ k h q. cc) v.in_queue in
      record {
        in_pool = v.in_pool;
        in_queue = queue;
        with_poster = λ u. posters_kept s v m u (λ q. cc);
        with_worker = mine;
        none_yet = v.none_yet;
        in_order = ap (λ l. s.executed ++ l) same ∙ ordered_at s v (called t) e;
      }

  give_back-Inv : (s : Yield C) (t : ℕ) → s.worker ≡ emptied t → Inv s → Inv (give_back s t)
  give_back-Inv s t e v =
      let mine = worker_at s v (emptied t) e in
      let top = pooled (length s.pool) in
      let m : Move s (put s.place t top) s.callback = record {
        task = t;
        from = working;
        at_from = mine;
        places = put-Agree s.place t top;
        callbacks = same-Agree s.callback t;
      } in
      let (queue, same) = queue_kept s v m s.served s.scheduled (λ k h q. cc) v.in_queue in
      record {
        in_pool = (put_self s.place t top, pool_kept s v m s.pool (λ n h q. cc) v.in_pool);
        in_queue = queue;
        with_poster = λ u. posters_kept s v m u (λ q. cc);
        with_worker = tt;
        none_yet = unborn_kept s v m (λ q. cc);
        in_order = ordered_at s v (emptied t) e;
      }

  step-Inv : {s s' : Yield C} → Inv s → Step s s' → Inv s'
  step-Inv {s} v (pops_new u c e empty) = pop_new-Inv s u c v
  step-Inv {s} v (pops_pooled u c t rest e some_left) = pop_pooled-Inv s u c t rest some_left v
  step-Inv {s} v (sets u c t e) = set-Inv s u c t e v
  step-Inv {s} v (admits u c t e live) = admit-Inv s u c t e v
  step-Inv {s} v (refuses u c t e stopped) = refuse-Inv s u c t e v
  step-Inv {s} v (pushes u c t e) = push_task-Inv s u c t e v
  step-Inv {s} v stops = stop-Inv s v
  step-Inv {s} v (goes_on e live) = rest-Inv s idle ready e tt refl v
  step-Inv {s} v (exits e stopped) = rest-Inv s idle exited e tt refl v
  step-Inv {s} v (passes e) = rest-Inv s ready idle e tt refl v
  step-Inv {s} v (takes t rest free e) = take_callback-Inv s t rest free e v
  step-Inv {s} v (calls c t e) = call-Inv s c t e v
  step-Inv {s} v (finds_nothing t e) = absurd (finds_nothing-absurd s t v e)
  step-Inv {s} v (recycles t e) = recycle-Inv s t e v
  step-Inv {s} v (gives_back t e) = give_back-Inv s t e v

  Reach-Inv : {s : Yield C} → Reach s → Inv s
  Reach-Inv start = new-Inv
  Reach-Inv (later r h) = step-Inv (Reach-Inv r) h

  -- A worker that has left its loops has seen the stop, which is for good.
  step-live :
      {s s' : Yield C}
      → Step s s'
      → (s.is_stopped ≡ false → s.worker ≢ exited)
      → s'.is_stopped ≡ false
      → s'.worker ≢ exited
  step-live (pops_new u c e empty) v = v
  step-live (pops_pooled u c t rest e some_left) v = v
  step-live (sets u c t e) v = v
  step-live (admits u c t e live) v = v
  step-live (refuses u c t e stopped) v = v
  step-live (pushes u c t e) v = v
  step-live stops v = λ live. cc live
  step-live (goes_on e live) v = λ l x. cc x
  step-live (exits e stopped) v = λ live. cc (stopped, live)
  step-live (passes e) v = λ l x. cc x
  step-live (takes t rest free e) v = λ l x. cc x
  step-live (calls c t e) v = λ l x. cc x
  step-live (finds_nothing t e) v = λ l x. cc x
  step-live (recycles t e) v = λ l x. cc x
  step-live (gives_back t e) v = λ l x. cc x

  Reach-live : {s : Yield C} → Reach s → s.is_stopped ≡ false → s.worker ≢ exited
  unfolding new
  Reach-live start l = λ x. cc x
  Reach-live (later r h) l = step-live h (Reach-live r) l

  length-held :
      (s : Yield C) (n : ℕ) (ts : List ℕ)
      → Queued s.place s.callback n ts
      → length (held s.callback ts) ≡ length ts
  length-held s n [] h = refl
  length-held s n (t ∷ ts) (_, (c, full), h) = rw full (omega (arith, length-held s (n + 1) ts h))

  -- Until the dispatcher is stopped, the continuations that were called, then the one that the worker
  -- has taken, then those that the scheduled tasks hold are all that were scheduled, each once and in
  -- the order of scheduling. Every scheduled task holds one, the worker never finds a task empty, and it
  -- has not left its loops.
  pub continuations_in_order :
      {s : Yield C}
      → Reach s
      → s.is_stopped ≡ false
      → (s.executed ++ (hand s.worker ++ held s.callback s.scheduled) ≡ s.accepted)
        × (length (held s.callback s.scheduled) ≡ length s.scheduled)
        × ((t : ℕ) → s.worker ≢ took none t)
        × (s.worker ≢ exited)
  continuations_in_order {s} r live =
      let v = Reach-Inv r in
      (
        v.in_order,
        length-held s s.served s.scheduled v.in_queue,
        (λ t e. finds_nothing-absurd s t v e),
        Reach-live r live,
      )
