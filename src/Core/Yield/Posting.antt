-- ===== src/Core/Yield/Posting.antt =====
-- The steps of `enqueue_continuation` and of `dispose` keep the tasks in one place each.
use dignus_actor_server_rust.Common.{
  ℕ, ◌+◌, ◌≡◌, sym, ap, ◌∙◌, true, none, some, List, [], ◌∷◌, ◌++◌, length, arith, put,
  append_assoc, subst,
}
use dignus_actor_server_rust.Core.Yield.{
  Yield, outside, popped, filled, admitted, unborn, dropped, pooled, posting, queued, pop_new,
  pop_pooled, set, admit, refuse, push_task,
}
use dignus_actor_server_rust.Core.Yield.Tasks.{
  put-Agree, put_self, same-Agree, Pooled, held, hand, Inv, Queued-append, by_poster,
}
use dignus_actor_server_rust.Core.Yield.Moves.{
  Move, pool_kept, queue_kept, posters_kept, worker_kept, unborn_kept, poster_at, posting_ne,
}

module _ {C : Type 0} where
  -- A thread has moved on with the task that it has.
  pub admit-Inv :
      (s : Yield C) (u : ℕ) (c : C) (t : ℕ) → s.poster u ≡ filled c t → Inv s → Inv (admit s u c t)
  admit-Inv s u c t e v = record {
    in_pool = v.in_pool;
    in_queue = v.in_queue;
    with_poster =
        by_poster s.place s.callback s.poster u (admitted c t) (poster_at s v u (filled c t) e)
          (λ k ne. v.with_poster k);
    with_worker = v.with_worker;
    none_yet = v.none_yet;
    in_order = v.in_order;
  }

  pub stop-Inv : (s : Yield C) → Inv s → Inv (record s { is_stopped = true })
  stop-Inv s v = record {
    in_pool = v.in_pool;
    in_queue = v.in_queue;
    with_poster = v.with_poster;
    with_worker = v.with_worker;
    none_yet = v.none_yet;
    in_order = v.in_order;
  }

  pub pop_new-Inv : (s : Yield C) (u : ℕ) (c : C) → Inv s → Inv (pop_new s u c)
  pop_new-Inv s u c v =
      let m : Move s (put s.place s.created (posting u)) (put s.callback s.created none) = record {
        task = s.created;
        from = unborn;
        at_from = v.none_yet s.created (omega arith);
        places = put-Agree s.place s.created (posting u);
        callbacks = put-Agree s.callback s.created none;
      } in
      let (queue, same) = queue_kept s v m s.served s.scheduled (λ k h q. cc) v.in_queue in
      record {
        in_pool = pool_kept s v m s.pool (λ n h q. cc) v.in_pool;
        in_queue = queue;
        with_poster =
            by_poster (put s.place s.created (posting u)) (put s.callback s.created none) s.poster u
              (popped c s.created) (put_self s.place s.created (posting u))
              (λ k ne. posters_kept s v m k (λ q. cc));
        with_worker = worker_kept s v m (λ q. cc);
        none_yet = λ k h. m.places k (ground arith) ∙ v.none_yet k (omega (arith, h));
        in_order = ap (λ l. s.executed ++ (hand s.worker ++ l)) same ∙ v.in_order;
      }

  pub pop_pooled-Inv :
      (s : Yield C) (u : ℕ) (c : C) (t : ℕ) (rest : List ℕ)
      → s.pool ≡ t ∷ rest
      → Inv s
      → Inv (pop_pooled s u c t rest)
  pop_pooled-Inv s u c t rest e v =
      let pool : Pooled s.place (t ∷ rest) = subst (Pooled s.place) e v.in_pool in
      let m : Move s (put s.place t (posting u)) s.callback = record {
        task = t;
        from = pooled (length rest);
        at_from = pool.0;
        places = put-Agree s.place t (posting u);
        callbacks = same-Agree s.callback t;
      } in
      let (queue, same) = queue_kept s v m s.served s.scheduled (λ k h q. cc) v.in_queue in
      record {
        in_pool =
            pool_kept s v m rest
              (λ n h q. let back : length rest ≡ n = cc q in absurd (omega (arith, back, h)))
              pool.1;
        in_queue = queue;
        with_poster =
            by_poster (put s.place t (posting u)) s.callback s.poster u (popped c t)
              (put_self s.place t (posting u)) (λ k ne. posters_kept s v m k (λ q. cc));
        with_worker = worker_kept s v m (λ q. cc);
        none_yet = unborn_kept s v m (λ q. cc);
        in_order = v.in_order;
      }

  pub set-Inv :
      (s : Yield C) (u : ℕ) (c : C) (t : ℕ) → s.poster u ≡ popped c t → Inv s → Inv (set s u c t)
  set-Inv s u c t e v =
      let mine = poster_at s v u (popped c t) e in
      let m : Move s s.place (put s.callback t (some c)) = record {
        task = t;
        from = posting u;
        at_from = mine;
        places = same-Agree s.place t;
        callbacks = put-Agree s.callback t (some c);
      } in
      let (queue, same) = queue_kept s v m s.served s.scheduled (λ k h q. cc) v.in_queue in
      record {
        in_pool = v.in_pool;
        in_queue = queue;
        with_poster =
            by_poster s.place (put s.callback t (some c)) s.poster u (filled c t)
              (mine, put_self s.callback t (some c))
              (λ k ne. posters_kept s v m k (posting_ne u k ne));
        with_worker = v.with_worker;
        none_yet = v.none_yet;
        in_order = ap (λ l. s.executed ++ (hand s.worker ++ l)) same ∙ v.in_order;
      }

  pub refuse-Inv :
      (s : Yield C) (u : ℕ) (c : C) (t : ℕ) → s.poster u ≡ filled c t → Inv s → Inv (refuse s u t)
  refuse-Inv s u c t e v =
      let mine = poster_at s v u (filled c t) e in
      let m : Move s (put s.place t dropped) s.callback = record {
        task = t;
        from = posting u;
        at_from = mine.0;
        places = put-Agree s.place t dropped;
        callbacks = same-Agree s.callback t;
      } in
      let (queue, same) = queue_kept s v m s.served s.scheduled (λ k h q. cc) v.in_queue in
      record {
        in_pool = pool_kept s v m s.pool (λ n h q. cc) v.in_pool;
        in_queue = queue;
        with_poster =
            by_poster (put s.place t dropped) s.callback s.poster u outside tt
              (λ k ne. posters_kept s v m k (posting_ne u k ne));
        with_worker = worker_kept s v m (λ q. cc);
        none_yet = unborn_kept s v m (λ q. cc);
        in_order = v.in_order;
      }

  pub push_task-Inv :
      (s : Yield C) (u : ℕ) (c : C) (t : ℕ)
      → s.poster u ≡ admitted c t
      → Inv s
      → Inv (push_task s u c t)
  push_task-Inv s u c t e v =
      let mine = poster_at s v u (admitted c t) e in
      let last = queued (s.served + length s.scheduled) in
      let m : Move s (put s.place t last) s.callback = record {
        task = t;
        from = posting u;
        at_from = mine.0;
        places = put-Agree s.place t last;
        callbacks = same-Agree s.callback t;
      } in
      let (queue, same) = queue_kept s v m s.served s.scheduled (λ k h q. cc) v.in_queue in
      let (queue', longer) =
        Queued-append (put s.place t last) s.callback s.scheduled s.served t c queue
          (put_self s.place t last) mine.1 in
      record {
        in_pool = pool_kept s v m s.pool (λ n h q. cc) v.in_pool;
        in_queue = queue';
        with_poster =
            by_poster (put s.place t last) s.callback s.poster u outside tt
              (λ k ne. posters_kept s v m k (posting_ne u k ne));
        with_worker = worker_kept s v m (λ q. cc);
        none_yet = unborn_kept s v m (λ q. cc);
        in_order =
            ap (λ l. s.executed ++ (hand s.worker ++ l)) longer
            ∙ ap (λ l. s.executed ++ l)
                (sym (append_assoc (hand s.worker) (held s.callback s.scheduled) (c ∷ [])))
            ∙ sym (append_assoc s.executed (hand s.worker ++ held s.callback s.scheduled) (c ∷ []))
            ∙ ap (λ l. l ++ (c ∷ [])) v.in_order;
      }
