-- ===== src/Network/Reactor/Accepting.antt =====
-- How the accepting worker deals streams out.
use dignus_actor_server_rust.Common.{
  ℕ, ◌+◌, ◌%◌, ◌≡◌, refl, sym, ap, ap₂, ◌∙◌, Bool, true, false, if_cases, some, List, [], ◌∷◌, ◌++◌,
  ◌==◌, if◌then◌else◌, arith, map, append-nil, append_assoc, length,
}
use dignus_actor_server_rust.Network.Handler.{HostHandler, TransportApi}
use dignus_actor_server_rust.Network.Reactor.{Registry, Reactor, stream_of, accept_loop, hand_over}

-- What worker `i` is dealt of streams that are dealt in turn, from worker `next` and number `id` on.
unfoldable pub dealt : (i workers next id : ℕ) → List ℕ → List (ℕ × ℕ)
dealt i workers next id [] = []
dealt i workers next id (stream ∷ streams) =
    let rest = dealt i workers ((next + 1) % workers) (id + 1) streams in
    if next == i then (stream, id) ∷ rest else rest

deal :
    (b : Bool) (stream : ℕ × ℕ) (front rest : List (ℕ × ℕ))
    → (front ++ (if b then stream ∷ [] else [])) ++ rest
      ≡ front ++ (if b then stream ∷ rest else rest)
deal true stream front rest = append_assoc front (stream ∷ []) rest
deal false stream front rest = ap (λ l. l ++ rest) (append-nil front)

module _ {handler : HostHandler} {transport : TransportApi} {registry : Registry} where
  -- The streams that wait for worker `i`, as the worker `r` sees them.
  abbrev pub queue_of : Reactor handler transport registry → ℕ → List (ℕ × ℕ)
  queue_of r i = if r.index == i then r.env.shared.incoming else (r.peers i).incoming

  queue_of-hand_over :
      (r : Reactor handler transport registry) (stream i : ℕ)
      → queue_of (hand_over handler transport registry r stream) i
        ≡ queue_of r i ++ (if r.next_worker == i then (stream, r.next_session_id) ∷ [] else [])
  queue_of-hand_over r stream i =
      ground (arith, append-nil r.env.shared.incoming, append-nil (r.peers i).incoming)

  hand_over_fields :
      (r : Reactor handler transport registry) (stream : ℕ)
      → let r' = hand_over handler transport registry r stream in
        (r'.worker_count ≡ r.worker_count)
        × (r'.next_worker ≡ (r.next_worker + 1) % r.worker_count)
        × (r'.next_session_id ≡ r.next_session_id + 1)
  hand_over_fields r stream =
      if_cases
        (λ (r' : Reactor handler transport registry).
          (r'.worker_count ≡ r.worker_count)
          × (r'.next_worker ≡ (r.next_worker + 1) % r.worker_count)
          × (r'.next_session_id ≡ r.next_session_id + 1))
        (r.next_worker == r.index) (λ _. (refl, refl, refl)) (λ _. (refl, refl, refl))

  -- Streams are dealt out in turn: after a burst of connections, every worker has in its queue, behind
  -- what it had, exactly those whose turn was its own, in order, numbered through; the next
  -- session id goes on from there.
  pub accept_loop-dealt :
      (streams : List ℕ) (r : Reactor handler transport registry) (i : ℕ)
      → (r' : Reactor handler transport registry) × (accept_loop handler transport registry
            (map stream_of streams)
            r
          ≡ some r')
        × (queue_of r' i
            ≡ queue_of r i ++ dealt i r.worker_count r.next_worker r.next_session_id streams)
        × (r'.next_session_id ≡ r.next_session_id + length streams)
  unfolding accept_loop dealt
  accept_loop-dealt [] r i = (r, refl, sym (append-nil (queue_of r i)), omega arith)
  accept_loop-dealt (stream ∷ streams) r i =
      let (r', runs, queue, ids) =
        accept_loop-dealt streams (hand_over handler transport registry r stream) i in
      let (workers, worker, session) = hand_over_fields r stream in
      let front = queue_of r i in
      let last : ℕ × ℕ = (stream, r.next_session_id) in
      (
        r',
        runs,
        queue
            ∙ ap₂ ◌++◌ (queue_of-hand_over r stream i) (rw (workers, worker, session) refl)
            ∙ deal (r.next_worker == i) last front (
                dealt i r.worker_count ((r.next_worker + 1) % r.worker_count)
                  (r.next_session_id + 1) streams),
        omega (arith, ids, session),
      )
