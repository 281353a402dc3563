-- ===== src/Core/Runner/Mail.antt =====
-- The mailbox of a running actor: order, and no post forgotten.
use dignus_actor_server_rust.Common.{
  map_right, ℕ, ◌+◌, ◌<◌, ◌≤◌, ◌≡◌, ◌≢◌, refl, sym, ◌∙◌, ◌⊎◌, inl, inr, false, List, [], ◌∷◌, ◌++◌,
  length, arith, length-append, ap, ap₂, append-nil, append_assoc,
}
use dignus_actor_server_rust.Core.Runner.{
  running, ActorRunner, new, Step, post, refuse, enqueue, enqueue_full, see_scheduled, see_free,
  swap_lost, swap_won, kill, kill_late, kill_lost, kill_won, schedule, start, see_active, see_idle,
  see_idle_late, start_running, start_killing, start_stopped, dequeue, dequeue_none, receive,
  drop_mail, done, panic, crash_late, crash_kill, crash_lost, crash_won, arm, activate, reset_armed,
  reset, lock_full, lock_empty, lock_empty_first, poll_pending, poll_ended, deactivate, reset_ended,
  complete, fail_first, fail, fail_late, fail_kill, fail_lost, fail_won, wake, wake_lost, mark,
  mark_late, after_killing, after_live, release, peek_none, peek_some, reswap_lost, reswap_won,
  finalize, finalize_again, drain, drain_none, clear, clear_active, clear_reset, on_kill,
  on_kill_panic, on_finalize, Reach, here, later,
}
use dignus_actor_server_rust.Core.Runner.Turn.{turns, Inv, Reach-Inv, one_turn}

-- Somebody will look at the mailbox: a turn, or a thread that tries to take one.
abbrev pub watchers : {M : Type 0} → ActorRunner M → ℕ
watchers r = turns r + r.posted + r.swapping + r.peeking + r.reswapping

-- While the actor is running: nothing is lost or reordered, and a mailbox with something in it is
-- watched.
record Mailbox {M : Type 0} (r : ActorRunner M) : Type 0 where
  pub ordered : (r.lifecycle ≢ running) ⊎ (r.received ++ (r.holding ++ r.mailbox) ≡ r.accepted)
  pub watched : (r.lifecycle ≢ running) ⊎ ((r.mailbox ≡ []) ⊎ (0 < watchers r))

Mailbox-new : (M : Type 0) (capacity : ℕ) → Mailbox (new M capacity)
unfolding new
Mailbox-new M capacity = record { ordered = inr refl; watched = inr (inl refl) }

length-nil : {A : Type 0} (l : List A) → length l ≡ 0 → l ≡ []
length-nil [] h = refl
length-nil (a ∷ l) h = ground arith

module _ {M : Type 0} where
  ordered_enqueue :
      (r : ActorRunner M) (m : M)
      → r.received ++ (r.holding ++ r.mailbox) ≡ r.accepted
      → r.received ++ (r.holding ++ (r.mailbox ++ (m ∷ []))) ≡ r.accepted ++ (m ∷ [])
  ordered_enqueue r m h =
      ap (λ l. r.received ++ l) (sym (append_assoc r.holding r.mailbox (m ∷ [])))
      ∙ sym (append_assoc r.received (r.holding ++ r.mailbox) (m ∷ []))
      ∙ ap (λ l. l ++ (m ∷ [])) h

  ordered_dequeue :
      (r : ActorRunner M) (m : M) (rest : List M)
      → r.mailbox ≡ m ∷ rest
      → r.received ++ (r.holding ++ r.mailbox) ≡ r.accepted
      → r.received ++ ((r.holding ++ (m ∷ [])) ++ rest) ≡ r.accepted
  ordered_dequeue r m rest e h =
      ap (λ l. r.received ++ l)
        (append_assoc r.holding (m ∷ []) rest ∙ ap (λ b. r.holding ++ b) (sym e))
      ∙ h

  ordered_receive :
      (r : ActorRunner M) (m : M) (rest : List M)
      → r.holding ≡ m ∷ rest
      → r.received ++ (r.holding ++ r.mailbox) ≡ r.accepted
      → (r.received ++ (m ∷ [])) ++ (rest ++ r.mailbox) ≡ r.accepted
  ordered_receive r m rest e h =
      append_assoc r.received (m ∷ []) (rest ++ r.mailbox)
      ∙ ap (λ b. r.received ++ (b ++ r.mailbox)) (sym e)
      ∙ h

  Step-Mailbox : {r t : ActorRunner M} → Step r t → Inv r → Mailbox r → Mailbox t
  Step-Mailbox (post h) i v = ground arith
  Step-Mailbox (refuse h) i v = ground arith
  Step-Mailbox {r} (enqueue m h p) i v = record {
    ordered = map_right (ordered_enqueue r m) v.ordered;
    watched = ground arith;
  }
  Step-Mailbox (enqueue_full h p) i v = ground arith
  Step-Mailbox (see_scheduled h p) i v = ground arith
  Step-Mailbox (see_free h p) i v = ground arith
  Step-Mailbox (swap_lost h p) i v = ground arith
  Step-Mailbox (swap_won h p) i v = ground arith
  Step-Mailbox (kill h) i v = ground arith
  Step-Mailbox (kill_late h) i v = ground arith
  Step-Mailbox (kill_lost h p) i v = ground arith
  Step-Mailbox (kill_won h p) i v = ground arith
  Step-Mailbox (schedule h) i v = ground arith
  Step-Mailbox (start h) i v = ground arith
  Step-Mailbox (see_active h p) i v = ground arith
  Step-Mailbox (see_idle h p q) i v = ground arith
  Step-Mailbox (see_idle_late h p q) i v = ground arith
  Step-Mailbox (start_running h p) i v = ground arith
  Step-Mailbox (start_killing h p) i v = ground arith
  Step-Mailbox (start_stopped h p) i v = ground arith
  Step-Mailbox {r} (dequeue {m} {rest} h p) i v = record {
    ordered = map_right (ordered_dequeue r m rest p) v.ordered;
    watched = ground (arith, length-append r.holding (m ∷ []));
  }
  Step-Mailbox (dequeue_none h p) i v = ground arith
  Step-Mailbox {r} (receive {m} {rest} h p) i v = record {
    ordered = map_right (ordered_receive r m rest h) v.ordered;
    watched = ground (arith, ap length h);
  }
  Step-Mailbox (drop_mail h p) i v = ground arith
  Step-Mailbox (done h) i v = ground arith
  Step-Mailbox (panic h) i v = ground arith
  Step-Mailbox (crash_late h p) i v = ground arith
  Step-Mailbox (crash_kill h p) i v = ground arith
  Step-Mailbox (crash_lost h p) i v = ground arith
  Step-Mailbox (crash_won h p) i v = ground arith
  Step-Mailbox (arm h p) i v = ground arith
  Step-Mailbox (activate h) i v = ground arith
  Step-Mailbox (reset_armed h) i v = ground arith
  Step-Mailbox (reset h) i v = ground arith
  Step-Mailbox (lock_full h p q) i v = ground arith
  Step-Mailbox (lock_empty h p) i v = ground arith
  Step-Mailbox (lock_empty_first h p) i v = ground arith
  Step-Mailbox (poll_pending h) i v = ground arith
  Step-Mailbox (poll_ended h) i v = ground arith
  Step-Mailbox (deactivate h) i v = ground arith
  Step-Mailbox (reset_ended h) i v = ground arith
  Step-Mailbox (complete h) i v = ground arith
  Step-Mailbox (fail_first h) i v = ground arith
  Step-Mailbox (fail h) i v = ground arith
  Step-Mailbox (fail_late h p) i v = ground arith
  Step-Mailbox (fail_kill h p) i v = ground arith
  Step-Mailbox (fail_lost h p) i v = ground arith
  Step-Mailbox (fail_won h p) i v = ground arith
  Step-Mailbox (wake h) i v = ground arith
  Step-Mailbox (wake_lost h p) i v = ground arith
  Step-Mailbox (mark h p q) i v = ground arith
  Step-Mailbox (mark_late h p q) i v = ground arith
  Step-Mailbox (after_killing h p) i v = ground arith
  Step-Mailbox (after_live h p) i v = ground arith
  Step-Mailbox (release h) i v = ground arith
  Step-Mailbox (peek_none h p) i v = ground arith
  Step-Mailbox (peek_some h p) i v = ground arith
  Step-Mailbox (reswap_lost h p) i v = ground arith
  Step-Mailbox (reswap_won h p) i v = ground arith
  Step-Mailbox (finalize h p) i v = ground arith
  Step-Mailbox (finalize_again h p) i v = ground arith
  Step-Mailbox (drain h p) i v = ground arith
  Step-Mailbox (drain_none h p) i v = ground arith
  Step-Mailbox (clear h p) i v = ground arith
  Step-Mailbox (clear_active h) i v = ground arith
  Step-Mailbox (clear_reset h) i v = ground arith
  Step-Mailbox (on_kill h) i v = ground arith
  Step-Mailbox (on_kill_panic h) i v = ground arith
  Step-Mailbox (on_finalize h) i v = ground arith

  Reach-Mailbox : (capacity : ℕ) {r : ActorRunner M} → Reach (new M capacity) r → Mailbox r
  Reach-Mailbox capacity here = Mailbox-new M capacity
  Reach-Mailbox capacity (later s t) =
      Step-Mailbox t (Reach-Inv capacity s) (Reach-Mailbox capacity s)

  -- While the actor runs and no turn has gone astray, the mails it has received, the one it holds and
  -- those in its mailbox are in this order exactly the mails that were accepted: none is lost, doubled
  -- or overtaken.
  pub mails_in_order :
      (capacity : ℕ) (r : ActorRunner M)
      → Reach (new M capacity) r
      → r.stray ≡ 0
      → r.lifecycle ≡ running
      → (r.received ++ (r.holding ++ r.mailbox) ≡ r.accepted) × (length r.holding ≤ 1)
  mails_in_order capacity r s one_consumer live = (
    elim ((Reach-Mailbox capacity s).ordered) [ inl dead ↦ elim (dead live) [ ] | inr h ↦ h ],
    omega (arith, one_turn capacity r s, one_consumer),
  )

  -- No post is forgotten: while the actor runs and nobody has its turn or is about to take it, and no
  -- receive is pending, its mailbox is empty and the flag `is_scheduled` is down, so that the next post
  -- takes the turn. This is said where no turn has gone astray; then every mail that was
  -- accepted has been received too.
  pub idle_means_done :
      (capacity : ℕ) (r : ActorRunner M)
      → Reach (new M capacity) r
      → r.stray ≡ 0
      → r.lifecycle ≡ running
      → watchers r ≡ 0
      → (r.mailbox ≡ []) × ((r.is_scheduled ≡ false) × (r.received ≡ r.accepted))
  idle_means_done capacity r s one_consumer live w =
      let v = Reach-Mailbox capacity s in
      let i = Reach-Inv capacity s in
      let none_left : r.mailbox ≡ [] = ground arith in
      let none_held : r.holding ≡ [] = length-nil r.holding (omega arith) in
      (
        none_left,
        (
          ground arith,
          sym (append-nil r.received)
              ∙ ap₂ (λ b c. r.received ++ (b ++ c)) (sym none_held) (sym none_left)
              ∙ (mails_in_order capacity r s one_consumer live).0,
        ),
      )
