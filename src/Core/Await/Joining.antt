-- ===== src/Core/Await/Joining.antt =====
-- What a join needs to come to its end.
use dignus_actor_server_rust.Common.{
  ℕ, ◌≡◌, ◌≢◌, refl, inl, inr, Bool, true, false, Option, none, some, List, [], ◌∷◌, cons?, ◌==◌,
  if◌then◌else◌, arith, take, Bool-cases, ==_refl,
}
use dignus_actor_server_rust.Core.PollDriver.{
  PollDriver, FuturePoll, still, finished, try_mark_poll_scheduled, arm, PollOutcome, ready,
  pending, after_poll, wake_if, poll_slot,
}
use dignus_actor_server_rust.Core.PollDriver
use dignus_actor_server_rust.Core.Await.{
  new, is_current, poll, polls, create_waker, wake_by_ref, Join, join, join_future, enqueued_in,
  continue_on_dispatcher,
}

==-ne_false : (a b : ℕ) → a ≢ b → (a == b) ≡ false
==-ne_false a b ne = ground (arith, ne)

module _ {W : Type 0} where
  -- The wakers of the polls that came from elsewhere.
  abbrev pub away : ℕ → List (Option ℕ × W) → List W
  away d [] = []
  away d ((current, waker) ∷ ps) =
      cons? (if is_current current d then none else some waker) (away d ps)

  abbrev pub answers : ℕ → List (Option ℕ × W) → List Bool
  answers d [] = []
  answers d ((current, waker) ∷ ps) = is_current current d ∷ answers d ps

  polls_scheduled :
      (d : ℕ) (ps : List (Option ℕ × W))
      → polls ps (record { dispatcher = d; is_scheduled = true }) ≡ (answers d ps, [])
  unfolding polls poll
  polls_scheduled d [] = refl
  polls_scheduled d ((current, waker) ∷ ps) = elim (Bool-cases (is_current current d)) [
    | inl e ↦ rw (e, polls_scheduled d ps) refl
    | inr e ↦ rw (e, polls_scheduled d ps) refl
  ]

  -- However often it is polled and from where, an awaiter answers that it is ready exactly when it is
  -- polled on the dispatcher that it joins, and it enqueues one continuation at most: the wake of
  -- the first waker that it was given elsewhere.
  pub polls_lem :
      (d : ℕ) (ps : List (Option ℕ × W)) → polls ps (new d) ≡ (answers d ps, take 1 (away d ps))
  unfolding polls poll new
  polls_lem d [] = refl
  polls_lem d ((current, waker) ∷ ps) = elim (Bool-cases (is_current current d)) [
    | inl e ↦ rw (e, polls_lem d ps) refl
    | inr e ↦ rw (e, polls_scheduled d ps) refl
  ]

module _ {C : Type 0} where
  -- The driver of a receive that begins to join `d` on the dispatcher `h`.
  abbrev pub begun : ℕ → ℕ → Option C → PollDriver.PollDriver Join C → PollDriver.Poll Join C
  begun h d on_complete x =
      PollDriver.poll Join C (join_future (some h) h) (arm Join C x (join d) on_complete)

  -- The continuation that was enqueued on `d` runs.
  abbrev pub continued : ℕ → PollDriver.PollDriver Join C → Option ℕ × PollDriver.PollDriver Join C
  continued d x = continue_on_dispatcher d (enqueued_in x.slot) x

  -- A wake on `c`, by somebody else, with the waker that keeps `h`.
  abbrev pub woken : ℕ → ℕ → PollDriver.Poll Join C → Option ℕ × PollDriver.PollDriver Join C
  woken c h p = wake_by_ref (some c) h p.driver

  abbrev pub resumed : ℕ → PollDriver.PollDriver Join C → PollDriver.Poll Join C
  resumed c x = PollDriver.poll Join C (join_future (some c) c) x

  -- A receive that joins another dispatcher is pending first. That poll has enqueued one continuation
  -- on the dispatcher that it joins, which schedules the runner there; and the poll there is ready and
  -- gives the receive's callback.
  pub join_moves :
      (h d : ℕ) (on_complete : Option C) (x : PollDriver.PollDriver Join C)
      → h ≢ d
      → let first = begun h d on_complete x in
        let moved = continued d first.driver in
        let second = resumed d moved.1 in
        (first.outcome ≡ pending)
        × (enqueued_in first.driver.slot ≡ h ∷ [])
        × (moved.0 ≡ some d)
        × (second.outcome ≡ ready)
        × (second.callback ≡ on_complete)
        × (second.driver.is_active ≡ false)
  unfolding PollDriver.poll poll_slot after_poll wake_if arm new join join_future poll wake_by_ref
      create_waker try_mark_poll_scheduled continue_on_dispatcher
  join_moves h d on_complete x ne =
      rw (==-ne_false h d ne, ==_refl d) (refl, refl, refl, refl, refl, refl)

  -- If a wake on a third dispatcher comes first, the continuation's wake does not schedule the runner,
  -- the poll on the third dispatcher is pending, and no continuation is enqueued again: the receive is
  -- active and nothing is left that would poll it.
  pub join_lost :
      (h d c : ℕ) (on_complete : Option C) (x : PollDriver.PollDriver Join C)
      → h ≢ d
      → c ≢ d
      → let taken = woken c h (begun h d on_complete x) in
        let joined = continued d taken.1 in
        let second = resumed c joined.1 in
        (taken.0 ≡ some c)
        × (joined.0 ≡ none)
        × (second.outcome ≡ pending)
        × (second.scheduled ≡ false)
        × (second.driver.is_active ≡ true)
        × (second.driver.is_poll_scheduled ≡ false)
        × (enqueued_in second.driver.slot ≡ h ∷ [])
        × (polls {W = ℕ} ((some h, h) ∷ (some c, h) ∷ []) (new d) ≡ (false ∷ false ∷ [], h ∷ []))
  unfolding PollDriver.poll poll_slot after_poll wake_if arm new join join_future poll polls
      wake_by_ref create_waker try_mark_poll_scheduled continue_on_dispatcher
  join_lost h d c on_complete x ne ne' =
      rw (==-ne_false h d ne, ==-ne_false c d ne') (refl, refl, refl, refl, refl, refl, refl, refl)
