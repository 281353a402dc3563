-- ===== src/Core/Await/Tests.antt =====
-- A receive on the dispatcher 0 that joins the dispatcher 1.
use dignus_actor_server_rust.Common.{
  ℕ, ◌≡◌, refl, ◌≢◌, Option, none, some, List, [], ◌∷◌, true, false, arith,
}
use dignus_actor_server_rust.Core.PollDriver
use dignus_actor_server_rust.Core.PollDriver.{ready, pending}
use dignus_actor_server_rust.Core.Await.{Join, new, poll, polls, enqueued_in}
use dignus_actor_server_rust.Core.Await.Joining.{
  begun, continued, woken, resumed, join_moves, join_lost,
}

abbrev fresh : PollDriver.PollDriver Join ℕ
fresh = PollDriver.new Join ℕ

apart : ◌≢◌ {A = ℕ} 0 1
apart e = absurd (omega (arith, e))

apart' : ◌≢◌ {A = ℕ} 2 1
apart' e = absurd (omega (arith, e))

abbrev three_polls : List (Option ℕ × ℕ)
three_polls = (none, 5) ∷ (some 2, 6) ∷ (some 1, 7) ∷ []

join_moves_example :
    let first = begun 0 1 (some 9) fresh in
    let moved = continued 1 first.driver in
    let second = resumed 1 moved.1 in
    (first.outcome ≡ pending)
    × (enqueued_in first.driver.slot ≡ 0 ∷ [])
    × (moved.0 ≡ some 1)
    × (second.outcome ≡ ready)
    × (second.callback ≡ some 9)
    × (second.driver.is_active ≡ false)
join_moves_example = join_moves 0 1 (some 9) fresh apart

join_lost_example :
    let taken = woken 2 0 (begun 0 1 (some 9) fresh) in
    let joined = continued 1 taken.1 in
    let second = resumed 2 joined.1 in
    (taken.0 ≡ some 2)
    × (joined.0 ≡ none)
    × (second.outcome ≡ pending)
    × (second.scheduled ≡ false)
    × (second.driver.is_active ≡ true)
    × (second.driver.is_poll_scheduled ≡ false)
    × (enqueued_in second.driver.slot ≡ 0 ∷ [])
    × (polls {W = ℕ} ((some 0, 0) ∷ (some 2, 0) ∷ []) (new 1) ≡ (false ∷ false ∷ [], 0 ∷ []))
join_lost_example = join_lost 0 1 2 (some 9) fresh apart apart'

three_polls_run : polls three_polls (new 1) ≡ (false ∷ false ∷ true ∷ [], 5 ∷ [])
unfolding polls poll new
three_polls_run = refl
