-- ===== src/Core/Yield/Tests.antt =====
-- Two continuations: one is called, and the second waits in the task behind it.
use dignus_actor_server_rust.Common.{ℕ, ◌≡◌, ◌≢◌, refl, none, [], ◌∷◌, ◌++◌, length}
use dignus_actor_server_rust.Core.Yield.{
  Yield, new, took, Reach, start, later, pops_new, sets, admits, pushes, goes_on, exited, takes,
  calls, pop_new, set, admit, push_task, take_callback, call,
}
use dignus_actor_server_rust.Core.Yield.Tasks.{held, hand}
use dignus_actor_server_rust.Core.Yield.Order.{continuations_in_order}

abbrev one_pushed : Yield ℕ
one_pushed = push_task (admit (set (pop_new (new ℕ) 4 7) 4 7 0) 4 7 0) 4 7 0

abbrev two_pushed : Yield ℕ
two_pushed = push_task (admit (set (pop_new one_pushed 5 8) 5 8 1) 5 8 1) 5 8 1

abbrev one_called : Yield ℕ
one_called = call (take_callback two_pushed 0 (1 ∷ [])) 7 0

one_pushed_run : Reach one_pushed
unfolding new
one_pushed_run =
    later
      (later (later (later start (pops_new 4 7 refl refl)) (sets 4 7 0 refl))
        (admits 4 7 0 refl refl))
      (pushes 4 7 0 refl)

one_called_run : Reach one_called
unfolding new
one_called_run =
    let popped = later one_pushed_run (pops_new 5 8 refl refl) in
    let admitted = later (later popped (sets 5 8 1 refl)) (admits 5 8 1 refl refl) in
    let pushed = later admitted (pushes 5 8 1 refl) in
    later (later (later pushed (goes_on refl refl)) (takes 0 (1 ∷ []) refl refl)) (calls 7 0 refl)

continuations_in_order_example :
    (one_called.executed
        ++ (hand one_called.worker ++ held one_called.callback one_called.scheduled)
      ≡ one_called.accepted)
    × (length (held one_called.callback one_called.scheduled) ≡ length one_called.scheduled)
    × ((t : ℕ) → one_called.worker ≢ took none t)
    × (one_called.worker ≢ exited)
unfolding new
continuations_in_order_example = continuations_in_order one_called_run refl
