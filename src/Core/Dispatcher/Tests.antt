-- ===== src/Core/Dispatcher/Tests.antt =====
-- One actor that is scheduled and run, up to the worker's next wait; and a signal with three waiters.
use dignus_actor_server_rust.Common.{ℕ, ◌≤◌, ◌≡◌, ◌≢◌, refl, true, false, List, [], ◌∷◌, arith}
use dignus_actor_server_rust.Core.Dispatcher.{
  Worker, waiting, Dispatcher, new, admit, push, win, release, wake, woken_live, reset, drain_empty,
  drain_batch, execute, batch_done, ran_live, checked_live, Reach, start, later,
}
use dignus_actor_server_rust.Core.Dispatcher.Wakeup.{asleep_means_done}
use dignus_actor_server_rust.Core.Dispatcher.Signal
use dignus_actor_server_rust.Core.Dispatcher.Signal.{Signal, enter, sleep, release_one}

-- Scheduled, and picked up by the worker.
abbrev busy : Dispatcher ℕ
busy = record {
  scheduled_actors = [];
  batch = 5 ∷ [];
  signaled = false;
  signal_pending = false;
  is_stopped = false;
  worker = Worker.executing;
  admitted = 0;
  pushed = 0;
  releasing = 0;
  disposing = 0;
  history = 5 ∷ [];
  executed = [];
}

abbrev asleep : Dispatcher ℕ
asleep = record busy { worker = waiting; batch = []; executed = 5 ∷ [] }

one_waits : {l : List ℕ} → 5 ∷ l ≢ []
one_waits e = ground arith

busy_reached : Reach busy
unfolding new
busy_reached =
    let admitted = later start (admit refl) in
    let pushed = later admitted (push 5 refl) in
    let raised = later (later pushed (win refl refl)) (release refl) in
    let woken = later (later raised (wake refl refl)) (woken_live refl refl) in
    later (later woken (reset refl)) (drain_batch refl one_waits)

asleep_reached : Reach asleep
asleep_reached =
    let ran = later (later busy_reached (execute refl refl)) (ran_live refl refl) in
    later (later (later ran (batch_done refl refl)) (drain_empty refl refl))
      (checked_live refl refl)

asleep_means_done_example : (asleep.scheduled_actors ≡ []) × (asleep.executed ≡ asleep.history)
asleep_means_done_example = asleep_means_done asleep asleep_reached refl refl refl refl refl

-- Two threads sleep in `wait`; a release wakes one, and a third thread comes before it.
abbrev raised_late : Signal
raised_late = record {
  is_signaled = true;
  awake = 2;
  asleep = 1;
  waits = 3;
  returned = 0;
  releases = 1;
}

raised_late-Reach : Signal.Reach raised_late
unfolding Signal.new
raised_late-Reach =
    let one_in = Signal.Reach.later (Signal.Reach.later Signal.Reach.start enter) enter in
    let both_asleep =
      Signal.Reach.later (Signal.Reach.later one_in (sleep {n = 1} refl refl))
        (sleep {n = 0} refl refl) in
    Signal.Reach.later (Signal.Reach.later both_asleep (release_one {n = 1} refl)) enter

release_heard_example : (t : Signal) × Signal.Taken raised_late t × (t.returned ≤ t.releases)
release_heard_example = Signal.release_heard raised_late-Reach refl (omega arith)
