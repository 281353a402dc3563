-- ===== src/Core/References/Tests.antt =====
-- One actor under the handle (0, 1), and four slots for questions.
use dignus_actor_server_rust.Common.{
  ℕ, ◌≡◌, refl, none, some, [], ◌∷◌, ◌++◌, false, lookup, replicate, ◌==◌,
}
use dignus_actor_server_rust.Core.Registry.{target}
use dignus_actor_server_rust.Core.Ask.{sweep, poll, downcasted, AskAwaiterState}
use dignus_actor_server_rust.Core.References.{World, reply, post, ask}
use dignus_actor_server_rust.Core.References.Asking.{answer_held, question, ask_answered}

abbrev world : World ℕ ℕ ℕ
world = record {
  registry = record {
    slots = record { generation = 1; owner = some 5 } ∷ [];
    capacity = 1;
    free = [];
    next_unused = 1;
    live = 1;
    poisoned = false;
  };
  ask_system = record {
    slots = replicate 4 none;
    slot_count = 4;
    is_stopped = false;
    awaiters = [];
  };
  enqueued = [];
  killed = [];
}

live_run : target ℕ world.registry world.registry 0 1 ≡ some 5
unfolding target
live_run = refl

ask_answered_example :
    let w₁ = question world 0 1 20 7 6 100 30 in
    let w₂ = post w₁ (reply 7) 21 none in
    let state : AskAwaiterState ℕ ℕ = answer_held 21 in
    (ask world 0 1 20 7 6 100 30 ≡ some w₁)
    × (w₁.enqueued ≡ [] ++ ((5, record { message = 20; sender = some (reply 7) }) ∷ []))
    × (lookup 7 w₂.ask_system.awaiters ≡ some state)
    × (lookup 7 (post w₂ (reply 7) 22 none).ask_system.awaiters ≡ some state)
    × (lookup 7 (sweep ℕ ℕ w₂.ask_system 500).awaiters ≡ some state)
    × ((poll ◌==◌ some state 9).1 ≡ downcasted ◌==◌ some (some 21))
ask_answered_example =
    ask_answered ◌==◌ some world 0 1 5 20 21 22 7 6 100 30 500 none 9 refl live_run
