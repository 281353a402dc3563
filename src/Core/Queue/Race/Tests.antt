-- ===== src/Core/Queue/Race/Tests.antt =====
-- A ring of two slots under three producers: the first wins position 0 while the second looks on, the
-- second wins position 1, and the third finds no room.
use dignus_actor_server_rust.Common.{ℕ, ◌+◌, ◌≤◌, ◌≡◌, ◌≢◌, refl, some, [], ◌∷◌, length, arith}
use dignus_actor_server_rust.Core.Queue.Race.{
  entered, loaded, matched, claimed, resting, Ring, slot, empty, at, won, wrote, published, taken,
  enter, load, match_free, lose, win, write, publish, take_item, Reach, here, later,
}
use dignus_actor_server_rust.Core.Queue.Race.Slots.{first}
use dignus_actor_server_rust.Core.Queue.Race.Handoff.{race_in_order}
use dignus_actor_server_rust.Core.Queue.Race.Sharing.{no_data_race}

abbrev looked : Ring ℕ
looked =
    at
      (at (at (at (at (at (empty ℕ 2) 0 (entered 7)) 0 (loaded 7 0)) 1 (entered 8)) 1 (loaded 8 0))
        0 (matched 7 0))
      1 (matched 8 0)

looked-Reach : Reach (empty ℕ 2) looked
unfolding empty
looked-Reach =
    later
      (later
        (later (later (later (later here (enter 0 7 refl)) (load 0 7 refl)) (enter 1 8 refl))
          (load 1 8 refl))
        (match_free 0 7 0 refl refl))
      (match_free 1 8 0 refl refl)

abbrev first_won : Ring ℕ
first_won = won looked 0 7 0

first_won-Reach : Reach (empty ℕ 2) first_won
unfolding empty
first_won-Reach = later looked-Reach (win 0 7 0 refl refl)

no_data_race_example :
    ((u q : ℕ) (y : ℕ)
      → first_won.producer u ≡ claimed y q
      → 0 ≢ u
      → slot first_won 0 ≢ slot first_won q)
    × (first_won.consumer ≡ resting
        → first_won.sequence (slot first_won first_won.consumer_index)
          ≡ first_won.consumer_index + 1
        → slot first_won 0 ≢ slot first_won first_won.consumer_index)
unfolding empty
no_data_race_example = no_data_race 2 first_won 0 0 7 (omega arith) first_won-Reach refl

abbrev handed : Ring ℕ
handed = taken (published (wrote first_won 0 7 0) 0 0)

handed-Reach : Reach (empty ℕ 2) handed
unfolding empty
handed-Reach =
    later (later (later first_won-Reach (write 0 7 0 refl)) (publish 0 0 refl))
      (take_item refl refl)

race_in_order_example :
    (handed.received ≡ first (length handed.received) handed.accepted)
    × (length handed.received ≤ length handed.accepted)
    × (length handed.accepted ≤ length handed.received + 2)
race_in_order_example = race_in_order 2 handed (omega arith) handed-Reach

handed_received : handed.received ≡ some 7 ∷ []
unfolding empty
handed_received = refl

abbrev second_won : Ring ℕ
second_won = won (at (at (at first_won 1 (entered 8)) 1 (loaded 8 1)) 1 (matched 8 1)) 1 8 1

abbrev crowded : Ring ℕ
crowded = at (at second_won 2 (entered 9)) 2 (loaded 9 2)

crowded-Reach : Reach (empty ℕ 2) crowded
unfolding empty
crowded-Reach =
    later
      (later
        (later
          (later
            (later (later first_won-Reach (lose 1 8 0 refl (λ e. omega (arith, e))))
              (load 1 8 refl))
            (match_free 1 8 1 refl refl))
          (win 1 8 1 refl refl))
        (enter 2 9 refl))
      (load 2 9 refl)
