-- ===== src/Core/System/Waiting.antt =====
-- `dispose` and `shutdown_timeout` of dignus-actor-core/src/actor_system.rs: they begin a shutdown and
-- wait until no actor is live.
pub mod Ending
use dignus_actor_server_rust.Common.{
  ◌||◌, ap, sym, ◌∙◌, subst, ℕ, zero, suc, ◌+◌, ◌<◌, ◌≡◌, ◌≢◌, refl, Bool, true, false, Option,
  none, some, List, [], ◌∷◌, leb, if◌then◌else◌, arith, Bool-cases, inl, inr, ◌⊎◌,
}
use dignus_actor_server_rust.Core.Outcome.{Outcome, returned, panicked}
use dignus_actor_server_rust.Core.System.{ActorSystem, Spawned, begin_shutdown}

-- What one turn of a loop observes, while other threads work: `live_count`, the time, and
-- `live_count` again. `none` is its panic on the registry's poisoned mutex.
pub record Turn : Type 0 where
  pub live : Option ℕ
  pub now : ℕ
  pub live_again : Option ℕ

-- How a wait ends: `stop_dispatchers` and a normal return, an error with a number of remaining
-- actors, a panic; or it goes on.
pub data Waited : Type 0 where
  stopped unwound waiting : Waited
  timed_out : (remaining_actors : ℕ) → Waited

-- `checked_add`, on an `Instant` whose last moment is `limit`.
unfoldable pub deadline_of : (limit now timeout : ℕ) → Option ℕ
deadline_of limit now timeout = if leb (now + timeout) limit then some (now + timeout) else none

abbrev pub is_past : Option ℕ → ℕ → Bool
is_past none now = false
is_past (some deadline) now = leb deadline now

abbrev pub failed : Option ℕ → Waited
failed none = unwound
failed (some remaining) = timed_out remaining

-- One turn of `shutdown_timeout`; `rest` are the turns behind it.
unfoldable pub turn_timeout : Option ℕ → ℕ → Option ℕ → Option ℕ → Waited → Waited
turn_timeout deadline now live_again none rest = unwound
turn_timeout deadline now live_again (some zero) rest = stopped
turn_timeout deadline now live_again (some (suc n)) rest =
    if is_past deadline now then failed live_again else rest

unfoldable pub timeout_loop : Option ℕ → List Turn → Waited
unfolding turn_timeout
timeout_loop deadline [] = waiting
timeout_loop deadline (t ∷ ts) =
    turn_timeout deadline t.now t.live_again t.live (timeout_loop deadline ts)

unfoldable pub turn_dispose : Option ℕ → Waited → Waited
turn_dispose none rest = unwound
turn_dispose (some zero) rest = stopped
turn_dispose (some (suc n)) rest = rest

unfoldable pub dispose_loop : List Turn → Waited
unfolding turn_dispose
dispose_loop [] = waiting
dispose_loop (t ∷ ts) = turn_dispose t.live (dispose_loop ts)

module _ {A : Type 0} where
  -- `begin_shutdown` has run; `w` is what the loop behind it does. The runners are those that were
  -- killed.
  unfoldable pub begun_then :
      Outcome (ActorSystem A) (List (Spawned A))
      → Waited
      → Outcome (ActorSystem A) (List (Spawned A) × Waited)
  begun_then (panicked s) w = panicked s
  begun_then (returned runners s) w = returned (runners, w) s

  -- `now` is the time at which the deadline is made, and `limit` the clock's last moment.
  unfoldable pub shutdown_timeout :
      ActorSystem A
      → (limit now timeout : ℕ) → List Turn
      → Outcome (ActorSystem A) (List (Spawned A) × Waited)
  unfolding begun_then
  shutdown_timeout s limit now timeout ts =
      begun_then (begin_shutdown s) (timeout_loop (deadline_of limit now timeout) ts)

  unfoldable pub dispose :
      ActorSystem A → List Turn → Outcome (ActorSystem A) (List (Spawned A) × Waited)
  unfolding begun_then
  dispose s ts = begun_then (begin_shutdown s) (dispose_loop ts)
