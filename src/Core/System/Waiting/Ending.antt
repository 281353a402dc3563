-- ===== src/Core/System/Waiting/Ending.antt =====
-- How a shutdown ends.
use dignus_actor_server_rust.Common.{
  ◌||◌, ap, sym, ◌∙◌, subst, ℕ, zero, suc, ◌+◌, ◌<◌, ◌≡◌, ◌≢◌, refl, Bool, true, false, Option,
  none, some, List, [], ◌∷◌, leb, arith, Bool-cases, inl, inr, ◌⊎◌,
}
use dignus_actor_server_rust.Core.Outcome.{returned}
use dignus_actor_server_rust.Core.System.{ActorSystem, Spawned, begin_shutdown}
use dignus_actor_server_rust.Common.{get_elem?, ◌≤◌}
use dignus_actor_server_rust.Core.Registry.{target}
use dignus_actor_server_rust.Core.Registry.Invariant.{IsValid}
use dignus_actor_server_rust.Core.Registry.Snapshot.{snapshot_live_complete}
use dignus_actor_server_rust.Core.System.Waiting.{
  Turn, Waited, stopped, unwound, waiting, timed_out, deadline_of, is_past, failed, turn_timeout,
  timeout_loop, turn_dispose, dispose_loop, begun_then, shutdown_timeout, dispose,
}

turn_without_deadline :
    (now : ℕ) (live_again live : Option ℕ) (rest rest' : Waited)
    → rest ≡ rest'
    → turn_timeout none now live_again live rest ≡ turn_dispose live rest'
unfolding turn_timeout turn_dispose
turn_without_deadline now live_again none rest rest' e = refl
turn_without_deadline now live_again (some zero) rest rest' e = refl
turn_without_deadline now live_again (some (suc n)) rest rest' e = e

without_deadline : (ts : List Turn) → timeout_loop none ts ≡ dispose_loop ts
unfolding timeout_loop dispose_loop
without_deadline [] = refl
without_deadline (t ∷ ts) =
    turn_without_deadline t.now t.live_again t.live (timeout_loop none ts) (dispose_loop ts)
      (without_deadline ts)

-- The turns before `t` all saw live actors, before the deadline.
pub data Decided (deadline : Option ℕ) (t : Turn) : List Turn → Type 0 where
  now_decided : {ts : List Turn} → Decided deadline t (t ∷ ts)
  later_decided :
      {s : Turn} {ts : List Turn} {n : ℕ}
      → s.live ≡ some (suc n)
      → is_past deadline s.now ≡ false
      → Decided deadline t ts
      → Decided deadline t (s ∷ ts)

-- What a turn must have seen for the wait to end so.
abbrev pub Reason : Option ℕ → Turn → Waited → Type 0
Reason deadline t stopped = t.live ≡ some 0
Reason deadline t unwound =
    (t.live ≡ none)
    ⊎ ((n : ℕ) × (t.live ≡ some (suc n)) × (is_past deadline t.now ≡ true) × (t.live_again ≡ none))
Reason deadline t waiting = ⊥
Reason deadline t (timed_out remaining) =
    (n : ℕ) × (t.live ≡ some (suc n))
    × (is_past deadline t.now ≡ true)
    × (t.live_again ≡ some remaining)

-- Some turn begins at the deadline or behind it.
abbrev pub some_past : Option ℕ → List Turn → Bool
some_past deadline [] = false
some_past deadline (t ∷ ts) = is_past deadline t.now || some_past deadline ts

failed_ne : (o : Option ℕ) → failed o ≢ waiting
failed_ne none e = cc
failed_ne (some k) e = cc

turn_returns :
    (deadline : Option ℕ) (now : ℕ) (live_again live : Option ℕ) (rest : Waited)
    → (is_past deadline now ≡ true) ⊎ (rest ≢ waiting)
    → turn_timeout deadline now live_again live rest ≢ waiting
unfolding turn_timeout
turn_returns deadline now live_again none rest h = λ e. cc
turn_returns deadline now live_again (some zero) rest h = λ e. cc
turn_returns deadline now live_again (some (suc n)) rest (inl past) = rw past (failed_ne live_again)
turn_returns deadline now live_again (some (suc n)) rest (inr ne) =
    elim (Bool-cases (is_past deadline now)) [
      | inl past ↦ rw past (failed_ne live_again)
      | inr soon ↦ rw soon ne
    ]

returns :
    (deadline : Option ℕ) (ts : List Turn)
    → some_past deadline ts ≡ true
    → timeout_loop deadline ts ≢ waiting
unfolding timeout_loop
returns deadline [] h = absurd (cc h)
returns deadline (t ∷ ts) h =
    turn_returns deadline t.now t.live_again t.live (timeout_loop deadline ts)
      (elim (Bool-cases (is_past deadline t.now)) [
        | inl past ↦ inl past
        | inr soon ↦ inr (returns deadline ts (ap (λ b. b || some_past deadline ts) (sym soon) ∙ h))
      ])

-- A turn ends the wait for a reason, or passes it on.
turn-Reason :
    (deadline : Option ℕ) (t : Turn) (live : Option ℕ) (rest : Waited)
    → t.live ≡ live
    → let w = turn_timeout deadline t.now t.live_again live rest in
      Reason deadline t w
      ⊎ ((n : ℕ) × (live ≡ some (suc n)) × (is_past deadline t.now ≡ false) × (w ≡ rest))
unfolding turn_timeout
turn-Reason deadline t none rest e = inl (inl e)
turn-Reason deadline t (some zero) rest e = inl e
turn-Reason deadline t (some (suc n)) rest e = elim (Bool-cases (is_past deadline t.now)) [
  | inl past ↦ inl (rw past (failure t.live_again refl past))
  | inr soon ↦ inr (n, refl, soon, rw soon refl)
]
  where
    failure :
        (o : Option ℕ)
        → t.live_again ≡ o
        → is_past deadline t.now ≡ true
        → Reason deadline t (failed o)
    failure none again past = inr (n, e, past, again)
    failure (some k) again past = (n, e, past, again)

reasons :
    (deadline : Option ℕ) (ts : List Turn)
    → timeout_loop deadline ts ≢ waiting
    → (t : Turn) × Decided deadline t ts × Reason deadline t (timeout_loop deadline ts)
unfolding timeout_loop
reasons deadline [] ne = absurd (ne refl)
reasons deadline (t ∷ ts) ne =
    elim (turn-Reason deadline t t.live (timeout_loop deadline ts) refl) [
      | inl why ↦ (t, now_decided, why)
      | inr passed ↦
          let (n, live, soon, same) = passed in
          let (u, before, why) = reasons deadline ts (λ e. ne (same ∙ e)) in
          (u, later_decided live soon before, subst (Reason deadline u) (sym same) why)
    ]

-- A shutdown whose deadline lies behind the clock's last moment does just what `dispose` does,
-- whatever the turns observe.
pub shutdown_timeout-dispose :
    {A : Type 0} (s : ActorSystem A) (limit now timeout : ℕ) (ts : List Turn)
    → limit < now + timeout
    → shutdown_timeout s limit now timeout ts ≡ dispose s ts
unfolding shutdown_timeout dispose deadline_of
shutdown_timeout-dispose s limit now timeout ts late =
    let beyond : leb (now + timeout) limit ≡ false = ground (arith, late) in
    rw beyond (ap (begun_then (begin_shutdown s)) (without_deadline ts))

-- What a first shutdown kills.
begin_shutdown-live :
    {A : Type 0} (s : ActorSystem A) (i g : ℕ) (runner : Spawned A)
    → IsValid s.registry
    → s.registry.poisoned ≡ false
    → s.is_disposed ≡ false
    → target (Spawned A) s.registry s.registry i g ≡ some runner
    → (k : ℕ) × (runners : List (Spawned A)) × (begin_shutdown s
        ≡ returned runners (record s { is_disposed = true }))
      × (get_elem? runners k ≡ some runner)
unfolding begin_shutdown
begin_shutdown-live {A} s i g runner v healthy first found =
    let (k, runners, e, at) = snapshot_live_complete s.registry i g runner v healthy found in
    (k, runners, rw (first, e) refl, at)

-- A first shutdown with a deadline, of a system whose registry is healthy, kills every live actor
-- and returns once a turn begins at the deadline or behind it. One turn decides how, and all turns
-- before that one saw live actors before the deadline: it stops the dispatchers only if the turn saw
-- no live actor, gives an error only if the turn saw one at the deadline or behind it, with the number
-- that is counted then, and panics only if the registry's mutex was poisoned since.
pub shutdown_timeout_returns :
    {A : Type 0} (s : ActorSystem A) (i g : ℕ) (runner : Spawned A) (limit now timeout : ℕ)
    (ts : List Turn)
    → IsValid s.registry
    → s.registry.poisoned ≡ false
    → s.is_disposed ≡ false
    → target (Spawned A) s.registry s.registry i g ≡ some runner
    → now + timeout ≤ limit
    → some_past (some (now + timeout)) ts ≡ true
    → let deadline = some (now + timeout) in
      (k : ℕ) × (runners : List (Spawned A)) × (w : Waited) × (shutdown_timeout s limit now timeout
          ts
        ≡ returned (runners, w) (record s { is_disposed = true }))
      × (get_elem? runners k ≡ some runner)
      × (w ≢ waiting)
      × ((t : Turn) × Decided deadline t ts × Reason deadline t w)
unfolding shutdown_timeout deadline_of begun_then
shutdown_timeout_returns s i g runner limit now timeout ts v healthy first found within late =
    let deadline : Option ℕ = some (now + timeout) in
    let in_range : leb (now + timeout) limit ≡ true = ground (arith, within) in
    let (k, runners, e, at) = begin_shutdown-live s i g runner v healthy first found in
    let ne = returns deadline ts late in
    (k, runners, timeout_loop deadline ts, rw (e, in_range) refl, at, ne, reasons deadline ts ne)
