-- ===== src/Core/Dispatcher/Signal.antt =====
-- dignus-actor-core/src/dispatcher/signal.rs: the mutex and the condition variable under the `signaled`
-- of a dispatcher, with any number of threads in `wait` and `release`. A step is what one thread does
-- while it holds the mutex. The condition variable is the standard library's: `wait` lets go of the
-- mutex as it falls asleep, `notify_one` wakes a sleeper if there is one, and a sleeper may also wake
-- for no reason.
use dignus_actor_server_rust.Common.{
  ℕ, zero, suc, ◌+◌, ◌≤◌, ◌<◌, ◌≡◌, ◌⊎◌, inl, refl, Bool, true, false, arith,
}

-- `waits`, `returned` and `releases` count the calls and are for the statements.
pub record Signal : Type 0 where
  pub is_signaled : Bool
  pub awake : ℕ  -- threads in `wait` that want the mutex, to test the flag
  pub asleep : ℕ  -- threads that the condition variable holds
  pub waits : ℕ  -- calls of `wait`
  pub returned : ℕ  -- calls of `wait` that have returned
  pub releases : ℕ  -- calls of `release`

unfoldable pub new : Signal
new = record { is_signaled = false; awake = 0; asleep = 0; waits = 0; returned = 0; releases = 0 }

pub data Step (s : Signal) : Signal → Type 0 where
  -- `wait`
  enter : Step s (record s { awake = s.awake + 1; waits = s.waits + 1 })
  sleep :
      {n : ℕ}
      → s.awake ≡ n + 1
      → s.is_signaled ≡ false
      → Step s (record s { awake = n; asleep = s.asleep + 1 })
  return :
      {n : ℕ}
      → s.awake ≡ n + 1
      → s.is_signaled ≡ true
      → Step s (record s { awake = n; is_signaled = false; returned = s.returned + 1 })
  -- A sleeper that wakes for no reason.
  stir : {n : ℕ} → s.asleep ≡ n + 1 → Step s (record s { asleep = n; awake = s.awake + 1 })
  -- `release`
  release_one :
      {n : ℕ}
      → s.asleep ≡ n + 1
      → Step s (record s {
        is_signaled = true;
        releases = s.releases + 1;
        asleep = n;
        awake = s.awake + 1;
      })
  release_none : s.asleep ≡ 0 → Step s (record s { is_signaled = true; releases = s.releases + 1 })

pub data Reach : Signal → Type 0 where
  start : Reach new
  later : {s t : Signal} → Reach s → Step s t → Reach t

-- The calls of `wait` add up, each return has used up a release of its own, and a raised flag has a
-- thread on its way to it, if any thread is in `wait`.
record Inv (s : Signal) : Type 0 where
  calls : s.waits ≡ s.returned + s.awake + s.asleep
  consumed :
      ((s.is_signaled ≡ false) × (s.returned ≤ s.releases))
      ⊎ ((s.is_signaled ≡ true) × (s.returned < s.releases))
  heard : (s.is_signaled ≡ false) ⊎ ((s.asleep ≡ 0) ⊎ (0 < s.awake))

new-Inv : Inv new
unfolding new
new-Inv = record { calls = refl; consumed = inl (refl, omega arith); heard = inl refl }

Step-Inv : {s t : Signal} → Step s t → Inv s → Inv t
Step-Inv enter v = ground arith
Step-Inv (sleep h p) v = ground arith
Step-Inv (return h p) v = ground arith
Step-Inv (stir h) v = ground arith
Step-Inv (release_one h) v = ground arith
Step-Inv (release_none h) v = ground arith

Reach-Inv : {s : Signal} → Reach s → Inv s
Reach-Inv start = new-Inv
Reach-Inv (later r h) = Step-Inv h (Reach-Inv r)

positive : (n : ℕ) → 0 < n → (m : ℕ) × (n ≡ m + 1)
positive zero h = ground arith
positive (suc m) h = (m, omega arith)

-- A return of `wait`.
abbrev pub Taken : Signal → Signal → Type 0
Taken s t = Step s t × (t.returned ≡ s.returned + 1) × (t.is_signaled ≡ false)

bounded : {s : Signal} → Inv s → s.returned ≤ s.releases
bounded v = ground arith

-- The flag is an auto-reset event: while it is up, if calls of `wait` are outstanding, one of them can
-- take it and return at once: they are never all asleep then, whatever has woken for no reason and
-- whichever thread took an earlier release; and no two calls of `wait` have returned for one `release`.
pub release_heard :
    {s : Signal}
    → Reach s
    → s.is_signaled ≡ true
    → s.returned < s.waits
    → (t : Signal) × Taken s t × (t.returned ≤ t.releases)
release_heard {s} r up waiting =
    let v = Reach-Inv r in
    let (m, e) = positive s.awake (ground arith) in
    let t : Signal = record s { awake = m; is_signaled = false; returned = s.returned + 1 } in
    let h = return e up in (t, (h, refl, refl), bounded (Reach-Inv (later r h)))
