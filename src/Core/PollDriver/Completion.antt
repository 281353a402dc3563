-- ===== src/Core/PollDriver/Completion.antt =====
-- One future, one completion.
use dignus_actor_server_rust.Common.{
  ℕ, zero, suc, ◌≡◌, refl, ◌⊎◌, inl, inr, Bool, false, Option, none, some, List, [], ◌∷◌, cons?,
}
use dignus_actor_server_rust.Core.PollDriver.{
  FuturePoll, still, finished, unwound, PollDriver, arm, after_poll, wake_if, poll_slot, poll,
}

module _ {F C : Type 0} (poll_future : F → FuturePoll F × Bool) where
  -- The callbacks that `n` polls call, in order.
  abbrev pub callbacks : ℕ → PollDriver F C → List C
  callbacks zero d = []
  callbacks (suc n) d =
      let rest = callbacks n (poll F C poll_future d).driver in
      cons? (poll F C poll_future d).callback rest

  callbacks-none : (n : ℕ) (d : PollDriver F C) → d.slot ≡ none → callbacks n d ≡ []
  unfolding poll poll_slot
  callbacks-none zero d e = refl
  callbacks-none (suc n) d e = rw e (callbacks-none n _ refl)

  -- A poll of a driver that holds a future.
  poll_cases :
      (d : PollDriver F C) (f : F) (c : Option C)
      → d.slot ≡ some (f, c)
      → ((g : F) × ((poll F C poll_future d).driver.slot ≡ some (g, c))
          × ((poll F C poll_future d).callback ≡ none))
        ⊎ (((poll F C poll_future d).driver.slot ≡ none)
            × (((poll F C poll_future d).callback ≡ none)
                ⊎ ((poll F C poll_future d).callback ≡ c)))
  unfolding poll poll_slot after_poll
  poll_cases d f c e = rw e (
      go (poll_future f).0 (
        wake_if F C (poll_future f).1 (record d { is_poll_scheduled = false; slot = some (f, c) })))
    where
      go :
          (r : FuturePoll F) (s : Bool × PollDriver F C)
          → ((g : F) × ((after_poll F C s.1 c s.0 r).driver.slot ≡ some (g, c))
              × ((after_poll F C s.1 c s.0 r).callback ≡ none))
            ⊎ (((after_poll F C s.1 c s.0 r).driver.slot ≡ none)
                × (((after_poll F C s.1 c s.0 r).callback ≡ none)
                    ⊎ ((after_poll F C s.1 c s.0 r).callback ≡ c)))
      go (still g) s = inl (g, refl, refl)
      go finished s = inr (refl, inr refl)
      go unwound s = inr (refl, inl refl)

  callbacks-some :
      (n : ℕ) (d : PollDriver F C) (f : F) (c : C)
      → d.slot ≡ some (f, some c)
      → (callbacks n d ≡ []) ⊎ (callbacks n d ≡ c ∷ [])
  callbacks-some zero d f c e = inl refl
  callbacks-some (suc n) d f c e = elim (poll_cases d f (some c) e) [
    | inl (g, slot, callback) ↦
        rw callback (callbacks-some n (poll F C poll_future d).driver g c slot)
    | inr (slot, inl callback) ↦
        inl (rw (callback, callbacks-none n (poll F C poll_future d).driver slot) refl)
    | inr (slot, inr callback) ↦
        inr (rw (callback, callbacks-none n (poll F C poll_future d).driver slot) refl)
  ]

  -- However often a driver is polled after a future was put in, and whatever the future does, the
  -- completion callback is called at most once.
  pub arm-callbacks :
      (d : PollDriver F C) (f : F) (c : C) (n : ℕ)
      → (callbacks n (arm F C d f (some c)) ≡ []) ⊎ (callbacks n (arm F C d f (some c)) ≡ c ∷ [])
  unfolding arm
  arm-callbacks d f c n = callbacks-some n _ f c refl
