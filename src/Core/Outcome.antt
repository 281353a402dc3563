-- ===== src/Core/Outcome.antt =====
-- A method that may panic: it returns a value, or unwinds, and in both cases leaves the state that
-- it had made until then.
use dignus_actor_server_rust.Common.{◌≡◌, refl, Bool, true, false, if◌then◌else◌}

pub data Outcome (S A : Type 0) : Type 0 where
  returned : A → S → Outcome S A
  panicked : S → Outcome S A

abbrev pub state_of : {S A : Type 0} → Outcome S A → S
state_of (returned a s) = s
state_of (panicked s) = s

-- What holds of the state behind both branches of a test.
pub if_state {ℓ} :
    {S A : Type 0} (P : S → Type ℓ) (b : Bool) (x y : Outcome S A)
    → (b ≡ true → P (state_of x))
    → (b ≡ false → P (state_of y))
    → P (state_of (if b then x else y))
if_state P true x y f g = f refl
if_state P false x y f g = g refl
