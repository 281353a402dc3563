-- ===== src/Common/Options.antt =====
-- `Option` for code that may panic: chains of calls, and what holds of their results.

use mathlib.Core.Option.{Option, none, some}
use mathlib.Core.Logic.{◌⊎◌, inl, inr}

infixl 5 ◌>>=◌
abbrev pub ◌>>=◌ {ℓ κ} : {A : Type ℓ} {B : Type κ} → Option A → (A → Option B) → Option B
none >>= f = none
some a >>= f = f a

-- A property of the result, where there is one.
abbrev pub Returns {ℓ κ} : {A : Type ℓ} → (A → Type κ) → Option A → Type κ
Returns P none = Unit
Returns P (some a) = P a

pub Returns-bind {ℓ κ μ} :
    {A : Type ℓ} {B : Type ℓ} {Q : A → Type κ} (P : B → Type μ) (o : Option A) (f : A → Option B)
    → Returns Q o
    → ((a : A) → Q a → Returns P (f a))
    → Returns P (o >>= f)
Returns-bind P none f q h = tt
Returns-bind P (some a) f q h = h a q

-- Where nothing needs to be known of the first result.
pub Returns-after {ℓ κ} :
    {A : Type ℓ} {B : Type ℓ} (P : B → Type κ) (o : Option A) (f : A → Option B)
    → ((a : A) → Returns P (f a))
    → Returns P (o >>= f)
Returns-after P none f h = tt
Returns-after P (some a) f h = h a

pub map_right {ℓ κ μ} : {A : Type ℓ} {B : Type κ} {C : Type μ} → (B → C) → A ⊎ B → A ⊎ C
map_right f (inl a) = inl a
map_right f (inr b) = inr (f b)

pub Returns-map {ℓ κ μ} :
    {A : Type ℓ} {Q : A → Type κ} {P : A → Type μ} (o : Option A)
    → ((a : A) → Q a → P a)
    → Returns Q o
    → Returns P o
Returns-map none h q = tt
Returns-map (some a) h q = h a q
