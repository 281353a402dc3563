-- ===== src/Core/Queue/Modulo.antt =====
-- Positions and slots: a window of `capacity` positions meets each slot once.
use dignus_actor_server_rust.Common.{ℕ, ◌+◌, ◌%◌, ◌≤◌, ◌<◌, ◌≡◌, arith}
use native.Mathlib.Nat.{div-add-mod}

pub mod_injective : (a b n : ℕ) → a ≤ b → b < a + n → a % n ≡ b % n → a ≡ b
mod_injective a b n h k e = grind (arith, div-add-mod)

pub mod_wrap : (a n : ℕ) → (a + n) % n ≡ a % n
mod_wrap a n = grind arith
