-- ===== src/Common/Maps.antt =====
-- `HashMap` with numbers as keys, as an association list: the source never relies on its order
-- except in `close_all`, where any order serves.
use Prim.Native.Nat.{ℕ}
use mathlib.Core.Path.{◌≡◌, refl}
use mathlib.Core.Logic.{◌≢◌}
use mathlib.Core.Option.{Option, none, some}
use mathlib.Core.List.{List, [], ◌∷◌}
use native.Mathlib.Omega.{arith}
use dignus_actor_server_rust.Common.Tests.{◌==◌, if◌then◌else◌}

module _ {ℓ} {V : Type ℓ} where
  abbrev pub lookup : ℕ → List (ℕ × V) → Option V
  lookup k [] = none
  lookup k ((j, v) ∷ m) = if j == k then some v else lookup k m

  abbrev pub remove : ℕ → List (ℕ × V) → List (ℕ × V)
  remove k [] = []
  remove k ((j, v) ∷ m) = let rest = remove k m in if j == k then rest else (j, v) ∷ rest

  abbrev pub insert : ℕ → V → List (ℕ × V) → List (ℕ × V)
  insert k v m = (k, v) ∷ remove k m

  abbrev pub keys : List (ℕ × V) → List ℕ
  keys [] = []
  keys ((k, v) ∷ m) = k ∷ keys m

  pub lookup-remove :
      (k j : ℕ) (m : List (ℕ × V)) → lookup j (remove k m) ≡ (if k == j then none else lookup j m)
  lookup-remove k j [] = ground arith
  lookup-remove k j ((i, v) ∷ m) = ground (arith, lookup-remove k j m)

  pub lookup-insert :
      (k j : ℕ) (v : V) (m : List (ℕ × V))
      → lookup j (insert k v m) ≡ (if k == j then some v else lookup j m)
  lookup-insert k j v m = ground (arith, lookup-remove k j m)

module _ {ℓ} {V : Type ℓ} where
  -- A write through `get_mut`: the entry keeps its place, and a missing key stays missing.
  abbrev pub modify : ℕ → V → List (ℕ × V) → List (ℕ × V)
  modify k v [] = []
  modify k v ((j, w) ∷ m) = let rest = modify k v m in if j == k then (j, v) ∷ m else (j, w) ∷ rest

  pub modify_same : (k : ℕ) (v : V) (m : List (ℕ × V)) → lookup k m ≡ some v → modify k v m ≡ m
  modify_same k v [] h = refl
  modify_same k v ((j, w) ∷ m) h = ground (arith, modify_same k v m)

  pub modify-modify :
      (k : ℕ) (v w : V) (m : List (ℕ × V)) → modify k v (modify k w m) ≡ modify k v m
  modify-modify k v w [] = refl
  modify-modify k v w ((j, u) ∷ m) = ground (arith, modify-modify k v w m)

  pub lookup-modify_self :
      (k : ℕ) (v w : V) (m : List (ℕ × V)) → lookup k m ≡ some w → lookup k (modify k v m) ≡ some v
  lookup-modify_self k v w [] h = cc
  lookup-modify_self k v w ((j, u) ∷ m) h = ground (arith, lookup-modify_self k v w m)

  pub lookup-modify_ne :
      (k j : ℕ) (v : V) (m : List (ℕ × V)) → k ≢ j → lookup j (modify k v m) ≡ lookup j m
  lookup-modify_ne k j v [] h = refl
  lookup-modify_ne k j v ((i, u) ∷ m) h = ground (arith, lookup-modify_ne k j v m)

  pub lookup-insert_self : (k : ℕ) (v : V) (m : List (ℕ × V)) → lookup k (insert k v m) ≡ some v
  lookup-insert_self k v m = ground arith

  pub lookup-remove_self : (k : ℕ) (m : List (ℕ × V)) → lookup k (remove k m) ≡ none
  lookup-remove_self k m = ground (arith, lookup-remove k k m)

  pub remove-modify : (k : ℕ) (v : V) (m : List (ℕ × V)) → remove k (modify k v m) ≡ remove k m
  remove-modify k v [] = refl
  remove-modify k v ((j, w) ∷ m) = ground (arith, remove-modify k v m)

  pub remove-remove : (k : ℕ) (m : List (ℕ × V)) → remove k (remove k m) ≡ remove k m
  remove-remove k [] = refl
  remove-remove k ((j, w) ∷ m) = ground (arith, remove-remove k m)

  pub remove-insert : (k : ℕ) (v : V) (m : List (ℕ × V)) → remove k (insert k v m) ≡ remove k m
  remove-insert k v m = ground (arith, remove-remove k m)

-- A write to one place of a store.
abbrev pub put : {A : Type 0} → (ℕ → A) → ℕ → A → ℕ → A
put f i a j = if i == j then a else f j
