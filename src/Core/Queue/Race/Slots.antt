-- ===== src/Core/Queue/Race/Slots.antt =====
-- What holds of the ring's slots between any two steps, and lemmas on lists of items.
use dignus_actor_server_rust.Common.{
  ℕ, zero, suc, ◌+◌, ◌%◌, ◌<◌, ◌≤◌, ◌≡◌, ◌≢◌, refl, ap, ◌∙◌, ◌⊎◌, false, Option, none, some, List,
  [], ◌∷◌, ◌++◌, length, take, map, ◌==◌, arith,
}
use native.Mathlib.Nat.{mod-eq_of_lt}
use dignus_actor_server_rust.Core.Queue.Modulo.{mod_injective}
use dignus_actor_server_rust.Core.Queue.Race.{
  Producer, outside, entered, loaded, matched, claimed, written, Consumer, resting, taking,
  released, Ring, slot, empty,
}

abbrev pub nth : {T : Type 0} → List T → ℕ → Option T
nth [] n = none
nth (x ∷ xs) zero = some x
nth (x ∷ xs) (suc n) = nth xs n

pub nth-append_of_lt :
    {T : Type 0} (xs ys : List T) (n : ℕ) → n < length xs → nth (xs ++ ys) n ≡ nth xs n
nth-append_of_lt [] ys n h = absurd (omega arith)
nth-append_of_lt (x ∷ xs) ys zero h = refl
nth-append_of_lt (x ∷ xs) ys (suc n) h = nth-append_of_lt xs ys n (omega arith)

pub nth-append_last : {T : Type 0} (xs : List T) (x : T) → nth (xs ++ (x ∷ [])) (length xs) ≡ some x
nth-append_last [] x = refl
nth-append_last (y ∷ xs) x = nth-append_last xs x

-- The first items, each of them there.
abbrev pub first : {T : Type 0} → ℕ → List T → List (Option T)
first n xs = map some (take n xs)

pub first-suc :
    {T : Type 0} (xs : List T) (n : ℕ)
    → n < length xs
    → first (n + 1) xs ≡ first n xs ++ (nth xs n ∷ [])
first-suc [] n h = absurd (omega arith)
first-suc (x ∷ xs) zero h = refl
first-suc (x ∷ xs) (suc n) h =
    let shift : suc n + 1 ≡ suc (n + 1) = omega arith in
    ap (λ k. first k (x ∷ xs)) shift ∙ ap (λ l. some x ∷ l) (first-suc xs n (omega arith))

pub first-append :
    {T : Type 0} (xs ys : List T) (n : ℕ) → n ≤ length xs → first n (xs ++ ys) ≡ first n xs
first-append xs ys zero h = refl
first-append [] ys (suc n) h = absurd (omega arith)
first-append (x ∷ xs) ys (suc n) h = ap (λ l. some x ∷ l) (first-append xs ys n (omega arith))

pub length-first : {T : Type 0} (n : ℕ) (xs : List T) → n ≤ length xs → length (first n xs) ≡ n
length-first zero xs h = refl
length-first (suc n) [] h = absurd (omega arith)
length-first (suc n) (x ∷ xs) h = omega (arith, length-first n xs (omega arith))

-- Two positions of a window of `capacity` stand at different slots.
pub apart :
    (c lo p q : ℕ) → lo ≤ p → p < lo + c → lo ≤ q → q < lo + c → p ≢ q → (p % c == q % c) ≡ false
apart c lo p q a b d e ne = ground (arith, mod_injective p q c, mod_injective q p c)

-- The positions before it are done with.
abbrev pub head_of : Consumer → ℕ → ℕ
head_of released c = c + 1
head_of _ c = c

abbrev pub got_of : Consumer → ℕ → ℕ
got_of resting c = c
got_of _ c = c + 1

module _ {T : Type 0} where
  abbrev pub head : Ring T → ℕ
  head r = head_of r.consumer r.consumer_index

  -- The slot of position `p` is thread `t`'s to fill.
  pub record Owns (r : Ring T) (t p : ℕ) : Type 0 where
    pub winner : r.owner p ≡ t
    pub live : head r ≤ p
    pub won : p < r.producer_index
    pub unpublished : r.sequence (slot r p) ≡ p

  abbrev pub Fine : Ring T → ℕ → Producer T → Type 0
  Fine r t outside = Unit
  Fine r t (entered x) = Unit
  Fine r t (loaded x p) = p ≤ r.producer_index
  Fine r t (matched x p) =
      (p ≤ r.producer_index) × ((p < r.producer_index) ⊎ (p < head r + r.capacity))
  Fine r t (claimed x p) = Owns r t p × (nth r.accepted p ≡ some x)
  Fine r t (written p) = Owns r t p × (r.item (slot r p) ≡ nth r.accepted p)

  pub record Inv (r : Ring T) : Type 0 where
    pub big : 2 ≤ r.capacity
    pub behind : head r ≤ r.producer_index
    pub ahead : r.producer_index ≤ head r + r.capacity
    pub counted : length r.accepted ≡ r.producer_index
    pub got : got_of r.consumer r.consumer_index ≤ r.producer_index
    pub in_order : r.received ≡ first (got_of r.consumer r.consumer_index) r.accepted
    pub filled :
        (p : ℕ)
        → head r ≤ p
        → p < r.producer_index
        → (r.sequence (slot r p) ≡ p)
          ⊎ ((r.sequence (slot r p) ≡ p + 1)
              × ((r.item (slot r p) ≡ nth r.accepted p)
                  ⊎ ((r.consumer ≡ taking) × (p ≡ r.consumer_index))))
    pub seen : r.consumer ≡ taking → r.sequence (slot r r.consumer_index) ≡ r.consumer_index + 1
    pub vacant :
        (p : ℕ) → r.producer_index ≤ p → p < head r + r.capacity → r.sequence (slot r p) ≡ p
    pub past : (p : ℕ) → p < head r → p < r.sequence (slot r p)
    pub fine : (t : ℕ) → Fine r t (r.producer t)

  pub empty-Inv : (capacity : ℕ) → 2 ≤ capacity → Inv (empty T capacity)
  unfolding empty
  empty-Inv capacity h = record {
    big = h;
    behind = omega arith;
    ahead = omega arith;
    counted = refl;
    got = omega arith;
    in_order = refl;
    filled = λ p a b. absurd (omega arith);
    seen = λ e. cc;
    vacant = λ p a b. mod-eq_of_lt (omega arith);
    past = λ p a. absurd (omega arith);
    fine = λ t. tt;
  }
