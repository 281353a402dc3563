-- ===== src/Core/Yield/Tasks.antt =====
-- Where the tasks are between any two steps: every task is in one place only.
use dignus_actor_server_rust.Common.{
  ℕ, ◌+◌, ◌<◌, ◌≤◌, ◌≡◌, ◌≢◌, refl, sym, ap, ap₂, ◌∙◌, false, Option, some, List, [], ◌∷◌, ◌++◌,
  length, arith, ◌==◌, ==-eq, ==-ne, cons?-append, Bool-cases, put, inl, inr, cons?,
}
use dignus_actor_server_rust.Core.Yield.{
  Yield, Poster, outside, popped, filled, admitted, Worker, idle, ready, exited, took, called,
  emptied, Place, unborn, working, pooled, posting, queued, new,
}

-- Two stores that agree everywhere but at `t`.
abbrev pub Agree : {A : Type 0} → ℕ → (ℕ → A) → (ℕ → A) → Type 0
Agree t f g = (k : ℕ) → (t == k) ≡ false → g k ≡ f k

pub put-Agree : {A : Type 0} (f : ℕ → A) (t : ℕ) (a : A) → Agree t f (put f t a)
put-Agree f t a k e = rw e refl

pub put_self : {A : Type 0} (f : ℕ → A) (t : ℕ) (a : A) → put f t a t ≡ a
put_self f t a = ground arith

pub same-Agree : {A : Type 0} (f : ℕ → A) (t : ℕ) → Agree t f f
same-Agree f t k e = refl

-- Tasks in different places are different tasks.
pub elsewhere :
    (place : ℕ → Place) (t k : ℕ) (x y : Place)
    → place t ≡ x
    → place k ≡ y
    → x ≢ y
    → (t == k) ≡ false
elsewhere place t k x y at_t at_k ne = elim (Bool-cases (t == k)) [
  | inl same ↦ absurd (ne (sym at_t ∙ ap place (==-eq t k same) ∙ at_k))
  | inr other ↦ other
]

abbrev pub Pooled : (ℕ → Place) → List ℕ → Type 0
Pooled place [] = Unit
Pooled place (t ∷ ts) = (place t ≡ pooled (length ts)) × Pooled place ts

module _ {C : Type 0} where
  abbrev pub Queued : (ℕ → Place) → (ℕ → Option C) → ℕ → List ℕ → Type 0
  Queued place callback n [] = Unit
  Queued place callback n (t ∷ ts) =
      (place t ≡ queued n) × ((c : C) × (callback t ≡ some c)) × Queued place callback (n + 1) ts

  -- What the tasks of a list hold.
  abbrev pub held : (ℕ → Option C) → List ℕ → List C
  held callback [] = []
  held callback (t ∷ ts) = cons? (callback t) (held callback ts)

  abbrev pub Fine : (ℕ → Place) → (ℕ → Option C) → ℕ → Poster C → Type 0
  Fine place callback u outside = Unit
  Fine place callback u (popped c t) = place t ≡ posting u
  Fine place callback u (filled c t) = (place t ≡ posting u) × (callback t ≡ some c)
  Fine place callback u (admitted c t) = (place t ≡ posting u) × (callback t ≡ some c)

  abbrev pub Working : (ℕ → Place) → Worker C → Type 0
  Working place idle = Unit
  Working place ready = Unit
  Working place exited = Unit
  Working place (took o t) = (place t ≡ working) × ((c : C) × (o ≡ some c))
  Working place (called t) = place t ≡ working
  Working place (emptied t) = place t ≡ working

  -- The continuation that the worker has taken and not called.
  abbrev pub hand : Worker C → List C
  hand (took o t) = cons? o []
  hand _ = []

  pub record Inv (s : Yield C) : Type 0 where
    pub in_pool : Pooled s.place s.pool
    pub in_queue : Queued s.place s.callback s.served s.scheduled
    pub with_poster : (u : ℕ) → Fine s.place s.callback u (s.poster u)
    pub with_worker : Working s.place s.worker
    pub none_yet : (k : ℕ) → s.created ≤ k → s.place k ≡ unborn
    pub in_order : s.executed ++ (hand s.worker ++ held s.callback s.scheduled) ≡ s.accepted

  pub new-Inv : Inv (new C)
  unfolding new
  new-Inv = record {
    in_pool = tt;
    in_queue = tt;
    with_poster = λ u. tt;
    with_worker = tt;
    none_yet = λ k h. refl;
    in_order = refl;
  }

  -- One task, which is at `x`, has moved, or what it holds has changed. The rest is as it was.
  module _ (place place' : ℕ → Place) (callback callback' : ℕ → Option C) (t : ℕ) (x : Place)
      (at_x : place t ≡ x) (places : Agree t place place')
      (callbacks : Agree t callback callback') where
    pub stays : (k : ℕ) (y : Place) → x ≢ y → place k ≡ y → place' k ≡ y
    stays k y ne at_y = places k (elsewhere place t k x y at_x at_y ne) ∙ at_y

    pub keeps :
        (k : ℕ) (y : Place) (o : Option C) → x ≢ y → place k ≡ y → callback k ≡ o → callback' k ≡ o
    keeps k y o ne at_y e = callbacks k (elsewhere place t k x y at_x at_y ne) ∙ e

    pub Pooled-rest :
        (ts : List ℕ)
        → ((n : ℕ) → n < length ts → x ≢ pooled n)
        → Pooled place ts
        → Pooled place' ts
    Pooled-rest [] ne h = tt
    Pooled-rest (k ∷ ts) ne (at_k, h) = (
      stays k (pooled (length ts)) (ne (length ts) (omega arith)) at_k,
      Pooled-rest ts (λ n le. ne n (omega (arith, le))) h,
    )

    pub Queued-rest :
        (ts : List ℕ) (n : ℕ)
        → ((m : ℕ) → n ≤ m → x ≢ queued m)
        → Queued place callback n ts
        → Queued place' callback' n ts × (held callback' ts ≡ held callback ts)
    Queued-rest [] n ne h = (tt, refl)
    Queued-rest (k ∷ ts) n ne (at_k, (c, full), h) =
        let (rest, same) = Queued-rest ts (n + 1) (λ m le. ne m (omega (arith, le))) h in
        let kept = keeps k (queued n) (some c) (ne n (omega arith)) at_k full in
        (
          (stays k (queued n) (ne n (omega arith)) at_k, (c, kept), rest),
          ap₂ cons? (kept ∙ sym full) same,
        )

    pub Fine-rest :
        (u : ℕ) (p : Poster C) → x ≢ posting u → Fine place callback u p → Fine place' callback' u p
    Fine-rest u outside ne h = tt
    Fine-rest u (popped c k) ne h = stays k (posting u) ne h
    Fine-rest u (filled c k) ne (h, e) =
        (stays k (posting u) ne h, keeps k (posting u) (some c) ne h e)
    Fine-rest u (admitted c k) ne (h, e) =
        (stays k (posting u) ne h, keeps k (posting u) (some c) ne h e)

    pub Working-rest : (w : Worker C) → x ≢ working → Working place w → Working place' w
    Working-rest idle ne h = tt
    Working-rest ready ne h = tt
    Working-rest exited ne h = tt
    Working-rest (took o k) ne (h, e) = (stays k working ne h, e)
    Working-rest (called k) ne h = stays k working ne h
    Working-rest (emptied k) ne h = stays k working ne h

  pub Queued-append :
      (place : ℕ → Place) (callback : ℕ → Option C) (ts : List ℕ) (n t : ℕ) (c : C)
      → Queued place callback n ts
      → place t ≡ queued (n + length ts)
      → callback t ≡ some c
      → Queued place callback n (ts ++ (t ∷ []))
        × (held callback (ts ++ (t ∷ [])) ≡ held callback ts ++ (c ∷ []))
  Queued-append place callback [] n t c h at_t full =
      let here : queued (n + 0) ≡ queued n = ap queued (omega arith) in
      ((at_t ∙ here, (c, full), tt), ap (λ o. cons? o []) full)
  Queued-append place callback (k ∷ ts) n t c (at_k, some_k, h) at_t full =
      let here : queued (n + length (k ∷ ts)) ≡ queued (n + 1 + length ts) =
        ap queued (omega arith) in
      let (rest, same) = Queued-append place callback ts (n + 1) t c h (at_t ∙ here) full in
      (
        (at_k, some_k, rest),
        ap (cons? (callback k)) same ∙ cons?-append (callback k) (held callback ts) (c ∷ []),
      )

  -- One thread has moved.
  pub by_poster :
      (place : ℕ → Place) (callback : ℕ → Option C) (poster : ℕ → Poster C) (u : ℕ) (p : Poster C)
      → Fine place callback u p
      → ((v : ℕ) → u ≢ v → Fine place callback v (poster v))
      → (v : ℕ) → Fine place callback v (put poster u p v)
  by_poster place callback poster u p moved others v = elim (Bool-cases (u == v)) [
    | inl same ↦ rw (same, ← ==-eq u v same) moved
    | inr ne ↦ rw ne (others v (==-ne u v ne))
  ]
