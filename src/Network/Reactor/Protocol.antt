-- ===== src/Network/Reactor/Protocol.antt =====
-- The calls of the handler, session by session: accepted once, then data, then disconnected once.
use dignus_actor_server_rust.Common.{
  ℕ, ◌+◌, ◌≤◌, ◌<◌, ◌≡◌, refl, sym, ◌∙◌, Bool, true, false, Option, none, some, List, [], ◌∷◌, ◌++◌,
  ◌==◌, if◌then◌else◌, arith, lookup, insert, modify, remove, lookup-insert, lookup-remove,
}
use dignus_actor_server_rust.Network.Reactor.{Call, accepted, disconnected, data_of}

-- Where a session stands by the calls so far; `broken` is a call out of turn.
pub data Phase : Type 0 where
  unseen open_now gone broken : Phase

abbrev pub next : Phase → Call → Phase
next unseen (accepted t) = open_now
next open_now (data_of t bytes) = open_now
next open_now (disconnected t) = gone
next _ _ = broken

abbrev pub token_of : Call → ℕ
token_of (accepted t) = t
token_of (disconnected t) = t
token_of (data_of t bytes) = t

abbrev pub status_from : Phase → ℕ → List Call → Phase
status_from p t [] = p
status_from p t (c ∷ cs) = status_from (if token_of c == t then next p c else p) t cs

abbrev pub status : ℕ → List Call → Phase
status t calls = status_from unseen t calls

abbrev pub is_open : Phase → Bool
is_open open_now = true
is_open _ = false

abbrev pub is_broken : Phase → Bool
is_broken broken = true
is_broken _ = false

abbrev pub is_some : {V : Type 0} → Option V → Bool
is_some none = false
is_some (some v) = true

status-append :
    (p : Phase) (t : ℕ) (calls : List Call) (c : Call)
    → status_from p t (calls ++ (c ∷ []))
      ≡ (if token_of c == t then next (status_from p t calls) c else status_from p t calls)
status-append p t [] c = refl
status-append p t (d ∷ calls) c = status-append (if token_of d == t then next p d else p) t calls c

-- The calls fit the open connections, and tokens from `next_token` on are unused.
pub record Obeys {C : Type 0} (connections : List (ℕ × C)) (next_token : ℕ) (calls : List Call)
    : Type 0 where
  pub opened : (t : ℕ) → is_open (status t calls) ≡ is_some (lookup t connections)
  pub obeyed : (t : ℕ) → is_broken (status t calls) ≡ false
  pub fresh : (t : ℕ) → next_token ≤ t → status t calls ≡ unseen

module _ {C : Type 0} where
  lookup-modify_some :
      (k t : ℕ) (v : C) (m : List (ℕ × C))
      → is_some (lookup t (modify k v m)) ≡ is_some (lookup t m)
  lookup-modify_some k t v [] = refl
  lookup-modify_some k t v ((j, w) ∷ m) = ground (arith, lookup-modify_some k t v m)

  pub modify-Obeys :
      {m : List (ℕ × C)} {n : ℕ} {calls : List Call} (k : ℕ) (v : C)
      → Obeys m n calls
      → Obeys (modify k v m) n calls
  modify-Obeys {m} k v o = record {
    opened = λ t. o.opened t ∙ sym (lookup-modify_some k t v m);
    obeyed = o.obeyed;
    fresh = o.fresh;
  }

  pub skip-Obeys :
      {m : List (ℕ × C)} {n : ℕ} {calls : List Call} → Obeys m n calls → Obeys m (n + 1) calls
  skip-Obeys o = record {
    opened = o.opened;
    obeyed = o.obeyed;
    fresh = λ t h. o.fresh t (omega arith);
  }

  pub accepted-Obeys :
      {m : List (ℕ × C)} {n : ℕ} {calls : List Call} (v : C)
      → Obeys m n calls
      → Obeys (insert n v m) (n + 1) (calls ++ (accepted n ∷ []))
  accepted-Obeys {m} {n} {calls} v o =
      let unused = o.fresh n (omega arith) in
      record {
        opened = λ t.
            ground
              (arith, status-append unseen t calls (accepted n), lookup-insert n t v m, o.opened t);
        obeyed = λ t. ground (arith, status-append unseen t calls (accepted n), o.obeyed t);
        fresh = λ t h.
            ground (arith, status-append unseen t calls (accepted n), o.fresh t (omega arith));
      }

  open_at :
      {m : List (ℕ × C)} {n : ℕ} {calls : List Call} (k : ℕ) {v : C}
      → Obeys m n calls
      → lookup k m ≡ some v
      → (status k calls ≡ open_now) × (k < n)
  open_at {m} {n} {calls} k o h = ground (arith, o.opened k, o.fresh k)

  pub data-Obeys :
      {m : List (ℕ × C)} {n : ℕ} {calls : List Call} (k : ℕ) (bytes : List ℕ) {v : C}
      → Obeys m n calls
      → lookup k m ≡ some v
      → Obeys m n (calls ++ (data_of k bytes ∷ []))
  data-Obeys {m} {n} {calls} k bytes o h =
      let (here, below) = open_at k o h in
      record {
        opened = λ t. ground (arith, status-append unseen t calls (data_of k bytes), o.opened t);
        obeyed = λ t. ground (arith, status-append unseen t calls (data_of k bytes), o.obeyed t);
        fresh = λ t h. ground (arith, status-append unseen t calls (data_of k bytes), o.fresh t h);
      }

  pub disconnected-Obeys :
      {m : List (ℕ × C)} {n : ℕ} {calls : List Call} (k : ℕ) {v : C}
      → Obeys m n calls
      → lookup k m ≡ some v
      → Obeys (remove k m) n (calls ++ (disconnected k ∷ []))
  disconnected-Obeys {m} {n} {calls} k o h =
      let (here, below) = open_at k o h in
      record {
        opened = λ t.
            ground (
              arith,
              status-append unseen t calls (disconnected k),
              lookup-remove k t m,
              o.opened t,
            );
        obeyed = λ t. ground (arith, status-append unseen t calls (disconnected k), o.obeyed t);
        fresh = λ t h. ground (arith, status-append unseen t calls (disconnected k), o.fresh t h);
      }
