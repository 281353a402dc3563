-- ===== src/Network/Handler/Sound.antt =====
-- What the uses of sessions leave true: no write and no close is forgotten.
use dignus_actor_server_rust.Common.{
  ℕ, ◌≡◌, refl, ◌⊎◌, Bool, true, false, ◌||◌, List, [], ◌∷◌, ◌++◌, ◌==◌, arith,
}
use dignus_actor_server_rust.Network.SendBuffer.{has_pending}
use dignus_actor_server_rust.Network.Session.{send, close}
use dignus_actor_server_rust.Network.Handler.{
  Env, after_send, after_close, Uses, unused, then_send, then_close,
}

abbrev pub mem : ℕ → List ℕ → Bool
mem t [] = false
mem t (u ∷ us) = (u == t) || mem t us

pub mem-append : (t : ℕ) (us vs : List ℕ) → mem t (us ++ vs) ≡ (mem t us || mem t vs)
mem-append t [] vs = refl
mem-append t (u ∷ us) vs = ground (arith, mem-append t us vs)

-- An open session: bytes that wait are written when the socket can take them or when its token comes
-- up, in the queue of the reactor or in the rest of one that was taken out; a close that was
-- requested is queued too.
pub record Sound (e : Env) (writable : Bool) (writes closes : List ℕ) (t : ℕ) : Type 0 where
  pub named : (e.heap t).token ≡ t
  pub alive : (e.heap t).is_disposed ≡ false
  pub written :
      (has_pending (e.heap t).outbound ≡ false)
      ⊎ ((writable ≡ true) ⊎ ((mem t e.shared.pending_writes || mem t writes) ≡ true))
  pub closing :
      ((e.heap t).close_requested ≡ false)
      ⊎ ((mem t e.shared.pending_closes || mem t closes) ≡ true)

module _ (writable : Bool) (writes closes : List ℕ) (t : ℕ) where
  send-Sound :
      (e : Env) (u : ℕ) (bytes : List ℕ)
      → Sound e writable writes closes t
      → Sound (after_send e u bytes) writable writes closes t
  unfolding send
  send-Sound e u bytes v =
      ground (arith, mem-append t e.shared.pending_writes ((e.heap u).token ∷ []))

  close-Sound :
      (e : Env) (u : ℕ)
      → Sound e writable writes closes t
      → Sound (after_close e u) writable writes closes t
  unfolding close
  close-Sound e u v = ground (arith, mem-append t e.shared.pending_closes ((e.heap u).token ∷ []))

  pub Uses-Sound :
      {e f : Env} → Uses e f → Sound e writable writes closes t → Sound f writable writes closes t
  Uses-Sound unused v = v
  Uses-Sound (then_send {f} s u bytes) v = send-Sound f u bytes (Uses-Sound s v)
  Uses-Sound (then_close {f} s u) v = close-Sound f u (Uses-Sound s v)

-- A queue with something in it has its reactor woken.
abbrev pub AwakeWrites : Env → Type 0
AwakeWrites e = (e.shared.pending_writes ≡ []) ⊎ (e.shared.woken ≡ true)

abbrev pub AwakeCloses : Env → Type 0
AwakeCloses e = (e.shared.pending_closes ≡ []) ⊎ (e.shared.woken ≡ true)

send-Awake :
    (e : Env) (u : ℕ) (bytes : List ℕ)
    → (AwakeWrites e → AwakeWrites (after_send e u bytes))
      × (AwakeCloses e → AwakeCloses (after_send e u bytes))
unfolding send
send-Awake e u bytes = (λ v. ground arith, λ v. ground arith)

close-Awake :
    (e : Env) (u : ℕ)
    → (AwakeWrites e → AwakeWrites (after_close e u))
      × (AwakeCloses e → AwakeCloses (after_close e u))
unfolding close
close-Awake e u = (λ v. ground arith, λ v. ground arith)

pub Uses-AwakeWrites : {e f : Env} → Uses e f → AwakeWrites e → AwakeWrites f
Uses-AwakeWrites unused v = v
Uses-AwakeWrites (then_send {f} s u bytes) v = (send-Awake f u bytes).0 (Uses-AwakeWrites s v)
Uses-AwakeWrites (then_close {f} s u) v = (close-Awake f u).0 (Uses-AwakeWrites s v)

pub Uses-AwakeCloses : {e f : Env} → Uses e f → AwakeCloses e → AwakeCloses f
Uses-AwakeCloses unused v = v
Uses-AwakeCloses (then_send {f} s u bytes) v = (send-Awake f u bytes).1 (Uses-AwakeCloses s v)
Uses-AwakeCloses (then_close {f} s u) v = (close-Awake f u).1 (Uses-AwakeCloses s v)
