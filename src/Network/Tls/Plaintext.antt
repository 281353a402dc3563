-- ===== src/Network/Tls/Plaintext.antt =====
-- No byte of plaintext is lost, doubled or reordered between the user's buffers and rustls.
use dignus_actor_server_rust.Common.{
  ℕ, zero, suc, ◌≡◌, refl, sym, ap, ◌∙◌, ◌⊎◌, inl, inr, Bool, true, false, Option, none, some, List,
  [], ◌∷◌, ◌++◌, length, arith, append_assoc, append-nil, map_right,
}
use dignus_actor_server_rust.Network.Tcp.{
  TransportOutcome, closed, ReadResult, read_bytes, read_would_block, read_interrupted, read_failed,
}
use dignus_actor_server_rust.Network.Tls.{
  ServerConnection, ServerConnectionLaws, Received, ends, goes_on, unless_closed, read_plaintext,
  processed, receive, read,
}

no_items : {A : Type 0} (xs : List A) → 0 ≡ length xs → xs ≡ []
no_items [] h = refl
no_items (x ∷ xs) h = absurd (omega (arith, h))

module _ {api : ServerConnection} (laws : ServerConnectionLaws api) where
  open api use {Tls}
  open laws use {decrypted, readable, taken_in}

  -- All that was decrypted has been handed on, in order.
  abbrev Delivered : List ℕ → Tls → List ℕ → Tls → Type 0
  Delivered inbound tls inbound' tls' =
      (readable tls' ≡ [])
      × ((more : List ℕ) × (decrypted tls' ≡ decrypted tls ++ more) × (inbound' ≡ inbound ++ more))

  abbrev DeliveredBy : List ℕ → Tls → Received api → Type 0
  DeliveredBy inbound tls (ends inbound' tls') = Unit
  DeliveredBy inbound tls (goes_on inbound' tls') = Delivered inbound tls inbound' tls'

  unless_closed-Delivered :
      (peer_has_closed : Bool) (inbound : List ℕ) (tls : Tls) (inbound' : List ℕ) (tls' : Tls)
      → Delivered inbound tls inbound' tls'
      → DeliveredBy inbound tls (unless_closed api peer_has_closed inbound' tls')
  unless_closed-Delivered true inbound tls inbound' tls' h = tt
  unless_closed-Delivered false inbound tls inbound' tls' h = h

  exact-Delivered :
      (peer_has_closed : Bool) (inbound : List ℕ) (tls : Tls) (more : List ℕ)
      (y : Bool × List ℕ × Tls)
      → y.0 ≡ true
      → y.1 ≡ more
      → readable y.2 ≡ []
      → decrypted y.2 ≡ decrypted tls ++ more
      → DeliveredBy inbound tls (read_plaintext api peer_has_closed inbound y)
  exact-Delivered peer_has_closed inbound tls more (true, bytes, tls') ok same emptied d =
      unless_closed-Delivered peer_has_closed inbound tls (inbound ++ bytes) tls'
        (emptied, (more, d, ap (λ l. inbound ++ l) same))
  exact-Delivered peer_has_closed inbound tls more (false, bytes, tls') ok same emptied d = cc

  -- Once the packets are processed, with `more` decrypted.
  processed-Delivered :
      (inbound : List ℕ) (tls : Tls) (x : Option (ℕ × Bool)) (tls' : Tls) (more : List ℕ)
      → decrypted tls' ≡ decrypted tls ++ more
      → readable tls' ≡ more
      → ((n : ℕ) (peer_has_closed : Bool)
          → x ≡ some (n, peer_has_closed)
          → n ≡ length (readable tls'))
      → DeliveredBy inbound tls (processed api inbound (x, tls'))
  processed-Delivered inbound tls none tls' more d e count = tt
  processed-Delivered inbound tls (some (zero, peer_has_closed)) tls' more d e count =
      let left : readable tls' ≡ [] = no_items (readable tls') (count zero peer_has_closed refl) in
      let nothing : more ≡ [] = sym e ∙ left in
      unless_closed-Delivered peer_has_closed inbound tls inbound tls'
        (left, (more, d, sym (append-nil inbound) ∙ ap (λ l. inbound ++ l) (sym nothing)))
  processed-Delivered inbound tls (some (suc n, peer_has_closed)) tls' more d e count =
      let all : suc n ≡ length (readable tls') = count (suc n) peer_has_closed refl in
      let (ok, same, emptied, kept) = laws.read_exact_all tls' in
      rw all (
        exact-Delivered peer_has_closed inbound tls more
          (api.read_exact tls' (length (readable tls'))) ok (same ∙ e) emptied (kept ∙ d))

  receive-Delivered :
      (bytes : List ℕ) (tls : Tls) (inbound : List ℕ)
      → readable tls ≡ []
      → DeliveredBy inbound tls (receive api bytes tls inbound)
  receive-Delivered bytes tls inbound e =
      let c = api.read_tls tls bytes in
      let (more, d, r) = laws.process_decrypts c in
      processed-Delivered inbound tls (api.process_new_packets c).0 (api.process_new_packets c).1
        more (d ∙ ap (λ l. l ++ more) (laws.read_tls_decrypted tls bytes))
        (r ∙ ap (λ l. l ++ more) (laws.read_tls_readable tls bytes ∙ e))
        (λ n peer_has_closed f. laws.process_counts c n peer_has_closed f)

  abbrev ReadsOn : List ℕ → Tls → TransportOutcome × List ℕ × Tls → Type 0
  ReadsOn inbound tls (outcome, inbound', tls') =
      (outcome ≡ closed) ⊎ Delivered inbound tls inbound' tls'

  join-ReadsOn :
      (inbound : List ℕ) (tls : Tls) (inbound₁ : List ℕ) (tls₁ : Tls)
      (x : TransportOutcome × List ℕ × Tls)
      → Delivered inbound tls inbound₁ tls₁
      → ReadsOn inbound₁ tls₁ x
      → ReadsOn inbound tls x
  join-ReadsOn inbound tls inbound₁ tls₁ (outcome, inbound', tls') (emptied, (more, d, i)) h =
      map_right
        (λ (rest : Delivered inbound₁ tls₁ inbound' tls').
          let (left, (later, d', i')) = rest in
          (
            left,
            (
              more ++ later,
              d' ∙ ap (λ l. l ++ later) d ∙ append_assoc (decrypted tls) more later,
              i' ∙ ap (λ l. l ++ later) i ∙ append_assoc inbound more later,
            ),
          ))
        h

  go_on :
      (results : List ReadResult) (inbound : List ℕ) (tls : Tls)
      → ((tls' : Tls) (inbound' : List ℕ)
          → readable tls' ≡ []
          → ReadsOn inbound' tls' (read api results tls' inbound'))
      → (x : Received api) → DeliveredBy inbound tls x
      → ReadsOn inbound tls (elim x [
        | ends inbound' tls' ↦ (closed, inbound', tls')
        | goes_on inbound' tls' ↦ read api results tls' inbound'
      ])
  go_on results inbound tls next (ends inbound' tls') h = inl refl
  go_on results inbound tls next (goes_on inbound' tls') h =
      join-ReadsOn inbound tls inbound' tls' (read api results tls' inbound') h
        (next tls' inbound' h.0)

  -- A read that leaves the connection open hands on, in order behind what was there, all that rustls
  -- has decrypted meanwhile, and leaves nothing with it that the next readable event would have to
  -- wait for; if nothing was left before.
  pub read-Delivered :
      (results : List ReadResult) (tls : Tls) (inbound : List ℕ)
      → readable tls ≡ []
      → let (outcome, inbound', tls') = read api results tls inbound in
        (outcome ≡ closed)
        ⊎ ((readable tls' ≡ [])
            × ((more : List ℕ) × (decrypted tls' ≡ decrypted tls ++ more)
                × (inbound' ≡ inbound ++ more)))
  unfolding read
  read-Delivered [] tls inbound e =
      inr (e, ([], sym (append-nil (decrypted tls)), sym (append-nil inbound)))
  read-Delivered (read_bytes [] ∷ results) tls inbound e = inl refl
  read-Delivered (read_bytes (b ∷ bs) ∷ results) tls inbound e =
      go_on results inbound tls (λ tls' inbound'. read-Delivered results tls' inbound')
        (receive api (b ∷ bs) tls inbound) (receive-Delivered (b ∷ bs) tls inbound e)
  read-Delivered (read_would_block ∷ results) tls inbound e =
      inr (e, ([], sym (append-nil (decrypted tls)), sym (append-nil inbound)))
  read-Delivered (read_interrupted ∷ results) tls inbound e = read-Delivered results tls inbound e
  read-Delivered (read_failed ∷ results) tls inbound e = inl refl
