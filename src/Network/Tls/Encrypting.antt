-- ===== src/Network/Tls/Encrypting.antt =====
-- What a write moves from the send buffer to rustls, and that it ends.
use dignus_actor_server_rust.Common.{
  ℕ, zero, suc, ◌≤◌, ◌<◌, ◌≡◌, refl, ap, ◌∙◌, Bool, true, false, Option, none, some, List, [], ◌∷◌,
  ◌++◌, length, take, arith, append_assoc, length-drop, take-append-drop, Bool-cases, inl, inr,
  if_cases,
}
use dignus_actor_server_rust.Network.SendBuffer.{
  SendBuffer, IsValid, has_pending, pending_slice, advance, pending_slice-advance, advance-IsValid,
}
use dignus_actor_server_rust.Network.Tcp.{
  TransportOutcome, continue_on, closed, WriteResult, takes, write_would_block, write_interrupted,
  write_failed,
}
use dignus_actor_server_rust.Network.Tls.{
  ServerConnection, ServerConnectionLaws, Encrypted, encrypted, encrypt, send_records,
  after_encrypt, write,
}

module _ {api : ServerConnection} (laws : ServerConnectionLaws api) where
  open api use {Tls}
  open laws use {taken_in}

  -- The plaintext that rustls took and the bytes that wait, as one stream, and the buffer's validity.
  abbrev Keeps : List ℕ → SendBuffer → Tls → Type 0
  Keeps stream b tls = IsValid b × (taken_in tls ++ pending_slice b ≡ stream)

  -- A loop that ends.
  record Ends (stream : List ℕ) (r : Encrypted api) : Type 0 where
    failed : Bool
    outbound : SendBuffer
    tls : Tls
    result : r ≡ encrypted failed outbound tls
    keeps : Keeps stream outbound tls

  moved :
      (b : SendBuffer) (tls tls' : Tls) (n : ℕ)
      → taken_in tls' ≡ taken_in tls ++ take n (pending_slice b)
      → taken_in tls' ++ pending_slice (advance b n) ≡ taken_in tls ++ pending_slice b
  moved b tls tls' n e =
      ap (λ l. l ++ pending_slice (advance b n)) e
      ∙ append_assoc (taken_in tls) (take n (pending_slice b)) (pending_slice (advance b n))
      ∙ ap (λ l. taken_in tls ++ (take n (pending_slice b) ++ l)) (pending_slice-advance b n)
      ∙ ap (λ l. taken_in tls ++ l) (take-append-drop n (pending_slice b))

  -- After one call of `writer().write`.
  encrypt_step :
      (fuel : ℕ) (b : SendBuffer) (tls : Tls) (count : Option ℕ) (tls' : Tls)
      → IsValid b
      → ((n : ℕ)
          → count ≡ some n
          → (n ≤ length (pending_slice b))
            × (taken_in tls' ≡ taken_in tls ++ take n (pending_slice b)))
      → (count ≡ none → taken_in tls' ≡ taken_in tls)
      → ((n : ℕ)
          → count ≡ some (suc n)
          → Ends
              (taken_in tls' ++ pending_slice (advance b (suc n)))
              (encrypt api fuel (advance b (suc n)) tls'))
      → Ends (taken_in tls ++ pending_slice b) (elim count [
        | none ↦ encrypted true b tls'
        | some zero ↦ encrypted false b tls'
        | some (suc n) ↦ encrypt api fuel (advance b (suc n)) tls'
      ])
  encrypt_step fuel b tls none tls' v took fails next = record {
    failed = true;
    outbound = b;
    tls = tls';
    result = refl;
    keeps = (v, ap (λ l. l ++ pending_slice b) (fails refl));
  }
  encrypt_step fuel b tls (some zero) tls' v took fails next = record {
    failed = false;
    outbound = b;
    tls = tls';
    result = refl;
    keeps = (
      v,
      ap (λ l. l ++ pending_slice b) ((took zero refl).1)
          ∙ append_assoc (taken_in tls) [] (pending_slice b),
    );
  }
  encrypt_step fuel b tls (some (suc n)) tls' v took fails next =
      let rest = next n refl in
      record {
        failed = rest.failed;
        outbound = rest.outbound;
        tls = rest.tls;
        result = rest.result;
        keeps = (rest.keeps.0, rest.keeps.1 ∙ moved b tls tls' (suc n) ((took (suc n) refl).1));
      }

  encrypt-Ends :
      (fuel : ℕ) (b : SendBuffer) (tls : Tls)
      → IsValid b
      → length (pending_slice b) < fuel
      → Ends (taken_in tls ++ pending_slice b) (encrypt api fuel b tls)
  unfolding encrypt
  encrypt-Ends zero b tls v h = absurd (omega arith)
  encrypt-Ends (suc fuel) b tls v h = elim (Bool-cases (has_pending b)) [
    | inl some_left ↦
        let tls' = (api.write_plain tls (pending_slice b)).1 in
        rw (some_left, encrypt)
          (encrypt_step fuel b tls (api.write_plain tls (pending_slice b)).0 tls' v
            (laws.write_takes tls (pending_slice b)) (laws.write_fails tls (pending_slice b))
            (λ n e.
              let (fits, _) = laws.write_takes tls (pending_slice b) (suc n) e in
              encrypt-Ends fuel (advance b (suc n)) tls' (advance-IsValid (suc n) v) (
                omega (
                  arith,
                  fits,
                  ap length (pending_slice-advance b (suc n)),
                  length-drop (suc n) (pending_slice b),
                ))))
    | inr none_left ↦
        rw (none_left, encrypt)
          (record { failed = false; outbound = b; tls = tls; result = refl; keeps = (v, refl) })
  ]

  send_step :
      (results : List WriteResult) (tls tls' : Tls) (sent bytes : List ℕ) (wants : Bool)
      → taken_in tls' ≡ taken_in tls
      → ((sent' : List ℕ) → taken_in (send_records api results tls' sent').1 ≡ taken_in tls')
      → let x : TransportOutcome × Tls × List ℕ = elim wants [
        | false ↦ (continue_on, tls, sent)
        | true ↦ elim bytes [
          | [] ↦ (continue_on, tls', sent)
          | b ∷ bs ↦ send_records api results tls' (sent ++ (b ∷ bs))
        ]
      ] in
        taken_in x.1 ≡ taken_in tls
  send_step results tls tls' sent bytes false e next = refl
  send_step results tls tls' sent [] true e next = e
  send_step results tls tls' sent (b ∷ bs) true e next = next (sent ++ (b ∷ bs)) ∙ e

  -- `write_tls` does not touch the plaintext.
  send_records-taken_in :
      (results : List WriteResult) (tls : Tls) (sent : List ℕ)
      → taken_in (send_records api results tls sent).1 ≡ taken_in tls
  unfolding send_records
  send_records-taken_in [] tls sent = refl
  send_records-taken_in (takes n ∷ results) tls sent =
      send_step results tls (api.write_tls tls n).1 sent (api.write_tls tls n).0
        (api.wants_write tls) (laws.write_tls_takes tls n)
        (λ sent'. send_records-taken_in results (api.write_tls tls n).1 sent')
  send_records-taken_in (write_would_block ∷ results) tls sent = refl
  send_records-taken_in (write_interrupted ∷ results) tls sent =
      if_cases (λ (x : TransportOutcome × Tls × List ℕ). taken_in x.1 ≡ taken_in tls)
        (api.wants_write tls) (λ _. send_records-taken_in results tls sent) (λ _. refl)
  send_records-taken_in (write_failed ∷ results) tls sent =
      if_cases (λ (x : TransportOutcome × Tls × List ℕ). taken_in x.1 ≡ taken_in tls)
        (api.wants_write tls) (λ _. refl) (λ _. refl)

  after_encrypt-Keeps :
      (results : List WriteResult) (sent stream : List ℕ) (failed : Bool) (b : SendBuffer)
      (tls : Tls)
      → Keeps stream b tls
      → (outcome : TransportOutcome) × (b' : SendBuffer) × (tls' : Tls) × (sent' : List ℕ)
        × (after_encrypt api results sent (encrypted failed b tls)
            ≡ some (outcome, b', tls', sent'))
        × Keeps stream b' tls'
  after_encrypt-Keeps results sent stream true b tls k = (closed, b, tls, sent, refl, k)
  after_encrypt-Keeps results sent stream false b tls k =
      let x = send_records api results tls sent in
      (
        x.0,
        b,
        x.1,
        x.2,
        refl,
        (k.0, ap (λ l. l ++ pending_slice b) (send_records-taken_in results tls sent) ∙ k.1),
      )

  pub write-Keeps :
      (results : List WriteResult) (b : SendBuffer) (tls : Tls) (sent : List ℕ)
      → IsValid b
      → (outcome : TransportOutcome) × (b' : SendBuffer) × (tls' : Tls) × (sent' : List ℕ) × (write
            api results b tls sent
          ≡ some (outcome, b', tls', sent'))
        × (IsValid b' × (taken_in tls' ++ pending_slice b' ≡ taken_in tls ++ pending_slice b))
  unfolding write
  write-Keeps results b tls sent v =
      let e = encrypt-Ends (suc (length (pending_slice b))) b tls v (omega arith) in
      rw e.result (
        after_encrypt-Keeps results sent (taken_in tls ++ pending_slice b) e.failed e.outbound e.tls
          e.keeps)
