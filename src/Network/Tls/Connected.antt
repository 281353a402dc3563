-- ===== src/Network/Tls/Connected.antt =====
-- dignus-actor-network/src/tls_transport.rs: `TlsTransportFactory` and `TlsTransport` as a transport of
-- the reactor.
use dignus_actor_server_rust.Common.{
  ℕ, zero, suc, ◌<◌, ◌≡◌, refl, sym, ap, ◌∙◌, ltb, length-drop, Bool, true, false, Option, none,
  some, List, [], length, arith, Bool-cases, inl, inr,
}
use dignus_actor_server_rust.Network.SendBuffer.{
  SendBuffer, has_pending, pending_slice, advance, pending_slice-advance, has_pending-pending_slice,
}
use dignus_actor_server_rust.Network.Tcp.{TransportOutcome, closed, WriteResult}
use dignus_actor_server_rust.Network.Handler.{TransportApi}
use dignus_actor_server_rust.Network.Tls.{
  ServerConnection, Encrypted, encrypted, encrypt, after_encrypt, read, write,
}
use dignus_actor_server_rust.Network.Reactor.Sessions.{TcpConn, next_of}

-- A step of `advance` takes a byte off those that wait, at least.
drained :
    (b : SendBuffer) (n : ℕ)
    → ltb 0 (length (pending_slice b)) ≡ true
    → length (pending_slice (advance b (suc n))) < length (pending_slice b)
drained b n h =
    ground
      (arith, ap length (pending_slice-advance b (suc n)), length-drop (suc n) (pending_slice b))

module _ (api : ServerConnection) where
  open api use {Tls, write_plain}

  -- `TlsTransport` with its stream.
  pub record TlsConn : Type 0 where
    pub stream : TcpConn
    pub connection : Tls

  -- The fuel of a write is always enough (`write_returns`), so the last clause is never taken.
  abbrev pub written :
      TlsConn
      → SendBuffer
      → Option (TransportOutcome × SendBuffer × Tls × List ℕ)
      → TransportOutcome × SendBuffer × TlsConn
  written conn b (some (outcome, b', connection, sent)) = (
    outcome,
    b',
    record { stream = record (conn.stream) { sent = sent }; connection = connection },
  )
  written conn b none = (closed, b, conn)

  abbrev pub read_tls_stream : TlsConn → TransportOutcome × List ℕ × TlsConn
  unfolding read
  read_tls_stream conn =
      let (script, reads) = next_of (conn.stream).reads in
      let (outcome, bytes, connection) = read api script conn.connection [] in
      (
        outcome,
        bytes,
        record { stream = record (conn.stream) { reads = reads }; connection = connection },
      )

  abbrev pub write_tls_stream : TlsConn → SendBuffer → TransportOutcome × SendBuffer × TlsConn
  unfolding write
  write_tls_stream conn outbound =
      let (script, writes) = next_of (conn.stream).writes in
      written (record conn { stream = record (conn.stream) { writes = writes } }) outbound
        (write api script outbound conn.connection (conn.stream).sent)

  -- `TlsTransportFactory::create` for a stream, with the connection that `ServerConnection::new` makes.
  abbrev pub tls : (ℕ → Tls) → (ℕ → TcpConn) → TransportApi
  tls connection net = record {
    Conn = TlsConn;
    create = λ stream. record { stream = net stream; connection = connection stream };
    read = read_tls_stream;
    write = write_tls_stream;
    wants_write = λ conn. api.wants_write conn.connection;
  }

  -- A loop that has not run out of its fuel.
  abbrev Returned : Encrypted api → Type 0
  Returned r =
      (failed : Bool) × (b : SendBuffer) × (connection : Tls) × (r ≡ encrypted failed b connection)

  encrypt_next :
      (fuel : ℕ) (b : SendBuffer) (c : Tls) (count : Option ℕ)
      → ((n : ℕ) → Returned (encrypt api fuel (advance b (suc n)) c))
      → Returned (elim count [
        | none ↦ encrypted true b c
        | some zero ↦ encrypted false b c
        | some (suc n) ↦ encrypt api fuel (advance b (suc n)) c
      ])
  encrypt_next fuel b c none next = (true, b, c, refl)
  encrypt_next fuel b c (some zero) next = (false, b, c, refl)
  encrypt_next fuel b c (some (suc n)) next = next n

  encrypt-Returned :
      (fuel : ℕ) (b : SendBuffer) (c : Tls)
      → length (pending_slice b) < fuel
      → Returned (encrypt api fuel b c)
  unfolding encrypt
  encrypt-Returned zero b c h = absurd (omega (arith, h))
  encrypt-Returned (suc fuel) b c h = elim (Bool-cases (has_pending b)) [
    | inl waits ↦
        rw (waits, encrypt)
          (encrypt_next fuel b _ _ (λ n.
            encrypt-Returned fuel (advance b (suc n)) _
              (omega (arith, h, drained b n (sym (has_pending-pending_slice b) ∙ waits)))))
    | inr none_left ↦ rw (none_left, encrypt) (false, b, c, refl)
  ]

  -- A write returns, whatever rustls and the socket answer.
  pub write_returns :
      (results : List WriteResult) (b : SendBuffer) (c : Tls) (sent : List ℕ)
      → (x : TransportOutcome × SendBuffer × Tls × List ℕ) × (write api results b c sent ≡ some x)
  unfolding write
  write_returns results b c sent =
      let (failed, b', c', e) =
        encrypt-Returned (suc (length (pending_slice b))) b c (omega arith) in
      rw e (go failed b' c')
    where
      go :
          (failed : Bool) (b' : SendBuffer) (c' : Tls)
          → (x : TransportOutcome × SendBuffer × Tls × List ℕ) × (after_encrypt api results sent
                (encrypted failed b' c')
              ≡ some x)
      go true b' c' = (_, refl)
      go false b' c' = (_, refl)
