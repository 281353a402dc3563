-- ===== src/Network/Tls.antt =====
-- dignus-actor-network/src/tls_transport.rs: the loops of `TlsTransport` around a connection of rustls,
-- which is an interface here. The socket is a script of its answers; one that has ended would block.
pub mod Plaintext
pub mod Encrypting
pub mod Connected
mod Tests
use dignus_actor_server_rust.Common.{
  ℕ, zero, suc, ◌≤◌, ◌<◌, ◌≡◌, Bool, true, false, Option, none, some, List, [], ◌∷◌, ◌++◌, length,
  take, ltb, if◌then◌else◌,
}
use dignus_actor_server_rust.Network.SendBuffer.{
  SendBuffer, has_pending, pending_slice, advance, pending_len,
}
use dignus_actor_server_rust.Network.Tcp.{
  TransportOutcome, continue_on, closed, ReadResult, read_bytes, read_would_block, read_interrupted,
  read_failed, WriteResult, takes, write_would_block, write_interrupted, write_failed,
}

-- `ServerConnection`: `read_tls` of bytes that the socket gives; `process_new_packets`, with the
-- plaintext that can be read and whether the peer has closed, or an error; `reader().read_exact`,
-- with whether it succeeded and what is in the slice then; `writer().write`, with how much it took,
-- or an error; `wants_write`; and `write_tls` to a socket that is ready for so many bytes.
pub record ServerConnection : Type 1 where
  pub Tls : Type 0
  pub read_tls : Tls → List ℕ → Tls
  pub process_new_packets : Tls → Option (ℕ × Bool) × Tls
  pub read_exact : Tls → ℕ → Bool × List ℕ × Tls
  pub write_plain : Tls → List ℕ → Option ℕ × Tls
  pub wants_write : Tls → Bool
  pub write_tls : Tls → ℕ → List ℕ × Tls

module _ (api : ServerConnection) where
  open api use {Tls, read_tls, process_new_packets, read_exact, write_plain, wants_write, write_tls}

  -- What follows a successful `read_tls`: the end of the read, or the plaintext and the connection.
  pub data Received : Type 0 where
    ends : List ℕ → Tls → Received
    goes_on : List ℕ → Tls → Received

  abbrev pub unless_closed : Bool → List ℕ → Tls → Received
  unless_closed true inbound tls = ends inbound tls
  unless_closed false inbound tls = goes_on inbound tls

  abbrev pub read_plaintext : Bool → List ℕ → Bool × List ℕ × Tls → Received
  read_plaintext peer_has_closed inbound (true, bytes, tls) =
      unless_closed peer_has_closed (inbound ++ bytes) tls
  read_plaintext peer_has_closed inbound (false, bytes, tls) = ends (inbound ++ bytes) tls

  abbrev pub processed : List ℕ → Option (ℕ × Bool) × Tls → Received
  processed inbound (none, tls) = ends inbound tls
  processed inbound (some (zero, peer_has_closed), tls) = unless_closed peer_has_closed inbound tls
  processed inbound (some (suc n, peer_has_closed), tls) =
      read_plaintext peer_has_closed inbound (read_exact tls (suc n))

  abbrev pub receive : List ℕ → Tls → List ℕ → Received
  receive bytes tls inbound = processed inbound (process_new_packets (read_tls tls bytes))

  -- `TlsTransport::read`
  unfoldable pub read : List ReadResult → Tls → List ℕ → TransportOutcome × List ℕ × Tls
  read [] tls inbound = (continue_on, inbound, tls)
  read (read_bytes [] ∷ results) tls inbound = (closed, inbound, tls)
  read (read_bytes (b ∷ bs) ∷ results) tls inbound = elim (receive (b ∷ bs) tls inbound) [
    | ends inbound' tls' ↦ (closed, inbound', tls')
    | goes_on inbound' tls' ↦ read results tls' inbound'
  ]
  read (read_would_block ∷ results) tls inbound = (continue_on, inbound, tls)
  read (read_interrupted ∷ results) tls inbound = read results tls inbound
  read (read_failed ∷ results) tls inbound = (closed, inbound, tls)

  -- The first loop of `TlsTransport::write`, with fuel for its rounds: whether it failed, the buffer and
  -- the connection.
  pub data Encrypted : Type 0 where
    encrypted : (failed : Bool) → SendBuffer → Tls → Encrypted
    out_of_fuel : Encrypted

  unfoldable pub encrypt : ℕ → SendBuffer → Tls → Encrypted
  encrypt zero b tls = out_of_fuel
  encrypt (suc fuel) b tls = elim (has_pending b) [
    | false ↦ encrypted false b tls
    | true ↦
        let (count, tls') = write_plain tls (pending_slice b) in
        elim count [
          | none ↦ encrypted true b tls'
          | some zero ↦ encrypted false b tls'
          | some (suc n) ↦ encrypt fuel (advance b (suc n)) tls'
        ]
  ]

  -- Its second loop: the outcome, the connection and what the socket has taken so far.
  unfoldable pub send_records : List WriteResult → Tls → List ℕ → TransportOutcome × Tls × List ℕ
  send_records [] tls sent = (continue_on, tls, sent)
  send_records (takes n ∷ results) tls sent = elim (wants_write tls) [
    | false ↦ (continue_on, tls, sent)
    | true ↦
        let (bytes, tls') = write_tls tls n in
        elim bytes [
          | [] ↦ (continue_on, tls', sent)
          | b ∷ bs ↦ send_records results tls' (sent ++ (b ∷ bs))
        ]
  ]
  send_records (write_would_block ∷ results) tls sent = (continue_on, tls, sent)
  send_records (write_interrupted ∷ results) tls sent =
      let rest = send_records results tls sent in
      if wants_write tls then rest else (continue_on, tls, sent)
  send_records (write_failed ∷ results) tls sent =
      if wants_write tls then (closed, tls, sent) else (continue_on, tls, sent)

  -- `TlsTransport::write`
  abbrev pub after_encrypt :
      List WriteResult → List ℕ → Encrypted → Option (TransportOutcome × SendBuffer × Tls × List ℕ)
  after_encrypt results sent (encrypted true b tls) = some (closed, b, tls, sent)
  after_encrypt results sent (encrypted false b tls) =
      let (outcome, tls', sent') = send_records results tls sent in some (outcome, b, tls', sent')
  after_encrypt results sent out_of_fuel = none

  unfoldable pub write :
      List WriteResult
      → SendBuffer
      → Tls
      → List ℕ
      → Option (TransportOutcome × SendBuffer × Tls × List ℕ)
  unfolding encrypt
  write results b tls sent =
      after_encrypt results sent (encrypt (suc (length (pending_slice b))) b tls)

-- What the documentation of rustls says of these calls. `decrypted` and `taken_in` are the plaintext
-- that the connection has decrypted, and that it took to encrypt; `readable` is what waits to be read.
pub record ServerConnectionLaws (api : ServerConnection) : Type 0 where
  pub decrypted : api.Tls → List ℕ
  pub readable : api.Tls → List ℕ
  pub taken_in : api.Tls → List ℕ
  -- `read_tls` decrypts nothing
  pub read_tls_decrypted :
      (c : api.Tls) (bytes : List ℕ) → decrypted (api.read_tls c bytes) ≡ decrypted c
  pub read_tls_readable :
      (c : api.Tls) (bytes : List ℕ) → readable (api.read_tls c bytes) ≡ readable c
  -- what `process_new_packets` decrypts can be read, and it tells how much there is
  pub process_decrypts :
      (c : api.Tls)
      → (more : List ℕ) × (decrypted (api.process_new_packets c).1 ≡ decrypted c ++ more)
        × (readable (api.process_new_packets c).1 ≡ readable c ++ more)
  pub process_counts :
      (c : api.Tls) (n : ℕ) (peer_has_closed : Bool)
      → (api.process_new_packets c).0 ≡ some (n, peer_has_closed)
      → n ≡ length (readable (api.process_new_packets c).1)
  -- all that can be read is read
  pub read_exact_all :
      (c : api.Tls)
      → ((api.read_exact c (length (readable c))).0 ≡ true)
        × ((api.read_exact c (length (readable c))).1 ≡ readable c)
        × (readable (api.read_exact c (length (readable c))).2 ≡ [])
        × (decrypted (api.read_exact c (length (readable c))).2 ≡ decrypted c)
  -- `writer().write` takes the beginning of a slice
  pub write_takes :
      (c : api.Tls) (bytes : List ℕ) (n : ℕ)
      → (api.write_plain c bytes).0 ≡ some n
      → (n ≤ length bytes) × (taken_in (api.write_plain c bytes).1 ≡ taken_in c ++ take n bytes)
  pub write_fails :
      (c : api.Tls) (bytes : List ℕ)
      → (api.write_plain c bytes).0 ≡ none
      → taken_in (api.write_plain c bytes).1 ≡ taken_in c
  pub write_tls_takes : (c : api.Tls) (n : ℕ) → taken_in (api.write_tls c n).1 ≡ taken_in c
