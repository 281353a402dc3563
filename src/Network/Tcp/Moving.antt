-- ===== src/Network/Tcp/Moving.antt =====
-- No byte is lost, doubled or reordered between a buffer and its socket.
use dignus_actor_server_rust.Common.{
  ℕ, ◌<◌, ◌≡◌, refl, sym, ap, ◌∙◌, List, [], ◌∷◌, ◌++◌, length, take, concat, map, All, ◌==◌,
  if_cases, arith, take-append-drop, append_assoc, append-nil,
}
use dignus_actor_server_rust.Network.SendBuffer.{
  SendBuffer, IsValid, has_pending, pending_slice, advance, advance-IsValid, pending_slice-advance,
}
use dignus_actor_server_rust.Network.Tcp.{
  TransportOutcome, continue_on, closed, ReadResult, read_bytes, read_would_block, WriteResult,
  takes, write_would_block, write_interrupted, write_failed, read, taken, write,
}

-- The bytes of a buffer and those already sent, as one stream, and the buffer's validity.
abbrev Keeps : List ℕ → TransportOutcome × SendBuffer × List ℕ → Type 0
Keeps stream r = IsValid r.1 × (r.2 ++ pending_slice r.1 ≡ stream)

moved :
    (b : SendBuffer) (sent : List ℕ) (n : ℕ)
    → (sent ++ take n (pending_slice b)) ++ pending_slice (advance b n) ≡ sent ++ pending_slice b
moved b sent n =
    append_assoc sent (take n (pending_slice b)) (pending_slice (advance b n))
    ∙ ap (λ l. sent ++ (take n (pending_slice b) ++ l)) (pending_slice-advance b n)
    ∙ ap (λ l. sent ++ l) (take-append-drop n (pending_slice b))

write-Keeps :
    (results : List WriteResult) (b : SendBuffer) (sent : List ℕ)
    → IsValid b
    → Keeps (sent ++ pending_slice b) (write results b sent)
unfolding write
write-Keeps [] b sent v = (v, refl)
write-Keeps (takes n ∷ results) b sent v =
    let next =
      write-Keeps results (advance b (taken n b)) (sent ++ take (taken n b) (pending_slice b))
        (advance-IsValid (taken n b) v) in
    if_cases (Keeps (sent ++ pending_slice b)) (has_pending b)
      (λ _.
        if_cases (Keeps (sent ++ pending_slice b)) (taken n b == 0) (λ _. (v, refl))
          (λ _. (next.0, next.1 ∙ moved b sent (taken n b))))
      (λ _. (v, refl))
write-Keeps (write_would_block ∷ results) b sent v = (v, refl)
write-Keeps (write_interrupted ∷ results) b sent v =
    if_cases (Keeps (sent ++ pending_slice b)) (has_pending b) (λ _. write-Keeps results b sent v)
      (λ _. (v, refl))
write-Keeps (write_failed ∷ results) b sent v =
    if_cases (Keeps (sent ++ pending_slice b)) (has_pending b) (λ _. (v, refl)) (λ _. (v, refl))

-- Whatever the socket answers, what a write has put on it and what still waits are together, in
-- order, the bytes that waited before, and the buffer stays valid.
pub write_lem :
    (results : List WriteResult) (b : SendBuffer)
    → IsValid b
    → let (outcome, b', sent) = write results b [] in
      IsValid b' × (sent ++ pending_slice b' ≡ pending_slice b)
write_lem results b v = write-Keeps results b [] v

-- Chunks that a socket gives, none of them empty: a read takes them all and goes on behind them.
pub read_chunks :
    (chunks : List (List ℕ)) (results : List ReadResult) (inbound : List ℕ)
    → All (λ c. 0 < length c) chunks
    → read (map read_bytes chunks ++ results) inbound ≡ read results (inbound ++ concat chunks)
unfolding read
read_chunks [] results inbound h = ap (read results) (sym (append-nil inbound))
read_chunks ([] ∷ chunks) results inbound h = absurd (omega (arith, h.0))
read_chunks ((c ∷ cs) ∷ chunks) results inbound h =
    read_chunks chunks results (inbound ++ (c ∷ cs)) h.1
    ∙ ap (read results) (append_assoc inbound (c ∷ cs) (concat chunks))

-- Chunks that a socket gives, none of them empty, followed by a block: a read takes them all.
pub read_lem :
    (chunks : List (List ℕ)) (results : List ReadResult) (inbound : List ℕ)
    → All (λ c. 0 < length c) chunks
    → read (map read_bytes chunks ++ (read_would_block ∷ results)) inbound
      ≡ (continue_on, inbound ++ concat chunks)
unfolding read
read_lem chunks results inbound h = read_chunks chunks (read_would_block ∷ results) inbound h

-- The same before the end of the stream.
pub read_end :
    (chunks : List (List ℕ)) (results : List ReadResult) (inbound : List ℕ)
    → All (λ c. 0 < length c) chunks
    → read (map read_bytes chunks ++ (read_bytes [] ∷ results)) inbound
      ≡ (closed, inbound ++ concat chunks)
unfolding read
read_end chunks results inbound h = read_chunks chunks (read_bytes [] ∷ results) inbound h
