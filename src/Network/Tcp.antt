-- ===== src/Network/Tcp.antt =====
-- dignus-actor-network/src/tcp_transport.rs and transport.rs: the loops that read from a socket and
-- write to it. The socket is a script of its answers; one that has ended would block.
pub mod Moving
use dignus_actor_server_rust.Common.{
  ℕ, min, Bool, true, false, List, [], ◌∷◌, ◌++◌, length, take, ◌==◌, if◌then◌else◌,
}
use dignus_actor_server_rust.Network.SendBuffer.{SendBuffer, has_pending, pending_slice, advance}

-- `TransportOutcome`
pub data TransportOutcome : Type 0 where
  continue_on closed : TransportOutcome

-- What `socket.read` answers: bytes, none of them at the end of the stream, or an error.
pub data ReadResult : Type 0 where
  read_bytes : List ℕ → ReadResult
  read_would_block read_interrupted read_failed : ReadResult

-- What `socket.write` answers: how many bytes it is ready to take, or an error.
pub data WriteResult : Type 0 where
  takes : ℕ → WriteResult
  write_would_block write_interrupted write_failed : WriteResult

-- `TcpTransport::read`: the outcome and the bytes read behind those that were there.
unfoldable pub read : List ReadResult → List ℕ → TransportOutcome × List ℕ
read [] inbound = (continue_on, inbound)
read (read_bytes [] ∷ results) inbound = (closed, inbound)
read (read_bytes (b ∷ bs) ∷ results) inbound = read results (inbound ++ (b ∷ bs))
read (read_would_block ∷ results) inbound = (continue_on, inbound)
read (read_interrupted ∷ results) inbound = read results inbound
read (read_failed ∷ results) inbound = (closed, inbound)

-- How much the socket takes of a slice.
abbrev pub taken : ℕ → SendBuffer → ℕ
taken n b = min n (length (pending_slice b))

-- `TcpTransport::write`: the outcome, the buffer, and what the socket has taken so far.
unfoldable pub write :
    List WriteResult → SendBuffer → List ℕ → TransportOutcome × SendBuffer × List ℕ
write [] b sent = (continue_on, b, sent)
write (takes n ∷ results) b sent =
    let rest = write results (advance b (taken n b)) (sent ++ take (taken n b) (pending_slice b)) in
    if has_pending b
    then (if taken n b == 0 then (closed, b, sent) else rest)
    else (continue_on, b, sent)
write (write_would_block ∷ results) b sent = (continue_on, b, sent)
write (write_interrupted ∷ results) b sent =
    let rest = write results b sent in if has_pending b then rest else (continue_on, b, sent)
write (write_failed ∷ results) b sent =
    if has_pending b then (closed, b, sent) else (continue_on, b, sent)
