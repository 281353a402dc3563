-- ===== src/Network/Tests.antt =====
-- A session whose send buffer holds a byte that is sent and two that wait, with a limit of four.
use dignus_actor_server_rust.Common.{ℕ, refl, ◌≡◌, false, some, List, [], ◌∷◌, ◌++◌, arith}
use dignus_actor_server_rust.Network.SendBuffer.{
  has_pending, SendBuffer, IsValid, advance, pending_slice, advance-IsValid,
}
use dignus_actor_server_rust.Network.Session.{ReactorShared, Session}
use dignus_actor_server_rust.Network.Tcp.{
  continue_on, takes, write_interrupted, write_would_block, read_bytes, read_would_block, read,
  write,
}
use dignus_actor_server_rust.Network.Session
use dignus_actor_server_rust.Network.SendBuffer
use dignus_actor_server_rust.Network.SessionSender
use dignus_actor_server_rust.Network.SessionSender.{SessionSender}
use dignus_actor_server_rust.Network.SessionSender.Frames.{send_each-Decodes}
use dignus_actor_server_rust.Network.Codec.{
  length_prefixed_frame, length_prefixed_decode, u32_to_be_bytes,
}
use dignus_actor_server_rust.Network.Codec.Decodes.{Decodes, messages_of}

abbrev outbound : SendBuffer
outbound = record { bytes = 1 ∷ 2 ∷ 3 ∷ []; offset = 1; max_pending = 4 }

outbound-IsValid : IsValid outbound
outbound-IsValid = record { in_range = omega arith; limited = omega arith }

abbrev shared : ReactorShared
shared = record {
  woken = false;
  stopped = false;
  pending_writes = [];
  pending_closes = [];
  incoming = [];
}

abbrev session : Session
session = record {
  id = 1;
  token = 2;
  outbound = outbound;
  is_disposed = false;
  close_requested = false;
}

advance-IsValid_example : IsValid (advance outbound 1)
advance-IsValid_example = advance-IsValid 1 outbound-IsValid

-- The socket takes one byte and then blocks.
write_run :
    write (takes 1 ∷ write_interrupted ∷ write_would_block ∷ []) outbound []
    ≡ (continue_on, record outbound { offset = 2 }, 2 ∷ [])
unfolding write has_pending advance pending_slice
write_run = refl

read_run :
    read (read_bytes (1 ∷ []) ∷ read_bytes (2 ∷ 3 ∷ []) ∷ read_would_block ∷ []) (9 ∷ [])
    ≡ (continue_on, 9 ∷ 1 ∷ 2 ∷ 3 ∷ [])
unfolding read
read_run = refl

-- Two of three payloads fit: the frames of the first and the third, with a limit of eleven bytes, of
-- which the socket takes seven.
abbrev sender : SessionSender
sender = record { session = Session.new 1 2 11; encoder = length_prefixed_frame }

abbrev said : List (List ℕ)
said = (7 ∷ 8 ∷ []) ∷ (1 ∷ 2 ∷ 3 ∷ []) ∷ (9 ∷ []) ∷ []

send_each_run : (SessionSender.send_each sender shared said).0 ≡ (7 ∷ 8 ∷ []) ∷ (9 ∷ []) ∷ []
unfolding SessionSender.send_each Session.new Session.send SendBuffer.can_write SendBuffer.append
    SendBuffer.new length_prefixed_frame u32_to_be_bytes
send_each_run = refl

send_each-Decodes_example :
    let (accepted, sender', shared') = SessionSender.send_each sender shared said in
    let (outcome, b, sent) = write (takes 7 ∷ []) (sender'.session).outbound [] in
    Decodes
      (length_prefixed_decode some 7)
      (sent ++ pending_slice b)
      (messages_of some accepted)
      []
      false
unfolding Session.new SendBuffer.new pending_slice
send_each-Decodes_example =
    send_each-Decodes some 7 sender shared said (takes 7 ∷ []) refl (SendBuffer.new-IsValid 11) refl
      (omega arith) (omega arith)
