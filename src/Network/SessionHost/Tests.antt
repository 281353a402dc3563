-- ===== src/Network/SessionHost/Tests.antt =====
-- A host with one session, and two frames that arrive in three chunks.
use dignus_actor_server_rust.Common.{
  ℕ, ◌≡◌, refl, true, false, none, some, List, [], ◌∷◌, ◌++◌, arith, lookup, concat, map, ◌==◌,
  if◌then◌else◌,
}
use dignus_actor_server_rust.Network.Codec.{
  Decoder, length_prefixed_frame, length_prefixed_decode, u32_to_be_bytes, u32_from_be_bytes,
}
use dignus_actor_server_rust.Network.Codec.Framing.{length_prefixed_decode-IsPrefixDecoder}
use dignus_actor_server_rust.Network.Codec.Decodes.{Decodes, waits, breaks, frames, messages_of}
use dignus_actor_server_rust.Network.Session
use dignus_actor_server_rust.Network.Session.{Session, ReactorShared}
use dignus_actor_server_rust.Network.SessionHost.{
  ActorApi, SessionEntry, World, handled, on_accepted, on_data, on_disconnected, feed,
  default_options, is_empty, finish_unbuffered, finish_buffered, decode_loop,
}
use dignus_actor_server_rust.Network.SessionHost.Stream.{post_all}
use dignus_actor_server_rust.Network.SessionHost.Chunks.{
  healthy, feed-frames, feed_after_corrupt_unbuffered,
}
use dignus_actor_server_rust.Network.SessionHost.Entries.{session_life}

-- An actor system that records what is posted and killed. A payload is its own message.
data Event : Type 0 where
  spawned : ℕ → Event
  posted : ℕ → List ℕ → Event
  killed : ℕ → Event

abbrev log_api : ActorApi (List ℕ)
log_api = record {
  System = List Event;
  Ref = ℕ;
  spawn = λ s token d c. some (token, s ++ (spawned token ∷ []));
  post = λ s ref m. s ++ (posted ref m ∷ []);
  kill = λ s ref. s ++ (killed ref ∷ []);
}

abbrev shared : ReactorShared
shared = record {
  woken = false;
  stopped = false;
  pending_writes = [];
  pending_closes = [];
  incoming = [];
}

abbrev entry : SessionEntry log_api
entry = record { actor_ref = 7; session = 2; inbound = [] }

abbrev world : World log_api
world = record {
  system = [];
  options = default_options;
  entries = (1, entry) ∷ [];
  heap = λ token. Session.new 1 token 64;
  shared = shared;
}

abbrev decoder : Decoder (List ℕ)
decoder = length_prefixed_decode some 8

abbrev payloads : List (List ℕ)
payloads = (5 ∷ 6 ∷ []) ∷ (9 ∷ []) ∷ []

-- The two frames and one byte of a third, cut inside the first prefix and inside the second payload.
abbrev chunks : List (List ℕ)
chunks = (0 ∷ 0 ∷ []) ∷ (0 ∷ 2 ∷ 5 ∷ 6 ∷ 0 ∷ 0 ∷ 0 ∷ 1 ∷ []) ∷ (9 ∷ 0 ∷ []) ∷ []

found : lookup (world.heap 2).id world.entries ≡ some entry
unfolding Session.new
found = refl

cut_up : concat chunks ≡ concat (map length_prefixed_frame payloads) ++ (0 ∷ [])
unfolding length_prefixed_frame u32_to_be_bytes
cut_up = refl

feed_run :
    feed log_api decoder 2 chunks (handled world)
    ≡ handled (record world {
      system = posted 7 (5 ∷ 6 ∷ []) ∷ posted 7 (9 ∷ []) ∷ [];
      entries = (1, record entry { inbound = 0 ∷ [] }) ∷ [];
    })
unfolding feed on_data length_prefixed_decode u32_from_be_bytes Session.new is_empty
    finish_unbuffered finish_buffered decode_loop
feed_run = refl

feed-frames_example :
    feed log_api decoder 2 chunks (handled world)
    ≡ handled (healthy log_api world (world.heap 2).id entry (messages_of some payloads) (0 ∷ []))
unfolding length_prefixed_decode
feed-frames_example =
    feed-frames log_api some 8 world 2 entry payloads chunks (0 ∷ []) found refl (omega arith) refl
      cut_up

-- The stream of the first frame and a corrupt prefix.
corrupt_stream :
    Decodes decoder
      (0 ∷ 0 ∷ 0 ∷ 1 ∷ 5 ∷ 1 ∷ 0 ∷ 0 ∷ 0 ∷ [])
      ((5 ∷ []) ∷ [])
      (1 ∷ 0 ∷ 0 ∷ 0 ∷ [])
      true
unfolding length_prefixed_decode u32_from_be_bytes
corrupt_stream = frames {n = 5} {m = some (5 ∷ [])} refl (breaks refl) refl

next_frame : Decodes decoder (0 ∷ 0 ∷ 0 ∷ 1 ∷ 4 ∷ []) ((4 ∷ []) ∷ []) [] false
unfolding length_prefixed_decode u32_from_be_bytes
next_frame = frames {n = 5} {m = some (4 ∷ [])} refl (waits refl) refl

feed_after_corrupt_unbuffered_example :
    (w' : World log_api) × (feed log_api decoder 2
        ((0 ∷ 0 ∷ 0 ∷ 1 ∷ 5 ∷ 1 ∷ 0 ∷ 0 ∷ 0 ∷ []) ∷ (0 ∷ 0 ∷ 0 ∷ 1 ∷ 4 ∷ []) ∷ [])
        (handled world)
      ≡ handled w')
    × (w'.system ≡ post_all log_api [] 7 ((5 ∷ []) ∷ (4 ∷ []) ∷ []))
feed_after_corrupt_unbuffered_example =
    feed_after_corrupt_unbuffered log_api (length_prefixed_decode-IsPrefixDecoder some 8) 2 world
      entry (0 ∷ 0 ∷ 0 ∷ 1 ∷ 5 ∷ 1 ∷ 0 ∷ 0 ∷ 0 ∷ []) (0 ∷ 0 ∷ 0 ∷ 1 ∷ 4 ∷ []) found refl
      corrupt_stream next_frame

session_life_example :
    (w' : World log_api) × (feed log_api decoder 3 chunks (on_accepted log_api world 3)
      ≡ handled w')
    × ((on_disconnected log_api w' (world.heap 3).id).system
        ≡ post_all log_api (spawned 3 ∷ []) 3 (messages_of some payloads) ++ (killed 3 ∷ []))
    × (lookup 5 (on_disconnected log_api w' (world.heap 3).id).entries
        ≡ (if (world.heap 3).id == 5 then none else lookup 5 world.entries))
unfolding length_prefixed_decode
session_life_example =
    session_life log_api some 8 world 3 payloads chunks (0 ∷ []) 5 refl (omega arith) refl cut_up
