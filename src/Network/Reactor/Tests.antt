-- ===== src/Network/Reactor/Tests.antt =====
-- Two workers' worth of a server: a worker over TCP with the host of the sessions' actors.
use dignus_actor_server_rust.Common.{
  All, ℕ, ◌<◌, ◌≤◌, ◌≡◌, ◌≢◌, refl, ◌⊎◌, true, false, Option, none, some, List, [], ◌∷◌, ◌++◌,
  arith, lookup, length,
}
use dignus_actor_server_rust.Network.Codec.{Decoder, incomplete, frame, corrupt}
use dignus_actor_server_rust.Network.Codec.Framing.{IsPrefixDecoder}
use dignus_actor_server_rust.Network.Codec.Decodes.{Decodes, waits, frames}
use dignus_actor_server_rust.Network.Session.{Session, ReactorShared, mark_disposed}
use dignus_actor_server_rust.Network.Session
use dignus_actor_server_rust.Network.SendBuffer.{has_pending}
use dignus_actor_server_rust.Network.SendBuffer
use dignus_actor_server_rust.Network.Tcp
use dignus_actor_server_rust.Network.Tcp.{
  ReadResult, read_bytes, read_would_block, WriteResult, takes, write_would_block,
}
use dignus_actor_server_rust.Network.Handler.{
  unused, then_send, then_close, after_send, after_close, HandlerLaws,
}
use dignus_actor_server_rust.Network.Handler.Sound.{mem}
use dignus_actor_server_rust.Network.SessionHost
use dignus_actor_server_rust.Network.SessionHost.{ActorApi, SessionEntry, default_options}
use dignus_actor_server_rust.Network.SessionHost.Stream.{post_all}
use dignus_actor_server_rust.Network.Reactor
use dignus_actor_server_rust.Network.Reactor.Run
use dignus_actor_server_rust.Network.Reactor.{
  Registry, ManagedConnection, push_incoming, set_shared, accept_loop, stream_of, handle_connection,
  take_incoming, take_streams, take_stream, flush_pending, flush_all, flush_connection,
  close_pending, close_each, close_connection,
}
use dignus_actor_server_rust.Network.Reactor.Run.{
  Turn, goes_on, returned, ended, Event, waker, handle_event, run, Reach, start, by_event, by_users,
  by_peer, by_shutdown, woken_up,
}
use dignus_actor_server_rust.Network.Reactor.Protocol.{broken, status, is_open, is_some}
use dignus_actor_server_rust.Network.Reactor.Sessions.{TcpConn, tcp, sessions, HostState}
use dignus_actor_server_rust.Network.Reactor.SessionLaws.{sessions-HandlerLaws}
use dignus_actor_server_rust.Network.Reactor.Watch.{
  nothing_forgotten, handler_protocol, close_carried_out,
}
use dignus_actor_server_rust.Network.Reactor.Accepting.{dealt}
use dignus_actor_server_rust.Network.Hosts.{shutdown}
use dignus_actor_server_rust.Network.Hosts.Ending.{Ending, shutdown-Ending}
use dignus_actor_server_rust.Network.Reactor.LastWords.{last_words}

-- An actor system that records what is done to it; a message is a byte.
data Deed : Type 0 where
  spawned killed : ℕ → Deed
  posted : ℕ → ℕ → Deed

abbrev log_api : ActorApi ℕ
log_api = record {
  System = List Deed;
  Ref = ℕ;
  spawn = λ s session d c. some (session, s ++ (spawned session ∷ []));
  post = λ s ref m. s ++ (posted ref m ∷ []);
  kill = λ s ref. s ++ (killed ref ∷ []);
}

-- Every byte is a frame.
abbrev bytewise : Decoder ℕ
bytewise [] = incomplete
bytewise (b ∷ bs) = frame 1 (some b)

abbrev registry : Registry
registry = record { register = λ t. true; reregister = λ t. true }

-- The peer sends two bytes and ends its stream; its socket takes nothing at first.
abbrev net : ℕ → TcpConn
net stream = record {
  reads = (read_bytes (7 ∷ []) ∷ read_bytes (8 ∷ []) ∷ read_bytes [] ∷ []) ∷ [];
  writes = (write_would_block ∷ []) ∷ (takes 9 ∷ []) ∷ [];
  sent = [];
}

abbrev host : HostState log_api bytewise
host = record { system = []; options = default_options; entries = [] }

abbrev Server : Type 0
Server = Reactor.Reactor (sessions log_api bytewise) (tcp net) registry

abbrev reactor_of : Server → Turn (sessions log_api bytewise) (tcp net) registry → Server
reactor_of r (goes_on r') = r'
reactor_of r (returned r') = r'
reactor_of r ended = r

abbrev worker : Server
worker = Run.new (sessions log_api bytewise) (tcp net) registry 0 2 64 host

abbrev offered : Server
offered =
    set_shared (sessions log_api bytewise) (tcp net) registry worker
      (push_incoming worker.env.shared (5, 1))

abbrev serving : Server
serving =
    reactor_of offered (handle_event (sessions log_api bytewise) (tcp net) registry offered waker)

abbrev Reached : Server → Type 0
Reached = Reach (sessions log_api bytewise) (tcp net) registry 0 2 64 host

serving-Reached : Reached serving
unfolding handle_event woken_up take_incoming take_streams take_stream flush_pending flush_all
    close_pending close_each Run.new SessionHost.on_accepted SessionHost.enter default_options
serving-Reached = by_event (by_peer start (5, 1)) waker refl

-- A user of the session has sent a byte and asked for the close.
abbrev asked : Server
asked = record serving { env = after_close (after_send serving.env 2 (9 ∷ [])) 2 }

asked-Reached : Reached asked
asked-Reached = by_users serving-Reached (then_close (then_send unused 2 (9 ∷ [])) 2)

abbrev stream_5 : ManagedConnection (sessions log_api bytewise) (tcp net) registry
stream_5 = record { conn = net 5; writable = false }

open_2 : lookup 2 asked.connections ≡ some stream_5
unfolding handle_event woken_up take_incoming take_streams take_stream flush_pending flush_all
    close_pending close_each Run.new SessionHost.on_accepted SessionHost.enter default_options
open_2 = refl

nothing_forgotten_example :
    ((asked.env.heap 2).is_disposed ≡ false)
    × ((has_pending (asked.env.heap 2).outbound ≡ false)
        ⊎ ((false ≡ true)
            ⊎ ((mem 2 asked.env.shared.pending_writes ≡ true) × (asked.env.shared.woken ≡ true))))
    × (((asked.env.heap 2).close_requested ≡ false)
        ⊎ ((mem 2 asked.env.shared.pending_closes ≡ true) × (asked.env.shared.woken ≡ true)))
nothing_forgotten_example =
    nothing_forgotten (sessions-HandlerLaws log_api bytewise) (λ t. refl) 0 2 64 host asked 2
      stream_5 asked-Reached open_2

handler_protocol_example :
    (status 2 asked.calls ≢ broken)
    × (is_open (status 2 asked.calls) ≡ is_some (lookup 2 asked.connections))
handler_protocol_example =
    handler_protocol (sessions-HandlerLaws log_api bytewise) (λ t. refl) 0 2 64 host asked 2
      asked-Reached

abbrev awoken : Server
awoken = reactor_of asked (handle_event (sessions log_api bytewise) (tcp net) registry asked waker)

requested : (asked.env.heap 2).close_requested ≡ true
unfolding handle_event woken_up take_incoming take_streams take_stream flush_pending flush_all
    close_pending close_each Run.new SessionHost.on_accepted SessionHost.enter default_options
    Session.new Session.send Session.close SendBuffer.new SendBuffer.can_write
requested = refl

goes_on_awoken :
    handle_event (sessions log_api bytewise) (tcp net) registry asked waker ≡ goes_on awoken
unfolding handle_event woken_up take_incoming take_streams take_stream flush_pending flush_all
    close_pending close_each Run.new SessionHost.on_accepted SessionHost.enter default_options
    Session.new Session.send Session.close SendBuffer.new SendBuffer.can_write SendBuffer.append
    SendBuffer.has_pending flush_connection close_connection Tcp.write SessionHost.on_disconnected
    SessionHost.leave
goes_on_awoken = refl

close_carried_out_example :
    (lookup 2 awoken.connections ≡ none)
    × (is_open (status 2 asked.calls) ≡ true)
    × (is_open (status 2 awoken.calls) ≡ false)
    × (status 2 awoken.calls ≢ broken)
close_carried_out_example =
    close_carried_out (sessions-HandlerLaws log_api bytewise) (λ t. refl) 0 2 64 host asked awoken 2
      stream_5 asked-Reached open_2 requested goes_on_awoken

-- The host is shut down instead.
abbrev stopping : Server
stopping =
    set_shared (sessions log_api bytewise) (tcp net) registry asked
      (record (asked.env.shared) { stopped = true; woken = true })

abbrev stopped : Server
stopped =
    reactor_of stopping (handle_event (sessions log_api bytewise) (tcp net) registry stopping waker)

returned_stopped :
    handle_event (sessions log_api bytewise) (tcp net) registry stopping waker ≡ returned stopped
unfolding handle_event woken_up take_incoming take_streams take_stream flush_pending flush_all
    close_pending close_each Reactor.close_all Run.new SessionHost.on_accepted SessionHost.enter
    default_options Session.new Session.send Session.close SendBuffer.new SendBuffer.can_write
    SendBuffer.append SendBuffer.has_pending flush_connection close_connection Tcp.write
    SessionHost.on_disconnected SessionHost.leave
returned_stopped = refl

dealt_run : dealt 0 2 0 1 (5 ∷ 6 ∷ 7 ∷ []) ≡ (5, 1) ∷ (7, 3) ∷ []
unfolding dealt
dealt_run = refl

bytewise_progress :
    (b : List ℕ) (n : ℕ) (m : Option ℕ) → bytewise b ≡ frame n m → (0 < n) × (n ≤ length b)
bytewise_progress [] n m e = cc
bytewise_progress (b ∷ bs) n m e = let one : 1 ≡ n = cc in (omega (arith, one), omega (arith, one))

bytewise_frame_stable :
    (b c : List ℕ) (n : ℕ) (m : Option ℕ) → bytewise b ≡ frame n m → bytewise (b ++ c) ≡ frame n m
bytewise_frame_stable [] c n m e = cc
bytewise_frame_stable (b ∷ bs) c n m e = e

bytewise_corrupt_stable : (b c : List ℕ) → bytewise b ≡ corrupt → bytewise (b ++ c) ≡ corrupt
bytewise_corrupt_stable [] c e = cc
bytewise_corrupt_stable (b ∷ bs) c e = cc

bytewise-IsPrefixDecoder : IsPrefixDecoder bytewise
bytewise-IsPrefixDecoder = record {
  progress = bytewise_progress;
  frame_stable = bytewise_frame_stable;
  corrupt_stable = bytewise_corrupt_stable;
}

abbrev entry_2 : SessionEntry log_api
entry_2 = record { actor_ref = 2; session = 2; inbound = [] }

two_bytes : Decodes bytewise (7 ∷ 8 ∷ []) (7 ∷ 8 ∷ []) [] false
two_bytes =
    frames {n = 1} {m = some 7} refl (frames {n = 1} {m = some 8} refl (waits refl) refl) refl

host_entry : lookup (serving.env.heap 2).id serving.handler_state.entries ≡ some entry_2
unfolding handle_event woken_up take_incoming take_streams take_stream flush_pending flush_all
    close_pending close_each Run.new SessionHost.on_accepted SessionHost.enter default_options
    Session.new
host_entry = refl

last_words_example :
    (r' : Server) × (handle_connection
        (sessions log_api bytewise)
        (tcp net)
        registry
        serving
        2
        true
        true
      ≡ some r')
    × (r'.handler_state.system
        ≡ post_all log_api serving.handler_state.system 2 (7 ∷ 8 ∷ []) ++ (killed 2 ∷ []))
    × (lookup 2 r'.connections ≡ none)
    × (lookup (serving.env.heap 2).id r'.handler_state.entries ≡ none)
last_words_example =
    last_words log_api bytewise-IsPrefixDecoder net registry serving 2 true stream_5 entry_2
      ((7 ∷ []) ∷ (8 ∷ []) ∷ []) 7 (8 ∷ []) [] [] open_2 host_entry refl (omega arith) refl
      two_bytes

sessions-HandlerLaws_example : HandlerLaws (sessions log_api bytewise)
sessions-HandlerLaws_example = sessions-HandlerLaws log_api bytewise

shutdown-Ending_example :
    All
      (λ r. (r.env.shared.woken ≡ true) × Ending r)
      (shutdown (sessions log_api bytewise) (tcp net) registry (asked ∷ []))
shutdown-Ending_example =
    shutdown-Ending (sessions-HandlerLaws log_api bytewise) (λ t. refl)
      (record { worker_count = 2; max_pending_send = 64 }) (asked ∷ [])
      ((0, host, asked-Reached), tt)
