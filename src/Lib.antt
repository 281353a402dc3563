-- ===== src/Lib.antt =====
-- A verification library for Dignus.ActorServer.Rust: an actor system (dignus-actor-core) and a
-- network server whose sessions are actors (dignus-actor-network).
--
-- How the parts work together. `ActorSystem` keeps its actors in a registry of slots, under
-- handles of an index and a generation. Each actor is an `ActorRunner` with a bounded mailbox; a
-- post puts a mail into the ring and, if the actor has no turn, schedules it on its dispatcher, a
-- thread that runs one batch of scheduled actors after the other. A turn drains the mailbox; a
-- receive that is pending leaves its future with the poll driver. A question (`ask`) is answered
-- through an awaiter, and a sweeper times out those that are due. On the network side the workers
-- of a host each run a reactor: the first accepts streams and deals them out, and each reads
-- chunks of bytes from its own; the session host decodes them into messages for the session's
-- actor, and a session's send buffer holds what is still to be written.
--
-- Files and the code they are about:
--   Core/Registry    dignus-actor-core/src/internals/registry.rs: `ActorRegistry`, its `Slot` and its
--                    methods; `post` and `kill` as the lookup that they share, `target`
--   Core/Queue       dignus-actor-core/src/queues/mpsc_bounded_queue.rs: `MpscBoundedQueue`, each
--                    operation whole; Queue/Race is the ring under many producers at once
--   Core/Dispatcher  dignus-actor-core/src/dispatcher/actor_dispatcher.rs and signal.rs: `schedule`,
--                    `dispose` and `process_scheduled_actors` as the relation `Step`; Dispatcher/Signal
--                    is `wait` and `release` of signal.rs at the condition variable
--   Core/Runner      dignus-actor-core/src/internals/actor_runner.rs: `enqueue_only`, `kill`,
--                    `execute`, `finalize_kill` and `wake_by_ref`, with the driver of poll_driver.rs, as
--                    the relation `Step`
--   Core/Wakes       the turns of one actor alone, without its mails and its lifecycle, as a relation
--                    `Step` with fewer points
--   Core/PollDriver  dignus-actor-core/src/poll_driver.rs: `PollDriver`
--   Core/System      dignus-actor-core/src/actor_system.rs: the ways to spawn, aliases,
--                    `finalize_kill`, `begin_shutdown`; System/Waiting the loops of `dispose` and
--                    `shutdown_timeout`, System/DeadLetters the dead letter callback, System/Emptying
--                    `finalize_kill` of every actor
--   Core/DeadLetter  dignus-actor-core/src/dead_letter/dead_letter_message.rs and
--                    dead_letter_reason.rs: the letters, and the one that a runner publishes
--   Core/Yield       dignus-actor-core/src/dispatcher/actor_yield_task.rs and
--                    object_pool/actor_yield_task_pool.rs: `enqueue_continuation` and `execute` as the
--                    relation `Step`
--   Core/Await       dignus-actor-core/src/actor_await.rs: `ActorAwaiter`, with the runner's waker
--   Core/References  dignus-actor-core/src/internals/actor_ref.rs and messages/actor_mail.rs: `post`,
--                    `post_mail`, `kill` and `ask` through a reference
--   Core/Context     dignus-actor-core/src/actor_base.rs: `ActorContext`
--   Core/Ask         dignus-actor-core/src/internals/ask_awaiter.rs, ask_reply_actor_ref.rs and
--                    ask_system.rs: the awaiter's state, `register`, the sweeper's round and pause, `stop`
--   Core/Outcome     results of methods that may panic
--   Network/Codec    dignus-actor-network/src/codec.rs, length_prefixed_decoder.rs, frame_encoder.rs
--   Network/SendBuffer, Network/Session
--                    dignus-actor-network/src/send_buffer.rs, session.rs, send_result.rs
--   Network/SessionHost
--                    dignus-actor-network/src/session_actor_host.rs: `on_accepted`, `on_data`,
--                    `on_disconnected`
--   Network/NetworkSessionRef, Network/SessionSender
--                    dignus-actor-network/src/network_session_ref.rs, session_sender.rs
--   Network/Tcp      dignus-actor-network/src/tcp_transport.rs and transport.rs: the loops of `read`
--                    and `write`
--   Network/Tls      dignus-actor-network/src/tls_transport.rs: the same around rustls; Tls/Connected
--                    is `TlsTransportFactory`, for a reactor
--   Network/Handler  dignus-actor-network/src/handler.rs and transport.rs: what a reactor calls, as the
--                    interfaces `HostHandler` and `TransportApi`; what users do to sessions, `Uses`
--   Network/Reactor  dignus-actor-network/src/reactor.rs: `accept`, `take_incoming`, `flush`,
--                    `flush_pending`, `close`, `close_pending`, `close_all`, `read` and
--                    `handle_connection`. Reactor/Run is `build_pool` and `run`, with `Reach`, a
--                    worker among the other threads; Reactor/Sessions puts the session host and TCP in
--   Network/Hosts    dignus-actor-network/src/tcp_host.rs, tls_host.rs and host_options.rs: the options,
--                    `build_pool` and `bind`, `shutdown`, `run`
--   Common           lists, maps, options and Boolean tests that the parts share
-- A file next to a folder of its name holds the definitions, and the folder what is shown of them;
-- the files Tests hold runs and examples at concrete inputs.
--
-- How code is modelled. A method is a function of the state that returns the new state; one that
-- may panic returns an `Outcome`, which keeps the state it had reached, or an `Option` where the
-- thread ends with it. Code that several threads run at once is a relation of steps, one for each
-- access to shared memory (Core/Dispatcher, Core/Dispatcher/Signal, Core/Runner, Core/Wakes,
-- Core/Yield, Core/Queue/Race); threads that stand at the same point are counted, or numbered in
-- Core/Queue/Race and Core/Yield, so their number is not bounded. A reactor handles an event
-- whole; what other threads do to its sessions and its queues falls between two events. Orderings
-- of atomics are taken as sequentially consistent. Numbers are naturals; where the source wraps,
-- or cuts to 32 bits, the modulus is written out. Positions of the mailbox ring are taken to stay
-- below 2^63, counts of actors below 2^32, and tokens and session ids in their range. Byte strings
-- are lists of numbers below 256.
--
-- Fuel. The decoding loop of `on_data` runs on one more round than there are bytes, which is
-- enough as each frame takes at least one byte; the loop that rounds a capacity up runs on 66
-- rounds, as a usize has 64 bits, and `next_power_of_two` doubles 63 times; the loop that hands
-- plaintext to rustls runs on one more round than there are bytes. The other loops of the
-- transports run on the script of the socket: a script that ends is a socket that would block. The
-- loops that wait for a shutdown run on what their turns observe, and a list of turns that ends is
-- a loop that goes on.
--
-- Parameters. The handler of a reactor, which changes sessions by `send` and `close` only
-- (`HandlerLaws`; the session host fills it), and its transport; the connection of rustls
-- (`ServerConnection`, with what its documentation says as `ServerConnectionLaws`); the events of
-- the poll, and whether `register` and `reregister` succeed (`Registry`; `reregister` is taken to
-- succeed where a statement says so); the user's `deserialize`; the actor system as the session
-- host calls it (`ActorApi`); what the operating system answers when a host is opened (`HostIo`);
-- futures and their wakers, `will_wake` and `downcast` of the standard library.
--
-- Not modelled: the traits of actors; panics of callbacks; the threads of dispatchers and of the
-- sweeper as such, which the standard library starts and joins; the ring's race in the relation of
-- Core/Runner, where the mailbox is the queue that the ring implements for one consumer, and what
-- becomes of the ring where turns gone astray give it a second one; uses of a session in the
-- middle of an event of its reactor by other threads than the handler's.
pub mod Common
pub mod Core
pub mod Network
