-- ===== src/Network/SessionHost.antt =====
-- dignus-actor-network/src/session_actor_host.rs: a session is an actor. The actor system is an
-- interface here, and the reactor's sessions are a heap of them by token, which the entries of the
-- host point into, as the source's `Arc<Session>` do.
pub mod Stream
pub mod Chunks
pub mod Entries
mod Tests
use dignus_actor_server_rust.Common.{
  ℕ, zero, suc, ◌+◌, Bool, true, false, Option, none, some, List, [], ◌∷◌, ◌++◌, length, drop, leb,
  ltb, ◌==◌, if◌then◌else◌, lookup, insert, modify, remove,
}
use dignus_actor_server_rust.Network.Codec.{DecodeResult, incomplete, frame, corrupt, Decoder}
use dignus_actor_server_rust.Network.Session
use dignus_actor_server_rust.Network.Session.{ReactorShared, Session}

-- What the host calls of the actor system: `spawn_on_dispatcher_with_factory_options` and
-- `spawn_with_factory_options` by the dispatcher's index, `post` and `kill`. A spawn is told the
-- session that the user's factory gets a sender for; it may panic.
pub record ActorApi (M : Type 0) : Type 1 where
  pub System : Type 0
  pub Ref : Type 0
  pub spawn : System → (session : ℕ) → Option ℕ → ℕ → Option (Ref × System)
  pub post : System → Ref → M → System
  pub kill : System → Ref → System

abbrev pub default_mailbox_capacity : ℕ
default_mailbox_capacity = 1024

pub record SessionHostOptions : Type 0 where
  pub mailbox_capacity : ℕ
  pub dispatcher_index : Option ℕ

unfoldable pub default_options : SessionHostOptions
default_options = record { mailbox_capacity = default_mailbox_capacity; dispatcher_index = none }

module _ {M : Type 0} (api : ActorApi M) where
  open api use {System, Ref, spawn, post, kill}

  -- `SessionEntry`, with the two parts of its `NetworkSessionRef`: the actor and the session's token.
  pub record SessionEntry : Type 0 where
    pub actor_ref : Ref
    pub session : ℕ
    pub inbound : List ℕ

  -- The host, the actor system, the reactor's sessions and the part of the reactor they share.
  pub record World : Type 0 where
    pub system : System
    pub options : SessionHostOptions
    pub entries : List (ℕ × SessionEntry)
    pub heap : ℕ → Session
    pub shared : ReactorShared

  -- A handler returns or panics; `spins` is a loop that had not ended when its fuel was used up.
  pub data Handled : Type 0 where
    handled : World → Handled
    panicked spins : Handled

  unfoldable pub update_heap : (ℕ → Session) → ℕ → Session → ℕ → Session
  update_heap heap token s t = if token == t then s else heap t

  unfoldable pub post_message : System → Ref → Option M → System
  post_message system ref none = system
  post_message system ref (some m) = post system ref m

  -- `NetworkSessionRef::close`
  unfoldable pub close_session : World → ℕ → World
  unfolding update_heap
  close_session w token =
      let (s, shared) = Session.close (w.heap token) w.shared in
      record w { heap = update_heap w.heap token s; shared = shared }

  -- A new entry, once the session's actor runs.
  unfoldable pub enter : World → ℕ → Option (Ref × System) → Handled
  enter w token none = panicked
  enter w token (some (ref, system)) = handled (record w {
    system = system;
    entries =
        insert (w.heap token).id (record { actor_ref = ref; session = token; inbound = [] })
          w.entries;
  })

  unfoldable pub on_accepted : World → ℕ → Handled
  unfolding enter
  on_accepted w token =
      enter w token (spawn w.system token w.options.dispatcher_index w.options.mailbox_capacity)

  -- The decoding loop, which stands twice in `on_data`: where it stopped, whether the stream was
  -- corrupt, and the system with the messages posted.
  pub data Loop : Type 0 where
    stopped : (offset : ℕ) (broken : Bool) → System → Loop
    out_of_range out_of_fuel : Loop

  unfoldable pub decode_loop : Decoder M → Ref → List ℕ → ℕ → ℕ → System → Loop
  unfolding post_message
  decode_loop decoder ref bytes zero offset system = out_of_fuel
  decode_loop decoder ref bytes (suc fuel) offset system = elim (leb offset (length bytes)) [
    | false ↦ out_of_range
    | true ↦ elim (decoder (drop offset bytes)) [
      | incomplete ↦ stopped offset false system
      | corrupt ↦ stopped offset true system
      | frame consumed message ↦
          decode_loop decoder ref bytes fuel (offset + consumed) (post_message system ref message)
    ]
  ]

  unfoldable pub is_empty : List ℕ → Bool
  is_empty [] = true
  is_empty (b ∷ bs) = false

  -- What follows the loop where nothing was buffered: what is left of the chunk is kept.
  unfoldable pub finish_unbuffered : World → ℕ → SessionEntry → List ℕ → Loop → Handled
  finish_unbuffered w id entry bytes out_of_range = panicked
  finish_unbuffered w id entry bytes out_of_fuel = spins
  finish_unbuffered w id entry bytes (stopped offset broken system) = handled (
      if broken
      then close_session (record w { system = system }) entry.session
      else if ltb offset (length bytes)
      then record w {
        system = system;
        entries =
            modify id (record entry { inbound = entry.inbound ++ drop offset bytes }) w.entries;
      }
      else record w { system = system })

  -- What follows it on a buffer: what was decoded is drained from the front.
  unfoldable pub finish_buffered : World → ℕ → SessionEntry → List ℕ → Loop → Handled
  finish_buffered w id entry inbound out_of_range = panicked
  finish_buffered w id entry inbound out_of_fuel = spins
  finish_buffered w id entry inbound (stopped offset broken system) =
      let kept = if ltb 0 offset then drop offset inbound else inbound in
      let w' = record w {
        system = system;
        entries = modify id (record entry { inbound = kept }) w.entries;
      } in
      handled (if broken then close_session w' entry.session else w')

  -- The bytes are decoded where they are if none were left from before, and else behind those.
  unfoldable pub on_entry_data : Decoder M → World → ℕ → List ℕ → Option SessionEntry → Handled
  on_entry_data decoder w id bytes none = handled w
  on_entry_data decoder w id bytes (some entry) =
      let inbound = entry.inbound ++ bytes in
      if is_empty entry.inbound
      then finish_unbuffered w id entry bytes
          (decode_loop decoder entry.actor_ref bytes (suc (length bytes)) 0 w.system)
      else finish_buffered w id entry inbound
          (decode_loop decoder entry.actor_ref inbound (suc (length inbound)) 0 w.system)

  unfoldable pub on_data : Decoder M → World → ℕ → List ℕ → Handled
  unfolding on_entry_data
  on_data decoder w token bytes =
      on_entry_data decoder w (w.heap token).id bytes (lookup (w.heap token).id w.entries)

  -- The removed entry's actor is killed.
  unfoldable pub leave : World → ℕ → Option SessionEntry → World
  leave w session_id none = w
  leave w session_id (some entry) = record w {
    system = kill w.system entry.actor_ref;
    entries = remove session_id w.entries;
  }

  unfoldable pub on_disconnected : World → ℕ → World
  unfolding leave
  on_disconnected w session_id = leave w session_id (lookup session_id w.entries)

  -- Chunks that arrive one after the other on one session.
  unfoldable pub feed : Decoder M → ℕ → List (List ℕ) → Handled → Handled
  feed decoder token [] r = r
  feed decoder token (c ∷ cs) (handled w) = feed decoder token cs (on_data decoder w token c)
  feed decoder token (c ∷ cs) r = r
