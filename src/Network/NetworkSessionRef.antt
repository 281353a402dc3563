-- ===== src/Network/NetworkSessionRef.antt =====
-- dignus-actor-network/src/network_session_ref.rs: an actor and its session together, in the world of
-- the session host.
use dignus_actor_server_rust.Common.{ℕ, ◌≡◌, true, ◌||◌, List, arith}
use dignus_actor_server_rust.Network.Session
use dignus_actor_server_rust.Network.Session.{Session, SendResult}
use dignus_actor_server_rust.Network.SessionHost.{
  ActorApi, SessionEntry, World, close_session, update_heap,
}

module _ {M : Type 0} (api : ActorApi M) where
  open api use {System, Ref}

  pub record NetworkSessionRef : Type 0 where
    pub actor_ref : Ref
    pub session : ℕ

  unfoldable pub new : Ref → ℕ → NetworkSessionRef
  new actor_ref session = record { actor_ref = actor_ref; session = session }

  -- The reference that an entry of the host holds.
  abbrev pub of_entry : SessionEntry api → NetworkSessionRef
  of_entry entry = record { actor_ref = entry.actor_ref; session = entry.session }

  unfoldable pub id : NetworkSessionRef → World api → ℕ
  id r w = (w.heap r.session).id

  unfoldable pub send : NetworkSessionRef → World api → List ℕ → SendResult × World api
  unfolding update_heap
  send r w bytes =
      let (result, s, shared) = Session.send (w.heap r.session) w.shared bytes in
      (result, record w { heap = update_heap api w.heap r.session s; shared = shared })

  unfoldable pub post : NetworkSessionRef → World api → M → World api
  post r w message = record w { system = api.post w.system r.actor_ref message }

  unfoldable pub close : NetworkSessionRef → World api → World api
  close r w = close_session api w r.session

  unfoldable pub kill : NetworkSessionRef → World api → World api
  unfolding close
  kill r w = let w' = close r w in record w' { system = api.kill w'.system r.actor_ref }

  -- A kill closes the session and then kills the actor. Killing again kills the actor again, which the
  -- actor system has to bear, and leaves the session and its reactor as they are: one close is queued.
  -- No write that is queued is taken back.
  pub kill-kill :
      (r : NetworkSessionRef) (w : World api)
      → let w' = kill r w in
        (w'.system ≡ api.kill w.system r.actor_ref)
        × (w'.shared.pending_writes ≡ w.shared.pending_writes)
        × ((((w'.heap r.session).is_disposed || (w'.heap r.session).close_requested)) ≡ true)
        × ((kill r w').system ≡ api.kill w'.system r.actor_ref)
        × ((kill r w').shared ≡ w'.shared)
        × ((kill r w').heap r.session ≡ w'.heap r.session)
  unfolding kill close close_session update_heap Session.close
  kill-kill r w = ground arith
