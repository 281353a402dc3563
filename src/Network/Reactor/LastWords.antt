-- ===== src/Network/Reactor/LastWords.antt =====
-- The end of a connection: TCP, the reactor and the host of the sessions' actors together.
use dignus_actor_server_rust.Common.{
  ℕ, ◌<◌, ◌≡◌, refl, ap, ◌∙◌, Bool, true, false, none, some, List, [], ◌∷◌, ◌++◌, map, concat,
  length, lookup, All, modify, lookup-modify_self, lookup-remove_self,
}
use dignus_actor_server_rust.Network.Codec.{Decoder}
use dignus_actor_server_rust.Network.Codec.Framing.{IsPrefixDecoder}
use dignus_actor_server_rust.Network.Codec.Decodes.{Decodes}
use dignus_actor_server_rust.Network.Tcp.{ReadResult, read_bytes}
use dignus_actor_server_rust.Network.Tcp.Moving.{read_end}
use dignus_actor_server_rust.Network.SessionHost
use dignus_actor_server_rust.Network.SessionHost.{
  ActorApi, SessionEntry, leave, handled, update_heap,
}
use dignus_actor_server_rust.Network.SessionHost.Stream.{
  post_all, decoded, decoded_lem, on_data-decoded, kept,
}
use dignus_actor_server_rust.Network.Reactor.{
  Registry, Reactor, ManagedConnection, data_of, called, close_connection, close_if, flush_if,
  deliver, read_connection, handle_connection,
}
use dignus_actor_server_rust.Network.Reactor.Sessions.{TcpConn, tcp, sessions, world_of, split}

module _ {M : Type 0} (api : ActorApi M) {d : Decoder M} (lawful : IsPrefixDecoder d)
    (net : ℕ → TcpConn) (registry : Registry) where
  open api use {System, kill}

  -- The worker when the bytes that came before the end are with the host.
  abbrev told :
      Reactor (sessions api d) (tcp net) registry
      → ℕ
      → ManagedConnection (sessions api d) (tcp net) registry
      → List (List ReadResult)
      → SessionEntry api
      → List ℕ
      → List M
      → List ℕ
      → Bool
      → Reactor (sessions api d) (tcp net) registry
  told r token c scripts entry bytes ms rest broken =
      called (sessions api d) (tcp net) registry
        (record r {
          connections =
              modify token
                (record { conn = record (c.conn) { reads = scripts }; writable = c.writable })
                r.connections;
        })
        (data_of token bytes)
        (split api d (
          decoded api (world_of api d r.handler_state r.env) (r.env.heap token).id entry
            (post_all api r.handler_state.system entry.actor_ref ms) rest broken))

  read_told :
      (r : Reactor (sessions api d) (tcp net) registry) (token : ℕ)
      (c : ManagedConnection (sessions api d) (tcp net) registry) (entry : SessionEntry api)
      (chunks : List (List ℕ)) (b : ℕ) (bs : List ℕ) (later : List ReadResult)
      (scripts : List (List ReadResult)) {rest : List ℕ} {ms : List M} {broken : Bool}
      → lookup (r.env.heap token).id r.handler_state.entries ≡ some entry
      → c.conn.reads ≡ (map read_bytes chunks ++ (read_bytes [] ∷ later)) ∷ scripts
      → All (λ c. 0 < length c) chunks
      → concat chunks ≡ b ∷ bs
      → Decodes d (entry.inbound ++ (b ∷ bs)) ms rest broken
      → read_connection (sessions api d) (tcp net) registry r token (some c)
        ≡ some (true, told r token c scripts entry (b ∷ bs) ms rest broken)
  unfolding read_connection deliver
  read_told r token c entry chunks b bs later scripts found reads nonempty all t =
      rw (reads, read_end chunks later [] nonempty, all)
        (rw
          (on_data-decoded api lawful (world_of api d r.handler_state r.env) token (b ∷ bs) entry
            found t)
          refl)

  close_told :
      (r : Reactor (sessions api d) (tcp net) registry) (token id : ℕ)
      (c : ManagedConnection (sessions api d) (tcp net) registry) (entry : SessionEntry api)
      → lookup token r.connections ≡ some c
      → (r.env.heap token).id ≡ id
      → lookup id r.handler_state.entries ≡ some entry
      → (r' : Reactor (sessions api d) (tcp net) registry) × (close_if
            (sessions api d)
            (tcp net)
            registry
            (true, r)
            token
          ≡ some r')
        × (r'.handler_state.system ≡ kill r.handler_state.system entry.actor_ref)
        × (lookup token r'.connections ≡ none)
        × (lookup id r'.handler_state.entries ≡ none)
  unfolding close_connection SessionHost.on_disconnected leave
  close_told r token id c entry open_c same_id found = rw open_c (
      rw same_id (
        rw found (
          _,
          refl,
          refl,
          lookup-remove_self token r.connections,
          lookup-remove_self id r.handler_state.entries,
        )))

  flush_if_closed :
      (writable : Bool) (r : Reactor (sessions api d) (tcp net) registry) (token : ℕ)
      → flush_if (sessions api d) (tcp net) registry writable (true, r) token ≡ (true, r)
  flush_if_closed true r token = refl
  flush_if_closed false r token = refl

  -- The last words of a peer are heard: where the socket of an open connection, whose session the host
  -- knows, gives chunks, none of them empty and one at least, and then the end of the stream, one
  -- readable event posts every message that a lawful decoder finds in the bytes that were left over
  -- and the new ones to the session's actor, in order, kills the actor after them, and forgets the
  -- connection and the session.
  pub last_words :
      (r : Reactor (sessions api d) (tcp net) registry) (token : ℕ) (writable : Bool)
      (c : ManagedConnection (sessions api d) (tcp net) registry) (entry : SessionEntry api)
      (chunks : List (List ℕ)) (b : ℕ) (bs : List ℕ) (later : List ReadResult)
      (scripts : List (List ReadResult)) {rest : List ℕ} {ms : List M} {broken : Bool}
      → lookup token r.connections ≡ some c
      → lookup (r.env.heap token).id r.handler_state.entries ≡ some entry
      → c.conn.reads ≡ (map read_bytes chunks ++ (read_bytes [] ∷ later)) ∷ scripts
      → All (λ c. 0 < length c) chunks
      → concat chunks ≡ b ∷ bs
      → Decodes d (entry.inbound ++ (b ∷ bs)) ms rest broken
      → (r' : Reactor (sessions api d) (tcp net) registry) × (handle_connection
            (sessions api d)
            (tcp net)
            registry
            r
            token
            true
            writable
          ≡ some r')
        × (r'.handler_state.system
            ≡ kill (post_all api r.handler_state.system entry.actor_ref ms) entry.actor_ref)
        × (lookup token r'.connections ≡ none)
        × (lookup (r.env.heap token).id r'.handler_state.entries ≡ none)
  unfolding handle_connection
  last_words r token writable c entry chunks b bs later scripts {rest} {ms} {broken} open_c found
        reads nonempty all t =
      let id = (r.env.heap token).id in
      let r₁ = told r token c scripts entry (b ∷ bs) ms rest broken in
      let (posted, same_id, found₁) =
        decoded_lem api (world_of api d r.handler_state r.env) id token entry
          (post_all api r.handler_state.system entry.actor_ref ms) rest broken found in
      let (r', closes, system, gone, left) =
        close_told r₁ token id
          (record { conn = record (c.conn) { reads = scripts }; writable = c.writable })
          (record entry { inbound = kept api entry.inbound rest broken })
          (lookup-modify_self token _ c r.connections open_c) same_id found₁ in
      (
        r',
        rw
            (
              open_c,
              read_told r token c entry chunks b bs later scripts found reads nonempty all t,
              flush_if_closed writable r₁ token,
            )
            closes,
        system ∙ ap (λ s. kill s entry.actor_ref) posted,
        gone,
        left,
      )
