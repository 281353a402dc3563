-- ===== src/Network/SessionHost/Entries.antt =====
-- The host's table of sessions: accepted, fed, disconnected.
use dignus_actor_server_rust.Common.{
  ℕ, ◌≡◌, ◌≢◌, refl, Bool, true, false, ◌==◌, Option, none, some, List, [], map, concat, suc, sym,
  ◌∙◌, length, lookup-insert_self, lookup-remove_self, ◌++◌, lookup, insert, remove, lookup-insert,
  lookup-remove, lookup-modify_ne, if◌then◌else◌, arith,
}
use dignus_actor_server_rust.Network.Codec.{
  Decoder, incomplete, length_prefixed_frame, length_prefixed_decode,
}
use dignus_actor_server_rust.Network.Codec.Framing.{IsPrefixDecoder}
use dignus_actor_server_rust.Network.Codec.Decodes.{Decodes-total, messages_of, Fits}
use dignus_actor_server_rust.Network.SessionHost.{
  ActorApi, SessionEntry, World, handled, on_accepted, on_data, on_disconnected, close_session,
  feed,
}
use dignus_actor_server_rust.Network.SessionHost.Chunks.{healthy, feed-frames}
use dignus_actor_server_rust.Network.SessionHost.Stream.{
  post_all, decoded, decoded_lem, on_data-decoded,
}

module _ {M : Type 0} (api : ActorApi M) where
  open api use {System, Ref, spawn, kill}

  on_disconnected_found :
      (w : World api) (id : ℕ) (entry : SessionEntry api)
      → lookup id w.entries ≡ some entry
      → on_disconnected api w id
        ≡ record w { system = kill w.system entry.actor_ref; entries = remove id w.entries }
  unfolding on_disconnected
  on_disconnected_found w id entry found = rw found

  decoded_others :
      (w : World api) (id j : ℕ) (entry : SessionEntry api) (system : System) (rest : List ℕ)
      (broken : Bool)
      → id ≢ j
      → lookup j (decoded api w id entry system rest broken).entries ≡ lookup j w.entries
  unfolding decoded close_session
  decoded_others w id j entry system rest false ne = lookup-modify_ne id j _ w.entries ne
  decoded_others w id j entry system rest true ne = lookup-modify_ne id j _ w.entries ne

  -- The life of a session: accepted, fed with the frames of a peer cut into chunks anywhere, and
  -- disconnected. The host spawns the actor, posts to it what `deserialize` makes of each payload in
  -- order, and kills it; in the end it has no entry for the session, and for every other session the
  -- entry from before.
  pub session_life :
      (deserialize : List ℕ → Option M) (max_frame_len : ℕ) (w : World api) (token : ℕ)
      (payloads chunks : List (List ℕ)) (end : List ℕ) (j : ℕ) {ref : Ref} {system : System}
      → spawn w.system token w.options.dispatcher_index w.options.mailbox_capacity
        ≡ some (ref, system)
      → Fits max_frame_len payloads
      → length_prefixed_decode deserialize max_frame_len end ≡ incomplete
      → concat chunks ≡ concat (map length_prefixed_frame payloads) ++ end
      → (w' : World api) × (feed api
            (length_prefixed_decode deserialize max_frame_len)
            token
            chunks
            (on_accepted api w token)
          ≡ handled w')
        × ((on_disconnected api w' (w.heap token).id).system
            ≡ kill (post_all api system ref (messages_of deserialize payloads)) ref)
        × (lookup j (on_disconnected api w' (w.heap token).id).entries
            ≡ (if (w.heap token).id == j then none else lookup j w.entries))
  unfolding on_accepted healthy
  session_life deserialize max_frame_len w token payloads chunks end j {ref} {system} spawned fits
        idle cut_up =
      let id = (w.heap token).id in
      let entry : SessionEntry api = record { actor_ref = ref; session = token; inbound = [] } in
      let w₁ : World api = record w { system = system; entries = insert id entry w.entries } in
      let posted = post_all api system ref (messages_of deserialize payloads) in
      let found = lookup-insert_self id entry w.entries in
      let (system₂, _, found₂) = decoded_lem api w₁ id token entry posted end false found in
      let gone = on_disconnected_found (decoded api w₁ id entry posted end false) id _ found₂ in
      (
        decoded api w₁ id entry posted end false,
        rw spawned (
            feed-frames api deserialize max_frame_len w₁ token entry payloads chunks end found refl
              fits idle cut_up),
        rw (gone, system₂) refl,
        rw gone (
            ground (
              arith,
              lookup-remove id j (decoded api w₁ id entry posted end false).entries,
              decoded_others w₁ id j entry posted end false,
              lookup-insert id j entry w.entries,
            )),
      )

  -- Disconnecting a session kills its actor and forgets the entry: data that comes in for it
  -- afterwards is ignored, as is a second disconnect, and all other entries stay.
  pub on_data-on_disconnected :
      (d : Decoder M) (w : World api) (token : ℕ) (bytes : List ℕ) (entry : SessionEntry api)
      (j : ℕ)
      → lookup (w.heap token).id w.entries ≡ some entry
      → let w' = on_disconnected api w (w.heap token).id in
        (w'.system ≡ kill w.system entry.actor_ref)
        × (on_data api d w' token bytes ≡ handled w')
        × (on_disconnected api w' (w.heap token).id ≡ w')
        × (lookup j w'.entries ≡ (if (w.heap token).id == j then none else lookup j w.entries))
  unfolding on_data on_disconnected
  on_data-on_disconnected d w token bytes entry j found = rw found (
    refl,
    rw (lookup-remove_self (w.heap token).id w.entries),
    rw (lookup-remove_self (w.heap token).id w.entries),
    lookup-remove (w.heap token).id j w.entries,
  )

  -- Bytes for one session leave the entries of all others alone.
  pub on_data_others :
      {d : Decoder M}
      → IsPrefixDecoder d
      → (w w' : World api) (token j : ℕ) (bytes : List ℕ) (entry : SessionEntry api)
      → lookup (w.heap token).id w.entries ≡ some entry
      → (w.heap token).id ≢ j
      → on_data api d w token bytes ≡ handled w'
      → lookup j w'.entries ≡ lookup j w.entries
  on_data_others lawful w w' token j bytes entry found ne h =
      let inbound = entry.inbound ++ bytes in
      let (ms, rest, broken, t) =
        Decodes-total lawful (suc (length inbound)) inbound (omega arith) in
      let e = sym h ∙ on_data-decoded api lawful w token bytes entry found t in
      let same : w'
          ≡ decoded api w (w.heap token).id entry (post_all api w.system entry.actor_ref ms) rest
              broken =
        cc e in
      rw same (
        decoded_others w (w.heap token).id j entry (post_all api w.system entry.actor_ref ms) rest
          broken ne)
