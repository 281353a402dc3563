-- ===== src/Network/Reactor/SessionLaws.antt =====
-- The host of the sessions' actors changes sessions as their users do, by closing them only.
use dignus_actor_server_rust.Common.{ℕ, Option, none, some, List, Returns, if_cases}
use dignus_actor_server_rust.Network.Codec.{Decoder}
use dignus_actor_server_rust.Network.Handler.{Env, Uses, unused, then_close, HandlerLaws}
use dignus_actor_server_rust.Network.SessionHost
use dignus_actor_server_rust.Network.SessionHost.{
  ActorApi, SessionEntry, World, Handled, handled, panicked, spins, Loop, stopped, out_of_range,
  out_of_fuel, enter, close_session, update_heap, on_entry_data, finish_unbuffered, finish_buffered,
  decode_loop, is_empty, leave,
}
use dignus_actor_server_rust.Network.Reactor.Sessions.{HostState, world_of, answer_of, sessions}

module _ {M : Type 0} (api : ActorApi M) (decoder : Decoder M) (e : Env) where
  -- A handler's answer, as a use of the sessions.
  abbrev UsesBy : Handled api → Type 0
  UsesBy r = Returns (λ x. Uses e x.1) (answer_of api decoder r)

  close_session-UsesBy :
      (s : HostState api decoder) (token : ℕ)
      → UsesBy (handled (close_session api (world_of api decoder s e) token))
  unfolding close_session update_heap
  close_session-UsesBy s token = then_close unused token

  finish_unbuffered-UsesBy :
      (s : HostState api decoder) (id : ℕ) (entry : SessionEntry api) (bytes : List ℕ)
      (r : Loop api)
      → UsesBy (finish_unbuffered api (world_of api decoder s e) id entry bytes r)
  unfolding finish_unbuffered
  finish_unbuffered-UsesBy s id entry bytes out_of_range = tt
  finish_unbuffered-UsesBy s id entry bytes out_of_fuel = tt
  finish_unbuffered-UsesBy s id entry bytes (stopped offset broken system) =
      if_cases (λ w. UsesBy (handled w)) broken
        (λ _. close_session-UsesBy (record s { system = system }) entry.session)
        (λ _. if_cases (λ w. UsesBy (handled w)) _ (λ _. unused) (λ _. unused))

  finish_buffered-UsesBy :
      (s : HostState api decoder) (id : ℕ) (entry : SessionEntry api) (inbound : List ℕ)
      (r : Loop api)
      → UsesBy (finish_buffered api (world_of api decoder s e) id entry inbound r)
  unfolding finish_buffered
  finish_buffered-UsesBy s id entry inbound out_of_range = tt
  finish_buffered-UsesBy s id entry inbound out_of_fuel = tt
  finish_buffered-UsesBy s id entry inbound (stopped offset broken system) =
      if_cases (λ w. UsesBy (handled w)) broken
        (λ _.
          close_session-UsesBy (record { system = system; options = s.options; entries = _ })
            entry.session)
        (λ _. unused)

  on_entry_data-UsesBy :
      (s : HostState api decoder) (id : ℕ) (bytes : List ℕ) (o : Option (SessionEntry api))
      → UsesBy (on_entry_data api decoder (world_of api decoder s e) id bytes o)
  unfolding on_entry_data
  on_entry_data-UsesBy s id bytes none = unused
  on_entry_data-UsesBy s id bytes (some entry) =
      if_cases UsesBy (is_empty api entry.inbound)
        (λ _. finish_unbuffered-UsesBy s id entry bytes _)
        (λ _. finish_buffered-UsesBy s id entry _ _)

  enter-UsesBy :
      (s : HostState api decoder) (token : ℕ) (o : Option (api.Ref × api.System))
      → UsesBy (enter api (world_of api decoder s e) token o)
  unfolding enter
  enter-UsesBy s token none = tt
  enter-UsesBy s token (some x) = unused

  leave-UsesBy :
      (s : HostState api decoder) (id : ℕ) (o : Option (SessionEntry api))
      → UsesBy (handled (leave api (world_of api decoder s e) id o))
  unfolding leave
  leave-UsesBy s id none = unused
  leave-UsesBy s id (some entry) = unused

module _ {M : Type 0} (api : ActorApi M) (decoder : Decoder M) where
  -- The host of the sessions' actors is a lawful handler of the reactor: it changes sessions by `send`
  -- and `close` only.
  pub sessions-HandlerLaws : HandlerLaws (sessions api decoder)
  unfolding SessionHost.on_accepted SessionHost.on_data SessionHost.on_disconnected
  sessions-HandlerLaws = record {
    accepted_uses = λ s e token. enter-UsesBy api decoder e s token _;
    data_uses = λ s e token bytes. on_entry_data-UsesBy api decoder e s _ bytes _;
    disconnected_uses = λ s e id. leave-UsesBy api decoder e s id _;
  }
