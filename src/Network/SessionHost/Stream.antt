-- ===== src/Network/SessionHost/Stream.antt =====
-- `on_data` against the relation `Decodes`: one chunk that arrives.
use dignus_actor_server_rust.Common.{
  ℕ, zero, suc, ◌+◌, ◌≤◌, ◌<◌, ◌≡◌, refl, sym, ap, ◌∙◌, Bool, true, false, Option, none, some, List,
  [], ◌∷◌, ◌++◌, length, drop, ltb, if◌then◌else◌, lookup, modify, modify_same, lookup-modify_self,
  arith, cons?, drop-drop, drop_all, length-drop, Bool-cases, inl, inr, le→leb,
}
use dignus_actor_server_rust.Network.Codec.{incomplete, frame, corrupt, Decoder}
use dignus_actor_server_rust.Network.Codec.Framing.{IsPrefixDecoder}
use dignus_actor_server_rust.Network.Codec.Decodes.{Decodes, waits, breaks, frames}
use dignus_actor_server_rust.Network.Session
use dignus_actor_server_rust.Network.SessionHost.{
  ActorApi, SessionEntry, World, handled, post_message, close_session, update_heap, Loop, stopped,
  decode_loop, is_empty, finish_unbuffered, finish_buffered, on_entry_data, on_data,
}

module _ {M : Type 0} (api : ActorApi M) where
  open api use {System, Ref, post}

  -- Messages posted one after the other.
  unfoldable pub post_all : System → Ref → List M → System
  post_all system ref [] = system
  post_all system ref (m ∷ ms) = post_all (post system ref m) ref ms

  pub post_all-append :
      (system : System) (ref : Ref) (xs ys : List M)
      → post_all system ref (xs ++ ys) ≡ post_all (post_all system ref xs) ref ys
  unfolding post_all
  post_all-append system ref [] ys = refl
  post_all-append system ref (x ∷ xs) ys = post_all-append (post system ref x) ref xs ys

  post_all-cons? :
      (system : System) (ref : Ref) (o : Option M) (ms : List M)
      → post_all (post_message api system ref o) ref ms ≡ post_all system ref (cons? o ms)
  unfolding post_all post_message
  post_all-cons? system ref none ms = refl
  post_all-cons? system ref (some m) ms = refl

  -- Where the loop stops: past what was decoded, the messages posted in order.
  pub record Stops (ref : Ref) (bytes : List ℕ) (system : System) (ms : List M) (rest : List ℕ)
      (broken : Bool) (r : Loop api) : Type 0 where
    pub offset : ℕ
    pub result : r ≡ stopped offset broken (post_all system ref ms)
    pub within : offset ≤ length bytes
    pub left : drop offset bytes ≡ rest

  Stops-cons? :
      (ref : Ref) (bytes : List ℕ) (system : System) (m : Option M) {ms out : List M}
      {rest : List ℕ} {broken : Bool} {r : Loop api}
      → out ≡ cons? m ms
      → Stops ref bytes (post_message api system ref m) ms rest broken r
      → Stops ref bytes system out rest broken r
  Stops-cons? ref bytes system m {ms} {broken = broken} q s = record {
    offset = s.offset;
    result =
        s.result
        ∙ ap (stopped s.offset broken)
            (post_all-cons? system ref m ms ∙ ap (post_all system ref) (sym q));
    within = s.within;
    left = s.left;
  }

  module _ (d : Decoder M) (ref : Ref) (bytes : List ℕ) (fuel offset : ℕ) (system : System)
      {b : List ℕ} (here : b ≡ drop offset bytes) (within : offset ≤ length bytes) where
    decode_loop_incomplete :
        d b ≡ incomplete
        → decode_loop api d ref bytes (suc fuel) offset system ≡ stopped offset false system
    unfolding decode_loop
    decode_loop_incomplete w =
        rw (le→leb offset (length bytes) within, decode_loop) (rw (← here) (rw (w, decode_loop)))

    decode_loop_corrupt :
        d b ≡ corrupt
        → decode_loop api d ref bytes (suc fuel) offset system ≡ stopped offset true system
    unfolding decode_loop
    decode_loop_corrupt w =
        rw (le→leb offset (length bytes) within, decode_loop) (rw (← here) (rw (w, decode_loop)))

    decode_loop_frame :
        (n : ℕ) (m : Option M)
        → d b ≡ frame n m
        → decode_loop api d ref bytes (suc fuel) offset system
          ≡ decode_loop api d ref bytes fuel (offset + n) (post_message api system ref m)
    unfolding decode_loop
    decode_loop_frame n m w =
        rw (le→leb offset (length bytes) within, decode_loop) (rw (← here) (rw (w, decode_loop)))

  module _ {d : Decoder M} (lawful : IsPrefixDecoder d) (ref : Ref) (bytes : List ℕ) where
    decode_loop-Stops :
        (fuel offset : ℕ) (system : System) {b rest : List ℕ} {ms : List M} {broken : Bool}
        → Decodes d b ms rest broken
        → b ≡ drop offset bytes
        → offset ≤ length bytes
        → length b < fuel
        → Stops ref bytes system ms rest broken (decode_loop api d ref bytes fuel offset system)
    unfolding post_all
    decode_loop-Stops zero offset system t e h f = absurd (omega arith)
    decode_loop-Stops (suc fuel) offset system (waits w) e h f = record {
      offset = offset;
      result = decode_loop_incomplete d ref bytes fuel offset system e h w;
      within = h;
      left = sym e;
    }
    decode_loop-Stops (suc fuel) offset system (breaks w) e h f = record {
      offset = offset;
      result = decode_loop_corrupt d ref bytes fuel offset system e h w;
      within = h;
      left = sym e;
    }
    decode_loop-Stops (suc fuel) offset system {b} (frames {n = n} {m = m} {ms = ms} w t q) e h f =
        rw (decode_loop_frame d ref bytes fuel offset system e h n m w) (
          Stops-cons? ref bytes system m q (
            decode_loop-Stops fuel (offset + n) (post_message api system ref m) t
              (ap (drop n) e ∙ drop-drop n offset bytes)
              (omega (arith, lawful.progress b n m w, length-drop offset bytes, ap length e))
              (omega (arith, lawful.progress b n m w, length-drop n b))))

  -- The entry's buffer after a chunk that was decoded up to `rest`. Where the stream broke and
  -- nothing was buffered before, the source keeps nothing of the chunk.
  unfoldable pub kept : List ℕ → List ℕ → Bool → List ℕ
  kept inbound rest broken = if broken then (if is_empty api inbound then [] else rest) else rest

  module _ (w : World api) (id : ℕ) (entry : SessionEntry api) (system : System) (rest : List ℕ)
      (broken : Bool) where
    -- The world after a chunk: messages posted, the rest kept, and a broken stream's session closed.
    unfoldable pub decoded : World api
    decoded =
        let w' = record w {
          system = system;
          entries = modify id (record entry { inbound = kept entry.inbound rest broken }) w.entries;
        } in
        if broken then close_session api w' entry.session else w'

  drained : (n : ℕ) (bytes : List ℕ) → (if ltb 0 n then drop n bytes else bytes) ≡ drop n bytes
  drained zero bytes = refl
  drained (suc n) bytes = ground arith

  same_entry :
      (entry : SessionEntry api) {kept : List ℕ}
      → entry.inbound ≡ kept
      → record entry { inbound = kept } ≡ entry
  same_entry entry e = ap (λ (k : List ℕ). record entry { inbound = k }) (sym e)

  none_left :
      (w : World api) (id : ℕ) (entry : SessionEntry api)
      → lookup id w.entries ≡ some entry
      → entry.inbound ≡ []
      → modify id (record entry { inbound = [] }) w.entries ≡ w.entries
  none_left w id entry found e =
      ap (λ (v : SessionEntry api). modify id v w.entries) (same_entry entry e)
      ∙ modify_same id entry w.entries found

  module _ (w : World api) (id : ℕ) (entry : SessionEntry api) (bytes : List ℕ) {rest : List ℕ}
      {ms : List M} {broken : Bool} {r : Loop api} (found : lookup id w.entries ≡ some entry) where
    finish_unbuffered-decoded :
        entry.inbound ≡ []
        → Stops entry.actor_ref bytes w.system ms rest broken r
        → finish_unbuffered api w id entry bytes r
          ≡ handled (decoded w id entry (post_all w.system entry.actor_ref ms) rest broken)
    unfolding finish_unbuffered decoded kept is_empty
    finish_unbuffered-decoded e s =
        rw (s.result, e)
          (elim (Bool-cases broken) [
            | inl b ↦ rw (b, none_left w id entry found e)
            | inr b ↦ rw b (elim (Bool-cases (ltb s.offset (length bytes))) [
              | inl more ↦ rw (more, s.left)
              | inr all ↦ rw (
                all,
                ← s.left,
                drop_all s.offset bytes (ground arith),
                none_left w id entry found e,
              )
            ])
          ])

    finish_buffered-decoded :
        is_empty api entry.inbound ≡ false
        → Stops entry.actor_ref bytes w.system ms rest broken r
        → finish_buffered api w id entry bytes r
          ≡ handled (decoded w id entry (post_all w.system entry.actor_ref ms) rest broken)
    unfolding finish_buffered decoded kept
    finish_buffered-decoded e s =
        rw (s.result, e, drained s.offset bytes, s.left)
          (elim (Bool-cases broken) [ inl b ↦ rw b | inr b ↦ rw b ])

  is_empty-eq : (bytes : List ℕ) → is_empty api bytes ≡ true → bytes ≡ []
  unfolding is_empty
  is_empty-eq [] e = refl
  is_empty-eq (b ∷ bs) e = cc

  -- `on_data` posts exactly the messages that the decoder finds in the bytes left over and the new
  -- ones together, in order, keeps what is left, and closes the session if the stream is corrupt;
  -- it returns, and neither panics nor spins.
  pub on_data-decoded :
      {d : Decoder M}
      → IsPrefixDecoder d
      → (w : World api) (token : ℕ) (bytes : List ℕ) (entry : SessionEntry api) {rest : List ℕ}
        {ms : List M} {broken : Bool}
      → lookup (w.heap token).id w.entries ≡ some entry
      → Decodes d (entry.inbound ++ bytes) ms rest broken
      → on_data api d w token bytes
        ≡ handled
            (decoded w (w.heap token).id entry (post_all w.system entry.actor_ref ms) rest broken)
  unfolding on_data on_entry_data
  on_data-decoded {d} lawful w token bytes entry found t =
      rw found (elim (Bool-cases (is_empty api entry.inbound)) [
        | inl e ↦
            let none = is_empty-eq entry.inbound e in
            rw e (
              finish_unbuffered-decoded w (w.heap token).id entry bytes found none (
                decode_loop-Stops lawful entry.actor_ref bytes (suc (length bytes)) 0 w.system
                  (rw none at t) refl (omega arith) (omega arith)))
        | inr e ↦ rw e (
            finish_buffered-decoded w (w.heap token).id entry (entry.inbound ++ bytes) found e (
              decode_loop-Stops lawful entry.actor_ref (entry.inbound ++ bytes) _ 0 w.system t refl
                (omega arith) (omega arith)))
      ])

  -- What a later handler reads of the world after a chunk.
  pub decoded_lem :
      (w : World api) (id token : ℕ) (entry : SessionEntry api) (system : System) (rest : List ℕ)
      (broken : Bool)
      → lookup id w.entries ≡ some entry
      → let w' = decoded w id entry system rest broken in
        (w'.system ≡ system)
        × ((w'.heap token).id ≡ (w.heap token).id)
        × (lookup id w'.entries ≡ some (record entry { inbound = kept entry.inbound rest broken }))
  unfolding decoded close_session update_heap Session.close
  decoded_lem w id token entry system rest false found =
      (refl, refl, lookup-modify_self id _ entry w.entries found)
  decoded_lem w id token entry system rest true found =
      (refl, ground arith, lookup-modify_self id _ entry w.entries found)
