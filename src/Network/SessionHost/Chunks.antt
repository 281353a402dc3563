-- ===== src/Network/SessionHost/Chunks.antt =====
-- A stream that arrives in chunks: the transport may cut it anywhere.
use dignus_actor_server_rust.Common.{
  ℕ, suc, ◌≡◌, refl, sym, ap, ◌∙◌, Bool, true, false, Option, some, List, [], ◌∷◌, ◌++◌, length,
  lookup, arith, concat, map, append-nil, append_assoc, modify_same, modify-modify,
  lookup-modify_self,
}
use dignus_actor_server_rust.Network.Codec.{
  incomplete, Decoder, length_prefixed_frame, length_prefixed_decode,
}
use dignus_actor_server_rust.Network.Codec.Framing.{
  IsPrefixDecoder, length_prefixed_decode-IsPrefixDecoder,
}
use dignus_actor_server_rust.Network.Codec.Decodes.{
  Decodes, waits, Decodes-total, Decodes-append, Decodes-corrupt, Decodes-unique,
  Decodes-incomplete, Decodes-frames, messages_of, Fits,
}
use dignus_actor_server_rust.Network.SessionHost.{
  ActorApi, SessionEntry, World, handled, feed, is_empty,
}
use dignus_actor_server_rust.Network.SessionHost.Stream.{
  post_all, post_all-append, kept, decoded, decoded_lem, on_data-decoded,
}

module _ {M : Type 0} (api : ActorApi M) where
  open api use {System, Ref}

  -- The world after a healthy stretch of a stream.
  unfoldable pub healthy : World api → ℕ → SessionEntry api → List M → List ℕ → World api
  healthy w id entry ms rest =
      decoded api w id entry (post_all api w.system entry.actor_ref ms) rest false

  healthy-healthy :
      (w : World api) (id : ℕ) (entry : SessionEntry api) (ms ns : List M) (mid rest : List ℕ)
      → healthy (healthy w id entry ms mid) id (record entry { inbound = mid }) ns rest
        ≡ healthy w id entry (ms ++ ns) rest
  unfolding healthy decoded kept
  healthy-healthy w id entry ms ns mid rest = simp (modify-modify, post_all-append)

  healthy-none :
      (w : World api) (id : ℕ) (entry : SessionEntry api)
      → lookup id w.entries ≡ some entry
      → healthy w id entry [] entry.inbound ≡ w
  unfolding healthy decoded kept post_all
  healthy-none w id entry found =
      ap (λ (es : List (ℕ × SessionEntry api)). record w { entries = es })
        (modify_same id entry w.entries found)

-- Decoding the first part of a stream that is healthy as a whole.
record Cut {M : Type 0} (d : Decoder M) (b c : List ℕ) (ms : List M) (rest : List ℕ) : Type 0 where
  first : List M
  second : List M
  mid : List ℕ
  before : Decodes d b first mid false
  after : Decodes d (mid ++ c) second rest false
  split : ms ≡ first ++ second

module _ {M : Type 0} {d : Decoder M} (lawful : IsPrefixDecoder d) (b c : List ℕ) {rest : List ℕ}
    {ms : List M} where
  Cut-healthy :
      {first second : List M} {mid last : List ℕ} {k : Bool}
      → Decodes d (b ++ c) ms rest false
      → Decodes d b first mid false
      → Decodes d (mid ++ c) second last k
      → Cut d b c ms rest
  Cut-healthy {first} {second} {mid} {last} {k} t before after =
      let (same_ms, same_rest, same_k) =
        Decodes-unique t (Decodes-append lawful c before refl after) refl in
      record {
        first = first;
        second = second;
        mid = mid;
        before = before;
        after = rw (same_rest, same_k) after;
        split = same_ms;
      }

  Cut-at :
      {first : List M} {mid : List ℕ} (k : Bool)
      → Decodes d (b ++ c) ms rest false
      → Decodes d b first mid k
      → Cut d b c ms rest
  Cut-at {mid} false t before =
      Cut-healthy t before
        (Decodes-total lawful (suc (length (mid ++ c))) (mid ++ c) (omega arith)).3
  Cut-at true t before =
      let (_, _, k) = Decodes-unique t (Decodes-corrupt lawful c before refl) refl in cc k

  cut : Decodes d (b ++ c) ms rest false → Cut d b c ms rest
  cut t =
      let (first, mid, k, before) = Decodes-total lawful (suc (length b)) b (omega arith) in
      Cut-at k t before

module _ {M : Type 0} (api : ActorApi M) {d : Decoder M} (lawful : IsPrefixDecoder d)
    (token : ℕ) where
  -- However a healthy stream is cut into chunks, the host posts the messages of the whole stream in
  -- order, each once, and keeps the bytes of the last unfinished frame.
  pub feed-healthy :
      (chunks : List (List ℕ)) (w : World api) (entry : SessionEntry api) {rest : List ℕ}
      {ms : List M}
      → lookup (w.heap token).id w.entries ≡ some entry
      → d entry.inbound ≡ incomplete
      → Decodes d (entry.inbound ++ concat chunks) ms rest false
      → feed api d token chunks (handled w)
        ≡ handled (healthy api w (w.heap token).id entry ms rest)
  unfolding feed healthy decoded kept
  feed-healthy [] w entry found idle t =
      let (no_more, left, _) = Decodes-unique t (waits idle) (append-nil entry.inbound) in
      rw (no_more, left) (sym (ap handled (healthy-none api w (w.heap token).id entry found)))
  feed-healthy (c ∷ cs) w entry {rest} {ms} found idle t =
      let split =
        cut lawful (entry.inbound ++ c) (concat cs) {rest = rest} {ms = ms}
          (rw (append_assoc entry.inbound c (concat cs)) t) in
      let id = (w.heap token).id in
      let w' = healthy api w id entry split.first split.mid in
      rw (on_data-decoded api lawful w token c entry found split.before) (
        feed-healthy cs w' (record entry { inbound = split.mid })
          (lookup-modify_self id _ entry w.entries found) (Decodes-incomplete split.before refl)
          split.after
        ∙ ap handled (
            healthy-healthy api w id entry split.first split.second split.mid rest
            ∙ ap (λ ns. healthy api w id entry ns rest) (sym split.split)))

  -- After a corrupt frame the source keeps a buffer that holds it, but keeps nothing where it met the
  -- frame with the buffer empty. Then the next chunk, if it comes before the reactor has closed the
  -- session, is decoded as if a frame began there, and its messages are posted.
  pub feed_after_corrupt_unbuffered :
      (w : World api) (entry : SessionEntry api) (b c : List ℕ) {rest rest' : List ℕ}
      {ms ms' : List M} {k : Bool}
      → lookup (w.heap token).id w.entries ≡ some entry
      → entry.inbound ≡ []
      → Decodes d b ms rest true
      → Decodes d c ms' rest' k
      → (w' : World api) × (feed api d token (b ∷ c ∷ []) (handled w) ≡ handled w')
        × (w'.system ≡ post_all api w.system entry.actor_ref (ms ++ ms'))
  unfolding feed kept is_empty
  feed_after_corrupt_unbuffered w entry b c {rest} {rest'} {ms} {ms'} {k} found empty t u =
      let id = (w.heap token).id in
      let posted = post_all api w.system entry.actor_ref ms in
      let w₁ = decoded api w id entry posted rest true in
      let (system₁, id₁, found₁) = decoded_lem api w id token entry posted rest true found in
      let entry₁ = record entry { inbound = kept api entry.inbound rest true } in
      let system₂ = post_all api w₁.system entry.actor_ref ms' in
      let cleared : kept api entry.inbound rest true ≡ [] = rw (empty, kept, is_empty) in
      let found₂ : lookup (w₁.heap token).id w₁.entries ≡ some entry₁ = rw id₁ found₁ in
      let t' : Decodes d (entry.inbound ++ b) ms rest true = rw empty t in
      let u' : Decodes d (entry₁.inbound ++ c) ms' rest' k = rw cleared u in
      (
        decoded api w₁ (w₁.heap token).id entry₁ system₂ rest' k,
        ap (λ r. feed api d token (c ∷ []) r) (on_data-decoded api lawful w token b entry found t')
            ∙ (on_data-decoded api lawful w₁ token c entry₁ found₂ u'),
        (decoded_lem api w₁ (w₁.heap token).id token entry₁ system₂ rest' k found₂).0
            ∙ ap (λ s. post_all api s entry.actor_ref ms') system₁
            ∙ sym (post_all-append api w.system entry.actor_ref ms ms'),
      )

module _ {M : Type 0} (api : ActorApi M) (deserialize : List ℕ → Option M) (max_frame_len : ℕ) where
  -- End to end: a peer frames its payloads, none of them over the decoder's limit or of 2^32 bytes
  -- and more; the bytes arrive cut into chunks anywhere, perhaps with the beginning of one more
  -- frame, at a session that has nothing buffered. The host then has posted to the session's actor
  -- what `deserialize` made of each payload, in the order they were sent, and holds the beginning of
  -- the next frame.
  pub feed-frames :
      (w : World api) (token : ℕ) (entry : SessionEntry api) (payloads chunks : List (List ℕ))
      (end : List ℕ)
      → lookup (w.heap token).id w.entries ≡ some entry
      → entry.inbound ≡ []
      → Fits max_frame_len payloads
      → length_prefixed_decode deserialize max_frame_len end ≡ incomplete
      → concat chunks ≡ concat (map length_prefixed_frame payloads) ++ end
      → feed api (length_prefixed_decode deserialize max_frame_len) token chunks (handled w)
        ≡ handled (healthy api w (w.heap token).id entry (messages_of deserialize payloads) end)
  feed-frames w token entry payloads chunks end found empty fits idle cut_up =
      feed-healthy api (length_prefixed_decode-IsPrefixDecoder deserialize max_frame_len) token
        chunks w entry found (rw empty (unfold length_prefixed_decode in refl))
        (rw (empty, cut_up) (Decodes-frames deserialize max_frame_len payloads end fits idle))
