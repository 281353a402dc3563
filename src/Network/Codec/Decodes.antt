-- ===== src/Network/Codec/Decodes.antt =====
-- What a decoder makes of a byte stream, as a relation: the messages in order, the bytes that are
-- left, and whether the stream turned out corrupt. Independent of buffers, offsets and chunks.
use dignus_actor_server_rust.Common.{
  ℕ, zero, suc, ◌+◌, ◌^◌, ◌≤◌, ◌<◌, ◌≡◌, refl, sym, ap, ap₂, ◌∙◌, Option, List, [], ◌∷◌, ◌++◌,
  arith, length, drop, Bool, true, false, cons?, concat, drop-append_of_le, length-drop,
  append_assoc, cons?-append, drop-length, map, All,
}
use dignus_actor_server_rust.Network.Codec.{
  DecodeResult, incomplete, frame, corrupt, Decoder, length_prefixed_frame, length_prefixed_decode,
  u32_to_be_bytes,
}
use dignus_actor_server_rust.Network.Codec.Framing.{IsPrefixDecoder, length_prefixed_decode-frame}

pub data Decodes {M : Type 0} (d : Decoder M) : List ℕ → List M → List ℕ → Bool → Type 0 where
  waits : {b : List ℕ} → d b ≡ incomplete → Decodes d b [] b false
  breaks : {b : List ℕ} → d b ≡ corrupt → Decodes d b [] b true
  frames :
      {b rest : List ℕ} {n : ℕ} {m : Option M} {ms out : List M} {broken : Bool}
      → d b ≡ frame n m
      → Decodes d (drop n b) ms rest broken
      → out ≡ cons? m ms
      → Decodes d b out rest broken

module _ {M : Type 0} {d : Decoder M} (lawful : IsPrefixDecoder d) where
  -- Every stream has a decoding.
  pub Decodes-total :
      (fuel : ℕ) (b : List ℕ)
      → length b < fuel
      → (ms : List M) × (rest : List ℕ) × (broken : Bool) × Decodes d b ms rest broken
  Decodes-total zero b h = absurd (omega arith)
  Decodes-total (suc fuel) b h = go (d b) refl (λ n m e.
      Decodes-total fuel (drop n b)
        (let p = lawful.progress b n m e in omega (arith, length-drop n b)))
    where
      go :
          (r : DecodeResult M)
          → d b ≡ r
          → ((n : ℕ) (m : Option M)
              → d b ≡ frame n m
              → (ms : List M) × (rest : List ℕ) × (broken : Bool) × Decodes d
                  (drop n b)
                  ms
                  rest
                  broken)
          → (ms : List M) × (rest : List ℕ) × (broken : Bool) × Decodes d b ms rest broken
      go incomplete e ih = ([], b, false, waits e)
      go corrupt e ih = ([], b, true, breaks e)
      go (frame n m) e ih =
          let (ms, rest, broken, t) = ih n m e in (cons? m ms, rest, broken, frames e t refl)

  -- Decoding a stream in two parts, the second with what the first left, is decoding it at once.
  pub Decodes-append :
      (c : List ℕ) {b rest rest' : List ℕ} {ms ms' : List M} {healthy broken : Bool}
      → Decodes d b ms rest healthy
      → healthy ≡ false
      → Decodes d (rest ++ c) ms' rest' broken
      → Decodes d (b ++ c) (ms ++ ms') rest' broken
  Decodes-append c (waits e) h t = t
  Decodes-append c (breaks e) h t = cc
  Decodes-append c {b} {ms' = ms'} (frames {n = n} {m = m} {ms = ms} e s q) h t =
      frames (lawful.frame_stable b c n m e)
        (subst-stream (sym (drop-append_of_le n b c (lawful.progress b n m e).1))
          (Decodes-append c s h t))
        (ap (λ l. l ++ ms') q ∙ sym (cons?-append m ms ms'))
    where
      subst-stream :
          {x y : List ℕ} {ns : List M} {r : List ℕ} {k : Bool}
          → x ≡ y
          → Decodes d x ns r k
          → Decodes d y ns r k
      subst-stream p u = rw (← p) u

  -- Once corrupt, always corrupt: bytes that follow change nothing before the break.
  pub Decodes-corrupt :
      (c : List ℕ) {b rest : List ℕ} {ms : List M} {broken : Bool}
      → Decodes d b ms rest broken
      → broken ≡ true
      → Decodes d (b ++ c) ms (rest ++ c) true
  Decodes-corrupt c (waits e) h = cc
  Decodes-corrupt c {b} (breaks e) h = breaks (lawful.corrupt_stable b c e)
  Decodes-corrupt c {b} (frames {n = n} {m = m} e s q) h =
      frames (lawful.frame_stable b c n m e)
        (rw (drop-append_of_le n b c (lawful.progress b n m e).1) (Decodes-corrupt c s h)) q

-- A stream has one decoding.
pub Decodes-unique :
    {M : Type 0} {d : Decoder M} {b b' rest rest' : List ℕ} {ms ms' : List M} {k k' : Bool}
    → Decodes d b ms rest k
    → Decodes d b' ms' rest' k'
    → b ≡ b'
    → (ms ≡ ms') × (rest ≡ rest') × (k ≡ k')
Decodes-unique {d = d} (waits e) (waits f) p = (refl, p, refl)
Decodes-unique {d = d} (waits e) (breaks f) p = cc (ap d p)
Decodes-unique {d = d} (waits e) (frames f s q) p = cc (ap d p)
Decodes-unique {d = d} (breaks e) (waits f) p = cc (ap d p)
Decodes-unique {d = d} (breaks e) (breaks f) p = (refl, p, refl)
Decodes-unique {d = d} (breaks e) (frames f s q) p = cc (ap d p)
Decodes-unique {d = d} (frames e s q) (waits f) p = cc (ap d p)
Decodes-unique {d = d} (frames e s q) (breaks f) p = cc (ap d p)
Decodes-unique {d = d} {b} {b'} (frames {n = n} {m = m} e s q) (frames {n = n'} {m = m'} f s' q')
      p =
    let same_n : n ≡ n' = cc (ap d p) in
    let same_m : m ≡ m' = cc (ap d p) in
    let (ms, rest, k) = Decodes-unique s s' (ap₂ drop same_n p) in
    (q ∙ ap₂ cons? same_m ms ∙ sym q', rest, k)

-- What a healthy stream leaves is no whole frame.
pub Decodes-incomplete :
    {M : Type 0} {d : Decoder M} {b rest : List ℕ} {ms : List M} {k : Bool}
    → Decodes d b ms rest k
    → k ≡ false
    → d rest ≡ incomplete
Decodes-incomplete (waits e) h = e
Decodes-incomplete (breaks e) h = cc
Decodes-incomplete (frames e s q) h = Decodes-incomplete s h

-- Messages that `deserialize` makes of the payloads; it may drop some.
pub messages_of : {M : Type 0} → (List ℕ → Option M) → List (List ℕ) → List M
messages_of deserialize [] = []
messages_of deserialize (p ∷ ps) = cons? (deserialize p) (messages_of deserialize ps)

-- The payloads of a stream that the decoder accepts.
abbrev pub Fits : ℕ → List (List ℕ) → Type 0
Fits max_frame_len = All (λ p. (length p ≤ max_frame_len) × (length p < 2 ^ 32))

-- A stream of frames, with an incomplete end, decodes to its payloads' messages and that end.
pub Decodes-frames :
    {M : Type 0} (deserialize : List ℕ → Option M) (max_frame_len : ℕ) (payloads : List (List ℕ))
    (end : List ℕ)
    → Fits max_frame_len payloads
    → length_prefixed_decode deserialize max_frame_len end ≡ incomplete
    → Decodes
        (length_prefixed_decode deserialize max_frame_len)
        (concat (map length_prefixed_frame payloads) ++ end)
        (messages_of deserialize payloads)
        end
        false
unfolding messages_of
Decodes-frames deserialize max_frame_len [] end fits e = waits e
Decodes-frames deserialize max_frame_len (p ∷ ps) end fits e =
    rw (append_assoc (length_prefixed_frame p) (concat (map length_prefixed_frame ps)) end) (
      frames (length_prefixed_decode-frame deserialize max_frame_len p _ fits.0.0 fits.0.1)
        (rw skip (Decodes-frames deserialize max_frame_len ps end fits.1 e)) refl)
  where
    len : length (length_prefixed_frame p) ≡ 4 + length p
    len = unfold length_prefixed_frame u32_to_be_bytes in (omega arith)

    skip :
        drop
          (4 + length p)
          (length_prefixed_frame p ++ (concat (map length_prefixed_frame ps) ++ end))
        ≡ concat (map length_prefixed_frame ps) ++ end
    skip = rw (← len) (drop-length (length_prefixed_frame p) _)
