-- ===== src/Network/Codec/Framing.antt =====
-- What the length-prefixed decoder does on frames, their prefixes and their extensions.
use dignus_actor_server_rust.Common.{
  ℕ, ◌+◌, ◌^◌, ◌%◌, ◌≤◌, ◌<◌, ◌≡◌, refl, ap, ◌∙◌, Option, List, ◌++◌, arith, length, take, drop,
  length-append, take-length, take-append_of_le, drop-append_of_le, length-drop,
  get_or-append_of_lt, append_assoc,
}
use dignus_actor_server_rust.Network.Codec.{
  frame, corrupt, Decoder, u32_to_be_bytes, u32_from_be_bytes, length_prefixed_frame,
  length_prefixed_decode, payload_len,
}

-- A length below 2^32 survives the trip through its four bytes.
pub u32_from_be_bytes-to_be_bytes :
    (n : ℕ) (rest : List ℕ) → n < 2 ^ 32 → payload_len (u32_to_be_bytes n ++ rest) ≡ n
unfolding u32_to_be_bytes u32_from_be_bytes
u32_from_be_bytes-to_be_bytes n rest h = omega arith

-- Longer payloads are announced by their length modulo 2^32.
pub u32_from_be_bytes-wrap :
    (n : ℕ) (rest : List ℕ) → payload_len (u32_to_be_bytes n ++ rest) ≡ n % 2 ^ 32
unfolding u32_to_be_bytes u32_from_be_bytes
u32_from_be_bytes-wrap n rest = omega arith

-- What a decoder must satisfy for a stream to be cut at will: progress, and answers that bytes
-- which arrive later do not change.
pub record IsPrefixDecoder {M : Type 0} (d : Decoder M) : Type 0 where
  pub progress : (b : List ℕ) (n : ℕ) (m : Option M) → d b ≡ frame n m → (0 < n) × (n ≤ length b)
  pub frame_stable :
      (b c : List ℕ) (n : ℕ) (m : Option M) → d b ≡ frame n m → d (b ++ c) ≡ frame n m
  pub corrupt_stable : (b c : List ℕ) → d b ≡ corrupt → d (b ++ c) ≡ corrupt

module _ {M : Type 0} (deserialize : List ℕ → Option M) (max_frame_len : ℕ) where
  abbrev decoder : Decoder M
  decoder = length_prefixed_decode deserialize max_frame_len

  payload_len-append : (b c : List ℕ) → 4 ≤ length b → payload_len (b ++ c) ≡ payload_len b
  unfolding u32_from_be_bytes
  payload_len-append b c h = rw (
    get_or-append_of_lt b c 0 0 (omega arith),
    get_or-append_of_lt b c 1 0 (omega arith),
    get_or-append_of_lt b c 2 0 (omega arith),
    get_or-append_of_lt b c 3 0 (omega arith),
  )

  body-append :
      (b c : List ℕ) (k : ℕ) → 4 + k ≤ length b → take k (drop 4 (b ++ c)) ≡ take k (drop 4 b)
  body-append b c k h =
      ap (take k) (drop-append_of_le 4 b c (omega arith))
      ∙ take-append_of_le k (drop 4 b) c (omega (arith, length-drop 4 b))

  decoder-progress :
      (b : List ℕ) (n : ℕ) (m : Option M) → decoder b ≡ frame n m → (0 < n) × (n ≤ length b)
  unfolding length_prefixed_decode
  decoder-progress b n m h = ground arith

  decoder-frame_stable :
      (b c : List ℕ) (n : ℕ) (m : Option M) → decoder b ≡ frame n m → decoder (b ++ c) ≡ frame n m
  unfolding length_prefixed_decode
  decoder-frame_stable b c n m h =
      ground (arith, length-append b c, payload_len-append b c, body-append b c (payload_len b))

  decoder-corrupt_stable : (b c : List ℕ) → decoder b ≡ corrupt → decoder (b ++ c) ≡ corrupt
  unfolding length_prefixed_decode
  decoder-corrupt_stable b c h = ground (arith, length-append b c, payload_len-append b c)

  -- The length-prefixed decoder consumes at least one byte and at most the buffer with each frame,
  -- and neither a frame nor a corrupt stream is judged otherwise when more bytes follow.
  pub length_prefixed_decode-IsPrefixDecoder : IsPrefixDecoder decoder
  length_prefixed_decode-IsPrefixDecoder = record {
    progress = decoder-progress;
    frame_stable = decoder-frame_stable;
    corrupt_stable = decoder-corrupt_stable;
  }

-- A frame at the head of a buffer is decoded whole, if its payload fits the decoder's limit and its
-- length fits a `u32`: the decoder takes prefix and payload, and hands the payload to `deserialize`.
pub length_prefixed_decode-frame :
    {M : Type 0} (deserialize : List ℕ → Option M) (max_frame_len : ℕ) (payload rest : List ℕ)
    → length payload ≤ max_frame_len
    → length payload < 2 ^ 32
    → length_prefixed_decode deserialize max_frame_len (length_prefixed_frame payload ++ rest)
      ≡ frame (4 + length payload) (deserialize payload)
unfolding length_prefixed_decode length_prefixed_frame
length_prefixed_decode-frame deserialize max_frame_len payload rest fits small =
    rw (append_assoc (u32_to_be_bytes (length payload)) payload rest) (
      ground (
        arith,
        u32_from_be_bytes-to_be_bytes (length payload) (payload ++ rest) small,
        length-four (length payload) (payload ++ rest),
        drop-four (length payload) (payload ++ rest),
        length-append payload rest,
        take-length payload rest,
      ))
  where
    length-four : (n : ℕ) (bs : List ℕ) → length (u32_to_be_bytes n ++ bs) ≡ 4 + length bs
    length-four n bs = unfold u32_to_be_bytes in (omega arith)

    drop-four : (n : ℕ) (bs : List ℕ) → drop 4 (u32_to_be_bytes n ++ bs) ≡ bs
    drop-four n bs = unfold u32_to_be_bytes in refl

-- A frame whose payload is over the limit makes the stream corrupt.
pub length_prefixed_decode-oversized :
    {M : Type 0} (deserialize : List ℕ → Option M) (max_frame_len : ℕ) (payload rest : List ℕ)
    → max_frame_len < length payload
    → length payload < 2 ^ 32
    → length_prefixed_decode deserialize max_frame_len (length_prefixed_frame payload ++ rest)
      ≡ corrupt
unfolding length_prefixed_decode length_prefixed_frame
length_prefixed_decode-oversized deserialize max_frame_len payload rest over small =
    rw (append_assoc (u32_to_be_bytes (length payload)) payload rest) (
      ground (
        arith,
        u32_from_be_bytes-to_be_bytes (length payload) (payload ++ rest) small,
        length-four (length payload) (payload ++ rest),
      ))
  where
    length-four : (n : ℕ) (bs : List ℕ) → length (u32_to_be_bytes n ++ bs) ≡ 4 + length bs
    length-four n bs = unfold u32_to_be_bytes in (omega arith)
