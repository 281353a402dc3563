-- ===== src/Network/Codec.antt =====
-- dignus-actor-network/src/codec.rs, length_prefixed_decoder.rs and frame_encoder.rs: frames on a
-- byte stream. A byte is a number below 256; messages are a type that the model does not look into,
-- and the user's `deserialize` is a parameter.
pub mod Framing
pub mod Decodes
use dignus_actor_server_rust.Common.{
  ℕ, ◌+◌, ◌*◌, ◌/◌, ◌%◌, ◌^◌, Bool, true, false, Option, none, some, List, [], ◌∷◌, ◌++◌, length,
  get_or, take, drop, ltb, if◌then◌else◌,
}

-- `DecodeResult`
pub data DecodeResult (M : Type 0) : Type 0 where
  incomplete : DecodeResult M
  frame : (consumed : ℕ) (message : Option M) → DecodeResult M
  corrupt : DecodeResult M

-- `MessageDecoder`: its one method.
abbrev pub Decoder : Type 0 → Type 0
Decoder M = List ℕ → DecodeResult M

abbrev pub length_prefix_size : ℕ
length_prefix_size = 4

abbrev pub default_max_frame_len : ℕ
default_max_frame_len = 2 ^ 20

-- `(n as u32).to_be_bytes()`: the cast keeps the low 32 bits.
unfoldable pub u32_to_be_bytes : ℕ → List ℕ
u32_to_be_bytes n = (n / 2 ^ 24 % 256) ∷ (n / 2 ^ 16 % 256) ∷ (n / 2 ^ 8 % 256) ∷ (n % 256) ∷ []

-- `u32::from_be_bytes`
unfoldable pub u32_from_be_bytes : ℕ → ℕ → ℕ → ℕ → ℕ
u32_from_be_bytes b₀ b₁ b₂ b₃ = ((b₀ * 256 + b₁) * 256 + b₂) * 256 + b₃

-- `length_prefixed_frame`, which is `LengthPrefixedEncoder::encode`
unfoldable pub length_prefixed_frame : List ℕ → List ℕ
length_prefixed_frame payload = u32_to_be_bytes (length payload) ++ payload

-- `RawEncoder::encode`
unfoldable pub raw_encode : List ℕ → List ℕ
raw_encode payload = payload

-- The length field at the head of a buffer.
abbrev pub payload_len : List ℕ → ℕ
payload_len buffer =
    u32_from_be_bytes (get_or buffer 0 0) (get_or buffer 1 0) (get_or buffer 2 0)
      (get_or buffer 3 0)

-- `LengthPrefixedDecoder::try_decode`. The sum is a `usize`, where four bytes and a `u32` fit.
unfoldable pub length_prefixed_decode : {M : Type 0} → (List ℕ → Option M) → ℕ → Decoder M
length_prefixed_decode deserialize max_frame_len buffer =
    if ltb (length buffer) length_prefix_size
    then incomplete
    else if ltb max_frame_len (payload_len buffer)
    then corrupt
    else if ltb (length buffer) (length_prefix_size + payload_len buffer)
    then incomplete
    else frame (length_prefix_size + payload_len buffer)
        (deserialize (take (payload_len buffer) (drop length_prefix_size buffer)))

-- `LengthPrefixedDecoder`, which decodes by `length_prefixed_decode`.
pub record LengthPrefixedDecoder (M : Type 0) : Type 0 where
  pub deserialize : List ℕ → Option M
  pub max_frame_len : ℕ

unfoldable pub with_max_frame_len : {M : Type 0} → (List ℕ → Option M) → ℕ → LengthPrefixedDecoder M
with_max_frame_len deserialize max_frame_len = record {
  deserialize = deserialize;
  max_frame_len = max_frame_len;
}

unfoldable pub new : {M : Type 0} → (List ℕ → Option M) → LengthPrefixedDecoder M
new deserialize = record { deserialize = deserialize; max_frame_len = default_max_frame_len }

unfoldable pub try_decode : {M : Type 0} → LengthPrefixedDecoder M → Decoder M
unfolding length_prefixed_decode
try_decode d buffer = length_prefixed_decode d.deserialize d.max_frame_len buffer

-- `RawFrameDecoder::try_decode`; `wrap` is the constructor `SessionReceived` as a message.
unfoldable pub raw_decode : {M : Type 0} → (List ℕ → M) → Decoder M
raw_decode wrap [] = incomplete
raw_decode wrap (b ∷ bs) = frame (length (b ∷ bs)) (some (wrap (b ∷ bs)))
