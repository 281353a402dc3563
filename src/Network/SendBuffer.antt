-- ===== src/Network/SendBuffer.antt =====
-- dignus-actor-network/src/send_buffer.rs: the bytes a session still has to write, as a vector and
-- an offset to its first unsent byte.
use dignus_actor_server_rust.Common.{
  ℕ, ◌+◌, ◌-◌, ◌≤◌, ◌≡◌, Bool, true, List, [], ◌++◌, length, drop, leb, ltb, if◌then◌else◌, arith,
  length-append, length-drop, drop-drop, drop_all, drop-append_of_le,
}

-- `SendBuffer`; the source's field `data` is `bytes`.
pub record SendBuffer : Type 0 where
  pub bytes : List ℕ
  pub offset : ℕ
  pub max_pending : ℕ

unfoldable pub new : ℕ → SendBuffer
new max_pending = record { bytes = []; offset = 0; max_pending = max_pending }

abbrev pub pending_len : SendBuffer → ℕ
pending_len b = length b.bytes - b.offset

unfoldable pub can_write : SendBuffer → ℕ → Bool
can_write b count = leb (pending_len b + count) b.max_pending

unfoldable pub append : SendBuffer → List ℕ → SendBuffer
append b extra = record b { bytes = b.bytes ++ extra }

unfoldable pub has_pending : SendBuffer → Bool
has_pending b = ltb b.offset (length b.bytes)

unfoldable pub pending_slice : SendBuffer → List ℕ
pending_slice b = drop b.offset b.bytes

unfoldable pub advance : SendBuffer → ℕ → SendBuffer
advance b count =
    if leb (length b.bytes) (b.offset + count)
    then record b { bytes = []; offset = 0 }
    else record b { offset = b.offset + count }

-- The offset lies in the vector, so that the source's subtraction and slice are in range, and the
-- bytes that wait are within the limit.
pub record IsValid (b : SendBuffer) : Type 0 where
  pub in_range : b.offset ≤ length b.bytes
  pub limited : pending_len b ≤ b.max_pending

pub new-IsValid : (max_pending : ℕ) → IsValid (new max_pending)
unfolding new
new-IsValid max_pending = omega arith

-- What `can_write` accepts may be appended.
pub append-IsValid :
    {b : SendBuffer} (extra : List ℕ)
    → IsValid b
    → can_write b (length extra) ≡ true
    → IsValid (append b extra)
unfolding append can_write
append-IsValid {b} extra v h = ground (arith, length-append b.bytes extra)

pub advance-IsValid : {b : SendBuffer} (count : ℕ) → IsValid b → IsValid (advance b count)
unfolding advance
advance-IsValid count v = ground arith

pub length-pending_slice : (b : SendBuffer) → length (pending_slice b) ≡ pending_len b
unfolding pending_slice
length-pending_slice b = length-drop b.offset b.bytes

-- Appending puts the new bytes behind those that wait.
pub pending_slice-append :
    {b : SendBuffer} (extra : List ℕ)
    → IsValid b
    → pending_slice (append b extra) ≡ pending_slice b ++ extra
unfolding pending_slice append
pending_slice-append {b} extra v = drop-append_of_le b.offset b.bytes extra v.in_range

-- Advancing takes away the first `count` of the bytes that wait, all of them where there are fewer.
pub pending_slice-advance :
    (b : SendBuffer) (count : ℕ) → pending_slice (advance b count) ≡ drop count (pending_slice b)
unfolding pending_slice advance
pending_slice-advance b count =
    ground (arith, drop-drop count b.offset b.bytes, drop_all (b.offset + count) b.bytes)

pub has_pending-pending_slice : (b : SendBuffer) → has_pending b ≡ ltb 0 (length (pending_slice b))
unfolding has_pending pending_slice
has_pending-pending_slice b = ground (arith, length-drop b.offset b.bytes)
