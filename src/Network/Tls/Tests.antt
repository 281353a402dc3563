-- ===== src/Network/Tls/Tests.antt =====
-- A connection that encrypts nothing, and runs of the two loops on it.
use dignus_actor_server_rust.Common.{
  ℕ, ◌≤◌, ◌≡◌, ◌≢◌, Bool, none, refl, sym, ap, ◌∙◌, ◌⊎◌, false, some, List, [], ◌∷◌, ◌++◌, length,
  take, drop, leb, ltb, arith, append-nil, drop_all, take-length, le→leb,
}
use dignus_actor_server_rust.Network.SendBuffer.{SendBuffer}
use dignus_actor_server_rust.Network.Tcp.{closed, ReadResult, read_bytes, read_would_block}
use dignus_actor_server_rust.Network.Tls.{ServerConnection, ServerConnectionLaws, read}
use dignus_actor_server_rust.Network.Tls.Plaintext.{read-Delivered}

record Null : Type 0 where
  raw : List ℕ
  plain : List ℕ
  all : List ℕ
  written : List ℕ
  out : List ℕ

abbrev null_connection : ServerConnection
null_connection = record {
  Tls = Null;
  read_tls = λ c bytes. record c { raw = c.raw ++ bytes };
  process_new_packets = λ c. (
    some (length (c.plain ++ c.raw), false),
    record c { raw = []; plain = c.plain ++ c.raw; all = c.all ++ c.raw },
  );
  read_exact = λ c n. (leb n (length c.plain), take n c.plain, record c { plain = drop n c.plain });
  write_plain = λ c bytes.
      (some (length bytes), record c { written = c.written ++ bytes; out = c.out ++ bytes });
  wants_write = λ c. ltb 0 (length c.out);
  write_tls = λ c n. (take n c.out, record c { out = drop n c.out });
}

take_whole : (bytes : List ℕ) → take (length bytes) bytes ≡ bytes
take_whole bytes = ap (take (length bytes)) (sym (append-nil bytes)) ∙ take-length bytes []

taken_whole :
    (bytes : List ℕ) (n : ℕ)
    → some (length bytes) ≡ some n
    → (n ≤ length bytes) × (bytes ≡ take n bytes)
taken_whole bytes n e =
    let same : length bytes ≡ n = cc in rw (← same) (omega arith, sym (take_whole bytes))

counted :
    (read : ℕ × Bool) (n : ℕ) (peer_has_closed : Bool)
    → some read ≡ some (n, peer_has_closed)
    → n ≡ read.0
counted read n peer_has_closed e = cc

some_taken : (bytes : List ℕ) → some (length bytes) ≢ none
some_taken bytes e = cc

abbrev null_laws : ServerConnectionLaws null_connection
null_laws = record {
  decrypted = λ c. c.all;
  readable = λ c. c.plain;
  taken_in = λ c. c.written;
  read_tls_decrypted = λ c bytes. refl;
  read_tls_readable = λ c bytes. refl;
  process_decrypts = λ c. (c.raw, refl, refl);
  process_counts =
      λ c n peer_has_closed e. counted (length (c.plain ++ c.raw), false) n peer_has_closed e;
  read_exact_all =
      λ c. (le→leb _ _ (omega arith), take_whole c.plain, drop_all _ c.plain (omega arith), refl);
  write_takes = λ c bytes n e.
      let (fits, same) = taken_whole bytes n e in (fits, ap (λ l. c.written ++ l) same);
  write_fails = λ c bytes e. absurd (some_taken bytes e);
  write_tls_takes = λ c n. refl;
}

abbrev fresh : Null
fresh = record { raw = []; plain = []; all = []; written = []; out = [] }

abbrev results : List ReadResult
results = read_bytes (1 ∷ 2 ∷ []) ∷ read_bytes (3 ∷ []) ∷ read_would_block ∷ []

abbrev outbound : SendBuffer
outbound = record { bytes = 4 ∷ 5 ∷ 6 ∷ []; offset = 1; max_pending = 8 }

read-Delivered_example :
    let (outcome, inbound', tls') = read null_connection results fresh (0 ∷ []) in
    (outcome ≡ closed)
    ⊎ ((tls'.plain ≡ [])
        × ((more : List ℕ) × (tls'.all ≡ [] ++ more) × (inbound' ≡ (0 ∷ []) ++ more)))
read-Delivered_example = read-Delivered null_laws results fresh (0 ∷ []) refl

read_run : (read null_connection results fresh (0 ∷ [])).1 ≡ 0 ∷ 1 ∷ 2 ∷ 3 ∷ []
unfolding read
read_run = refl
