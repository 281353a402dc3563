-- ===== src/Network/Session/Sending.antt =====
-- What `Session.send` and `Session.close` do on every branch.
use dignus_actor_server_rust.Common.{
  ℕ, ◌+◌, ◌≤◌, ◌<◌, ◌≡◌, refl, true, false, ◌||◌, ◌⊎◌, inl, inr, Bool-cases, List, [], ◌∷◌, ◌++◌,
  length, arith,
}
use dignus_actor_server_rust.Network.SendBuffer.{
  IsValid, pending_slice, pending_len, can_write, append-IsValid, pending_slice-append,
}
use dignus_actor_server_rust.Network.Session.{
  success, buffer_full, disposed, ReactorShared, Session, send, close,
}

-- `send` succeeds exactly if the session is neither disposed nor its reactor stopped, and the bytes
-- fit beside those that wait; it answers `disposed` before it looks at the buffer. On success the
-- bytes go behind those that wait, the token is queued for the reactor and the reactor woken, and
-- on failure nothing changes.
pub send_lem :
    (s : Session) (shared : ReactorShared) (bytes : List ℕ)
    → IsValid s.outbound
    → let (result, s', shared') = send s shared bytes in
      IsValid s'.outbound
      × (((result ≡ disposed)
            × ((s.is_disposed || shared.stopped) ≡ true)
            × (s' ≡ s)
            × (shared' ≡ shared))
          ⊎ (((result ≡ buffer_full)
                × ((s.is_disposed || shared.stopped) ≡ false)
                × (s.outbound.max_pending < pending_len s.outbound + length bytes)
                × (s' ≡ s)
                × (shared' ≡ shared))
              ⊎ ((result ≡ success)
                  × ((s.is_disposed || shared.stopped) ≡ false)
                  × (pending_len s.outbound + length bytes ≤ s.outbound.max_pending)
                  × (pending_slice s'.outbound ≡ pending_slice s.outbound ++ bytes)
                  × (shared'.pending_writes ≡ shared.pending_writes ++ (s.token ∷ []))
                  × (shared'.woken ≡ true))))
unfolding send
send_lem s shared bytes v = elim (Bool-cases (s.is_disposed || shared.stopped)) [
  | inl gone ↦ rw gone (v, inl (refl, refl, refl, refl))
  | inr live ↦ rw live (elim (Bool-cases (can_write s.outbound (length bytes))) [
    | inl room ↦ rw room (
      append-IsValid bytes v room,
      inr (
          inr (
            refl,
            refl,
            unfold can_write in (ground arith),
            pending_slice-append bytes v,
            refl,
            refl,
          )),
    )
    | inr full ↦ rw full (v, inr (inl (refl, refl, unfold can_write in (ground arith), refl, refl)))
  ])
]

-- `close` queues the token for the reactor and wakes it if the session is live and no close was
-- requested before, and changes nothing otherwise; so a second `close` changes nothing.
pub close-close :
    (s : Session) (shared : ReactorShared)
    → let (s', shared') = close s shared in
      (close s' shared' ≡ (s', shared'))
      × ((((s.is_disposed || s.close_requested) ≡ true) × (s' ≡ s) × (shared' ≡ shared))
          ⊎ (((s.is_disposed || s.close_requested) ≡ false)
              × (s'.close_requested ≡ true)
              × (shared'.pending_closes ≡ shared.pending_closes ++ (s.token ∷ []))
              × (shared'.woken ≡ true)))
unfolding close
close-close s shared = elim (Bool-cases (s.is_disposed || s.close_requested)) [
  | inl gone ↦ ground arith
  | inr live ↦ ground arith
]
