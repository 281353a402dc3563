-- ===== src/Network/SessionSender/Frames.antt =====
-- What an actor sends is what its peer reads.
use dignus_actor_server_rust.Common.{
  ℕ, ◌+◌, ◌≤◌, ◌<◌, ◌^◌, ◌≡◌, refl, sym, ap, subst, ◌∙◌, false, Option, ◌⊎◌, inl, inr, List, [],
  ◌∷◌, ◌++◌, length, concat, map, arith, append_assoc, append-nil, All,
}
use dignus_actor_server_rust.Network.SendBuffer
use dignus_actor_server_rust.Network.SendBuffer.{SendBuffer, IsValid, pending_slice, pending_len}
use dignus_actor_server_rust.Network.Session
use dignus_actor_server_rust.Network.Session.{
  Session, ReactorShared, SendResult, success, buffer_full, disposed,
}
use dignus_actor_server_rust.Network.Session.Sending.{send_lem}
use dignus_actor_server_rust.Network.SessionSender.{
  SessionSender, Encoder, send, send_each, if_success,
}
use dignus_actor_server_rust.Network.Codec.{
  length_prefixed_frame, length_prefixed_decode, u32_to_be_bytes,
}
use dignus_actor_server_rust.Network.Codec.Decodes.{Decodes, Decodes-frames, messages_of, Fits}
use dignus_actor_server_rust.Network.Tcp.{WriteResult, write}
use dignus_actor_server_rust.Network.Tcp.Moving.{write_lem}

-- One call of `Session.send`: the buffer stays valid and keeps its limit; a frame that is accepted is
-- within the limit and goes behind what waits, and a frame that is not leaves the session as it was.
record Sent (before : Session) (bytes : List ℕ) (result : SendResult) (after : Session)
    : Type 0 where
  valid : IsValid after.outbound
  limit : (after.outbound).max_pending ≡ (before.outbound).max_pending
  appended :
      ((result ≡ success)
        × (length bytes ≤ (before.outbound).max_pending)
        × (pending_slice after.outbound ≡ pending_slice before.outbound ++ bytes))
      ⊎ (((result ≡ buffer_full) ⊎ (result ≡ disposed)) × (after ≡ before))

send_limit :
    (s : Session) (shared : ReactorShared) (bytes : List ℕ)
    → (((Session.send s shared bytes).1).outbound).max_pending ≡ (s.outbound).max_pending
unfolding Session.send SendBuffer.append
send_limit s shared bytes = ground arith

send-Sent :
    (s : Session) (shared : ReactorShared) (bytes : List ℕ)
    → IsValid s.outbound
    → Sent s bytes (Session.send s shared bytes).0 (Session.send s shared bytes).1
send-Sent s shared bytes v =
    let (valid, answer) = send_lem s shared bytes v in
    elim answer [
      | inl gone ↦ record {
        valid = valid;
        limit = ap (λ (t : Session). (t.outbound).max_pending) gone.2;
        appended = inr (inr gone.0, gone.2);
      }
      | inr (inl full) ↦ record {
        valid = valid;
        limit = ap (λ (t : Session). (t.outbound).max_pending) full.3;
        appended = inr (inl full.0, full.3);
      }
      | inr (inr done) ↦ record {
        valid = valid;
        limit = send_limit s shared bytes;
        appended = inl (done.0, omega (arith, done.2), done.3);
      }
    ]

module _ (encoder : Encoder) where
  -- Payloads sent one after the other: what waits in the end is what waited before, and behind it the
  -- frames of the payloads that were accepted, each whole and within the limit.
  record Queued (before : Session) (accepted : List (List ℕ)) (after : Session) : Type 0 where
    valid : IsValid after.outbound
    limit : (after.outbound).max_pending ≡ (before.outbound).max_pending
    fits : All (λ p. length (encoder p) ≤ (before.outbound).max_pending) accepted
    appended :
        pending_slice after.outbound
        ≡ pending_slice before.outbound ++ concat (map encoder accepted)

  Queued-later :
      {before middle after : Session} {accepted : List (List ℕ)} {result : SendResult} (p : List ℕ)
      → Sent before (encoder p) result middle
      → Queued middle accepted after
      → Queued before (if_success result p accepted) after
  Queued-later {before} {middle} {after} {accepted} {result} p sent later = elim sent.appended [
    | inl done ↦ rw done.0 (record {
      valid = later.valid;
      limit = later.limit ∙ sent.limit;
      fits =
          (done.1, subst (λ m. All (λ q. length (encoder q) ≤ m) accepted) sent.limit later.fits);
      appended =
          later.appended
          ∙ ap (λ l. l ++ concat (map encoder accepted)) done.2
          ∙ append_assoc (pending_slice before.outbound) (encoder p)
              (concat (map encoder accepted));
    })
    | inr (inl full, kept) ↦ rw (full, sym kept) later
    | inr (inr gone, kept) ↦ rw (gone, sym kept) later
  ]

send_each-Queued :
    (sender : SessionSender) (shared : ReactorShared) (payloads : List (List ℕ))
    → IsValid (sender.session).outbound
    → Queued sender.encoder sender.session
        (send_each sender shared payloads).0
        ((send_each sender shared payloads).1).session
unfolding send_each send
send_each-Queued sender shared [] v = record {
  valid = v;
  limit = refl;
  fits = tt;
  appended = sym (append-nil _);
}
send_each-Queued sender shared (p ∷ ps) v =
    let sent = send-Sent sender.session shared (sender.encoder p) v in
    let (result, sender₁, shared₁) = send sender shared p in
    Queued-later sender.encoder p sent (send_each-Queued sender₁ shared₁ ps sent.valid)

frames-Fit :
    (limit max_frame_len : ℕ) (accepted : List (List ℕ))
    → limit ≤ max_frame_len + 4
    → limit < 2 ^ 32
    → All (λ p. length (length_prefixed_frame p) ≤ limit) accepted
    → Fits max_frame_len accepted
unfolding length_prefixed_frame u32_to_be_bytes
frames-Fit limit max_frame_len [] h k fits = tt
frames-Fit limit max_frame_len (p ∷ ps) h k fits =
    ((omega (arith, fits.0), omega (arith, fits.0)), frames-Fit limit max_frame_len ps h k fits.1)

-- From an actor to its peer: an actor sends payloads through a sender that frames them by their
-- length, on a session where nothing waits and whose send buffer is limited to `max_frame_len + 4`
-- bytes at most, and to less than 2^32. Whatever each call answers, and whatever the socket then
-- takes, the bytes that it took and those that still wait are together a stream that the peer's
-- decoder takes apart into the payloads that were accepted, in order, with nothing left: a payload
-- that was refused has put nothing into it.
pub send_each-Decodes :
    {M : Type 0} (deserialize : List ℕ → Option M) (max_frame_len : ℕ) (sender : SessionSender)
    (shared : ReactorShared) (payloads : List (List ℕ)) (results : List WriteResult)
    → sender.encoder ≡ length_prefixed_frame
    → IsValid (sender.session).outbound
    → pending_slice (sender.session).outbound ≡ []
    → ((sender.session).outbound).max_pending ≤ max_frame_len + 4
    → ((sender.session).outbound).max_pending < 2 ^ 32
    → let (accepted, sender', shared') = send_each sender shared payloads in
      let (outcome, b, sent) = write results (sender'.session).outbound [] in
      Decodes
        (length_prefixed_decode deserialize max_frame_len)
        (sent ++ pending_slice b)
        (messages_of deserialize accepted)
        []
        false
send_each-Decodes deserialize max_frame_len sender shared payloads results framed v idle h k =
    let (accepted, sender', shared') = send_each sender shared payloads in
    let q = send_each-Queued sender shared payloads v in
    let room = ((sender.session).outbound).max_pending in
    let fits = subst (λ (f : Encoder). All (λ p. length (f p) ≤ room) accepted) framed q.fits in
    let stream =
      (write_lem results (sender'.session).outbound q.valid).1
      ∙ q.appended
      ∙ ap (λ l. l ++ concat (map sender.encoder accepted)) idle
      ∙ ap (λ (f : Encoder). concat (map f accepted)) framed
      ∙ sym (append-nil _) in
    rw stream (
      Decodes-frames deserialize max_frame_len accepted []
        (frames-Fit room max_frame_len accepted h k fits) (unfold length_prefixed_decode in refl))
