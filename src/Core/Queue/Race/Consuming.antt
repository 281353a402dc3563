-- ===== src/Core/Queue/Race/Consuming.antt =====
-- The consumer takes an item and gives its slot back.
use dignus_actor_server_rust.Common.{
  ℕ, ◌+◌, ◌<◌, ◌≤◌, ◌≡◌, ◌≢◌, refl, sym, ap, ap₂, ◌∙◌, ◌⊎◌, inl, inr, false, [], ◌∷◌, ◌++◌, ◌==◌,
  arith, map_right, ℕ_discrete,
}
use dignus_actor_server_rust.Core.Queue.Modulo.{mod_wrap}
use dignus_actor_server_rust.Core.Queue.Race.{
  resting, taking, released, Ring, slot, taken, let_go, advanced,
}
use dignus_actor_server_rust.Core.Queue.Race.Slots.{
  nth, first, first-suc, head, head_of, got_of, Inv,
}
use dignus_actor_server_rust.Core.Queue.Race.Moves.{carry, others}

taking-ne-released : taking ≢ released
taking-ne-released e = cc

module _ {T : Type 0} where
  pub take_item-Inv :
      (r : Ring T)
      → r.consumer ≡ resting
      → r.sequence (slot r r.consumer_index) ≡ r.consumer_index + 1
      → Inv r
      → Inv (taken r)
  take_item-Inv r h e v =
      let c = r.consumer_index in
      let hd : head r ≡ c = ap (λ k. head_of k c) h in
      let gt : got_of r.consumer c ≡ c = ap (λ k. got_of k c) h in
      let lt : c < r.producer_index = found in
      let elsewhere : (q : ℕ)
          → head r ≤ q
          → q < r.producer_index
          → c ≢ q
          → (slot r c == slot r q) ≡ false =
        λ q a b ne.
          others r c q v (omega (arith, hd)) (omega (arith, hd, v.big)) a
            (omega (arith, b, v.ahead)) ne in
      record {
        big = v.big;
        behind = omega (arith, lt);
        ahead = omega (arith, v.ahead, hd);
        counted = v.counted;
        got = omega (arith, lt);
        in_order =
            ap₂ ◌++◌ (v.in_order ∙ ap (λ n. first n r.accepted) gt) (ap (λ i. i ∷ []) item)
            ∙ sym (first-suc r.accepted c (omega (arith, lt, v.counted)));
        filled = λ q a b. elim (ℕ_discrete c q) [
          | yes same ↦ inr (
            ap (λ k. r.sequence (slot r k)) (sym same) ∙ e ∙ ap (λ k. k + 1) same,
            inr (refl, sym same),
          )
          | no ne ↦
              rw (elsewhere q (omega (arith, a, hd)) b ne) (waiting q (omega (arith, a, hd)) b)
        ];
        seen = λ taken. e;
        vacant = λ q a b. v.vacant q a (omega (arith, b, hd));
        past = λ q a. v.past q (omega (arith, a, hd));
        fine = λ u.
            carry r (taken r) u (omega arith) (omega (arith, hd))
              (λ q o. (
                record {
                  winner = o.winner;
                  live = omega (arith, o.live, hd);
                  won = o.won;
                  unpublished = o.unpublished;
                },
                refl,
                simp
                    (elsewhere q o.live o.won (λ same.
                      omega (arith, o.unpublished, ap (λ k. r.sequence (slot r k)) same, e, same)))
                    refl,
              ))
              (r.producer u) (v.fine u);
      }
    where
      found : r.consumer_index < r.producer_index
      found = ground (
        arith,
        v.vacant r.consumer_index,
        v.got,
        v.big,
        e,
        ap (λ k. got_of k r.consumer_index) h,
        ap (λ k. head_of k r.consumer_index) h,
      )

      waiting :
          (q : ℕ)
          → head r ≤ q
          → q < r.producer_index
          → (r.sequence (slot r q) ≡ q)
            ⊎ ((r.sequence (slot r q) ≡ q + 1)
                × ((r.item (slot r q) ≡ nth r.accepted q)
                    ⊎ ((taking ≡ taking) × (q ≡ r.consumer_index))))
      waiting q a b = map_right (λ w. (w.0, map_right (λ t. (refl, t.1)) w.1)) (v.filled q a b)

      item : r.item (slot r r.consumer_index) ≡ nth r.accepted r.consumer_index
      item =
          elim (v.filled r.consumer_index (omega (arith, ap (λ k. head_of k r.consumer_index) h))
            found) [
              | inl own ↦ absurd (omega (arith, own, e))
              | inr w ↦ elim w.1 [ inl there ↦ there | inr t ↦ absurd (cc (h, t.0)) ]
            ]

  pub release-Inv : (r : Ring T) → r.consumer ≡ taking → Inv r → Inv (let_go r)
  release-Inv r h v =
      let c = r.consumer_index in
      let hd : head r ≡ c = ap (λ k. head_of k c) h in
      let gt : got_of r.consumer c ≡ c + 1 = ap (λ k. got_of k c) h in
      let lt : c < r.producer_index = omega (arith, v.got, gt) in
      let elsewhere : (q : ℕ)
          → head r ≤ q
          → q < head r + r.capacity
          → c ≢ q
          → (slot r c == slot r q) ≡ false =
        λ q a b ne. others r c q v (omega (arith, hd)) (omega (arith, hd, v.big)) a b ne in
      record {
        big = v.big;
        behind = omega (arith, lt);
        ahead = omega (arith, v.ahead, hd);
        counted = v.counted;
        got = omega (arith, lt);
        in_order = v.in_order ∙ ap (λ n. first n r.accepted) gt;
        filled = λ q a b.
            rw
              (elsewhere q (omega (arith, a, hd)) (omega (arith, b, v.ahead))
                (λ same. omega (arith, a, same)))
              (map_right
                (λ w. (
                  w.0,
                  elim w.1 [ inl there ↦ inl there | inr t ↦ absurd (omega (arith, a, t.1)) ],
                ))
                (v.filled q (omega (arith, a, hd)) b));
        seen = λ e. cc;
        vacant = λ q a b. elim (ℕ_discrete (c + r.capacity) q) [
          | yes same ↦
              let wrapped : slot r c ≡ slot r q = sym (mod_wrap c r.capacity) ∙ ap (slot r) same in
              ground (arith, wrapped, same)
          | no ne ↦
              rw
                (elsewhere q (omega (arith, a, v.behind)) (omega (arith, b, ne, hd))
                  (λ same. omega (arith, a, same, lt)))
                (v.vacant q a (omega (arith, b, ne, hd)))
        ];
        past = λ q a. ground (arith, v.past q, v.seen h, hd, v.big);
        fine = λ u.
            carry r (let_go r) u (omega arith) (omega (arith, hd))
              (λ q o.
                let ne : c ≢ q = λ same.
                  omega
                    (arith, o.unpublished, ap (λ k. r.sequence (slot r k)) same, v.seen h, same) in
                (
                  record {
                    winner = o.winner;
                    live = omega (arith, o.live, hd, ne);
                    won = o.won;
                    unpublished =
                        rw (elsewhere q o.live (omega (arith, o.won, v.ahead)) ne) o.unpublished;
                  },
                  refl,
                  refl,
                ))
              (r.producer u) (v.fine u);
      }

  pub advance-Inv : (r : Ring T) → r.consumer ≡ released → Inv r → Inv (advanced r)
  advance-Inv r h v =
      let c = r.consumer_index in
      let hd : head r ≡ c + 1 = ap (λ k. head_of k c) h in
      let gt : got_of r.consumer c ≡ c + 1 = ap (λ k. got_of k c) h in
      record {
        big = v.big;
        behind = omega (arith, v.behind, hd);
        ahead = omega (arith, v.ahead, hd);
        counted = v.counted;
        got = omega (arith, v.got, gt);
        in_order = v.in_order ∙ ap (λ n. first n r.accepted) gt;
        filled = λ q a b.
            map_right
              (λ w. (
                w.0,
                elim w.1 [
                  | inl there ↦ inl there
                  | inr t ↦ absurd (taking-ne-released (sym t.0 ∙ h))
                ],
              ))
              (v.filled q (omega (arith, a, hd)) b);
        seen = λ e. cc;
        vacant = λ q a b. v.vacant q a (omega (arith, b, hd));
        past = λ q a. v.past q (omega (arith, a, hd));
        fine = λ u.
            carry r (advanced r) u (omega arith) (omega (arith, hd))
              (λ q o. (
                record {
                  winner = o.winner;
                  live = omega (arith, o.live, hd);
                  won = o.won;
                  unpublished = o.unpublished;
                },
                refl,
                refl,
              ))
              (r.producer u) (v.fine u);
      }
