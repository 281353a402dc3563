-- ===== src/Core/Queue/Race/Producing.antt =====
-- A producer wins a position, writes the item and publishes it.
use dignus_actor_server_rust.Common.{
  ℕ, ◌+◌, ◌<◌, ◌≤◌, ◌≡◌, ◌≢◌, refl, sym, ap, ◌∙◌, inl, inr, false, [], ◌∷◌, ◌++◌, ◌==◌, arith,
  ==_refl, length-append, dec_lt, ℕ_discrete,
}
use dignus_actor_server_rust.Core.Queue.Race.{
  outside, matched, claimed, written, taking, Ring, slot, won, wrote, published,
}
use dignus_actor_server_rust.Core.Queue.Race.Slots.{
  nth, nth-append_of_lt, nth-append_last, first-append, head, head_of, Owns, Fine, Inv,
}
use dignus_actor_server_rust.Core.Queue.Race.Moves.{by_thread, carry, others}

module _ {T : Type 0} where
  pub win-Inv :
      (r : Ring T) (t : ℕ) (x : T) (p : ℕ)
      → r.producer t ≡ matched x p
      → r.producer_index ≡ p
      → Inv r
      → Inv (won r t x p)
  win-Inv r t x p h e v =
      let f : Fine r t (matched x p) = rw h at (v.fine t) in
      let free : p < head r + r.capacity = ground (arith, f.1) in
      record {
        big = v.big;
        behind = omega (arith, v.behind, e);
        ahead = omega (arith, free);
        counted = omega (arith, length-append r.accepted (x ∷ []), v.counted, e);
        got = omega (arith, v.got, e);
        in_order =
            v.in_order ∙ sym (first-append r.accepted (x ∷ []) _ (omega (arith, v.got, v.counted)));
        filled = λ q a b. elim (dec_lt q r.producer_index) [
          | yes lt ↦
              rw (nth-append_of_lt r.accepted (x ∷ []) q (omega (arith, lt, v.counted)))
                (v.filled q a lt)
          | no ge ↦ inl (v.vacant q (omega arith) (omega (arith, free)))
        ];
        seen = v.seen;
        vacant = λ q a b. v.vacant q (omega (arith, a, e)) b;
        past = v.past;
        fine =
            by_thread r (won r t x p) t (claimed x p)
              (
                record {
                  winner = simp (==_refl p);
                  live = omega (arith, v.behind, e);
                  won = omega arith;
                  unpublished = v.vacant p (omega (arith, e)) free;
                },
                ap (nth (r.accepted ++ (x ∷ []))) (sym e ∙ sym v.counted)
                    ∙ nth-append_last r.accepted x,
              )
              (λ u ne.
                carry r (won r t x p) u (omega (arith, e)) (omega arith)
                  (λ q o. (
                    record {
                      winner = simp (other_winner q o.won) o.winner;
                      live = o.live;
                      won = omega (arith, o.won, e);
                      unpublished = o.unpublished;
                    },
                    nth-append_of_lt r.accepted (x ∷ []) q (omega (arith, o.won, v.counted)),
                    refl,
                  ))
                  (r.producer u) (v.fine u));
      }
    where
      other_winner : (q : ℕ) → q < r.producer_index → (p == q) ≡ false
      other_winner q lt = ground (arith, e)

  pub write-Inv :
      (r : Ring T) (t : ℕ) (x : T) (p : ℕ)
      → r.producer t ≡ claimed x p
      → Inv r
      → Inv (wrote r t x p)
  write-Inv r t x p h v =
      let f : Fine r t (claimed x p) = rw h at (v.fine t) in
      let own : Owns r t p = f.0 in
      record {
        big = v.big;
        behind = v.behind;
        ahead = v.ahead;
        counted = v.counted;
        got = v.got;
        in_order = v.in_order;
        filled = λ q a b. elim (ℕ_discrete p q) [
          | yes same ↦ inl (ap (λ k. r.sequence (slot r k)) (sym same) ∙ own.unpublished ∙ same)
          | no ne ↦
              rw
                (others r p q v own.live (omega (arith, own.won, v.ahead)) a
                  (omega (arith, b, v.ahead)) ne)
                (v.filled q a b)
        ];
        seen = v.seen;
        vacant = v.vacant;
        past = v.past;
        fine =
            by_thread r (wrote r t x p) t (written p)
              (
                record {
                  winner = own.winner;
                  live = own.live;
                  won = own.won;
                  unpublished = own.unpublished;
                },
                simp (==_refl (slot r p)) (sym f.1),
              )
              (λ u ne.
                carry r (wrote r t x p) u (omega arith) (omega arith)
                  (λ q o. (
                    record {
                      winner = o.winner;
                      live = o.live;
                      won = o.won;
                      unpublished = o.unpublished;
                    },
                    refl,
                    simp
                        (others r p q v own.live (omega (arith, own.won, v.ahead)) o.live
                          (omega (arith, o.won, v.ahead))
                          (λ same. ne (sym own.winner ∙ ap r.owner same ∙ o.winner)))
                        refl,
                  ))
                  (r.producer u) (v.fine u));
      }

  pub publish-Inv :
      (r : Ring T) (t : ℕ) (p : ℕ) → r.producer t ≡ written p → Inv r → Inv (published r t p)
  publish-Inv r t p h v =
      let f : Fine r t (written p) = rw h at (v.fine t) in
      let own : Owns r t p = f.0 in
      record {
        big = v.big;
        behind = v.behind;
        ahead = v.ahead;
        counted = v.counted;
        got = v.got;
        in_order = v.in_order;
        filled = λ q a b. elim (ℕ_discrete p q) [
          | yes same ↦ inr (rw (← same) (simp (==_refl (slot r p)) (refl, inl f.1)))
          | no ne ↦
              rw
                (others r p q v own.live (omega (arith, own.won, v.ahead)) a
                  (omega (arith, b, v.ahead)) ne)
                (v.filled q a b)
        ];
        seen = λ e.
            rw
              (others r p r.consumer_index v own.live (omega (arith, own.won, v.ahead)) (at_rest e)
                (in_window e) (not_taken e))
              (v.seen e);
        vacant = λ q a b.
            rw
              (others r p q v own.live (omega (arith, own.won, v.ahead))
                (omega (arith, v.behind, a)) b (λ same. omega (arith, own.won, a, same)))
              (v.vacant q a b);
        past = λ q a. ground (arith, v.past q a, own.live, a, own.unpublished);
        fine = by_thread r (published r t p) t outside tt (λ u ne.
            carry r (published r t p) u (omega arith) (omega arith)
              (λ q o. (
                record {
                  winner = o.winner;
                  live = o.live;
                  won = o.won;
                  unpublished =
                      rw
                        (others r p q v own.live (omega (arith, own.won, v.ahead)) o.live
                          (omega (arith, o.won, v.ahead))
                          (λ same. ne (sym own.winner ∙ ap r.owner same ∙ o.winner)))
                        o.unpublished;
                },
                refl,
                refl,
              ))
              (r.producer u) (v.fine u));
      }
    where
      at_rest : r.consumer ≡ taking → head r ≤ r.consumer_index
      at_rest e = omega (arith, ap (λ k. head_of k r.consumer_index) e)

      in_window : r.consumer ≡ taking → r.consumer_index < head r + r.capacity
      in_window e = omega (arith, ap (λ k. head_of k r.consumer_index) e, v.big)

      not_taken : r.consumer ≡ taking → p ≢ r.consumer_index
      not_taken e same =
          let f : Fine r t (written p) = rw h at (v.fine t) in
          omega (arith, f.0.unpublished, ap (λ k. r.sequence (slot r k)) same, v.seen e, same)
