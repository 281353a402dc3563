-- ===== src/Core/System/DeadLetters.antt =====
-- The dead letter callback of dignus-actor-core/src/actor_system.rs. `Cb` is the type of callbacks
-- and `L` of letters. `publish` clones the callback under the lock and calls the clone; `calls` are
-- its calls, in order.
use dignus_actor_server_rust.Common.{
  ◌≡◌, refl, sym, ap, ◌∙◌, append-nil, append_assoc, Option, none, some, List, [], ◌∷◌, ◌++◌,
}

pub record DeadLetters (Cb L : Type 0) : Type 0 where
  pub dead_letter_callback : Option Cb
  pub calls : List (Cb × L)

pub data Op (Cb L : Type 0) : Type 0 where
  sets : Cb → Op Cb L
  clears : Op Cb L
  publishes : L → Op Cb L

module _ {Cb L : Type 0} where
  unfoldable pub set_dead_letter_callback : DeadLetters Cb L → Cb → DeadLetters Cb L
  set_dead_letter_callback d callback = record d { dead_letter_callback = some callback }

  unfoldable pub clear_dead_letter_callback : DeadLetters Cb L → DeadLetters Cb L
  clear_dead_letter_callback d = record d { dead_letter_callback = none }

  unfoldable pub call : Option Cb → DeadLetters Cb L → L → DeadLetters Cb L
  call none d letter = d
  call (some callback) d letter = record d { calls = d.calls ++ ((callback, letter) ∷ []) }

  unfoldable pub publish : DeadLetters Cb L → L → DeadLetters Cb L
  unfolding call
  publish d letter = call d.dead_letter_callback d letter

  unfoldable pub step : DeadLetters Cb L → Op Cb L → DeadLetters Cb L
  unfolding set_dead_letter_callback clear_dead_letter_callback publish
  step d (sets callback) = set_dead_letter_callback d callback
  step d clears = clear_dead_letter_callback d
  step d (publishes letter) = publish d letter

  unfoldable pub run : List (Op Cb L) → DeadLetters Cb L → DeadLetters Cb L
  unfolding step
  run [] d = d
  run (op ∷ ops) d = run ops (step d op)

  -- No letter of a list of calls that sets no callback is heard, where none was set before.
  abbrev pub Silent : List (Op Cb L) → Type 0
  Silent [] = Unit
  Silent (sets callback ∷ ops) = ⊥
  Silent (clears ∷ ops) = Silent ops
  Silent (publishes letter ∷ ops) = Silent ops

  -- The letters of the calls up to the next change of the callback.
  abbrev pub heard : Cb → List L → List (Cb × L)
  heard callback [] = []
  heard callback (letter ∷ letters) = (callback, letter) ∷ heard callback letters

  abbrev pub all_published : List L → List (Op Cb L)
  all_published [] = []
  all_published (letter ∷ letters) = publishes letter ∷ all_published letters

  call_unset : (o : Option Cb) (d : DeadLetters Cb L) (letter : L) → o ≡ none → call o d letter ≡ d
  unfolding call
  call_unset none d letter e = refl
  call_unset (some callback) d letter e = absurd (cc e)

  call_set :
      (o : Option Cb) (d : DeadLetters Cb L) (letter : L) (callback : Cb)
      → o ≡ some callback
      → call o d letter ≡ record d { calls = d.calls ++ ((callback, letter) ∷ []) }
  unfolding call
  call_set none d letter callback e = absurd (cc e)
  call_set (some other) d letter callback e =
      let same : other ≡ callback = cc e in
      ap (λ (c : Cb). record d { calls = d.calls ++ ((c, letter) ∷ []) }) same

  -- Where no callback is set, and none is set later, letters are lost and nothing is called.
  run-Silent :
      (ops : List (Op Cb L)) (d : DeadLetters Cb L)
      → d.dead_letter_callback ≡ none
      → Silent ops
      → (run ops d).calls ≡ d.calls
  unfolding run step set_dead_letter_callback clear_dead_letter_callback publish
  run-Silent [] d e h = refl
  run-Silent (sets callback ∷ ops) d e h = absurd h
  run-Silent (clears ∷ ops) d e h = run-Silent ops (clear_dead_letter_callback d) refl h
  run-Silent (publishes letter ∷ ops) d e h =
      ap (λ c. (run ops c).calls) (call_unset d.dead_letter_callback d letter e)
      ∙ run-Silent ops d e h

  -- While a callback is set, it is called with every letter, in order.
  run-heard :
      (letters : List L) (d : DeadLetters Cb L) (callback : Cb)
      → d.dead_letter_callback ≡ some callback
      → (run (all_published letters) d).calls ≡ d.calls ++ heard callback letters
  unfolding run step publish
  run-heard [] d callback e = sym (append-nil d.calls)
  run-heard (letter ∷ letters) d callback e =
      let d' : DeadLetters Cb L = record d { calls = d.calls ++ ((callback, letter) ∷ []) } in
      ap (λ c. (run (all_published letters) c).calls)
        (call_set d.dead_letter_callback d letter callback e)
      ∙ run-heard letters d' callback e
      ∙ append_assoc d.calls ((callback, letter) ∷ []) (heard callback letters)
