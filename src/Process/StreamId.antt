-- ===== src/Process/StreamId.antt =====
-- common/utils.h: what `getStreamID` returns, whatever `rand` returns.
use text.Mathlib.TextLemmas.{append-nil, append_assoc}
use erizo_controller.Base.{
  ℕ, zero, suc, ◌+◌, ◌%◌, ◌≤◌, ◌<◌, String, ◌++ₛ◌, List, [], ◌∷◌, ◌≡◌, refl, sym, ◌∙◌, length, All,
  arith,
}
use erizo_controller.External.{Platform}
use erizo_controller.Process.State.{World}
use erizo_controller.Process.Ends.{Ends, ends, Ends-bind, Ends-mono}
use erizo_controller.Process.Clock.{call_rand, digit, more_digits, get_stream_id}

-- The text of these digits.
unfoldable pub digits_text : List ℕ → String
digits_text [] = ""
digits_text (d ∷ ds) = digit d ++ₛ digits_text ds

module _ (P : Platform) where
  -- A text that goes on with `n` digits.
  abbrev GoesOn : ℕ → String → String → World P → Type 0
  GoesOn n text s w =
      (ds : List ℕ) × (length ds ≡ n) × All (λ d. d < 10) ds × (s ≡ text ++ₛ digits_text ds)

  call_rand-Ends : (w : World P) → Ends (λ _ _. Unit {0}) (call_rand P w)
  unfolding call_rand
  call_rand-Ends w = ends _ _ tt

  more_digits-GoesOn :
      (n : ℕ) (text : String) (w : World P) → Ends (GoesOn n text) (more_digits P n text w)
  unfolding more_digits digits_text
  more_digits-GoesOn zero text w = ends _ _ ([], refl, tt, sym (append-nil text))
  more_digits-GoesOn (suc n) text w = Ends-bind (call_rand P) _ w (call_rand-Ends w) λ r w' _.
      Ends-mono _ (more_digits-GoesOn n (text ++ₛ digit (r % 10)) w') λ s w'' (ds, size, small, e).
        (
          r % 10 ∷ ds,
          omega (arith, size),
          (omega arith, small),
          e ∙ append_assoc text (digit (r % 10)) (digits_text ds),
        )

  -- `getStreamID` returns the text of 18 decimal digits, the first of which is not 0.
  pub get_stream_id_lem :
      (w : World P)
      → Ends
          (λ s _.
            (d : ℕ) × (ds : List ℕ) × (1 ≤ d)
            × (d ≤ 9)
            × (length ds ≡ 17)
            × All (λ k. k < 10) ds
            × (s ≡ digits_text (d ∷ ds)))
          (get_stream_id P w)
  unfolding get_stream_id digits_text
  get_stream_id_lem w = Ends-bind (call_rand P) _ w (call_rand-Ends w) λ r w' _.
      Ends-mono _ (more_digits-GoesOn 17 (digit (r % 9 + 1)) w')
        λ s w'' (ds, size, small, e). (r % 9 + 1, ds, omega arith, omega arith, size, small, e)
