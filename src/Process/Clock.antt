-- ===== src/Process/Clock.antt =====
-- common/utils.h: the clock and `getStreamID`.
use Prim.Native.Char.{Char}
use erizo_controller.Base.{ℕ, zero, suc, ◌+◌, ◌%◌, String, ◌++ₛ◌, eqb, if◌then◌else◌}
use erizo_controller.External.{Platform}
use erizo_controller.Process.State.{Exec, pure, gets, modify, ◌>>=◌, ◌>>◌}

module _ (P : Platform) where
  -- `Utils::getSystemMs`
  unfoldable pub get_system_ms : Exec P ℕ
  get_system_ms = do
    n ← gets (λ w. w.ticks)
    modify (λ w. record w { ticks = w.ticks + 1 })
    pure (P.system_ms n)

  -- `rand()`
  unfoldable pub call_rand : Exec P ℕ
  call_rand = do
    n ← gets (λ w. w.draws)
    modify (λ w. record w { draws = w.draws + 1 })
    pure (P.rand n)

-- `oss << n` for `n` below 10
abbrev pub digit_char : ℕ → Char
digit_char n =
    if eqb n 0
    then "0"
    else if eqb n 1
    then "1"
    else if eqb n 2
    then "2"
    else if eqb n 3
    then "3"
    else if eqb n 4
    then "4"
    else if eqb n 5
    then "5"
    else if eqb n 6
    then "6"
    else if eqb n 7
    then "7"
    else if eqb n 8
    then "8"
    else "9"

abbrev pub digit : ℕ → String
digit n = String.◌∷◌ (digit_char n) String.[]

module _ (P : Platform) where
  -- The rounds of the loop of `getStreamID` after the first, each one digit.
  unfoldable pub more_digits : ℕ → String → Exec P String
  more_digits zero text = pure text
  more_digits (suc n) text = do r ← call_rand P; more_digits n (text ++ₛ digit (r % 10))

  -- `Utils::getStreamID`: 18 digits, the first of them not 0
  unfoldable pub get_stream_id : Exec P String
  unfolding call_rand more_digits
  get_stream_id = do r ← call_rand P; more_digits 17 (digit (r % 9 + 1))
