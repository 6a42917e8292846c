-- ===== src/Redis/Decimal.antt =====
-- The standard library's `oss << n` for an unsigned 64-bit number, and `std::stoll`.
pub mod RoundTrip
use Prim.Native.Char.{Char, code}
use Prim.Native.String
use erizo_controller.Base.{
  ℕ, zero, suc, ◌+◌, ◌-◌, ◌*◌, ◌/◌, ◌%◌, ℤ, pos, Bool, true, false, ◌&&◌, ◌||◌, not, String, Option,
  none, some, List, [], ◌∷◌, eqb, leb, ltb, if◌then◌else◌,
}
use erizo_controller.Base.Int.{negate}
use erizo_controller.Process.Clock.{digit_char}

-- The digits of `n` before a text; 20 rounds are enough for 64 bits.
unfoldable pub digits_before : ℕ → ℕ → String → String
digits_before zero n text = text
digits_before (suc fuel) n text =
    let rest = digits_before fuel (n / 10) (String.◌∷◌ (digit_char (n % 10)) text) in
    if ltb n 10 then String.◌∷◌ (digit_char n) text else rest

unfoldable pub show_u64 : ℕ → String
unfolding digits_before
show_u64 n = digits_before 20 n ""

abbrev pub is_digit : ℕ → Bool
is_digit c = leb b'0' c && leb c b'9'

-- `isspace` in the "C" locale
abbrev pub is_space : ℕ → Bool
is_space c = eqb c 32 || (leb 9 c && leb c 13)

-- The value of the digits that a text begins with, if there is one.
unfoldable pub read_digits : Bool → ℕ → String → Option ℕ
read_digits seen n String.[] = if seen then some n else none
read_digits seen n (String.◌∷◌ ch rest) =
    let more = read_digits true (n * 10 + (code ch - 48)) rest in
    if is_digit (code ch) then more else if seen then some n else none

abbrev pub with_sign : Bool → Option ℕ → Option ℤ
with_sign negative none = none
with_sign true (some n) = if ltb 9223372036854775808 n then none else some (negate n)
with_sign false (some n) = if ltb 9223372036854775807 n then none else some (pos n)

-- `std::stoll`: spaces, a sign, digits. `none` where it throws.
unfoldable pub stoll : String → Option ℤ
unfolding read_digits
stoll String.[] = none
stoll (String.◌∷◌ ch rest) =
    let skipped = stoll rest in
    if is_space (code ch)
    then skipped
    else if eqb (code ch) b'-'
    then with_sign true (read_digits false 0 rest)
    else if eqb (code ch) b'+'
    then with_sign false (read_digits false 0 rest)
    else with_sign false (read_digits false 0 (String.◌∷◌ ch rest))
