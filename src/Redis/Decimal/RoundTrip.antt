-- ===== src/Redis/Decimal/RoundTrip.antt =====
-- A number that a lock wrote is what another controller reads.
use erizo_controller.Base.{
  ℕ, zero, suc, ◌+◌, ◌*◌, ◌/◌, ◌%◌, ◌<◌, pos, Bool, Bool-cases, ltb→lt, lt→ltb, inl, inr, true,
  false, String, none, some, ◌≡◌, refl, ap, ◌∙◌, arith, ltb, if◌then◌else◌,
}
use erizo_controller.Process.Clock.{digit_char}
use erizo_controller.Redis.Decimal.{digits_before, show_u64, read_digits, stoll, with_sign}

-- One case for each digit.
pub digit_cases :
    (Q : ℕ → Type 0)
    → Q 0
    → Q 1
    → Q 2
    → Q 3
    → Q 4
    → Q 5
    → Q 6
    → Q 7
    → Q 8
    → Q 9
    → (d : ℕ) → d < 10
    → Q d
digit_cases Q q0 q1 q2 q3 q4 q5 q6 q7 q8 q9 zero h = q0
digit_cases Q q0 q1 q2 q3 q4 q5 q6 q7 q8 q9 (suc zero) h = q1
digit_cases Q q0 q1 q2 q3 q4 q5 q6 q7 q8 q9 (suc (suc zero)) h = q2
digit_cases Q q0 q1 q2 q3 q4 q5 q6 q7 q8 q9 (suc (suc (suc zero))) h = q3
digit_cases Q q0 q1 q2 q3 q4 q5 q6 q7 q8 q9 (suc (suc (suc (suc zero)))) h = q4
digit_cases Q q0 q1 q2 q3 q4 q5 q6 q7 q8 q9 (suc (suc (suc (suc (suc zero))))) h = q5
digit_cases Q q0 q1 q2 q3 q4 q5 q6 q7 q8 q9 (suc (suc (suc (suc (suc (suc zero)))))) h = q6
digit_cases Q q0 q1 q2 q3 q4 q5 q6 q7 q8 q9 (suc (suc (suc (suc (suc (suc (suc zero))))))) h = q7
digit_cases Q q0 q1 q2 q3 q4 q5 q6 q7 q8 q9 (suc (suc (suc (suc (suc (suc (suc (suc zero)))))))) h =
    q8
digit_cases Q q0 q1 q2 q3 q4 q5 q6 q7 q8 q9
      (suc (suc (suc (suc (suc (suc (suc (suc (suc zero))))))))) h =
    q9
digit_cases Q q0 q1 q2 q3 q4 q5 q6 q7 q8 q9
      (suc (suc (suc (suc (suc (suc (suc (suc (suc (suc d)))))))))) h =
    absurd (omega arith)

read-digit :
    (seen : Bool) (m d : ℕ) (text : String)
    → d < 10
    → read_digits seen m (String.◌∷◌ (digit_char d) text) ≡ read_digits true (m * 10 + d) text
unfolding read_digits
read-digit seen m d text h =
    digit_cases
      (λ e.
        read_digits seen m (String.◌∷◌ (digit_char e) text) ≡ read_digits true (m * 10 + e) text)
      refl refl refl refl refl refl refl refl refl refl d h

stoll-digit :
    (d : ℕ) (text : String)
    → d < 10
    → stoll (String.◌∷◌ (digit_char d) text)
      ≡ with_sign false (read_digits false 0 (String.◌∷◌ (digit_char d) text))
unfolding stoll
stoll-digit d text h =
    digit_cases
      (λ e.
        stoll (String.◌∷◌ (digit_char e) text)
        ≡ with_sign false (read_digits false 0 (String.◌∷◌ (digit_char e) text)))
      refl refl refl refl refl refl refl refl refl refl d h

-- The numbers that `fuel` rounds are enough for lie below it.
abbrev bound : ℕ → ℕ
bound zero = 1
bound (suc f) = 10 * bound f

from_zero : (n : ℕ) (text : String) → read_digits true (0 * 10 + n) text ≡ read_digits true n text
from_zero n text = ap (λ (k : ℕ). read_digits true k text) (omega arith)

read-digits_before :
    (f n : ℕ) (text : String)
    → n < 10 * bound f
    → read_digits false 0 (digits_before (suc f) n text) ≡ read_digits true n text
unfolding digits_before
read-digits_before zero n text h =
    rw (lt→ltb n 10 (omega arith)) (read-digit false 0 n text (omega arith) ∙ from_zero n text)
read-digits_before (suc f) n text h = elim (Bool-cases (ltb n 10)) [
  | inl e ↦ rw e (read-digit false 0 n text (ltb→lt n 10 e) ∙ from_zero n text)
  | inr e ↦
      rw (e, read-digits_before f (n / 10) (String.◌∷◌ (digit_char (n % 10)) text) (omega arith))
        (read-digit true (n / 10) (n % 10) text (omega arith)
          ∙ ap (λ (k : ℕ). read_digits true k text) (omega arith))
]

stoll-digits_before :
    (f n : ℕ) (text : String)
    → n < 10 * bound f
    → stoll (digits_before (suc f) n text)
      ≡ with_sign false (read_digits false 0 (digits_before (suc f) n text))
unfolding digits_before
stoll-digits_before zero n text h =
    rw (lt→ltb n 10 (omega arith)) (stoll-digit n text (omega arith))
stoll-digits_before (suc f) n text h = elim (Bool-cases (ltb n 10)) [
  | inl e ↦ rw e (stoll-digit n text (ltb→lt n 10 e))
  | inr e ↦
      rw e (stoll-digits_before f (n / 10) (String.◌∷◌ (digit_char (n % 10)) text) (omega arith))
]

-- A number before a text that goes on with no digit.
pub stoll-before :
    (n : ℕ) (text : String)
    → n < 18446744073709551616
    → read_digits true n text ≡ some n
    → stoll (digits_before 20 n text) ≡ (if ltb 9223372036854775807 n then none else some (pos n))
stoll-before n text h e =
    stoll-digits_before 19 n text (omega arith)
    ∙ ap (with_sign false) (read-digits_before 19 n text (omega arith) ∙ e)

-- Below 2^64, `std::stoll` reads the number that `oss << n` wrote, and throws (`none`) exactly
-- where the number is not below 2^63.
pub stoll-show_u64 :
    (n : ℕ)
    → n < 18446744073709551616
    → stoll (show_u64 n) ≡ (if ltb 9223372036854775807 n then none else some (pos n))
unfolding show_u64 read_digits
stoll-show_u64 n h = stoll-before n "" h refl
