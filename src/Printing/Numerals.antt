-- ===== src/Printing/Numerals.antt =====
-- Printed numbers can be read back, and consist of digits.
use native.Mathlib.Nat.{lt_of_lt_of_le, pow-zero, pow-suc, mod-lt, div-lt_iff_lt-mul, div-add-mod'}
use mem_sentry.Base.{
  ℕ, zero, suc, ◌+◌, ◌*◌, ◌/◌, ◌%◌, ◌^◌, ◌<◌, ◌≤◌, ◌≡◌, ◌≢◌, ◌∙◌, [], ◌∷◌, arith, leb, ◌==◌, Bool,
  true, ◌&&◌, ==_sound, ap, Bool-cases, inl, inr, All,
}
use mem_sentry.Types.{Text}
use mem_sentry.StackTrace.{hex_digit}
use mem_sentry.Escape.Json.{digit_value, digit_value-hex_digit}
use mem_sentry.Printing.{digits, decimal, hexadecimal}

-- The number that digits denote, after the value of those before.
unfoldable pub number_value : ℕ → ℕ → Text → ℕ
number_value base v [] = v
number_value base v (c ∷ t) = number_value base (v * base + digit_value c) t

-- The value so far is n / base, and the next digit makes it n.
next_value :
    (base n : ℕ) → 2 ≤ base → base ≤ 16 → n / base * base + digit_value (hex_digit (n % base)) ≡ n
next_value base n two sixteen =
    rw (digit_value-hex_digit (n % base) (lt_of_lt_of_le (mod-lt n (omega (arith, two))) sixteen))
      (div-add-mod' n base)

div-lt-pow : (base fuel n : ℕ) → 2 ≤ base → n < base ^ suc fuel → n / base < base ^ fuel
div-lt-pow base fuel n two small =
    (div-lt_iff_lt-mul {k = base} {x = n} {y = base ^ fuel} (omega (arith, two))).1
      (rw (pow-suc base fuel) at small)

number_value-digits :
    (base fuel n : ℕ) (done : Text)
    → 2 ≤ base
    → base ≤ 16
    → n < base ^ suc fuel
    → number_value base 0 (digits base (suc fuel) n done) ≡ number_value base n done
unfolding number_value digits
number_value-digits base zero n done two sixteen small =
    let none_left : n / base ≡ 0 =
      omega (arith, rw (pow-zero base) at (div-lt-pow base zero n two small)) in
    let whole = rw none_left at (next_value base n two sixteen) in
    rw none_left (ap (λ v. number_value base v done) whole)
number_value-digits base (suc fuel) n done two sixteen small =
    let whole = next_value base n two sixteen in
    elim (Bool-cases (n / base == 0)) [
      | inl last ↦
          rw last (ap (λ v. number_value base v done) (rw (==_sound (n / base) 0 last) at whole))
      | inr more ↦ rw more (
          number_value-digits base fuel (n / base) (hex_digit (n % base) ∷ done) two sixteen
            (div-lt-pow base (suc fuel) n two small)
          ∙ ap (λ v. number_value base v done) whole)
    ]

pub number_value-decimal : (n : ℕ) → n < 2 ^ 64 → number_value 10 0 (decimal n) ≡ n
unfolding decimal number_value
number_value-decimal n small =
    number_value-digits 10 19 n [] (omega arith) (omega arith) (omega arith)

pub number_value-hexadecimal : (n : ℕ) → n < 2 ^ 64 → number_value 16 0 (hexadecimal n) ≡ n
unfolding hexadecimal number_value
number_value-hexadecimal n small =
    number_value-digits 16 15 n [] (omega arith) (omega arith) (omega arith)

-- Texts of decimal digits that are not empty.
abbrev pub is_digit : ℕ → Bool
is_digit c = leb 48 c && leb c 57

abbrev pub IsNumeral : Text → Type 0
IsNumeral t = (t ≢ []) × All (λ c. is_digit c ≡ true) t

is_digit-hex_digit : (n : ℕ) → is_digit (hex_digit (n % 10)) ≡ true
is_digit-hex_digit n = ground arith

-- What all digits of a base satisfy.
pub digits-All :
    (P : ℕ → Type 0) (base fuel n : ℕ) (done : Text)
    → ((m : ℕ) → P (hex_digit (m % base)))
    → All P done
    → All P (digits base fuel n done)
unfolding digits
digits-All P base zero n done each ok = ok
digits-All P base (suc fuel) n done each ok = elim (Bool-cases (n / base == 0)) [
  | inl last ↦ rw last (each n, ok)
  | inr more ↦
      rw more (digits-All P base fuel (n / base) (hex_digit (n % base) ∷ done) each (each n, ok))
]

digits-ne-nil : (base fuel n : ℕ) (done : Text) → digits base (suc fuel) n done ≢ []
unfolding digits
digits-ne-nil base zero n done e = elim (Bool-cases (n / base == 0)) [
  | inl last ↦ cc (rw last at e)
  | inr more ↦ cc (rw more at e)
]
digits-ne-nil base (suc fuel) n done e = elim (Bool-cases (n / base == 0)) [
  | inl last ↦ cc (rw last at e)
  | inr more ↦ digits-ne-nil base fuel (n / base) (hex_digit (n % base) ∷ done) (rw more at e)
]

pub decimal-IsNumeral : (n : ℕ) → IsNumeral (decimal n)
unfolding decimal
decimal-IsNumeral n =
    (digits-ne-nil 10 19 n [], digits-All (λ c. is_digit c ≡ true) 10 20 n [] is_digit-hex_digit tt)
