-- ===== src/Escape/Json.antt =====
-- A JSON string can be read back from its escapes.
use mem_sentry.Base.{
  ℕ, zero, suc, ◌+◌, ◌*◌, ◌-◌, ◌/◌, ◌%◌, ◌<◌, ◌≤◌, ◌≡◌, refl, ap, ◌∙◌, [], ◌∷◌, ◌++◌, ltb, ◌==◌,
  if◌then◌else◌, arith, All,
}
use mem_sentry.Types.{Text}
use mem_sentry.StackTrace.{hex_digit}
use mem_sentry.Escape.{json_char, json_escape}

-- The character that a letter stands for after a backslash.
abbrev pub letter : ℕ → ℕ
letter c =
    if c == 98
    then 8
    else if c == 102
    then 12
    else if c == 110
    then 10
    else if c == 114
    then 13
    else if c == 116
    then 9
    else c

abbrev pub digit_value : ℕ → ℕ
digit_value c = if ltb c 97 then c - 48 else c - 87

-- Where a reader of JSON strings stands: between characters, after a backslash, or in the
-- hexadecimal digits of one, with the number still to come and the value so far.
pub data Reading : Type 0 where
  between escaped : Reading
  digits : ℕ → ℕ → Reading

-- What it makes of the inside of a string literal.
unfoldable pub json_read : Reading → Text → Text
json_read state [] = []
json_read between (c ∷ t) = if c == 92 then json_read escaped t else c ∷ json_read between t
json_read escaped (c ∷ t) =
    if c == 117 then json_read (digits 3 0) t else letter c ∷ json_read between t
json_read (digits zero v) (c ∷ t) = (v * 16 + digit_value c) ∷ json_read between t
json_read (digits (suc k) v) (c ∷ t) = json_read (digits k (v * 16 + digit_value c)) t

pub digit_value-hex_digit : (d : ℕ) → d < 16 → digit_value (hex_digit d) ≡ d
digit_value-hex_digit d small = ground arith

pub control_value :
    (c : ℕ)
    → c < 32
    → ((0 * 16 + digit_value 48) * 16 + digit_value 48) * 16 * 16
        + digit_value (hex_digit (c / 16)) * 16
        + digit_value (hex_digit (c % 16))
      ≡ c
control_value c low =
    let hi = digit_value-hex_digit (c / 16) (omega arith) in
    let lo = digit_value-hex_digit (c % 16) (omega arith) in omega (arith, hi, lo)

-- Each character is read back from its escape.
json_read-json_char :
    (c : ℕ) (t : Text) → json_read between (json_char c ++ t) ≡ c ∷ json_read between t
unfolding json_read json_char
json_read-json_char c t = ground (arith, control_value c)

json_char-visible : (c : ℕ) (t : Text) → All (λ d. 32 ≤ d) t → All (λ d. 32 ≤ d) (json_char c ++ t)
unfolding json_char
json_char-visible c t visible = ground (arith, visible)

-- A reader of JSON strings gets any text back from its escape, and the escape has no control
-- character.
pub json_read-json_escape :
    (t : Text) → (json_read between (json_escape t) ≡ t) × All (λ d. 32 ≤ d) (json_escape t)
unfolding json_read json_escape
json_read-json_escape [] = (refl, tt)
json_read-json_escape (c ∷ t) =
    let (same, visible) = json_read-json_escape t in
    (
      json_read-json_char c (json_escape t) ∙ ap (◌∷◌ c) same,
      json_char-visible c (json_escape t) visible,
    )
