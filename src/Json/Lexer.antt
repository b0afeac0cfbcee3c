-- ===== src/Json/Lexer.antt =====
-- From characters to tokens, one character at a time.
use mem_sentry.Base.{
  ℕ, zero, suc, ◌+◌, ◌*◌, ◌%◌, ◌≡◌, refl, ◌≢◌, ◌∙◌, Bool, true, ◌&&◌, ◌||◌, List, [], ◌∷◌, ◌++◌,
  append_assoc, ltb, leb, ◌==◌, if◌then◌else◌, arith, All, All-imp, append-nil,
}
use mem_sentry.Types.{Text}
use mem_sentry.StackTrace.{hex_digit}
use mem_sentry.Escape.{json_char, json_escape}
use mem_sentry.Escape.Json.{Reading, between, escaped, digits, letter, digit_value, control_value}
use mem_sentry.Printing.{decimal, hexadecimal}
use mem_sentry.Printing.Numerals.{is_digit, digits-All, decimal-IsNumeral}
use mem_sentry.Json.{Token, mark, numeral, quoted, unexpected}

-- Between tokens, in a number, or in a string literal.
pub data Mode : Type 0 where
  gap : Mode
  in_number : Text → Mode
  in_string : Reading → Text → Mode

abbrev is_space : ℕ → Bool
is_space c = c == 32 || c == 9 || c == 10 || c == 13

abbrev pub is_number_char : ℕ → Bool
is_number_char c =
    leb 48 c && leb c 57 || c == b'-' || c == b'+' || c == b'.' || c == b'e' || c == b'E'

abbrev is_mark : ℕ → Bool
is_mark c = c == b'[' || c == b']' || c == b'{' || c == b'}' || c == b',' || c == b':'

abbrev open_token : ℕ → Mode × List Token
open_token c =
    if c == 34
    then (in_string between [], [])
    else if is_space c
    then (gap, [])
    else if is_number_char c
    then (in_number (c ∷ []), [])
    else if is_mark c
    then (gap, mark c ∷ [])
    else (gap, unexpected ∷ [])

abbrev string_char : Reading → Text → ℕ → Mode × List Token
string_char between t c =
    if c == 34
    then (gap, quoted t ∷ [])
    else if c == 92
    then (in_string escaped t, [])
    else if ltb c 32
    then (gap, unexpected ∷ [])
    else (in_string between (t ++ c ∷ []), [])
string_char escaped t c =
    if c == 117
    then (in_string (digits 3 0) t, [])
    else (in_string between (t ++ letter c ∷ []), [])
string_char (digits zero v) t c = (in_string between (t ++ (v * 16 + digit_value c) ∷ []), [])
string_char (digits (suc k) v) t c = (in_string (digits k (v * 16 + digit_value c)) t, [])

abbrev next : Mode → ℕ → Mode × List Token
next gap c = open_token c
next (in_number t) c =
    if is_number_char c
    then (in_number (t ++ c ∷ []), [])
    else ((open_token c).0, numeral t ∷ (open_token c).1)
next (in_string state t) c = string_char state t c

unfoldable pub lex : Mode → Text → Mode × List Token
lex m [] = (m, [])
lex m (c ∷ t) = let rest = lex (next m c).0 t in (rest.0, (next m c).1 ++ rest.1)

-- The text takes the lexer from one mode to another, with these tokens.
pub record Lexes (m : Mode) (t : Text) (m' : Mode) (ts : List Token) : Type 0 where
  pub lexed : lex m t ≡ (m', ts)

lex-append :
    (m : Mode) (a b : Text)
    → lex m (a ++ b) ≡ ((lex (lex m a).0 b).0, (lex m a).1 ++ (lex (lex m a).0 b).1)
unfolding lex
lex-append m [] b = refl
lex-append m (c ∷ a) b =
    rw (lex-append (next m c).0 a b)
      (rw (append_assoc (next m c).1 (lex (next m c).0 a).1 (lex (lex (next m c).0 a).0 b).1))

-- One text after another.
pub Lexes-append :
    {m m' m'' : Mode} {ts us : List Token} (a : Text) {b : Text}
    → Lexes m a m' ts
    → Lexes m' b m'' us
    → Lexes m (a ++ b) m'' (ts ++ us)
Lexes-append {m} {m'} {m''} {ts} {us} a {b} h k = record {
  lexed = lex-append m a b ∙ rw (h.lexed, k.lexed);
}

Lexes-json_char :
    (c : ℕ) (t rest : Text)
    → lex (in_string between t) (json_char c ++ rest) ≡ lex (in_string between (t ++ c ∷ [])) rest
unfolding lex json_char
Lexes-json_char c t rest = ground (arith, control_value c)

json_escape-lexed :
    (t s : Text) → lex (in_string between t) (json_escape s) ≡ (in_string between (t ++ s), [])
unfolding lex json_escape
json_escape-lexed t [] = rw (append-nil t)
json_escape-lexed t (c ∷ s) =
    Lexes-json_char c t (json_escape s)
    ∙ json_escape-lexed (t ++ c ∷ []) s
    ∙ rw (append_assoc t (c ∷ []) s)

-- The escape of a text, inside a string literal.
pub Lexes-json_escape :
    (s : Text) → Lexes (in_string between []) (json_escape s) (in_string between s) []
Lexes-json_escape s = record { lexed = json_escape-lexed [] s }

-- Characters that a string literal holds as they are.
abbrev is_plain : ℕ → Bool
is_plain c = leb 48 c && leb c 57 || leb 97 c && leb c 122

plain_stays :
    (t : Text) (c : ℕ)
    → is_plain c ≡ true
    → string_char between t c ≡ (in_string between (t ++ c ∷ []), [])
plain_stays t c h = ground (arith, h)

plain_chars :
    (t s : Text)
    → All (λ c. is_plain c ≡ true) s
    → lex (in_string between t) s ≡ (in_string between (t ++ s), [])
unfolding lex
plain_chars t [] h = rw (append-nil t)
plain_chars t (c ∷ s) h =
    rw (plain_stays t c h.0, plain_chars (t ++ c ∷ []) s h.1, append_assoc t (c ∷ []) s)

is_plain-hex_digit : (n : ℕ) → is_plain (hex_digit (n % 16)) ≡ true
is_plain-hex_digit n = ground arith

pub Lexes-hexadecimal :
    (t : Text) (n : ℕ)
    → Lexes (in_string between t) (hexadecimal n) (in_string between (t ++ hexadecimal n)) []
unfolding hexadecimal
Lexes-hexadecimal t n = record {
  lexed =
      plain_chars t (hexadecimal n)
        (digits-All (λ c. is_plain c ≡ true) 16 16 n [] is_plain-hex_digit tt);
}

number_chars :
    (t s : Text)
    → All (λ c. is_number_char c ≡ true) s
    → lex (in_number t) s ≡ (in_number (t ++ s), [])
unfolding lex
number_chars t [] h = rw (append-nil t)
number_chars t (c ∷ s) h = rw (h.0, number_chars (t ++ c ∷ []) s h.1, append_assoc t (c ∷ []) s)

number_starts : (c : ℕ) → is_number_char c ≡ true → open_token c ≡ (in_number (c ∷ []), [])
number_starts c h = ground (arith, h)

is_number_char-is_digit : (c : ℕ) → is_digit c ≡ true → is_number_char c ≡ true
is_number_char-is_digit c h = ground (arith, h)

-- A text of the characters that numbers are made of.
abbrev pub IsNumber : Text → Type 0
IsNumber t = (t ≢ []) × All (λ c. is_number_char c ≡ true) t

-- A number, where a token may begin.
pub Lexes-number : (t : Text) → IsNumber t → Lexes gap t (in_number t) []
unfolding lex
Lexes-number [] h = absurd (h.0 refl)
Lexes-number (c ∷ t) h = record {
  lexed = rw (number_starts c h.1.0, number_chars (c ∷ []) t h.1.1);
}

pub Lexes-decimal : (n : ℕ) → Lexes gap (decimal n) (in_number (decimal n)) []
Lexes-decimal n =
    let d = decimal-IsNumeral n in
    Lexes-number (decimal n) (d.0, All-imp is_number_char-is_digit (decimal n) d.1)
