-- ===== src/Flamegraph/Folded/Reader.antt =====
-- A reader of folded stacks, as the tools that draw flamegraphs read them: the bytes stand after the
-- last space of a line, and semicolons separate the frames.

use mem_sentry.Base.{
  ℕ, ◌<◌, ◌≡◌, ◌≢◌, refl, List, [], ◌∷◌, ◌++◌, Option, none, some, ◌==◌, if◌then◌else◌, ==_false,
  ==_refl, ◌>>=◌, All, All-imp, arith,
}
use mem_sentry.Types.{Text}
use mem_sentry.Printing.{decimal}
use mem_sentry.Printing.Numerals.{number_value, decimal-IsNumeral}

-- One more character on the first segment.
abbrev pub on_first : ℕ → List Text → List Text
on_first c [] = (c ∷ []) ∷ []
on_first c (w ∷ ws) = (c ∷ w) ∷ ws

-- The segments of a text between separators.
unfoldable pub split : ℕ → Text → List Text
split separator [] = [] ∷ []
split separator (c ∷ t) =
    let rest = split separator t in if c == separator then [] ∷ rest else on_first c rest

-- What stands before and after the last space.
unfoldable pub last_space : Text → Option (Text × Text)
last_space [] = none
last_space (c ∷ t) = elim (last_space t) [
  | some (before, after) ↦ some (c ∷ before, after)
  | none ↦ if c == 32 then some ([], t) else none
]

-- The frames of a stack: none in an empty text.
abbrev pub stack_frames : Text → List Text
stack_frames [] = []
stack_frames (c ∷ t) = split 59 (c ∷ t)

abbrev pub Stack : Type 0
Stack = List Text × ℕ

unfoldable pub read_line : Text → Option Stack
unfolding last_space
read_line line = do parts ← last_space line; some (stack_frames parts.0, number_value 10 0 parts.1)

-- Each line is ended, so the last segment is empty.
unfoldable pub read_lines : List Text → Option (List Stack)
unfolding read_line
read_lines [] = none
read_lines (last ∷ []) = elim last [ [] ↦ some [] | c ∷ t ↦ none ]
read_lines (line ∷ next ∷ lines) = do
  stack ← read_line line
  stacks ← read_lines (next ∷ lines)
  some (stack ∷ stacks)

abbrev pub read_folded : Text → Option (List Stack)
read_folded t = read_lines (split 10 t)

-- Texts without some character.
abbrev pub IsFree : ℕ → Text → Type 0
IsFree separator t = All (λ c. c ≢ separator) t

pub split-free : (separator : ℕ) (w : Text) → IsFree separator w → split separator w ≡ w ∷ []
unfolding split
split-free separator [] free = refl
split-free separator (c ∷ w) free = rw (==_false c separator free.0, split-free separator w free.1)

pub split-append :
    (separator : ℕ) (w t : Text)
    → IsFree separator w
    → split separator (w ++ (separator ∷ t)) ≡ w ∷ split separator t
unfolding split
split-append separator [] t free = rw (==_refl separator)
split-append separator (c ∷ w) t free =
    rw (==_false c separator free.0, split-append separator w t free.1)

last_space-free : (t : Text) → IsFree 32 t → last_space t ≡ none
unfolding last_space
last_space-free [] free = refl
last_space-free (c ∷ t) free = rw (last_space-free t free.1, ==_false c 32 free.0)

pub last_space-append :
    (before after : Text)
    → IsFree 32 after
    → last_space (before ++ (32 ∷ after)) ≡ some (before, after)
unfolding last_space
last_space-append [] after free = rw (last_space-free after free)
last_space-append (c ∷ before) after free = rw (last_space-append before after free)

-- Digits are no separators.
pub decimal-IsFree : (separator n : ℕ) → separator < 48 → IsFree separator (decimal n)
decimal-IsFree separator n low =
    All-imp (λ c digit e. ground (arith, digit, e)) (decimal n) (decimal-IsNumeral n).1
