-- ===== src/Markup.antt =====
-- A scanner of XML and HTML tags, which keeps the names of the elements that are open: each end tag
-- must name the innermost one, and a `<` stands only where a tag starts.
use mem_sentry.Base.{
  any, false, ◌≢◌, arith, All-imp, ℕ, ◌≡◌, refl, ◌∙◌, List, [], ◌∷◌, ◌++◌, ◌==◌, ◌||◌,
  if◌then◌else◌, ==_false, All,
}
use mem_sentry.Types.{Text, codes, same_text}
use mem_sentry.Sampling.{Double}
use mem_sentry.Printing.{Printer, decimal, hexadecimal}
use mem_sentry.Printing.Numerals.{digits-All, decimal-IsNumeral}
use mem_sentry.Escape.Xml.{IsInert}

-- Between tags; in the name of a start tag; among its attributes; in a quoted value; after a slash in
-- the tag; in the name of an end tag; or nowhere any more.
pub data Mode : Type 0 where
  content broken : Mode
  name within value slashed closing : Text → Mode

abbrev pub Scan : Type 0
Scan = Mode × List Text

-- An end tag closes the innermost element.
abbrev close : Text → List Text → Scan
close tag [] = (broken, [])
close tag (last ∷ opens) = if same_text tag last then (content, opens) else (broken, opens)

-- A start tag opens an element, unless it is one that HTML leaves without an end tag.
abbrev open_tag : Text → List Text → List Text
open_tag tag opens =
    if same_text tag (codes "!DOCTYPE")
      || same_text tag (codes "meta")
      || same_text tag (codes "input")
    then opens
    else tag ∷ opens

-- The character after the name of a start tag, or one more of the name.
abbrev end_name : ℕ → Text → List Text → Scan
end_name c tag opens =
    if c == 32
    then (within tag, opens)
    else if c == 62
    then (content, open_tag tag opens)
    else if c == 60
    then (broken, opens)
    else (name (tag ++ c ∷ []), opens)

unfoldable pub step : Mode → ℕ → List Text → Scan
step content c opens = if c == 60 then (name [], opens) else (content, opens)
step broken c opens = (broken, opens)
step (name []) c opens = if c == 47 then (closing [], opens) else end_name c [] opens
step (name (d ∷ tag)) c opens = end_name c (d ∷ tag) opens
step (within tag) c opens =
    if c == 34
    then (value tag, opens)
    else if c == 47
    then (slashed tag, opens)
    else if c == 62
    then (content, open_tag tag opens)
    else if c == 60
    then (broken, opens)
    else (within tag, opens)
step (value tag) c opens =
    if c == 34 then (within tag, opens) else if c == 60 then (broken, opens) else (value tag, opens)
step (slashed tag) c opens = if c == 62 then (content, opens) else (broken, opens)
step (closing tag) c opens =
    if c == 62
    then close tag opens
    else if c == 60
    then (broken, opens)
    else (closing (tag ++ c ∷ []), opens)

unfoldable pub scan : Scan → Text → Scan
unfolding step
scan s [] = s
scan s (c ∷ t) = scan (step s.0 c s.1) t

-- All elements that a text opens are closed, in order.
abbrev pub IsNested : Text → Type 0
IsNested t = scan (content, []) t ≡ (content, [])

-- A text is scanned part by part.
pub scan-append :
    {m : Scan} (s : Scan) (t rest : Text) → scan s t ≡ m → scan s (t ++ rest) ≡ scan m rest
unfolding scan
scan-append s [] rest e = rw e
scan-append s (c ∷ t) rest e = scan-append (step s.0 c s.1) t rest e

-- Through the next part.
pub through :
    {m s' : Scan} (s : Scan) (t rest : Text)
    → scan s t ≡ m
    → scan m rest ≡ s'
    → scan s (t ++ rest) ≡ s'
through s t rest e h = scan-append s t rest e ∙ h

-- A text in which no tag starts.
abbrev pub HasNoTag : Text → Type 0
HasNoTag t = All (λ c. c ≢ 60) t

-- A text that passes the test.
pub any-tag : (t : Text) → any (λ c. c == 60) t ≡ false → HasNoTag t
unfolding any
any-tag [] h = tt
any-tag (c ∷ t) h = (ground (arith, h), any-tag t (ground (arith, h)))

scan-text : (opens : List Text) (t : Text) → HasNoTag t → scan (content, opens) t ≡ (content, opens)
unfolding scan
scan-text opens [] plain = refl
scan-text opens (c ∷ t) plain = rw (==_false c 60 plain.0) (scan-text opens t plain.1)

pub scan-value :
    (tag : Text) (opens : List Text) (t : Text)
    → All IsInert t
    → scan (value tag, opens) t ≡ (value tag, opens)
unfolding scan
scan-value tag opens [] inert = refl
scan-value tag opens (c ∷ t) inert =
    rw (==_false c 60 (inert.0).0, ==_false c 34 (inert.0).2) (scan-value tag opens t inert.1)

-- Through a part without markup, between tags and in a quoted value.
pub skip_text :
    {s' : Scan} (opens : List Text) (t rest : Text)
    → HasNoTag t
    → scan (content, opens) rest ≡ s'
    → scan (content, opens) (t ++ rest) ≡ s'
skip_text opens t rest plain = through _ t rest (scan-text opens t plain)

pub skip :
    {s' : Scan} (opens : List Text) (t rest : Text)
    → All IsInert t
    → scan (content, opens) rest ≡ s'
    → scan (content, opens) (t ++ rest) ≡ s'
skip opens t rest inert = skip_text opens t rest (All-imp (λ c i. i.0) t inert)

pub skip_value :
    {s' : Scan} (tag : Text) (opens : List Text) (t rest : Text)
    → All IsInert t
    → scan (value tag, opens) rest ≡ s'
    → scan (value tag, opens) (t ++ rest) ≡ s'
skip_value tag opens t rest inert = through _ t rest (scan-value tag opens t inert)

-- Numbers as digits.
pub decimal-IsInert : (n : ℕ) → All IsInert (decimal n)
decimal-IsInert n =
    All-imp
      (λ c digit. (
        λ e. absurd (ground (arith, digit, e)),
        λ e. absurd (ground (arith, digit, e)),
        λ e. absurd (ground (arith, digit, e)),
        λ e. absurd (ground (arith, digit, e)),
      ))
      (decimal n) (decimal-IsNumeral n).1

-- Numbers are printed without markup.
abbrev pub PrintsInert : Printer → Type 0
PrintsInert out =
    ((d : Double) → All IsInert (out.general d))
    × ((precision : ℕ) (d : Double) → All IsInert (out.fixed precision d))

pub hexadecimal-IsInert : (n : ℕ) → All IsInert (hexadecimal n)
unfolding hexadecimal
hexadecimal-IsInert n =
    digits-All IsInert 16 16 n []
      (λ m. (
        λ e. absurd (ground (arith, e)),
        λ e. absurd (ground (arith, e)),
        λ e. absurd (ground (arith, e)),
        λ e. absurd (ground (arith, e)),
      ))
      tt
