-- ===== src/Reporter/Json/Lines.antt =====
-- How the lines of the JSON report are lexed.
use mem_sentry.Base.{ℕ, ◌≡◌, refl, List, [], ◌∷◌, ◌++◌, append-nil, append_assoc}
use mem_sentry.Types.{Text, codes}
use mem_sentry.Printing.{decimal, hexadecimal}
use mem_sentry.Escape.{json_escape}
use mem_sentry.Escape.Json.{between}
use mem_sentry.Json.{
  Value, Items, no_item, item, Token, mark, quoted, tokens, more_items_tokens, first_item_tokens,
}
use mem_sentry.Json.Lexer.{
  Mode, gap, in_number, in_string, lex, Lexes, Lexes-append, Lexes-json_escape, Lexes-decimal,
  Lexes-hexadecimal,
}

-- A text that is known is lexed by computation.
pub literal : {m : Mode} (t : Text) → Lexes m t (lex m t).0 (lex m t).1
literal t = record { lexed = refl }

-- A number, or a string, between two known texts.
pub numeral_line :
    {ts us : List Token} {before after : Text} (t : Text)
    → Lexes gap t (in_number t) []
    → Lexes gap before gap ts
    → Lexes (in_number t) after gap us
    → Lexes gap (before ++ t ++ after) gap (ts ++ us)
numeral_line {ts} {us} {before} {after} t number h k =
    Lexes-append (before ++ t) (rw (append-nil ts) at (Lexes-append before h number)) k

pub number_line :
    {ts us : List Token} {before after : Text} (n : ℕ)
    → Lexes gap before gap ts
    → Lexes (in_number (decimal n)) after gap us
    → Lexes gap (before ++ decimal n ++ after) gap (ts ++ us)
number_line n = numeral_line (decimal n) (Lexes-decimal n)

pub string_line :
    {ts us : List Token} {before after : Text} (t : Text)
    → Lexes gap before (in_string between []) ts
    → Lexes (in_string between t) after gap us
    → Lexes gap (before ++ json_escape t ++ after) gap (ts ++ us)
string_line {ts} {us} {before} {after} t h k =
    Lexes-append (before ++ json_escape t)
      (rw (append-nil ts) at (Lexes-append before h (Lexes-json_escape t))) k

pub address_line :
    (p : ℕ)
    → Lexes gap (codes "      \"address\": \"0x" ++ hexadecimal p ++ codes "\",\n") gap (
        quoted (codes "address")
        ∷ mark b':'
        ∷ quoted (codes "0x" ++ hexadecimal p)
        ∷ mark b','
        ∷ [])
unfolding lex
address_line p =
    Lexes-append (codes "      \"address\": \"0x" ++ hexadecimal p)
      (Lexes-append (codes "      \"address\": \"0x") (literal (codes "      \"address\": \"0x"))
        (Lexes-hexadecimal (codes "0x") p))
      (literal (codes "\",\n"))

-- The last entry of a list, and an entry that others follow.
pub last_entry :
    {ts us : List Token} {entry tail : Text}
    → Lexes gap entry gap ts
    → Lexes gap tail gap us
    → Lexes gap (entry ++ (codes "\n" ++ tail)) gap (ts ++ us)
unfolding lex
last_entry {ts} {us} {entry} {tail} h k =
    Lexes-append entry h (Lexes-append _ (literal (codes "\n")) k)

pub entry_before :
    {ts us : List Token} {entry tail : Text}
    → Lexes gap entry gap ts
    → Lexes gap tail gap us
    → Lexes gap (entry ++ (codes "," ++ (codes "\n" ++ tail))) gap (ts ++ (mark b',' ∷ us))
unfolding lex
entry_before {ts} {us} {entry} {tail} h k =
    Lexes-append entry h
      (Lexes-append _ (literal (codes ",")) (Lexes-append _ (literal (codes "\n")) k))

pub regroup : (a b c d t : Text) → (a ++ (b ++ (c ++ d))) ++ t ≡ a ++ (b ++ (c ++ (d ++ t)))
regroup a b c d t = simp append_assoc

-- The items of an array, the first one set apart.
pub items_last :
    (v : Value) (us : List Token)
    → first_item_tokens (item v no_item) ++ us ≡ tokens v ++ (mark b']' ∷ us)
unfolding tokens
items_last v us = append_assoc (tokens v) (mark b']' ∷ []) us

pub items_more :
    (v w : Value) (xs : Items) (us : List Token)
    → first_item_tokens (item v (item w xs)) ++ us
      ≡ tokens v ++ (mark b',' ∷ (first_item_tokens (item w xs) ++ us))
unfolding tokens
items_more v w xs us = append_assoc (tokens v) (more_items_tokens (item w xs)) us
