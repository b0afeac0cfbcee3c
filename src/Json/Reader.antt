-- ===== src/Json/Reader.antt =====
-- From tokens to a value, one token at a time, with a stack of the arrays and objects that are open.
use mem_sentry.Base.{
  ℕ, Bool, false, ◌≡◌, refl, ap, ◌∙◌, List, [], ◌∷◌, ◌++◌, append_assoc, append-nil, Option, none,
  some, ◌==◌, if◌then◌else◌,
}
use mem_sentry.Types.{Text}
use mem_sentry.Json.{
  Value, Items, Fields, num, str, arr, obj, no_item, item, no_field, field, Token, mark, numeral,
  quoted, unexpected, tokens, first_item_tokens, more_items_tokens, first_field_tokens,
  more_fields_tokens,
}
use mem_sentry.Json.Lexer.{Mode, gap, lex, Lexes}

join_items : Items → Items → Items
join_items no_item ys = ys
join_items (item v xs) ys = item v (join_items xs ys)

join_fields : Fields → Fields → Fields
join_fields no_field gs = gs
join_fields (field k v fs) gs = field k v (join_fields fs gs)

-- An array with the items before, or an object with the fields before and the key of the next.
pub data Frame : Type 0 where
  in_array : Items → Frame
  in_object : Fields → Text → Frame

-- What may come next.
pub data Reading : Type 0 where
  value : List Frame → Reading
  value_or_end : List Frame → Reading
  comma_or_end : Items → List Frame → Reading
  key_or_end : List Frame → Reading
  key : Fields → List Frame → Reading
  colon : Fields → Text → List Frame → Reading
  comma_or_brace : Fields → List Frame → Reading
  finished : Value → Reading
  failed : Reading

-- A value is complete.
give : Value → List Frame → Reading
give v [] = finished v
give v (in_array xs ∷ fr) = comma_or_end (join_items xs (item v no_item)) fr
give v (in_object fs k ∷ fr) = comma_or_brace (join_fields fs (field k v no_field)) fr

read_value : List Frame → Token → Reading
unfolding give
read_value fr (numeral t) = give (num t) fr
read_value fr (quoted t) = give (str t) fr
read_value fr (mark c) =
    if c == b'[' then value_or_end fr else if c == b'{' then key_or_end fr else failed
read_value fr unexpected = failed

read_key : Fields → List Frame → Token → Reading
read_key fs fr (quoted k) = colon fs k fr
read_key fs fr _ = failed

abbrev is_token : ℕ → Token → Bool
is_token c (mark d) = d == c
is_token c _ = false

read_token : Reading → Token → Reading
unfolding read_value read_key give
read_token (value fr) t = read_value fr t
read_token (value_or_end fr) t =
    if is_token b']' t then give (arr no_item) fr else read_value (in_array no_item ∷ fr) t
read_token (comma_or_end xs fr) t =
    if is_token b',' t
    then value (in_array xs ∷ fr)
    else if is_token b']' t
    then give (arr xs) fr
    else failed
read_token (key_or_end fr) t =
    if is_token b'}' t then give (obj no_field) fr else read_key no_field fr t
read_token (key fs fr) t = read_key fs fr t
read_token (colon fs k fr) t = if is_token b':' t then value (in_object fs k ∷ fr) else failed
read_token (comma_or_brace fs fr) t =
    if is_token b',' t then key fs fr else if is_token b'}' t then give (obj fs) fr else failed
read_token (finished v) t = failed
read_token failed t = failed

read_tokens : Reading → List Token → Reading
unfolding read_token
read_tokens r [] = r
read_tokens r (t ∷ ts) = read_tokens (read_token r t) ts

result : Mode → Reading → Option Value
result gap (finished v) = some v
result _ _ = none

-- The value that a text denotes, if it is JSON. (A number must be followed by something.)
pub read_json : Text → Option Value
unfolding read_tokens result
read_json t = let l = lex gap t in result l.0 (read_tokens (value []) l.1)

join_items-no_item : (xs : Items) → join_items xs no_item ≡ xs
unfolding join_items
join_items-no_item no_item = refl
join_items-no_item (item v xs) = ap (item v) (join_items-no_item xs)

join_items_assoc :
    (xs ys zs : Items) → join_items (join_items xs ys) zs ≡ join_items xs (join_items ys zs)
unfolding join_items
join_items_assoc no_item ys zs = refl
join_items_assoc (item v xs) ys zs = ap (item v) (join_items_assoc xs ys zs)

join_fields-no_field : (fs : Fields) → join_fields fs no_field ≡ fs
unfolding join_fields
join_fields-no_field no_field = refl
join_fields-no_field (field k v fs) = ap (field k v) (join_fields-no_field fs)

join_fields_assoc :
    (fs gs hs : Fields) → join_fields (join_fields fs gs) hs ≡ join_fields fs (join_fields gs hs)
unfolding join_fields
join_fields_assoc no_field gs hs = refl
join_fields_assoc (field k v fs) gs hs = ap (field k v) (join_fields_assoc fs gs hs)

-- A value never begins with the end of an array.
not_the_end :
    (v : Value) (fr : List Frame) (ts : List Token)
    → read_tokens (value_or_end fr) (tokens v ++ ts)
      ≡ read_tokens (value (in_array no_item ∷ fr)) (tokens v ++ ts)
unfolding read_tokens tokens
not_the_end (num t) fr ts = refl
not_the_end (str t) fr ts = refl
not_the_end (arr xs) fr ts = refl
not_the_end (obj fs) fr ts = refl

-- The tokens of a value are read as the value, whatever is open and whatever follows.
mutual
  unfolding read_tokens tokens join_items join_fields

  read_tokens-tokens :
      (v : Value) (fr : List Frame) (ts : List Token)
      → read_tokens (value fr) (tokens v ++ ts) ≡ read_tokens (give v fr) ts
  read_tokens-tokens (num t) fr ts = refl
  read_tokens-tokens (str t) fr ts = refl
  read_tokens-tokens (arr xs) fr ts = first_items xs fr ts
  read_tokens-tokens (obj fs) fr ts = first_fields fs fr ts

  first_items :
      (xs : Items) (fr : List Frame) (ts : List Token)
      → read_tokens (value_or_end fr) (first_item_tokens xs ++ ts)
        ≡ read_tokens (give (arr xs) fr) ts
  first_items no_item fr ts = refl
  first_items (item v xs) fr ts =
      ap (read_tokens (value_or_end fr)) (append_assoc (tokens v) (more_items_tokens xs) ts)
      ∙ not_the_end v fr (more_items_tokens xs ++ ts)
      ∙ read_tokens-tokens v (in_array no_item ∷ fr) (more_items_tokens xs ++ ts)
      ∙ more_items (item v no_item) xs fr ts

  more_items :
      (before xs : Items) (fr : List Frame) (ts : List Token)
      → read_tokens (comma_or_end before fr) (more_items_tokens xs ++ ts)
        ≡ read_tokens (give (arr (join_items before xs)) fr) ts
  more_items before no_item fr ts = rw (join_items-no_item before)
  more_items before (item v xs) fr ts =
      ap (read_tokens (value (in_array before ∷ fr)))
        (append_assoc (tokens v) (more_items_tokens xs) ts)
      ∙ read_tokens-tokens v (in_array before ∷ fr) (more_items_tokens xs ++ ts)
      ∙ more_items (join_items before (item v no_item)) xs fr ts
      ∙ ap (λ all. read_tokens (give (arr all) fr) ts) (join_items_assoc before (item v no_item) xs)

  first_fields :
      (fs : Fields) (fr : List Frame) (ts : List Token)
      → read_tokens (key_or_end fr) (first_field_tokens fs ++ ts)
        ≡ read_tokens (give (obj fs) fr) ts
  first_fields no_field fr ts = refl
  first_fields (field k v fs) fr ts =
      ap (read_tokens (value (in_object no_field k ∷ fr)))
        (append_assoc (tokens v) (more_fields_tokens fs) ts)
      ∙ read_tokens-tokens v (in_object no_field k ∷ fr) (more_fields_tokens fs ++ ts)
      ∙ more_fields (field k v no_field) fs fr ts

  more_fields :
      (before fs : Fields) (fr : List Frame) (ts : List Token)
      → read_tokens (comma_or_brace before fr) (more_fields_tokens fs ++ ts)
        ≡ read_tokens (give (obj (join_fields before fs)) fr) ts
  more_fields before no_field fr ts = rw (join_fields-no_field before)
  more_fields before (field k v fs) fr ts =
      ap (read_tokens (value (in_object before k ∷ fr)))
        (append_assoc (tokens v) (more_fields_tokens fs) ts)
      ∙ read_tokens-tokens v (in_object before k ∷ fr) (more_fields_tokens fs ++ ts)
      ∙ more_fields (join_fields before (field k v no_field)) fs fr ts
      ∙ ap (λ all. read_tokens (give (obj all) fr) ts)
          (join_fields_assoc before (field k v no_field) fs)

-- A text of the tokens of a value, and layout, denotes the value.
pub read_json-Lexes : {t : Text} (v : Value) → Lexes gap t gap (tokens v) → read_json t ≡ some v
unfolding read_json read_tokens result
read_json-Lexes v h =
    let whole = read_tokens-tokens v [] [] in rw (h.lexed, rw (append-nil (tokens v)) at whole)
