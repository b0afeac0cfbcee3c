-- ===== src/Json.antt =====
-- JSON documents, for what src/reporter.cpp writes as JSON: values, the tokens that they are made
-- of, and a reader of texts by RFC 8259. A number is kept as it is written.
pub mod Lexer
pub mod Reader
use mem_sentry.Base.{ℕ, List, [], ◌∷◌, ◌++◌}
use mem_sentry.Types.{Text}

mutual
  pub data Value : Type 0 where
    num : Text → Value
    str : Text → Value
    arr : Items → Value
    obj : Fields → Value

  pub data Items : Type 0 where
    no_item : Items
    item : Value → Items → Items

  pub data Fields : Type 0 where
    no_field : Fields
    field : Text → Value → Fields → Fields

-- A mark is one of the six characters that stand for themselves. What is no JSON is `unexpected`.
pub data Token : Type 0 where
  mark : ℕ → Token
  numeral : Text → Token
  quoted : Text → Token
  unexpected : Token

-- The tokens of a value, with commas between the members.
unfoldable mutual
  pub tokens : Value → List Token
  tokens (num t) = numeral t ∷ []
  tokens (str t) = quoted t ∷ []
  tokens (arr xs) = mark b'[' ∷ first_item_tokens xs
  tokens (obj fs) = mark b'{' ∷ first_field_tokens fs

  pub first_item_tokens : Items → List Token
  first_item_tokens no_item = mark b']' ∷ []
  first_item_tokens (item v xs) = tokens v ++ more_items_tokens xs

  pub more_items_tokens : Items → List Token
  more_items_tokens no_item = mark b']' ∷ []
  more_items_tokens (item v xs) = mark b',' ∷ (tokens v ++ more_items_tokens xs)

  pub first_field_tokens : Fields → List Token
  first_field_tokens no_field = mark b'}' ∷ []
  first_field_tokens (field k v fs) = quoted k ∷ mark b':' ∷ (tokens v ++ more_fields_tokens fs)

  pub more_fields_tokens : Fields → List Token
  more_fields_tokens no_field = mark b'}' ∷ []
  more_fields_tokens (field k v fs) =
      mark b',' ∷ quoted k ∷ mark b':' ∷ (tokens v ++ more_fields_tokens fs)
