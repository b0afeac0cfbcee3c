-- ===== src/Escape/Xml.antt =====
-- A text can be read back from its XML escapes.
use mem_sentry.Base.{
  ℕ, ◌≡◌, ◌≢◌, refl, ap, ◌∙◌, [], ◌∷◌, ◌++◌, ◌==◌, Bool, false, ◌||◌, any, if◌then◌else◌, arith,
  All,
}
use mem_sentry.Types.{Text, codes, same_text}
use mem_sentry.Escape.{xml_char, escape_xml}

-- The character of one of the five entities that XML has.
abbrev pub entity_value : Text → ℕ
entity_value name =
    if same_text name (codes "amp")
    then 38
    else if same_text name (codes "lt")
    then 60
    else if same_text name (codes "gt")
    then 62
    else if same_text name (codes "quot")
    then 34
    else if same_text name (codes "apos")
    then 39
    else 0

-- Where a reader of XML text stands: between characters, or in an entity, with its name so far.
pub data Reading : Type 0 where
  between : Reading
  entity : Text → Reading

unfoldable pub xml_read : Reading → Text → Text
xml_read state [] = []
xml_read between (c ∷ t) = if c == 38 then xml_read (entity []) t else c ∷ xml_read between t
xml_read (entity name) (c ∷ t) =
    if c == 59 then entity_value name ∷ xml_read between t else xml_read (entity (name ++ c ∷ [])) t

xml_read-xml_char : (c : ℕ) (t : Text) → xml_read between (xml_char c ++ t) ≡ c ∷ xml_read between t
unfolding xml_read xml_char
xml_read-xml_char c t = ground arith

-- None of the characters that would end the text or the attribute it stands in.
abbrev pub IsInert : ℕ → Type 0
IsInert c = (c ≢ 60) × (c ≢ 62) × (c ≢ 34) × (c ≢ 39)

abbrev pub is_markup : ℕ → Bool
is_markup c = c == 60 || c == 62 || c == 34 || c == 39

-- A text that passes the test.
pub any-markup : (t : Text) → any is_markup t ≡ false → All IsInert t
unfolding any
any-markup [] h = tt
any-markup (c ∷ t) h = (ground (arith, h), any-markup t (ground (arith, h)))

xml_char-IsInert : (c : ℕ) (t : Text) → All IsInert t → All IsInert (xml_char c ++ t)
unfolding xml_char
xml_char-IsInert c t inert = ground (arith, inert)

-- A reader of the five XML entities gets any text back from its escape, and the escape has no angle
-- bracket and no quote.
pub xml_read-escape_xml :
    (t : Text) → (xml_read between (escape_xml t) ≡ t) × All IsInert (escape_xml t)
unfolding xml_read escape_xml
xml_read-escape_xml [] = (refl, tt)
xml_read-escape_xml (c ∷ t) =
    let (same, inert) = xml_read-escape_xml t in
    (xml_read-xml_char c (escape_xml t) ∙ ap (◌∷◌ c) same, xml_char-IsInert c (escape_xml t) inert)
