-- ===== src/Escape.antt =====
-- The escapes of the reports: `json_escape` of src/reporter.cpp and `escape_xml` of
-- include/memsentry/profiler/flamegraph.hpp. A text is a list of the codes of its bytes.
pub mod Json
pub mod Xml
use mem_sentry.Base.{ℕ, ◌/◌, ◌%◌, List, [], ◌∷◌, ◌++◌, ltb, ◌==◌, if◌then◌else◌}
use mem_sentry.Types.{Text, codes}
use mem_sentry.StackTrace.{hex_digit}

-- One character: a backslash and a letter, `\u` and four digits, or itself.
unfoldable pub json_char : ℕ → Text
json_char c =
    if c == 34
    then 92 ∷ 34 ∷ []
    else if c == 92
    then 92 ∷ 92 ∷ []
    else if c == 8
    then 92 ∷ 98 ∷ []
    else if c == 12
    then 92 ∷ 102 ∷ []
    else if c == 10
    then 92 ∷ 110 ∷ []
    else if c == 13
    then 92 ∷ 114 ∷ []
    else if c == 9
    then 92 ∷ 116 ∷ []
    else if ltb c 0x20
    then 92 ∷ 117 ∷ 48 ∷ 48 ∷ hex_digit (c / 16) ∷ hex_digit (c % 16) ∷ []
    else c ∷ []

unfoldable pub json_escape : Text → Text
unfolding json_char
json_escape [] = []
json_escape (c ∷ cs) = json_char c ++ json_escape cs

unfoldable pub xml_char : ℕ → Text
xml_char c =
    if c == 38
    then codes "&amp;"
    else if c == 60
    then codes "&lt;"
    else if c == 62
    then codes "&gt;"
    else if c == 34
    then codes "&quot;"
    else if c == 39
    then codes "&apos;"
    else c ∷ []

unfoldable pub escape_xml : Text → Text
unfolding xml_char
escape_xml [] = []
escape_xml (c ∷ cs) = xml_char c ++ escape_xml cs
