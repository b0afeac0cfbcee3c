-- ===== src/Suppression.antt =====
-- include/memsentry/core/suppression_engine.hpp: the rules, and whether one of them occurs in the
-- tag of a record or in a symbol or file name of its call stack. `text_at` reads the C string at an
-- address.
pub mod Rules
use mem_sentry.Base.{
  ℕ, Bool, true, false, not, ◌&&◌, ◌||◌, List, [], ◌∷◌, ◌++◌, ltb, ◌==◌, if◌then◌else◌, length,
}
use mem_sentry.Types.{Text, StackFrame, AllocationRecord}
use mem_sentry.StackTrace.{Linker, SymbolCache, resolve}

abbrev pub is_empty {ℓ} : {A : Type ℓ} → List A → Bool
is_empty [] = true
is_empty (x ∷ xs) = false

unfoldable pub is_prefix : Text → Text → Bool
is_prefix [] t = true
is_prefix (c ∷ cs) [] = false
is_prefix (c ∷ cs) (d ∷ ds) = c == d && is_prefix cs ds

-- `text.find(rule) != npos`
unfoldable pub contains : Text → Text → Bool
unfolding is_prefix
contains rule [] = is_prefix rule []
contains rule (c ∷ cs) = is_prefix rule (c ∷ cs) || contains rule cs

unfoldable pub add_rule : Text → List Text → List Text
add_rule pattern rules = if is_empty pattern then rules else rules ++ pattern ∷ []

unfoldable pub clear : List Text → List Text
clear rules = []

unfoldable pub rule_count : List Text → ℕ
rule_count rules = length rules

-- The loop over the rules for the tag.
unfoldable pub tag_matches : Text → List Text → Bool
unfolding contains
tag_matches tag [] = false
tag_matches tag (rule ∷ rules) = if contains rule tag then true else tag_matches tag rules

-- The loop over the rules for one frame.
unfoldable pub frame_matches : StackFrame → List Text → Bool
unfolding contains
frame_matches frame [] = false
frame_matches frame (rule ∷ rules) =
    if not (is_empty frame.symbol_name) && contains rule frame.symbol_name
    then true
    else if not (is_empty frame.file_name) && contains rule frame.file_name
    then true
    else frame_matches frame rules

unfoldable pub frames_match : List StackFrame → List Text → Bool
unfolding frame_matches
frames_match [] rules = false
frames_match (frame ∷ frames) rules =
    if frame_matches frame rules then true else frames_match frames rules

unfoldable pub is_suppressed :
    (ℕ → Text) → Linker → List Text → AllocationRecord → SymbolCache → Bool × SymbolCache
unfolding tag_matches frames_match
is_suppressed text_at linker rules rec cache =
    let resolved = resolve linker rec.callstack rec.frame_count cache in
    if is_empty rules
    then (false, cache)
    else if not (rec.tag == 0) && tag_matches (text_at rec.tag) rules
    then (true, cache)
    else if ltb 0 rec.frame_count
    then (frames_match resolved.0 rules, resolved.1)
    else (false, cache)
