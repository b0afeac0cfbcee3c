-- ===== src/Suppression/Rules.antt =====
-- What is suppressed: a rule occurs in the tag, or in the name or the file of a frame.
use mathlib.Core.Path.{ap₂}
use mem_sentry.Base.{
  ℕ, zero, suc, ◌≡◌, refl, sym, ap, ◌↔◌, inl, inr, Bool, true, false, not, ◌&&◌, ◌||◌, List, [],
  ◌∷◌, ◌++◌, map, arith, ltb, ◌==◌, Bool-cases, any, keep, take, ==_sound, ==_refl,
}
use mem_sentry.Types.{Text, StackFrame, AllocationRecord}
use mem_sentry.StackTrace.{Linker, SymbolCache, symbolize, resolve}
use mem_sentry.StackTrace.Resolve.{IsCoherent, resolve_lem}
use mem_sentry.Suppression.{
  is_empty, is_prefix, contains, tag_matches, frame_matches, frames_match, is_suppressed,
}

-- The rule occurs in the text: the text is something before it, the rule, and something after it.
abbrev pub Occurs : Text → Text → Type 0
Occurs rule t = (before : Text) × (after : Text) × (t ≡ before ++ (rule ++ after))

is_prefix-split : (rule t : Text) → is_prefix rule t ≡ true → (after : Text) × (t ≡ rule ++ after)
unfolding is_prefix
is_prefix-split [] t h = (t, refl)
is_prefix-split (c ∷ cs) [] h = absurd (ground (arith, h))
is_prefix-split (c ∷ cs) (d ∷ ds) h =
    let (after, e) = is_prefix-split cs ds (ground (arith, h)) in
    (after, ap₂ ◌∷◌ (sym (==_sound c d (ground (arith, h)))) e)

is_prefix-append : (rule after : Text) → is_prefix rule (rule ++ after) ≡ true
unfolding is_prefix
is_prefix-append [] after = refl
is_prefix-append (c ∷ cs) after = rw (==_refl c) (is_prefix-append cs after)

contains-append : (rule before after : Text) → contains rule (before ++ (rule ++ after)) ≡ true
unfolding contains
contains-append rule [] after = at_start (rule ++ after) (is_prefix-append rule after)
  where
    at_start : (t : Text) → is_prefix rule t ≡ true → contains rule t ≡ true
    at_start [] h = h
    at_start (c ∷ cs) h = rw h
contains-append rule (c ∷ before) after = ground (arith, contains-append rule before after)

contains-split : (rule t : Text) → contains rule t ≡ true → Occurs rule t
unfolding contains
contains-split rule [] h = let (after, e) = is_prefix-split rule [] h in ([], after, e)
contains-split rule (c ∷ cs) h = elim (Bool-cases (is_prefix rule (c ∷ cs))) [
  | inl here ↦ let (after, e) = is_prefix-split rule (c ∷ cs) here in ([], after, e)
  | inr later ↦
      let (before, after, e) = contains-split rule cs (ground (arith, h, later)) in
      (c ∷ before, after, ap (◌∷◌ c) e)
]

-- The substring search finds a rule in a text exactly if the text is something before it, the rule,
-- and something after it.
pub contains_iff : (rule t : Text) → (contains rule t ≡ true) ↔ Occurs rule t
contains_iff rule t =
    (contains-split rule t, λ (before, after, e). rw e (contains-append rule before after))

-- A rule that matches a frame by its symbol or by its file; an empty name matches nothing.
abbrev pub hits : StackFrame → Text → Bool
hits frame rule =
    (not (is_empty frame.symbol_name) && contains rule frame.symbol_name)
    || (not (is_empty frame.file_name) && contains rule frame.file_name)

tag_matches-any :
    (tag : Text) (rules : List Text) → tag_matches tag rules ≡ any (λ r. contains r tag) rules
unfolding tag_matches any
tag_matches-any tag [] = refl
tag_matches-any tag (r ∷ rs) = ground (arith, tag_matches-any tag rs)

frame_matches-any :
    (frame : StackFrame) (rules : List Text) → frame_matches frame rules ≡ any (hits frame) rules
unfolding frame_matches any
frame_matches-any frame [] = refl
frame_matches-any frame (r ∷ rs) = ground (arith, frame_matches-any frame rs)

frames_match-any :
    (frames : List StackFrame) (rules : List Text)
    → frames_match frames rules ≡ any (λ f. any (hits f) rules) frames
unfolding frames_match any
frames_match-any [] rules = refl
frames_match-any (f ∷ fs) rules =
    ground (arith, frames_match-any fs rules, frame_matches-any f rules)

-- The frames of a record as the linker resolves them.
abbrev pub frames_of : Linker → AllocationRecord → List StackFrame
frames_of linker rec =
    map (symbolize linker) (keep (λ f. not (f == 0)) (take rec.frame_count rec.callstack))

any-false {ℓ} :
    {A : Type ℓ} (p : A → Bool) (xs : List A) → ((x : A) → p x ≡ false) → any p xs ≡ false
unfolding any
any-false p [] h = refl
any-false p (x ∷ xs) h = rw (h x) (any-false p xs h)

-- Without rules nothing matches.
no_rules : (rules : List Text) → is_empty rules ≡ true → (p : Text → Bool) → any p rules ≡ false
unfolding any
no_rules [] h p = refl
no_rules (r ∷ rs) h p = absurd (ground (arith, h))

-- Nor without frames.
no_frames :
    (p : StackFrame → Bool) (callstack : List ℕ) (linker : Linker) (n : ℕ)
    → ltb 0 n ≡ false
    → any p (map (symbolize linker) (keep (λ f. not (f == 0)) (take n callstack))) ≡ false
unfolding any keep
no_frames p callstack linker zero h = refl
no_frames p callstack linker (suc n) h = absurd (ground (arith, h))

-- With a coherent symbol cache, a record is suppressed exactly if some rule occurs in its tag, or
-- in the symbol or the file of one of its frames, and the cache stays coherent.
pub is_suppressed_lem :
    (text_at : ℕ → Text) (linker : Linker) (rules : List Text) (rec : AllocationRecord)
    (cache : SymbolCache)
    → IsCoherent linker cache
    → ((is_suppressed text_at linker rules rec cache).0 ≡ (
        (not (rec.tag == 0) && any (λ r. contains r (text_at rec.tag)) rules)
        || any (λ f. any (hits f) rules) (frames_of linker rec)))
      × IsCoherent linker (is_suppressed text_at linker rules rec cache).1
unfolding is_suppressed
is_suppressed_lem text_at linker rules rec cache c =
    let (shown, coherent) = resolve_lem linker rec.callstack rec.frame_count cache c in
    let frames = frames_match-any (resolve linker rec.callstack rec.frame_count cache).0 rules in
    let tag = tag_matches-any (text_at rec.tag) rules in
    elim (Bool-cases (is_empty rules)) [
      | inl none_left ↦ rw none_left (
        ground (
          arith,
          no_rules rules none_left (λ r. contains r (text_at rec.tag)),
          any-false (λ f. any (hits f) rules) (frames_of linker rec)
              (λ f. no_rules rules none_left (hits f)),
        ),
        c,
      )
      | inr some_rules ↦
          rw (some_rules, tag)
            (elim (Bool-cases
              (not (rec.tag == 0) && any (λ r. contains r (text_at rec.tag)) rules)) [
                | inl hit ↦ rw hit (refl, c)
                | inr miss ↦ rw miss (elim (Bool-cases (ltb 0 rec.frame_count)) [
                  | inl on ↦ rw (on, frames, shown) (refl, coherent)
                  | inr off ↦ rw off (sym (no_frames _ rec.callstack linker _ off), c)
                ])
              ])
    ]
