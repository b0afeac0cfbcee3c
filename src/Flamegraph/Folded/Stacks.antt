-- ===== src/Flamegraph/Folded/Stacks.antt =====
-- What a reader gets from the folded lines of `generate_folded_stacks`, in
-- include/memsentry/profiler/flamegraph.hpp.
use mem_sentry.Base.{
  ℕ, ◌<◌, ◌^◌, ◌≡◌, ◌≢◌, refl, ap, ◌∙◌, true, false, List, [], ◌∷◌, ◌++◌, map, append_assoc, some,
  ◌==◌, if◌then◌else◌, append-nil, ◌>>=◌, Bool, Bool-cases, inl, inr, All, All-append, arith,
}
use mem_sentry.Types.{Text, StackFrame, AllocationRecord}
use mem_sentry.StackTrace.{Linker, SymbolCache}
use mem_sentry.StackTrace.Resolve.{IsCoherent, resolve_lem}
use mem_sentry.Suppression.Rules.{frames_of}
use mem_sentry.Printing.{decimal}
use mem_sentry.Printing.Numerals.{number_value-decimal}
use mem_sentry.Flamegraph.{unknown, symbol_of, reverse_onto}
use mem_sentry.Flamegraph.Folded.{folded_frames, folded_line, generate_folded_stacks}
use mem_sentry.Flamegraph.Folded.Reader.{
  on_first, split, stack_frames, Stack, read_line, read_lines, read_folded, IsFree, split-free,
  split-append, last_space-append, decimal-IsFree,
}

-- A symbol that the format can carry.
abbrev pub IsPlain : Text → Type 0
IsPlain t = IsFree 59 t × IsFree 10 t

abbrev symbols : List StackFrame → List Text
symbols frames = map symbol_of frames

split-folded_frames :
    (w : Text) (frames : List StackFrame)
    → IsFree 59 w
    → All IsPlain (symbols frames)
    → split 59 (w ++ folded_frames false frames) ≡ w ∷ symbols frames
unfolding folded_frames
split-folded_frames w [] free plain = rw (append-nil w) (split-free 59 w free)
split-folded_frames w (frame ∷ frames) free plain =
    split-append 59 w (symbol_of frame ++ folded_frames false frames) free
    ∙ ap (◌∷◌ w) (split-folded_frames (symbol_of frame) frames (plain.0).0 plain.1)

folded_frames-IsFree :
    (first : Bool) (frames : List StackFrame)
    → All IsPlain (symbols frames)
    → IsFree 10 (folded_frames first frames)
unfolding folded_frames
folded_frames-IsFree first [] plain = tt
folded_frames-IsFree true (frame ∷ frames) plain =
    All-append (λ c. c ≢ 10) (symbol_of frame) _ (plain.0).1
      (folded_frames-IsFree false frames plain.1)
folded_frames-IsFree false (frame ∷ frames) plain = (
  λ e. absurd (ground (arith, e)),
  All-append (λ c. c ≢ 10) (symbol_of frame) _ (plain.0).1
      (folded_frames-IsFree false frames plain.1),
)

stack_frames-split : (w t : Text) → w ≢ [] → stack_frames (w ++ t) ≡ split 59 (w ++ t)
stack_frames-split [] t some_text = absurd (some_text refl)
stack_frames-split (c ∷ w) t some_text = refl

symbol_of-ne-nil : (frame : StackFrame) → symbol_of frame ≢ []
symbol_of-ne-nil frame =
    elim frame.symbol_name as (λ t. elim t [ [] ↦ unknown | c ∷ cs ↦ c ∷ cs ] ≢ []) [
      | [] ↦ λ e. cc
      | c ∷ t ↦ λ e. cc
    ]

stack_frames-folded_frames :
    (frames : List StackFrame)
    → All IsPlain (symbols frames)
    → stack_frames (folded_frames true frames) ≡ symbols frames
unfolding folded_frames
stack_frames-folded_frames [] plain = refl
stack_frames-folded_frames (frame ∷ frames) plain =
    stack_frames-split (symbol_of frame) _ (symbol_of-ne-nil frame)
    ∙ split-folded_frames (symbol_of frame) frames (plain.0).0 plain.1

-- The stack that a record stands for: its symbols from the outermost on, and its bytes.
abbrev pub stack_of : Linker → AllocationRecord → Stack
stack_of linker rec = (
  if rec.frame_count == 0
      then unknown ∷ []
      else map symbol_of (reverse_onto (frames_of linker rec) []),
  rec.requested_size,
)

-- A line is a path that reads as the frames, a space, and the bytes.
record IsLine (t : Text) (stack : Stack) : Type 0 where
  path : Text
  shape : t ≡ path ++ (32 ∷ (decimal stack.1 ++ 10 ∷ []))
  same_frames : stack_frames path ≡ stack.0
  one_line : IsFree 10 path

folded_line-IsLine :
    (linker : Linker) (rec : AllocationRecord) (cache : SymbolCache)
    → IsCoherent linker cache
    → All IsPlain (stack_of linker rec).0
    → IsLine (folded_line linker rec cache).0 (stack_of linker rec)
      × IsCoherent linker (folded_line linker rec cache).1
unfolding folded_line split
folded_line-IsLine linker rec cache c plain =
    let (frames, coherent) = resolve_lem linker rec.callstack rec.frame_count cache c in
    let path = folded_frames true (reverse_onto (frames_of linker rec) []) in
    elim (Bool-cases (rec.frame_count == 0)) [
      | inl bare ↦ rw bare (
        record {
          path = unknown;
          shape = refl;
          same_frames = refl;
          one_line = ((rw bare at plain).0).1;
        },
        c,
      )
      | inr framed ↦
          rw (framed, frames)
            (
              record {
                path = path;
                shape = refl;
                same_frames = stack_frames-folded_frames _ (rw framed at plain);
                one_line = folded_frames-IsFree true _ (rw framed at plain);
              },
              coherent,
            )
    ]

split-IsLine :
    (line rest : Text) (stack : Stack)
    → IsLine line stack
    → stack.1 < 2 ^ 64
    → (path : Text) × (split 10 (line ++ rest) ≡ path ∷ split 10 rest)
      × (read_line path ≡ some stack)
unfolding read_line
split-IsLine line rest stack h small =
    let digits = decimal stack.1 in
    let whole : line ++ rest ≡ (h.path ++ (32 ∷ digits)) ++ (10 ∷ rest) =
      rw h.shape (simp append_assoc) in
    (
      h.path ++ (32 ∷ digits),
      rw whole (
          split-append 10 (h.path ++ (32 ∷ digits)) rest (
            All-append (λ c. c ≢ 10) h.path _ h.one_line
              (λ e. absurd (ground (arith, e)), decimal-IsFree 10 stack.1 (omega arith)))),
      rw (
        last_space-append h.path digits (decimal-IsFree 32 stack.1 (omega arith)),
        number_value-decimal stack.1 small,
        h.same_frames,
      ),
    )

on_first-ne-nil : (c : ℕ) (ws : List Text) → on_first c ws ≢ []
on_first-ne-nil c [] e = cc
on_first-ne-nil c (w ∷ ws) e = cc

-- A text has a first segment.
split-ne-nil : (separator : ℕ) (t : Text) → split separator t ≢ []
unfolding split
split-ne-nil separator [] e = cc
split-ne-nil separator (c ∷ t) e = elim (Bool-cases (c == separator)) [
  | inl stop ↦ cc (rw stop at e)
  | inr other ↦ on_first-ne-nil c (split separator t) (rw other at e)
]

read_lines-cons :
    (line : Text) (lines : List Text)
    → lines ≢ []
    → read_lines (line ∷ lines)
      ≡ (read_line line >>= λ stack. read_lines lines >>= λ stacks. some (stack ∷ stacks))
unfolding read_lines
read_lines-cons line [] more = absurd (more refl)
read_lines-cons line (next ∷ lines) more = refl

read_lines-split :
    (line t : Text)
    → read_lines (line ∷ split 10 t)
      ≡ (read_line line >>= λ stack. read_folded t >>= λ stacks. some (stack ∷ stacks))
read_lines-split line t = read_lines-cons line (split 10 t) (split-ne-nil 10 t)

-- With a coherent symbol cache, where no symbol has a semicolon or a line break and sizes are
-- 64-bit numbers, a reader of folded stacks gets from the lines of the records their stacks in
-- order: the symbols from the outermost frame on, or the stack "[unknown]" for a record without
-- frames, with the size.
pub read_folded-generate_folded_stacks :
    (linker : Linker) (recs : List AllocationRecord) (cache : SymbolCache)
    → IsCoherent linker cache
    → All (λ r. All IsPlain (stack_of linker r).0 × (r.requested_size < 2 ^ 64)) recs
    → read_folded (generate_folded_stacks linker recs cache).0 ≡ some (map (stack_of linker) recs)
unfolding generate_folded_stacks read_lines split
read_folded-generate_folded_stacks linker [] cache c plain = refl
read_folded-generate_folded_stacks linker (rec ∷ recs) cache c plain =
    let first = folded_line linker rec cache in
    let (line, coherent) = folded_line-IsLine linker rec cache c (plain.0).0 in
    let tail = (generate_folded_stacks linker recs first.1).0 in
    let rest = read_folded-generate_folded_stacks linker recs first.1 coherent plain.1 in
    let (path, lines, read) = split-IsLine first.0 tail (stack_of linker rec) line (plain.0).1 in
    rw lines (rw (read_lines-split path tail, read, rest))
