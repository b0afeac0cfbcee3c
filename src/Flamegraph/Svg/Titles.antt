-- ===== src/Flamegraph/Svg/Titles.antt =====
-- The names and files in the tree that `build_tree` of include/memsentry/profiler/flamegraph.hpp makes.
use mem_sentry.Base.{ℕ, refl, any, Bool-cases, inl, inr, List, [], ◌∷◌, ◌==◌, All}
use mem_sentry.Types.{Text, codes, same_text, StackFrame, AllocationRecord}
use mem_sentry.StackTrace.{Linker, SymbolCache}
use mem_sentry.StackTrace.Resolve.{IsCoherent, resolve_lem}
use mem_sentry.Suppression.Rules.{frames_of}
use mem_sentry.Escape.Xml.{IsInert, any-markup}
use mem_sentry.Flamegraph.{
  FlameNode, flame_node, Children, no_child, child_then, new_data, add_total, add_self, node_name,
  at_child, unknown, symbol_of, add_frames, reverse_onto, add_record, add_records, build_tree,
}
use mem_sentry.Flamegraph.Svg.Nesting.{AreTitles, AreTitlesIn}

-- A frame whose symbol and file have no markup.
abbrev pub IsInertFrame : StackFrame → Type 0
IsInertFrame frame = All IsInert frame.symbol_name × All IsInert frame.file_name

at_child-AreTitles :
    (f : FlameNode → FlameNode) (name file : Text) (line : ℕ) (cs : Children)
    → All IsInert name
    → All IsInert file
    → ((c : FlameNode) → AreTitles c → AreTitles (f c))
    → AreTitlesIn cs
    → AreTitlesIn (at_child f name file line cs)
unfolding at_child AreTitles
at_child-AreTitles f name file line no_child n l keeps h =
    (keeps (flame_node (new_data name file line) no_child) ((n, l), tt), tt)
at_child-AreTitles f name file line (child_then c cs) n l keeps h =
    elim (Bool-cases (same_text (node_name c) name)) [
      | inl found ↦ rw found (keeps c h.0, h.1)
      | inr other ↦ rw other (h.0, at_child-AreTitles f name file line cs n l keeps h.1)
    ]

add_total-AreTitles : (bytes : ℕ) (c : FlameNode) → AreTitles c → AreTitles (add_total bytes c)
unfolding AreTitles
add_total-AreTitles bytes (flame_node d cs) h = h

add_self-AreTitles : (bytes : ℕ) (c : FlameNode) → AreTitles c → AreTitles (add_self bytes c)
unfolding AreTitles
add_self-AreTitles bytes (flame_node d cs) h = h

unknown-IsInert : All IsInert unknown
unfolding any
unknown-IsInert = any-markup unknown refl

symbol_of-IsInert :
    (frame : StackFrame) → All IsInert frame.symbol_name → All IsInert (symbol_of frame)
symbol_of-IsInert frame =
    elim frame.symbol_name
      as (λ t. All IsInert t → All IsInert (elim t [ [] ↦ unknown | c ∷ cs ↦ c ∷ cs ])) [
        | [] ↦ λ h. unknown-IsInert
        | c ∷ t ↦ λ h. h
      ]

reverse_onto-All :
    (P : StackFrame → Type 0) (xs done : List StackFrame)
    → All P xs
    → All P done
    → All P (reverse_onto xs done)
reverse_onto-All P [] done hx hd = hd
reverse_onto-All P (x ∷ xs) done hx hd = reverse_onto-All P xs (x ∷ done) hx.1 (hx.0, hd)

add_frames-AreTitles :
    (bytes : ℕ) (frames : List StackFrame) (c : FlameNode)
    → All IsInertFrame frames
    → AreTitles c
    → AreTitles (add_frames bytes frames c)
unfolding add_frames AreTitles
add_frames-AreTitles bytes [] c plain h = add_self-AreTitles bytes c h
add_frames-AreTitles bytes (frame ∷ frames) (flame_node d cs) plain h = (
  h.0,
  at_child-AreTitles (λ child. add_frames bytes frames (add_total bytes child)) (symbol_of frame)
      frame.file_name frame.line_number cs (symbol_of-IsInert frame (plain.0).0) (plain.0).1
      (λ c w.
        add_frames-AreTitles bytes frames (add_total bytes c) plain.1
          (add_total-AreTitles bytes c w))
      h.1,
)

add_record-AreTitles :
    (linker : Linker) (rec : AllocationRecord) (root : FlameNode) (cache : SymbolCache)
    → IsCoherent linker cache
    → All IsInertFrame (frames_of linker rec)
    → AreTitles root
    → AreTitles (add_record linker rec root cache).0
      × IsCoherent linker (add_record linker rec root cache).1
unfolding add_record AreTitles
add_record-AreTitles linker rec (flame_node d cs) cache c plain h =
    let bytes = rec.requested_size in
    let (frames, coherent) = resolve_lem linker rec.callstack rec.frame_count cache c in
    elim (Bool-cases (rec.frame_count == 0)) [
      | inl bare ↦ rw bare (
        (
          h.0,
          at_child-AreTitles (λ child. add_total bytes (add_self bytes child)) unknown [] 0 cs
              unknown-IsInert tt
              (λ c w. add_total-AreTitles bytes (add_self bytes c) (add_self-AreTitles bytes c w))
              h.1,
        ),
        c,
      )
      | inr framed ↦
          rw (framed, frames)
            (
              add_frames-AreTitles bytes (reverse_onto (frames_of linker rec) []) _
                  (reverse_onto-All IsInertFrame (frames_of linker rec) [] plain tt) h,
              coherent,
            )
    ]

add_records-AreTitles :
    (linker : Linker) (recs : List AllocationRecord) (root : FlameNode) (cache : SymbolCache)
    → IsCoherent linker cache
    → All (λ r. All IsInertFrame (frames_of linker r)) recs
    → AreTitles root
    → AreTitles (add_records linker recs root cache).0
      × IsCoherent linker (add_records linker recs root cache).1
unfolding add_records
add_records-AreTitles linker [] root cache c plain h = (h, c)
add_records-AreTitles linker (rec ∷ recs) root cache c plain h =
    let r = add_record linker rec root cache in
    let (titled, coherent) = add_record-AreTitles linker rec root cache c plain.0 h in
    add_records-AreTitles linker recs r.0 r.1 coherent plain.1 titled

pub build_tree-AreTitles :
    (linker : Linker) (recs : List AllocationRecord) (cache : SymbolCache)
    → IsCoherent linker cache
    → All (λ r. All IsInertFrame (frames_of linker r)) recs
    → AreTitles (build_tree linker recs cache).0
      × IsCoherent linker (build_tree linker recs cache).1
unfolding build_tree AreTitles any
build_tree-AreTitles linker recs cache c plain =
    add_records-AreTitles linker recs (flame_node (new_data (codes "all") [] 0) no_child) cache c
      plain ((any-markup (codes "all") refl, tt), tt)
