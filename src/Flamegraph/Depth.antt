-- ===== src/Flamegraph/Depth.antt =====
-- The depth of the tree, from which the height of the drawing is computed.
use mem_sentry.Base.{
  ℕ, suc, ◌+◌, ◌≡◌, ◌≤◌, refl, ◌∙◌, not, List, [], ◌∷◌, arith, max, Bool-cases, inl, inr, length,
  take, keep, ◌==◌, if◌then◌else◌,
}
use mem_sentry.Types.{Text, codes, same_text, StackFrame, AllocationRecord}
use mem_sentry.StackTrace.{Linker, SymbolCache, resolve, resolve_list, resolve_frame}
use mem_sentry.Flamegraph.{
  FlameNode, flame_node, Children, no_child, child_then, new_data, add_total, add_self, node_name,
  at_child, unknown, symbol_of, add_frames, reverse_onto, add_record, add_records, build_tree,
  get_max_depth, deepest_child,
}

-- The levels below a node, and the levels of a list of children.
mutual
  height : FlameNode → ℕ
  height (flame_node d cs) = heights cs

  heights : Children → ℕ
  heights no_child = 0
  heights (child_then c cs) = max (suc (height c)) (heights cs)

mutual
  unfolding get_max_depth height

  get_max_depth-height : (c : FlameNode) (depth : ℕ) → get_max_depth c depth ≡ depth + height c
  get_max_depth-height (flame_node d cs) depth =
      let loop = deepest_child-heights cs depth depth (omega arith) in ground (arith, loop)

  deepest_child-heights :
      (cs : Children) (depth reached : ℕ)
      → depth ≤ reached
      → deepest_child cs depth reached ≡ max reached (depth + heights cs)
  deepest_child-heights no_child depth reached le = ground (arith, le)
  deepest_child-heights (child_then c cs) depth reached le =
      let below = get_max_depth-height c (depth + 1) in
      let loop =
        deepest_child-heights cs depth (max reached (get_max_depth c (depth + 1)))
          (ground (arith, le)) in
      ground (arith, below, loop, le)

-- A child that grows to some height makes its list of children as high as that and one more.
heights-at_child :
    (n : ℕ) (f : FlameNode → FlameNode) (name file : Text) (line : ℕ) (cs : Children)
    → ((c : FlameNode) → height (f c) ≡ max (height c) n)
    → heights (at_child f name file line cs) ≡ max (heights cs) (suc n)
unfolding at_child height
heights-at_child n f name file line no_child grows =
    let new = grows (flame_node (new_data name file line) no_child) in ground (arith, new)
heights-at_child n f name file line (child_then c cs) grows =
    elim (Bool-cases (same_text (node_name c) name)) [
      | inl found ↦ rw found (ground (arith, grows c))
      | inr other ↦ rw other (ground (arith, heights-at_child n f name file line cs grows))
    ]

height-add_total : (bytes : ℕ) (c : FlameNode) → height (add_total bytes c) ≡ height c
unfolding height
height-add_total bytes (flame_node d cs) = refl

height-add_self : (bytes : ℕ) (c : FlameNode) → height (add_self bytes c) ≡ height c
unfolding height
height-add_self bytes (flame_node d cs) = refl

height-add_frames :
    (bytes : ℕ) (frames : List StackFrame) (c : FlameNode)
    → height (add_frames bytes frames c) ≡ max (height c) (length frames)
unfolding add_frames height
height-add_frames bytes [] c = let same = height-add_self bytes c in ground (arith, same)
height-add_frames bytes (frame ∷ frames) (flame_node d cs) =
    heights-at_child (length frames) (λ child. add_frames bytes frames (add_total bytes child))
      (symbol_of frame) frame.file_name frame.line_number cs
      (λ c. height-add_frames bytes frames (add_total bytes c) ∙ rw (height-add_total bytes c))

length-resolve_list :
    (linker : Linker) (fs : List ℕ) (cache : SymbolCache)
    → length (resolve_list linker fs cache).0 ≡ length (keep (λ f. not (f == 0)) fs)
unfolding resolve_list keep
length-resolve_list linker [] cache = refl
length-resolve_list linker (f ∷ fs) cache = elim (Bool-cases (f == 0)) [
  | inl null ↦ rw null (length-resolve_list linker fs cache)
  | inr other ↦
      let rest = length-resolve_list linker fs (resolve_frame linker f cache).1 in
      rw other (omega (arith, rest))
]

length-reverse_onto {ℓ} :
    {A : Type ℓ} (xs done : List A) → length (reverse_onto xs done) ≡ length xs + length done
length-reverse_onto [] done = omega arith
length-reverse_onto (x ∷ xs) done =
    let rest = length-reverse_onto xs (x ∷ done) in omega (arith, rest)

-- The levels that a record needs: one for each frame that is not null, and one for `[unknown]` if
-- it has no frames.
unfoldable pub levels : AllocationRecord → ℕ
levels rec =
    if rec.frame_count == 0
    then 1
    else length (keep (λ f. not (f == 0)) (take rec.frame_count rec.callstack))

-- The most levels that a record needs.
unfoldable pub most_levels : List AllocationRecord → ℕ
most_levels [] = 0
most_levels (rec ∷ recs) = max (levels rec) (most_levels recs)

height-add_record :
    (linker : Linker) (rec : AllocationRecord) (root : FlameNode) (cache : SymbolCache)
    → height (add_record linker rec root cache).0 ≡ max (height root) (levels rec)
unfolding add_record height levels resolve
height-add_record linker rec (flame_node d cs) cache =
    let bytes = rec.requested_size in
    let frames = (resolve linker rec.callstack rec.frame_count cache).0 in
    let few = length-resolve_list linker (take rec.frame_count rec.callstack) cache in
    let turned = length-reverse_onto frames [] in
    let kept : length (reverse_onto frames [])
        ≡ length (keep (λ f. not (f == 0)) (take rec.frame_count rec.callstack)) =
      omega (arith, turned, few) in
    let path =
      height-add_frames bytes (reverse_onto frames []) (add_total bytes (flame_node d cs)) in
    elim (Bool-cases (rec.frame_count == 0)) [
      | inl bare ↦ rw bare (
          heights-at_child 0 (λ child. add_total bytes (add_self bytes child)) unknown [] 0 cs
            (λ c.
              height-add_total bytes (add_self bytes c) ∙ height-add_self bytes c ∙ ground arith))
      | inr framed ↦ rw framed (path ∙ rw kept)
    ]

height-add_records :
    (linker : Linker) (recs : List AllocationRecord) (root : FlameNode) (cache : SymbolCache)
    → height (add_records linker recs root cache).0 ≡ max (height root) (most_levels recs)
unfolding add_records most_levels
height-add_records linker [] root cache = ground arith
height-add_records linker (rec ∷ recs) root cache =
    let r = add_record linker rec root cache in
    let first = height-add_record linker rec root cache in
    let rest = height-add_records linker recs r.0 r.1 in ground (arith, first, rest)

-- The depth of the tree is the most levels that a record needs, which are the frames that are not
-- null among its `frame_count` first, or 1 for a record without frames. It is 0 without records.
pub get_max_depth-build_tree :
    (linker : Linker) (recs : List AllocationRecord) (cache : SymbolCache)
    → get_max_depth (build_tree linker recs cache).0 0 ≡ most_levels recs
unfolding build_tree height
get_max_depth-build_tree linker recs cache =
    let root = flame_node (new_data (codes "all") [] 0) no_child in
    let high = height-add_records linker recs root cache in
    let deep = get_max_depth-height (build_tree linker recs cache).0 0 in ground (arith, high, deep)
