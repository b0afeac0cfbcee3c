-- ===== src/Flamegraph.antt =====
-- include/memsentry/profiler/flamegraph.hpp: the tree of call stacks and its depth; `Folded` has the
-- folded lines and `Svg` the drawing.
pub mod Depth
pub mod Folded
pub mod Svg
pub mod Totals
use mem_sentry.Base.{
  ℕ, zero, suc, ◌+◌, ◌/◌, ◌%◌, max, Bool, true, false, ◌&&◌, List, [], ◌∷◌, ◌++◌, ◌==◌,
  if◌then◌else◌,
}
use mem_sentry.Memory.{word_mod}
use mem_sentry.Types.{Text, codes, same_text, StackFrame, AllocationRecord}
use mem_sentry.StackTrace.{Linker, SymbolCache, resolve}

-- The members of a node but its children.
pub record NodeData : Type 0 where
  pub name : Text
  pub file : Text
  pub line : ℕ
  pub self_bytes : ℕ
  pub total_bytes : ℕ
  pub self_count : ℕ
  pub total_count : ℕ

mutual
  pub data FlameNode : Type 0 where
    flame_node : NodeData → Children → FlameNode

  pub data Children : Type 0 where
    no_child : Children
    child_then : FlameNode → Children → Children

abbrev pub new_data : Text → Text → ℕ → NodeData
new_data name file line = record {
  name = name;
  file = file;
  line = line;
  self_bytes = 0;
  total_bytes = 0;
  self_count = 0;
  total_count = 0;
}

-- A counter that wraps.
abbrev pub bump : ℕ → ℕ → ℕ
bump counter n = (counter + n) % word_mod

abbrev pub add_total : ℕ → FlameNode → FlameNode
add_total bytes (flame_node d cs) =
    flame_node
      (record d { total_bytes = bump d.total_bytes bytes; total_count = bump d.total_count 1 }) cs

abbrev pub add_self : ℕ → FlameNode → FlameNode
add_self bytes (flame_node d cs) =
    flame_node (record d { self_bytes = bump d.self_bytes bytes; self_count = bump d.self_count 1 })
      cs

abbrev pub total_bytes_of : FlameNode → ℕ
total_bytes_of (flame_node d cs) = d.total_bytes

abbrev pub node_name : FlameNode → Text
node_name (flame_node d cs) = d.name

-- What is done through the pointer that `get_or_create_child` returns: to the first child of that
-- name, or to a new last one.
unfoldable pub at_child : (FlameNode → FlameNode) → Text → Text → ℕ → Children → Children
at_child f name file line no_child =
    child_then (f (flame_node (new_data name file line) no_child)) no_child
at_child f name file line (child_then c cs) =
    let rest = at_child f name file line cs in
    if same_text (node_name c) name then child_then (f c) cs else child_then c rest

abbrev pub unknown : Text
unknown = codes "[unknown]"

abbrev pub symbol_of : StackFrame → Text
symbol_of frame = elim frame.symbol_name [ [] ↦ unknown | c ∷ cs ↦ c ∷ cs ]

-- The loop over the frames, the outermost first, from the node `curr`.
unfoldable pub add_frames : ℕ → List StackFrame → FlameNode → FlameNode
unfolding at_child
add_frames bytes [] curr = add_self bytes curr
add_frames bytes (frame ∷ frames) (flame_node d cs) = flame_node d (
    at_child (λ child. add_frames bytes frames (add_total bytes child)) (symbol_of frame)
      frame.file_name frame.line_number cs)

abbrev pub reverse_onto {ℓ} : {A : Type ℓ} → List A → List A → List A
reverse_onto [] done = done
reverse_onto (x ∷ xs) done = reverse_onto xs (x ∷ done)

-- One record: the root, then the path of its frames.
unfoldable pub add_record :
    Linker → AllocationRecord → FlameNode → SymbolCache → FlameNode × SymbolCache
unfolding at_child add_frames
add_record linker rec (flame_node d cs) cache =
    let bytes = rec.requested_size in
    let counted = record d {
      total_bytes = bump d.total_bytes bytes;
      total_count = bump d.total_count 1;
    } in
    let resolved = resolve linker rec.callstack rec.frame_count cache in
    if rec.frame_count == 0
    then (
      flame_node counted
          (at_child (λ child. add_total bytes (add_self bytes child)) unknown [] 0 cs),
      cache,
    )
    else (add_frames bytes (reverse_onto resolved.0 []) (flame_node counted cs), resolved.1)

unfoldable pub add_records :
    Linker → List AllocationRecord → FlameNode → SymbolCache → FlameNode × SymbolCache
unfolding add_record
add_records linker [] root cache = (root, cache)
add_records linker (rec ∷ recs) root cache =
    let r = add_record linker rec root cache in add_records linker recs r.0 r.1

unfoldable pub build_tree : Linker → List AllocationRecord → SymbolCache → FlameNode × SymbolCache
unfolding add_records
build_tree linker recs cache =
    add_records linker recs (flame_node (new_data (codes "all") [] 0) no_child) cache

unfoldable mutual
  -- The depth of the deepest node, for a node at some depth. (The depth is an int in the source,
  -- which a tree of 2 ^ 31 levels would exceed.)
  pub get_max_depth : FlameNode → ℕ → ℕ
  get_max_depth (flame_node d cs) depth = deepest_child cs depth depth

  -- Its loop over the children, with the depth reached so far.
  pub deepest_child : Children → ℕ → ℕ → ℕ
  deepest_child no_child depth reached = reached
  deepest_child (child_then c cs) depth reached =
      deepest_child cs depth (max reached (get_max_depth c (depth + 1)))
