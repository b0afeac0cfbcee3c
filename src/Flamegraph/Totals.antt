-- ===== src/Flamegraph/Totals.antt =====
-- The totals of the tree: at every node, what its own records and its children make up.
use mem_sentry.Base.{
  ℕ, ◌+◌, ◌%◌, ◌≡◌, refl, ◌∙◌, List, [], ◌∷◌, arith, Bool-cases, inl, inr, length, ◌==◌, total,
}
use mem_sentry.Memory.{word_mod}
use mem_sentry.Types.{Text, codes, same_text, StackFrame, AllocationRecord}
use mem_sentry.StackTrace.{Linker, SymbolCache, resolve}
use mem_sentry.Flamegraph.{
  FlameNode, flame_node, Children, no_child, child_then, new_data, add_total, add_self, node_name,
  at_child, unknown, symbol_of, add_frames, reverse_onto, add_record, add_records, build_tree,
}

abbrev pub bytes_of : FlameNode → ℕ
bytes_of (flame_node d cs) = d.total_bytes

abbrev pub count_of : FlameNode → ℕ
count_of (flame_node d cs) = d.total_count

unfoldable pub children_bytes : Children → ℕ
children_bytes no_child = 0
children_bytes (child_then c cs) = bytes_of c + children_bytes cs

unfoldable pub children_count : Children → ℕ
children_count no_child = 0
children_count (child_then c cs) = count_of c + children_count cs

-- At every node of the tree the totals are those of its own records and of its children, as 64-bit
-- numbers.
mutual
  pub IsTallied : FlameNode → Type 0
  IsTallied (flame_node d cs) =
      (d.total_bytes ≡ (d.self_bytes + children_bytes cs) % word_mod)
      × (d.total_count ≡ (d.self_count + children_count cs) % word_mod)
      × AreTallied cs

  pub AreTallied : Children → Type 0
  AreTallied no_child = Unit
  AreTallied (child_then c cs) = IsTallied c × AreTallied cs

-- A node that has one record of some bytes in its totals that is not in its parts yet.
abbrev Owes : ℕ → FlameNode → Type 0
Owes bytes (flame_node d cs) =
    (d.total_bytes ≡ (d.self_bytes + children_bytes cs + bytes) % word_mod)
    × (d.total_count ≡ (d.self_count + children_count cs + 1) % word_mod)
    × AreTallied cs

-- A change to a node that accounts for one more record.
abbrev Accounts : ℕ → (FlameNode → FlameNode) → Type 0
Accounts bytes f =
    (c : FlameNode)
    → IsTallied c
    → IsTallied (f c)
      × (bytes_of (f c) ≡ (bytes_of c + bytes) % word_mod)
      × (count_of (f c) ≡ (count_of c + 1) % word_mod)

at_child-AreTallied :
    (bytes : ℕ) (f : FlameNode → FlameNode) (name file : Text) (line : ℕ) (cs : Children)
    → Accounts bytes f
    → AreTallied cs
    → AreTallied (at_child f name file line cs)
      × (children_bytes (at_child f name file line cs) % word_mod
          ≡ (children_bytes cs + bytes) % word_mod)
      × (children_count (at_child f name file line cs) % word_mod
          ≡ (children_count cs + 1) % word_mod)
unfolding at_child children_bytes children_count IsTallied
at_child-AreTallied bytes f name file line no_child acc t =
    let r = acc (flame_node (new_data name file line) no_child) (refl, refl, tt) in
    ((r.0, tt), omega (arith, r.1), omega (arith, r.2))
at_child-AreTallied bytes f name file line (child_then c cs) acc t =
    elim (Bool-cases (same_text (node_name c) name)) [
      | inl found ↦
          let r = acc c t.0 in rw found ((r.0, t.1), omega (arith, r.1), omega (arith, r.2))
      | inr other ↦
          let r = at_child-AreTallied bytes f name file line cs acc t.1 in
          rw other ((t.0, r.0), omega (arith, r.1), omega (arith, r.2))
    ]

add_total_lem :
    (bytes : ℕ) (c : FlameNode)
    → (bytes_of (add_total bytes c) ≡ (bytes_of c + bytes) % word_mod)
      × (count_of (add_total bytes c) ≡ (count_of c + 1) % word_mod)
add_total_lem bytes (flame_node d cs) = (refl, refl)

add_total-Owes : (bytes : ℕ) (c : FlameNode) → IsTallied c → Owes bytes (add_total bytes c)
unfolding IsTallied
add_total-Owes bytes (flame_node d cs) t = (omega (arith, t.0), omega (arith, t.1), t.2)

add_self-IsTallied : (bytes : ℕ) (c : FlameNode) → Owes bytes c → IsTallied (add_self bytes c)
unfolding IsTallied
add_self-IsTallied bytes (flame_node d cs) t = (omega (arith, t.0), omega (arith, t.1), t.2)

-- A path of frames below a node that owes a record settles it, and keeps the node's totals.
add_frames-IsTallied :
    (bytes : ℕ) (frames : List StackFrame) (c : FlameNode)
    → Owes bytes c
    → IsTallied (add_frames bytes frames c)
      × (bytes_of (add_frames bytes frames c) ≡ bytes_of c)
      × (count_of (add_frames bytes frames c) ≡ count_of c)
unfolding add_frames IsTallied
add_frames-IsTallied bytes [] (flame_node d cs) t =
    (add_self-IsTallied bytes (flame_node d cs) t, refl, refl)
add_frames-IsTallied bytes (frame ∷ frames) (flame_node d cs) t =
    let step : Accounts bytes (λ child. add_frames bytes frames (add_total bytes child)) = λ c h.
      let below =
        add_frames-IsTallied bytes frames (add_total bytes c) (add_total-Owes bytes c h) in
      (below.0, below.1 ∙ (add_total_lem bytes c).0, below.2 ∙ (add_total_lem bytes c).1) in
    let r =
      at_child-AreTallied bytes (λ child. add_frames bytes frames (add_total bytes child))
        (symbol_of frame) frame.file_name frame.line_number cs step t.2 in
    ((omega (arith, t.0, r.1), omega (arith, t.1, r.2), r.0), refl, refl)

-- A record without frames.
unknown-Accounts : (bytes : ℕ) → Accounts bytes (λ child. add_total bytes (add_self bytes child))
unfolding IsTallied
unknown-Accounts bytes (flame_node d cs) t =
    ((omega (arith, t.0), omega (arith, t.1), t.2), refl, refl)

add_record-IsTallied :
    (linker : Linker) (rec : AllocationRecord) (root : FlameNode) (cache : SymbolCache)
    → IsTallied root
    → let after = (add_record linker rec root cache).0 in
      IsTallied after
      × (bytes_of after ≡ (bytes_of root + rec.requested_size) % word_mod)
      × (count_of after ≡ (count_of root + 1) % word_mod)
unfolding add_record IsTallied
add_record-IsTallied linker rec (flame_node d cs) cache t =
    let bytes = rec.requested_size in
    elim (Bool-cases (rec.frame_count == 0)) [
      | inl bare ↦
          let r =
            at_child-AreTallied bytes (λ child. add_total bytes (add_self bytes child)) unknown [] 0
              cs (unknown-Accounts bytes) t.2 in
          rw bare ((omega (arith, t.0, r.1), omega (arith, t.1, r.2), r.0), refl, refl)
      | inr framed ↦ rw framed (
          add_frames-IsTallied bytes
            (reverse_onto (resolve linker rec.callstack rec.frame_count cache).0 [])
            (add_total bytes (flame_node d cs)) (add_total-Owes bytes (flame_node d cs) t))
    ]

add_records-IsTallied :
    (linker : Linker) (recs : List AllocationRecord) (root : FlameNode) (cache : SymbolCache)
    → IsTallied root
    → bytes_of root ≡ bytes_of root % word_mod
    → count_of root ≡ count_of root % word_mod
    → let after = (add_records linker recs root cache).0 in
      IsTallied after
      × (bytes_of after ≡ (bytes_of root + total (λ r. r.requested_size) recs) % word_mod)
      × (count_of after ≡ (count_of root + length recs) % word_mod)
unfolding add_records total
add_records-IsTallied linker [] root cache t hb hc = (t, omega (arith, hb), omega (arith, hc))
add_records-IsTallied linker (rec ∷ recs) root cache t hb hc =
    let step = add_record-IsTallied linker rec root cache t in
    let r = add_record linker rec root cache in
    let rest =
      add_records-IsTallied linker recs r.0 r.1 step.0 (omega (arith, step.1))
        (omega (arith, step.2)) in
    (rest.0, omega (arith, rest.1, step.1), omega (arith, rest.2, step.2))

-- In the tree of any records, at every node the total bytes and count are those of its own records
-- and its children, as 64-bit numbers, and those of the root are the sum of the sizes and the
-- number of the records.
pub build_tree-IsTallied :
    (linker : Linker) (recs : List AllocationRecord) (cache : SymbolCache)
    → let root = (build_tree linker recs cache).0 in
      IsTallied root
      × (bytes_of root ≡ total (λ r. r.requested_size) recs % word_mod)
      × (count_of root ≡ length recs % word_mod)
unfolding build_tree IsTallied children_bytes children_count
build_tree-IsTallied linker recs cache =
    let r =
      add_records-IsTallied linker recs (flame_node (new_data (codes "all") [] 0) no_child) cache
        (refl, refl, tt) refl refl in
    (r.0, omega (arith, r.1), omega (arith, r.2))
