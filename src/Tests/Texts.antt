-- ===== src/Tests/Texts.antt =====
-- The flamegraph's tree, and the check at exit.
use mem_sentry.Base.{
  refl, ◌%◌, ◌≡◌, [], ◌∷◌, ◌&&◌, true, not, any, keep, if◌then◌else◌, length, total, replicate,
  arith,
}
use mem_sentry.Base.Dict
use mem_sentry.Memory.{word_mod}
use mem_sentry.StackTrace.{resolve}
use mem_sentry.Types.{AllocationRecord}
use mem_sentry.Flamegraph.{build_tree, get_max_depth}
use mem_sentry.Flamegraph.Depth.{most_levels, get_max_depth-build_tree}
use mem_sentry.Flamegraph.Totals.{IsTallied, bytes_of, count_of, build_tree-IsTallied}
use mem_sentry.Tracker
use mem_sentry.Manager.State.{State}
use mem_sentry.Manager.Leaks.{LeakReport, on_exit, has_unsuppressed_leaks}
use mem_sentry.Manager.Leaks.Partition.{matches}
use mem_sentry.Manager.Leaks.Exit.{on_exit_lem}
use mem_sentry.Tests.World.{os, no_linker, fresh_state}

abbrev framed : AllocationRecord
framed = record {
  allocation_id = 1;
  user_ptr = 4176;
  raw_ptr = 4096;
  requested_size = 100;
  total_size = 200;
  alignment = 16;
  thread_id = 7;
  tag = 16;
  timestamp = 0;
  callstack = 4096 ∷ 8192 ∷ replicate 30 0;
  frame_count = 2;
}

abbrev bare : AllocationRecord
bare = record framed { frame_count = 0; requested_size = 20 }

build_tree-IsTallied_example :
    let root = (build_tree no_linker (framed ∷ bare ∷ framed ∷ []) []).0 in
    IsTallied root
    × (bytes_of root ≡ total (λ r. r.requested_size) (framed ∷ bare ∷ framed ∷ []) % word_mod)
    × (count_of root ≡ length (framed ∷ bare ∷ framed ∷ []) % word_mod)
build_tree-IsTallied_example = build_tree-IsTallied no_linker (framed ∷ bare ∷ framed ∷ []) []

get_max_depth-build_tree_example :
    get_max_depth (build_tree no_linker (framed ∷ bare ∷ framed ∷ []) []).0 0
    ≡ most_levels (framed ∷ bare ∷ framed ∷ [])
get_max_depth-build_tree_example =
    get_max_depth-build_tree no_linker (framed ∷ bare ∷ framed ∷ []) []

two_levels : get_max_depth (build_tree no_linker (framed ∷ bare ∷ framed ∷ []) []).0 0 ≡ 2
unfolding build_tree get_max_depth resolve Dict.lookup Dict.insert
two_levels = refl

-- A state with a leak that no rule matches, which is set to report it and to exit with code 1.
abbrev leaking : State
leaking = record fresh_state {
  config = record (fresh_state.config) {
    auto_report_on_exit = true;
    exit_with_code_on_leak = true;
  };
  tracker = Tracker.insert 4176 framed fresh_state.tracker;
}

on_exit_lem_example :
    let recs = Tracker.snapshot_all leaking.tracker in
    let leaks = keep (λ r. not (matches os leaking.rules r)) recs in
    let bytes = total (λ r. r.requested_size) leaks % word_mod in
    let report : LeakReport = record { stats = leaking.stats; leaks = leaks; leak_bytes = bytes } in
    (((on_exit os leaking).0).0
      ≡ (if leaking.initialized && leaking.config.auto_report_on_exit then report ∷ [] else []))
    × (((on_exit os leaking).0).1 ≡ (
        leaking.initialized
        && leaking.config.auto_report_on_exit
        && leaking.config.exit_with_code_on_leak
        && any (λ r. not (matches os leaking.rules r)) recs))
unfolding Dict.lookup
on_exit_lem_example = on_exit_lem os leaking (λ a f e. absurd (ground (arith, e)))

-- The leak is found.
leaking_exits : (on_exit os leaking).0.1 ≡ true
unfolding on_exit has_unsuppressed_leaks Tracker.snapshot_all Tracker.insert Dict.insert
    mem_sentry.Suppression.is_suppressed
leaking_exits = refl
