-- ===== src/Manager/Leaks.antt =====
-- What the Manager reads off the tracker: leak reports, counts, snapshots, and the check at exit.
-- The reports themselves are rendered elsewhere; here is the data that they are given.
pub mod Partition
pub mod Exit
use mem_sentry.Base.{
  ℕ, ◌+◌, Bool, true, false, not, ◌&&◌, List, [], ◌∷◌, ltb, if◌then◌else◌, length,
}
use mem_sentry.Types.{Text, AllocationRecord}
use mem_sentry.Stats.{MemoryStats}
use mem_sentry.Tracker
use mem_sentry.Histogram.{FragmentationReport, analyze}
use mem_sentry.Snapshot.{HeapSnapshot, sum_sizes}
use mem_sentry.StackTrace.{SymbolCache}
use mem_sentry.Suppression.{is_suppressed}
use mem_sentry.Manager.State.{Platform, State, guarded}

unfoldable pub has_leaks : State → Bool
has_leaks s = ltb 0 (Tracker.size s.tracker)

unfoldable pub get_active_allocations : State → List AllocationRecord
get_active_allocations s = Tracker.snapshot_all s.tracker

unfoldable pub take_snapshot : Platform → Text → State → HeapSnapshot
take_snapshot os label s = record {
  label = label;
  timestamp = os.clock s.calls;
  stats = s.stats;
  active_allocations = Tracker.snapshot_all s.tracker;
}

unfoldable pub get_fragmentation_report : Platform → State → FragmentationReport
get_fragmentation_report os s =
    analyze os.doubles s.stats (Tracker.snapshot_all s.tracker) s.free_hist

-- What a report is given: the counters, the records that no rule suppresses, and their bytes.
pub record LeakReport : Type 0 where
  pub stats : MemoryStats
  pub leaks : List AllocationRecord
  pub leak_bytes : ℕ

module _ (os : Platform) (rules : List Text) where
  -- The loop of `dump_leaks`, `export_json` and `export_html`.
  unfoldable pub unsuppressed :
      List AllocationRecord → SymbolCache → List AllocationRecord × SymbolCache
  unsuppressed [] cache = ([], cache)
  unsuppressed (rec ∷ recs) cache =
      let r = is_suppressed os.text_at os.linker rules rec cache in
      let rest = unsuppressed recs r.1 in if r.0 then rest else (rec ∷ rest.0, rest.1)

  -- The loop of `has_unsuppressed_leaks`, with its early return.
  unfoldable pub any_unsuppressed : List AllocationRecord → SymbolCache → Bool × SymbolCache
  any_unsuppressed [] cache = (false, cache)
  any_unsuppressed (rec ∷ recs) cache =
      let r = is_suppressed os.text_at os.linker rules rec cache in
      let rest = any_unsuppressed recs r.1 in if not r.0 then (true, r.1) else rest

  -- The loop of `get_suppressed_count`.
  unfoldable pub count_suppressed : ℕ → List AllocationRecord → SymbolCache → ℕ × SymbolCache
  count_suppressed count [] cache = (count, cache)
  count_suppressed count (rec ∷ recs) cache =
      let r = is_suppressed os.text_at os.linker rules rec cache in
      count_suppressed (if r.0 then count + 1 else count) recs r.1

module _ (os : Platform) where
  unfoldable pub has_unsuppressed_leaks : State → Bool × State
  unfolding any_unsuppressed
  has_unsuppressed_leaks = guarded λ s.
      let r = any_unsuppressed os s.rules (Tracker.snapshot_all s.tracker) s.symbol_cache in
      (r.0, record s { symbol_cache = r.1 })

  unfoldable pub get_suppressed_count : State → ℕ × State
  unfolding count_suppressed
  get_suppressed_count = guarded λ s.
      let r = count_suppressed os s.rules 0 (Tracker.snapshot_all s.tracker) s.symbol_cache in
      (r.0, record s { symbol_cache = r.1 })

  unfoldable pub leak_report : State → LeakReport × State
  unfolding unsuppressed sum_sizes
  leak_report = guarded λ s.
      let r = unsuppressed os s.rules (Tracker.snapshot_all s.tracker) s.symbol_cache in
      (
        record { stats = s.stats; leaks = r.0; leak_bytes = sum_sizes 0 r.0 },
        record s { symbol_cache = r.1 },
      )

  -- `on_exit`: the report that is printed, if any, and whether the process exits with code 1.
  unfoldable pub on_exit : State → (List LeakReport × Bool) × State
  unfolding leak_report has_unsuppressed_leaks
  on_exit s =
      let dumped = leak_report s in
      let leaks = has_unsuppressed_leaks dumped.1 in
      if not s.initialized
      then (([], false), s)
      else if not s.config.auto_report_on_exit
      then (([], false), s)
      else if (dumped.1).config.exit_with_code_on_leak
      then ((dumped.0 ∷ [], leaks.0), leaks.1)
      else ((dumped.0 ∷ [], false), dumped.1)
