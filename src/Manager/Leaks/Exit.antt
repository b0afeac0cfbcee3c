-- ===== src/Manager/Leaks/Exit.antt =====
-- The check at exit.
use mem_sentry.Base.{
  ℕ, ◌+◌, ◌%◌, ◌<◌, arith, total, ◌≡◌, refl, Bool, true, false, not, ◌&&◌, List, [], ◌∷◌,
  if◌then◌else◌, any, keep,
}
use mem_sentry.Memory.{word_mod}
use mem_sentry.Types.{AllocationRecord}
use mem_sentry.Snapshot.{sum_sizes}
use mem_sentry.StackTrace.Resolve.{IsCoherent}
use mem_sentry.Tracker
use mem_sentry.Manager.State.{Platform, State}
use mem_sentry.Manager.Leaks.{
  LeakReport, unsuppressed, leak_report, has_unsuppressed_leaks, on_exit,
}
use mem_sentry.Manager.Leaks.Partition.{
  matches, unsuppressed-IsCoherent, unsuppressed-keep, any_unsuppressed-any,
}

sum_sizes-total :
    (recs : List AllocationRecord) (sum : ℕ)
    → sum < word_mod
    → sum_sizes sum recs ≡ (sum + total (λ r. r.requested_size) recs) % word_mod
unfolding sum_sizes total
sum_sizes-total [] sum small = omega (arith, small)
sum_sizes-total (rec ∷ recs) sum small =
    let rest = sum_sizes-total recs ((sum + rec.requested_size) % word_mod) (omega arith) in
    omega (arith, rest)

module _ (os : Platform) (s : State) where
  -- The tracked records that no rule matches.
  abbrev pub leaked : List AllocationRecord
  leaked = keep (λ r. not (matches os s.rules r)) (Tracker.snapshot_all s.tracker)

  dump_lem :
      IsCoherent os.linker s.symbol_cache
      → let bytes = total (λ r. r.requested_size) leaked % word_mod in
        (leak_report os s).0 ≡ record { stats = s.stats; leaks = leaked; leak_bytes = bytes }
  unfolding leak_report
  dump_lem c =
      let reported =
        unsuppressed-keep os s.rules (Tracker.snapshot_all s.tracker) s.symbol_cache c in
      let sum = sum_sizes-total leaked 0 (omega arith) in
      let summed : sum_sizes 0 leaked ≡ total (λ r. r.requested_size) leaked % word_mod =
        omega (arith, sum) in
      rw (reported, summed)

  -- The test for a leak after the dump, which has filled the symbol cache.
  test_lem :
      IsCoherent os.linker s.symbol_cache
      → (has_unsuppressed_leaks os (leak_report os s).1).0
        ≡ any (λ r. not (matches os s.rules r)) (Tracker.snapshot_all s.tracker)
  unfolding has_unsuppressed_leaks leak_report
  test_lem c =
      let recs = Tracker.snapshot_all s.tracker in
      any_unsuppressed-any os s.rules recs (unsuppressed os s.rules recs s.symbol_cache).1
        (unsuppressed-IsCoherent os s.rules recs s.symbol_cache c)

-- The ways through the three tests.
exits {ℓ} :
    {S : Type ℓ} (a b c v : Bool) (report : LeakReport) (s d l : S)
    → let r : (List LeakReport × Bool) × S =
        if not a
        then (([], false), s)
        else if not b
        then (([], false), s)
        else if c
        then ((report ∷ [], v), l)
        else ((report ∷ [], false), d) in
      ((r.0).0 ≡ (if a && b then report ∷ [] else [])) × ((r.0).1 ≡ (a && b && c && v))
exits false b c v report s d l = (refl, refl)
exits true false c v report s d l = (refl, refl)
exits true true true v report s d l = (refl, refl)
exits true true false v report s d l = (refl, refl)

on_exit-exits :
    (os : Platform) (s : State) (report : LeakReport) (leak : Bool)
    → (leak_report os s).0 ≡ report
    → (has_unsuppressed_leaks os (leak_report os s).1).0 ≡ leak
    → (((on_exit os s).0).0
        ≡ (if s.initialized && s.config.auto_report_on_exit then report ∷ [] else []))
      × (((on_exit os s).0).1 ≡ (
          s.initialized && s.config.auto_report_on_exit && s.config.exit_with_code_on_leak && leak))
unfolding on_exit
on_exit-exits os s report leak dumped tested =
    rw (← dumped, ← tested)
      (exits s.initialized s.config.auto_report_on_exit s.config.exit_with_code_on_leak
        (has_unsuppressed_leaks os (leak_report os s).1).0 (leak_report os s).0 s
        (leak_report os s).1 (has_unsuppressed_leaks os (leak_report os s).1).1)

-- With a coherent symbol cache, the check at exit prints nothing and does not end the process
-- unless the library is initialized and reports at exit. Then it prints one report, of the tracked
-- records that no rule matches and the sum of their sizes, which wraps at 2 ^ 64, and it ends the
-- process with code 1 exactly if it is set to and some tracked record is matched by no rule.
pub on_exit_lem :
    (os : Platform) (s : State)
    → IsCoherent os.linker s.symbol_cache
    → let recs = Tracker.snapshot_all s.tracker in
      let leaks = keep (λ r. not (matches os s.rules r)) recs in
      let bytes = total (λ r. r.requested_size) leaks % word_mod in
      let report : LeakReport = record { stats = s.stats; leaks = leaks; leak_bytes = bytes } in
      (((on_exit os s).0).0
        ≡ (if s.initialized && s.config.auto_report_on_exit then report ∷ [] else []))
      × (((on_exit os s).0).1 ≡ (
          s.initialized
          && s.config.auto_report_on_exit
          && s.config.exit_with_code_on_leak
          && any (λ r. not (matches os s.rules r)) recs))
on_exit_lem os s c = on_exit-exits os s _ _ (dump_lem os s c) (test_lem os s c)
