-- ===== src/Tests/Profile.antt =====
-- Sampling, histograms, snapshots, stack traces, suppression, guards and scopes.
use mem_sentry.Base.{
  ℕ, ◌≤◌, ◌≡◌, ◌↔◌, refl, List, [], ◌∷◌, map, true, not, ◌&&◌, ◌||◌, arith, ltb, ◌==◌,
  if◌then◌else◌, length, take, drop, keep, any, total,
}
use mem_sentry.Base.Dict
use mem_sentry.Base.Int.{pos}
use mem_sentry.Types.{Text, codes, AllocationRecord}
use mem_sentry.Sampling.{Sampler, sample_bytes, next_geometric_interval}
use mem_sentry.Sampling.Budget.{decide_all, sum, decide_reached}
use mem_sentry.Histogram.{covers, new_histogram, feed}
use mem_sentry.Histogram.Buckets.{covered_count, covered_bytes, tallied, feed-tallied, covered_once}
use mem_sentry.Snapshot.{HeapSnapshot, compare_snapshots}
use mem_sentry.Snapshot.Diff.{shared, compare_snapshots_lem}
use mem_sentry.StackTrace.{capture, symbolize, resolve}
use mem_sentry.StackTrace.Resolve.{IsCoherent, capture_lem, resolve_lem}
use mem_sentry.Suppression.{contains, is_suppressed}
use mem_sentry.Suppression.Rules.{Occurs, hits, frames_of, contains_iff, is_suppressed_lem}
use mem_sentry.Guard.{Slot, is_guard_active}
use mem_sentry.Guard.Nesting
use mem_sentry.Guard.Nesting.{run_lem, run_windows_lem}
use mem_sentry.ScopeTag.{get_current_tag}
use mem_sentry.ScopeTag.Scopes
use mem_sentry.ScopeTag.Scopes.{run-tags}
use mem_sentry.Stats.{zero_stats}
use mem_sentry.Tests.World.{no_doubles, no_linker}

abbrev sampler : Sampler
sampler = record { rng_state = 0; bytes_until_sample = pos 50 }

decide_reached_example :
    let before = (decide_all no_doubles 64 1000 (10 ∷ 20 ∷ []) sampler).1 in
    let drawn = next_geometric_interval no_doubles 64 1000 before in
    sample_bytes no_doubles 64 1000 25 before
    ≡ (true, record (drawn.1) { bytes_until_sample = drawn.0 })
unfolding sum
decide_reached_example =
    decide_reached no_doubles 64 1000 (10 ∷ 20 ∷ []) 25 50 sampler refl (omega arith) (omega arith)
      (omega arith) (omega arith)

abbrev record_of : ℕ → ℕ → AllocationRecord
record_of id size = record {
  allocation_id = id;
  user_ptr = 4176;
  raw_ptr = 4096;
  requested_size = size;
  total_size = 200;
  alignment = 16;
  thread_id = 7;
  tag = 16;
  timestamp = 0;
  callstack = 4096 ∷ 0 ∷ [];
  frame_count = 2;
}

abbrev two_records : List AllocationRecord
two_records = record_of 1 10 ∷ record_of 2 100 ∷ []

feed-tallied_example : feed two_records new_histogram ≡ map (tallied two_records) new_histogram
unfolding covered_count covered_bytes
feed-tallied_example = feed-tallied two_records new_histogram (ground arith) (ground arith)

covered_once_example :
    total (λ b. if covers b 300 then 1 else 0) new_histogram ≡ (if ltb 0 300 then 1 else 0)
covered_once_example = covered_once 300 (omega arith)

abbrev before : HeapSnapshot
before = record { label = []; timestamp = 0; stats = zero_stats; active_allocations = two_records }

abbrev after : HeapSnapshot
after = record {
  label = [];
  timestamp = 5;
  stats = zero_stats;
  active_allocations = record_of 2 100 ∷ record_of 3 50 ∷ [];
}

compare_snapshots_lem_example :
    let diff = compare_snapshots before after in
    (diff.persistent_allocations ≡ keep (shared before.active_allocations) after.active_allocations)
    × (diff.new_allocations
        ≡ keep (λ r. not (shared before.active_allocations r)) after.active_allocations)
    × (diff.freed_allocations
        ≡ keep (λ r. not (shared after.active_allocations r)) before.active_allocations)
compare_snapshots_lem_example = compare_snapshots_lem before after

capture_lem_example :
    (capture (λ n. 1 ∷ 2 ∷ 3 ∷ 4 ∷ []) 2 1 ≡ take 2 (drop 1 (1 ∷ 2 ∷ 3 ∷ 4 ∷ [])))
    × (length (capture (λ n. 1 ∷ 2 ∷ 3 ∷ 4 ∷ []) 2 1) ≤ 2)
capture_lem_example = capture_lem (λ n. 1 ∷ 2 ∷ 3 ∷ 4 ∷ []) 2 1 (omega arith)

empty-IsCoherent : IsCoherent no_linker []
unfolding Dict.lookup
empty-IsCoherent a f e = absurd (ground (arith, e))

resolve_lem_example :
    ((resolve no_linker (4096 ∷ 0 ∷ 4112 ∷ []) 3 []).0
      ≡ map (symbolize no_linker) (keep (λ f. not (f == 0)) (take 3 (4096 ∷ 0 ∷ 4112 ∷ []))))
    × IsCoherent no_linker (resolve no_linker (4096 ∷ 0 ∷ 4112 ∷ []) 3 []).1
resolve_lem_example = resolve_lem no_linker (4096 ∷ 0 ∷ 4112 ∷ []) 3 [] empty-IsCoherent

contains_iff_example :
    (contains (codes "ab") (codes "xaby") ≡ true) ↔ Occurs (codes "ab") (codes "xaby")
contains_iff_example = contains_iff (codes "ab") (codes "xaby")

abbrev rule : Text
rule = codes "Cache"

is_suppressed_lem_example :
    ((is_suppressed (λ a. codes "TexCache") no_linker (rule ∷ []) (record_of 1 10) []).0 ≡ (
      (not (16 == 0) && any (λ r. contains r (codes "TexCache")) (rule ∷ []))
      || any (λ f. any (hits f) (rule ∷ [])) (frames_of no_linker (record_of 1 10))))
    × IsCoherent no_linker
        (is_suppressed (λ a. codes "TexCache") no_linker (rule ∷ []) (record_of 1 10) []).1
is_suppressed_lem_example =
    is_suppressed_lem (λ a. codes "TexCache") no_linker (rule ∷ []) (record_of 1 10) []
      empty-IsCoherent

abbrev nested : Nesting.Acts
nested =
    Nesting.guards (Nesting.asks (Nesting.guards Nesting.done Nesting.done))
      (Nesting.asks Nesting.done)

run_lem_example :
    ((Nesting.run nested (pos 0)).0 ≡ pos 0)
    × ((Nesting.run nested (pos 0)).1 ≡ Nesting.answers nested (is_guard_active (pos 0)))
run_lem_example = run_lem nested 0

run_windows_lem_example :
    let s : Slot = record { available = true; value = 0 } in
    ((Nesting.run_windows nested s).0 ≡ s)
    × ((Nesting.run_windows nested s).1 ≡ (Nesting.run nested (pos 0)).1)
unfolding Nesting.nesting
run_windows_lem_example = run_windows_lem nested 0 (omega arith)

abbrev scoped : Scopes.Acts
scoped = Scopes.scopes 128 (Scopes.reads Scopes.done) (Scopes.reads Scopes.done)

run-tags_example :
    (get_current_tag 16 (Scopes.run 16 scoped 0).0 ≡ get_current_tag 16 0)
    × ((Scopes.run 16 scoped 0).1 ≡ Scopes.tags 16 scoped (get_current_tag 16 0))
run-tags_example = run-tags 16 scoped 0
