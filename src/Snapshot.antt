-- ===== src/Snapshot.antt =====
-- include/memsentry/profiler/snapshot.hpp and src/snapshot.cpp: heap snapshots and their difference.
pub mod Diff
use mem_sentry.Base.{
  ℕ, ◌+◌, ◌%◌, Bool, true, false, List, [], ◌∷◌, Option, none, some, if◌then◌else◌,
}
use mem_sentry.Base.Int.{ℤ, ◌-ℤ◌, int64}
use mem_sentry.Base.Dict
use mem_sentry.Base.Dict.{Dict}
use mem_sentry.Memory.{word_mod}
use mem_sentry.Types.{Text, AllocationRecord}
use mem_sentry.Stats.{MemoryStats}

pub record HeapSnapshot : Type 0 where
  pub label : Text
  pub timestamp : ℕ
  pub stats : MemoryStats
  pub active_allocations : List AllocationRecord

pub record SnapshotDiff : Type 0 where
  pub before_label : Text
  pub after_label : Text
  pub start_time : ℕ
  pub end_time : ℕ
  pub net_bytes_delta : ℤ
  pub net_allocations_delta : ℤ
  pub new_allocations : List AllocationRecord
  pub freed_allocations : List AllocationRecord
  pub persistent_allocations : List AllocationRecord

-- The sum of the requested sizes, as a size_t.
unfoldable pub sum_sizes : ℕ → List AllocationRecord → ℕ
sum_sizes sum [] = sum
sum_sizes sum (rec ∷ recs) = sum_sizes ((sum + rec.requested_size) % word_mod) recs

unfoldable pub new_leaked_bytes : SnapshotDiff → ℕ
unfolding sum_sizes
new_leaked_bytes diff = sum_sizes 0 diff.new_allocations

-- The first loop: `before_map`, from ids to records.
unfoldable pub index_by_id : List AllocationRecord → Dict AllocationRecord → Dict AllocationRecord
index_by_id [] m = m
index_by_id (rec ∷ recs) m = index_by_id recs (Dict.insert rec.allocation_id rec m)

-- What the second loop collects, each list in the order of the snapshot, with the matched ids.
pub record Matched : Type 0 where
  pub persistent : List AllocationRecord
  pub fresh : List AllocationRecord
  pub ids : Dict (Unit {0})

abbrev pub is_in {ℓ} : {V : Type ℓ} → ℕ → Dict V → Bool
is_in k d = elim (Dict.lookup k d) [ none ↦ false | some v ↦ true ]

unfoldable pub match_after :
    Dict AllocationRecord → List AllocationRecord → Dict (Unit {0}) → Matched
match_after before_map [] ids = record { persistent = []; fresh = []; ids = ids }
match_after before_map (rec ∷ recs) ids =
    let found = is_in rec.allocation_id before_map in
    let rest =
      match_after before_map recs (if found then Dict.insert rec.allocation_id tt ids else ids) in
    if found
    then record rest { persistent = rec ∷ rest.persistent }
    else record rest { fresh = rec ∷ rest.fresh }

-- The third loop.
unfoldable pub unmatched : Dict (Unit {0}) → List AllocationRecord → List AllocationRecord
unmatched ids [] = []
unmatched ids (rec ∷ recs) =
    let rest = unmatched ids recs in if is_in rec.allocation_id ids then rest else rec ∷ rest

unfoldable pub compare_snapshots : HeapSnapshot → HeapSnapshot → SnapshotDiff
unfolding ◌-ℤ◌ index_by_id match_after unmatched
compare_snapshots before after =
    let before_map = index_by_id before.active_allocations [] in
    let matched = match_after before_map after.active_allocations [] in
    record {
      before_label = before.label;
      after_label = after.label;
      start_time = before.timestamp;
      end_time = after.timestamp;
      net_bytes_delta =
          int64 after.stats.current_allocated_bytes -ℤ int64 before.stats.current_allocated_bytes;
      net_allocations_delta =
          int64 after.stats.active_allocation_count -ℤ int64 before.stats.active_allocation_count;
      new_allocations = matched.fresh;
      freed_allocations = unmatched matched.ids before.active_allocations;
      persistent_allocations = matched.persistent;
    }
