-- ===== src/Tracker.antt =====
-- include/memsentry/core/sharded_tracker.hpp: 64 shards, each with a dictionary of the live
-- allocations and a ring of the 256 pointers last erased from it. Each operation holds the mutex of
-- its shard throughout, so it is one step here; `snapshot_all`, `size` and `clear` take the mutexes
-- in turn, and are one step where no other thread runs between.
pub mod Shards
pub mod View
pub mod Quarantine
pub mod Verdicts
pub mod Window
pub mod Counting
use mem_sentry.Base.{
  ℕ, zero, suc, ◌+◌, ◌-◌, ◌*◌, ◌/◌, ◌%◌, ◌^◌, bit_and, Bool, true, false, List, [], ◌∷◌, ◌++◌, map,
  Option, none, some, ◌==◌, if◌then◌else◌, length, get_or, set, replicate, any,
}
use mem_sentry.Base.Dict
use mem_sentry.Base.Dict.{Dict}
use mem_sentry.Memory.{word_mod}
use mem_sentry.Types.{AllocationRecord}

abbrev pub shard_count : ℕ
shard_count = 64

abbrev pub quarantine_size : ℕ
quarantine_size = 256

pub data TrackerEraseStatus : Type 0 where
  success not_found double_free_detected : TrackerEraseStatus

pub record Shard : Type 0 where
  pub records : Dict AllocationRecord
  pub quarantine : List ℕ
  pub quarantine_head : ℕ

abbrev pub ShardedTracker : Type 0
ShardedTracker = List Shard

abbrev pub empty_shard : Shard
empty_shard = record { records = []; quarantine = replicate quarantine_size 0; quarantine_head = 0 }

abbrev pub empty_tracker : ShardedTracker
empty_tracker = replicate shard_count empty_shard

unfoldable pub get_shard_index : ℕ → ℕ
get_shard_index ptr = bit_and (ptr / 2 ^ 4 * 0x9E3779B97F4A7C15 % word_mod) (shard_count - 1)

abbrev pub shard_of : ℕ → ShardedTracker → Shard
shard_of ptr t = get_or t (get_shard_index ptr) empty_shard

-- The part of `insert` that is done in the shard.
unfoldable pub insert_in : ℕ → AllocationRecord → Shard → Shard
insert_in user_ptr rec s = record s {
  quarantine = map (λ q. if q == user_ptr then 0 else q) s.quarantine;
  records = Dict.insert user_ptr rec s.records;
}

unfoldable pub insert : ℕ → AllocationRecord → ShardedTracker → ShardedTracker
unfolding insert_in get_shard_index
insert user_ptr rec t =
    if user_ptr == 0
    then t
    else set t (get_shard_index user_ptr) (insert_in user_ptr rec (shard_of user_ptr t))

-- An erase moves the record out and puts the pointer in the ring.
unfoldable pub evict : ℕ → Shard → Shard
evict user_ptr s = record {
  records = Dict.erase user_ptr s.records;
  quarantine = set s.quarantine (s.quarantine_head % quarantine_size) user_ptr;
  quarantine_head = (s.quarantine_head + 1) % word_mod;
}

-- The status, the record that was moved out, and the tracker after.
abbrev pub Erased : Type 0
Erased = TrackerEraseStatus × Option AllocationRecord × ShardedTracker

unfoldable pub erase : ℕ → ShardedTracker → Erased
unfolding evict get_shard_index any
erase user_ptr t =
    let s = shard_of user_ptr t in
    let absent : Erased =
      if any (λ q. q == user_ptr) s.quarantine
      then (double_free_detected, none, t)
      else (not_found, none, t) in
    if user_ptr == 0 then (not_found, none, t) else elim (Dict.lookup user_ptr s.records) [
      | some rec ↦ (success, some rec, set t (get_shard_index user_ptr) (evict user_ptr s))
      | none ↦ absent
    ]

unfoldable pub find : ℕ → ShardedTracker → Option AllocationRecord
unfolding get_shard_index
find user_ptr t = if user_ptr == 0 then none else Dict.lookup user_ptr (shard_of user_ptr t).records

unfoldable pub snapshot_all : ShardedTracker → List AllocationRecord
snapshot_all [] = []
snapshot_all (s ∷ t) = map (λ e. e.1) s.records ++ snapshot_all t

unfoldable pub size : ShardedTracker → ℕ
size [] = 0
size (s ∷ t) = length s.records + size t

unfoldable pub clear : ShardedTracker → ShardedTracker
clear [] = []
clear (s ∷ t) =
    record { records = []; quarantine = replicate quarantine_size 0; quarantine_head = 0 } ∷ clear t
