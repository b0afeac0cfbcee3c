-- ===== src/Manager/Accounts.antt =====
-- The counters against the tracker: every operation keeps them in step.
use mem_sentry.Base.{
  ℕ, ◌+◌, ◌≤◌, ◌<◌, ◌≡◌, inl, inr, ◌≢◌, some, none, arith, Bool-cases, Option-cases, total, subst,
}
use mem_sentry.Memory.{word_mod}
use mem_sentry.Guard.{is_guard_active}
use mem_sentry.Types.{AllocationRecord}
use mem_sentry.Stats.{MemoryStats, update_on_alloc, update_on_free}
use mem_sentry.Tracker
use mem_sentry.Tracker.Shards.{IsValid, insert-IsValid, erase-IsValid}
use mem_sentry.Tracker.Counting.{total-insert, total-erase_found, size-total}
use mem_sentry.Manager.State.{Platform, State}
use mem_sentry.Manager.Allocate.{allocate}
use mem_sentry.Manager.Free.{deallocate}
use mem_sentry.Manager.Outcome.{Untouched, Registered, allocate-Outcome}
use mem_sentry.Manager.Release.{Released, deallocate-Released}
use mem_sentry.Manager.Untracked.{deallocate-Untouched, deallocate_nested-Untouched}

abbrev pub live_bytes : Tracker.ShardedTracker → ℕ
live_bytes t = total (λ r. r.requested_size) (Tracker.snapshot_all t)

-- The tracker is well formed, the active count is the number of its records, and the current bytes
-- are the sum of their sizes; both fit their 64 bits.
pub record AreInStep (stats : MemoryStats) (t : Tracker.ShardedTracker) : Type 0 where
  pub valid : IsValid t
  pub active : stats.active_allocation_count ≡ Tracker.size t
  pub current : stats.current_allocated_bytes ≡ live_bytes t
  pub count_fits : Tracker.size t < word_mod
  pub bytes_fit : live_bytes t < word_mod

abbrev pub IsBalanced : State → Type 0
IsBalanced s = AreInStep s.stats s.tracker

pub Untouched-IsBalanced : {s s' : State} → Untouched s s' → IsBalanced s → IsBalanced s'
Untouched-IsBalanced u b = record {
  valid = rw u.tracker b.valid;
  active = rw (u.stats, u.tracker) b.active;
  current = rw (u.stats, u.tracker) b.current;
  count_fits = rw u.tracker b.count_fits;
  bytes_fit = rw u.tracker b.bytes_fit;
}

update_on_alloc-live :
    (n : ℕ) (x : MemoryStats)
    → x.active_allocation_count + 1 < word_mod
    → x.current_allocated_bytes + n < word_mod
    → ((update_on_alloc n x).active_allocation_count ≡ x.active_allocation_count + 1)
      × ((update_on_alloc n x).current_allocated_bytes ≡ x.current_allocated_bytes + n)
unfolding update_on_alloc
update_on_alloc-live n x hc hb = (omega arith, omega arith)

update_on_free-live :
    (n : ℕ) (x : MemoryStats)
    → 1 ≤ x.active_allocation_count
    → x.active_allocation_count < word_mod
    → n ≤ x.current_allocated_bytes
    → x.current_allocated_bytes < word_mod
    → ((update_on_free n x).active_allocation_count + 1 ≡ x.active_allocation_count)
      × ((update_on_free n x).current_allocated_bytes + n ≡ x.current_allocated_bytes)
unfolding update_on_free
update_on_free-live n x hl hc hn hb = (omega arith, omega arith)

-- A block is counted and tracked under a pointer that had no record.
pub insert-AreInStep :
    (user : ℕ) (rec : AllocationRecord) (stats : MemoryStats) (t : Tracker.ShardedTracker)
    → user ≢ 0
    → Tracker.find user t ≡ none
    → Tracker.size t + 1 < word_mod
    → live_bytes t + rec.requested_size < word_mod
    → AreInStep stats t
    → AreInStep (update_on_alloc rec.requested_size stats) (Tracker.insert user rec t)
insert-AreInStep user rec stats t nz new hc hb b =
    let bytes =
      total-insert (λ (x : AllocationRecord). x.requested_size) user rec t b.valid nz new in
    let count = total-insert (λ (x : AllocationRecord). 1) user rec t b.valid nz new in
    let before = size-total t in
    let after = size-total (Tracker.insert user rec t) in
    let live =
      update_on_alloc-live rec.requested_size stats (omega (arith, b.active))
        (omega (arith, b.current)) in
    record {
      valid = insert-IsValid user rec t b.valid;
      active = rw live.0 (omega (arith, b.active, count, before, after));
      current = rw live.1 (omega (arith, b.current, bytes));
      count_fits = omega (arith, count, before, after);
      bytes_fit = omega (arith, bytes);
    }

Registered-IsBalanced :
    {size user : ℕ} {s s' : State}
    → Registered size user s s'
    → user ≢ 0
    → Tracker.find user s.tracker ≡ none
    → Tracker.size s.tracker + 1 < word_mod
    → live_bytes s.tracker + size < word_mod
    → IsBalanced s
    → IsBalanced s'
Registered-IsBalanced {size} {user} {s} {s'} r nz new hc hb b =
    let counted =
      insert-AreInStep user r.rec s.stats s.tracker nz new hc (omega (arith, r.rec_size, hb)) b in
    rw (r.stats, r.tracker)
      (subst (λ n. AreInStep (update_on_alloc n s.stats) (Tracker.insert user r.rec s.tracker))
        r.rec_size counted)

-- A tracked block is counted as freed and forgotten.
pub erase-AreInStep :
    (p : ℕ) (rec : AllocationRecord) (stats : MemoryStats) (t : Tracker.ShardedTracker)
    → Tracker.find p t ≡ some rec
    → AreInStep stats t
    → AreInStep (update_on_free rec.requested_size stats) (Tracker.erase p t).2
erase-AreInStep p rec stats t tracked b =
    let bytes =
      total-erase_found (λ (x : AllocationRecord). x.requested_size) p rec t b.valid tracked in
    let count = total-erase_found (λ (x : AllocationRecord). 1) p rec t b.valid tracked in
    let before = size-total t in
    let after = size-total (Tracker.erase p t).2 in
    let live =
      update_on_free-live rec.requested_size stats (omega (arith, b.active, before, count))
        (omega (arith, b.active, b.count_fits)) (omega (arith, b.current, bytes))
        (omega (arith, b.current, b.bytes_fit)) in
    record {
      valid = erase-IsValid p t b.valid;
      active = omega (arith, live.0, b.active, count, before, after);
      current = omega (arith, live.1, b.current, bytes);
      count_fits = omega (arith, count, before, after, b.count_fits);
      bytes_fit = omega (arith, bytes, b.bytes_fit);
    }

Released-IsBalanced :
    {p : ℕ} {rec : AllocationRecord} {s s' : State}
    → Released p rec s s'
    → Tracker.find p s.tracker ≡ some rec
    → IsBalanced s
    → IsBalanced s'
Released-IsBalanced {p} {rec} {s} {s'} r tracked b =
    rw (r.stats, r.tracker) (erase-AreInStep p rec s.stats s.tracker tracked b)

-- An allocation that returns a pointer without a record keeps the counters in step with the
-- tracker, on every path, if the counts still fit 64 bits.
pub allocate-IsBalanced :
    (os : Platform) (size alignment tag : ℕ) (s : State)
    → IsBalanced s
    → (allocate os size alignment tag s).0 ≢ 0
    → Tracker.find (allocate os size alignment tag s).0 s.tracker ≡ none
    → Tracker.size s.tracker + 1 < word_mod
    → live_bytes s.tracker + size < word_mod
    → IsBalanced (allocate os size alignment tag s).1
allocate-IsBalanced os size alignment tag s b nz new hc hb =
    elim (allocate-Outcome os size alignment tag s) [
      | inl u ↦ Untouched-IsBalanced u b
      | inr r ↦ Registered-IsBalanced r nz new hc hb b
    ]

-- A free keeps the counters in step with a well formed tracker (active count = records, current
-- bytes = their sizes), whatever the pointer is, with a guard active or not.
pub deallocate-IsBalanced :
    (os : Platform) (p : ℕ) (s : State) → IsBalanced s → IsBalanced (deallocate os p s)
deallocate-IsBalanced os p s b = elim (Option-cases (Tracker.find p s.tracker)) [
  | inl absent ↦ Untouched-IsBalanced (deallocate-Untouched os p s absent) b
  | inr (rec, tracked) ↦ elim (Bool-cases (is_guard_active s.depth)) [
    | inl busy ↦ Untouched-IsBalanced (deallocate_nested-Untouched os p s busy) b
    | inr idle ↦ Released-IsBalanced (deallocate-Released os p rec s idle tracked) tracked b
  ]
]
