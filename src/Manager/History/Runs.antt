-- ===== src/Manager/History/Runs.antt =====
-- Whole runs of the Manager, by any calls of a client that frees only what it may.
use mem_sentry.Base.{ℕ, ◌≡◌, refl, inl, inr, [], Bool-cases, arith, total}
use mem_sentry.Types.{Config}
use mem_sentry.Stats.{zero_stats}
use mem_sentry.Tracker
use mem_sentry.Tracker.{empty_tracker}
use mem_sentry.Tracker.Shards.{empty_tracker-IsValid}
use mem_sentry.Tracker.View.{find-empty_tracker}
use mem_sentry.Manager.State.{Platform, State}
use mem_sentry.Manager.Allocate.{allocate}
use mem_sentry.Manager.Free.{deallocate}
use mem_sentry.Manager.Realloc.{reallocate}
use mem_sentry.Manager.Lifecycle.{initialize, shutdown}
use mem_sentry.Manager.History.{IsLog, IsAllocator, books, HasRoom, IsSound}
use mem_sentry.Manager.History.Calls.{
  MayResize, allocate-IsSound, deallocate-IsSound, reallocate-IsSound,
}
use mem_sentry.Manager.History.Effects.{IsSane, MayFree}

-- One call of a client, or a change of the library's settings.
pub data ClientStep (os : Platform) (s : State) : State → Type 0 where
  allocates :
      (size alignment tag : ℕ)
      → IsSane size alignment s.config
      → HasRoom size (books s)
      → ClientStep os s (allocate os size alignment tag s).1
  frees : (p : ℕ) → MayFree p s → ClientStep os s (deallocate os p s)
  resizes :
      (p size : ℕ)
      → MayResize p size s
      → HasRoom size (books s)
      → ClientStep os s (reallocate os p size s).1
  starts : (config : Config) → ClientStep os s (initialize config s)
  stops : ClientStep os s (shutdown s)

pub data Run (os : Platform) (s : State) : State → Type 0 where
  here : Run os s s
  next : {t u : State} → Run os s t → ClientStep os t u → Run os s u

initialize-books : (config : Config) (s : State) → books (initialize config s) ≡ books s
unfolding initialize
initialize-books config s = elim (Bool-cases s.initialized) [
  | inl again ↦ rw again
  | inr first ↦ rw first
]

shutdown-books : (s : State) → books (shutdown s) ≡ books s
unfolding shutdown
shutdown-books s = elim (Bool-cases s.initialized) [
  | inl on ↦ elim (Bool-cases s.provider_initialized) [
    | inl used ↦ rw (on, used)
    | inr unused ↦ rw (on, unused)
  ]
  | inr off ↦ rw off
]

-- The books before the first call.
empty-IsSound :
    (os : Platform)
    → IsSound os (record { stats = zero_stats; tracker = empty_tracker; calls = [] })
unfolding IsLog Tracker.size Tracker.snapshot_all total
empty-IsSound os = record {
  log = tt;
  in_step = record {
    valid = empty_tracker-IsValid;
    active = refl;
    current = refl;
    count_fits = omega arith;
    bytes_fit = omega arith;
  };
  owned = λ k rec found. absurd (cc (found, find-empty_tracker k));
  apart = λ j k r q fj fk ne. absurd (cc (fj, find-empty_tracker j));
}

module _ (os : Platform) (sys : IsAllocator os) where
  ClientStep-IsSound :
      {s t : State} → ClientStep os s t → IsSound os (books s) → IsSound os (books t)
  ClientStep-IsSound (allocates size alignment tag sane room) h =
      allocate-IsSound os sys size alignment tag _ sane room h
  ClientStep-IsSound (frees p may) h = deallocate-IsSound os sys p _ may h
  ClientStep-IsSound (resizes p size may room) h = reallocate-IsSound os sys p size _ may room h
  ClientStep-IsSound {s} (starts config) h = rw (initialize-books config s) h
  ClientStep-IsSound {s} stops h = rw (shutdown-books s) h

  pub Run-IsSound : {s t : State} → Run os s t → IsSound os (books s) → IsSound os (books t)
  Run-IsSound here h = h
  Run-IsSound (next r step) h = ClientStep-IsSound step (Run-IsSound r h)

  -- Over a malloc and realloc that keep their contract (a block that is not null lies in the
  -- address space, apart from every block that is out), and from empty counters, tracker and calls:
  -- after any run of allocations, frees, reallocations, `initialize` and `shutdown`, of a client
  -- that frees and reallocates only what it may and whose sizes fit, the counters agree with the
  -- tracker, each tracked block is out at the system with its user address in it, no two tracked
  -- blocks share a byte, and only blocks that were out were freed.
  pub run_from_empty :
      {s t : State}
      → s.stats ≡ zero_stats
      → s.tracker ≡ empty_tracker
      → s.calls ≡ []
      → Run os s t
      → IsSound os (books t)
  run_from_empty {s} no_stats no_tracker no_calls r =
      Run-IsSound r (rw (no_stats, no_tracker, no_calls) (empty-IsSound os))
