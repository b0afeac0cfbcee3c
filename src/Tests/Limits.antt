-- ===== src/Tests/Limits.antt =====
-- The memory limit.
use mem_sentry.Base.{◌≡◌, refl, none, some, true, ◌&&◌, ltb, ◌∷◌, [], if◌then◌else◌, arith, total}
use mem_sentry.Block.{effective_alignment, user_address}
use mem_sentry.Sampling.{is_sampled}
use mem_sentry.Guard.{is_guard_active}
use mem_sentry.Types.{default_config}
use mem_sentry.Tracker
use mem_sentry.Tracker.Shards.{empty_tracker-IsValid}
use mem_sentry.Tracker.View.{find-empty_tracker}
use mem_sentry.Manager.State.{State}
use mem_sentry.Manager.Allocate.{allocate}
use mem_sentry.Manager.Register.{IsTracked, allocate-Allocated}
use mem_sentry.Manager.Accounts.{live_bytes, IsBalanced}
use mem_sentry.Manager.Watchdog.{allocate-alarms}
use mem_sentry.Tests.World.{os, fresh_state}

-- At most 50 bytes.
abbrev limited_state : State
limited_state = record fresh_state {
  config = record (default_config 16) { max_heap_bytes = 50; on_limit_exceeded = true };
}

limited_100 : IsTracked os 100 16 65536 limited_state
unfolding is_guard_active is_sampled effective_alignment
limited_100 = record {
  idle = refl;
  started = refl;
  sampled = refl;
  mapped = refl;
  fits = record { mapped = λ e. omega arith; space = omega arith; narrow = omega arith };
}

limited_address : (allocate os 100 16 0 limited_state).0 ≡ 65616
unfolding effective_alignment user_address
limited_address = (allocate-Allocated os 100 16 0 65536 limited_state limited_100).user

limited-IsBalanced : IsBalanced limited_state
limited-IsBalanced = record {
  valid = empty_tracker-IsValid;
  active = unfold Tracker.size in refl;
  current = unfold Tracker.snapshot_all total in refl;
  count_fits = unfold Tracker.size in omega arith;
  bytes_fit = unfold Tracker.snapshot_all total in omega arith;
}

allocate-alarms_example :
    let r = allocate os 100 16 0 limited_state in
    r.1.alarms ≡ elim (Tracker.find r.0 r.1.tracker) [
      | none ↦ []
      | some rec ↦
          if ltb 0 50 && true && ltb 50 (live_bytes r.1.tracker)
          then (live_bytes r.1.tracker, 50) ∷ []
          else []
    ]
allocate-alarms_example =
    allocate-alarms os 100 16 0 limited_state limited-IsBalanced
      (λ e. omega (arith, limited_address, e))
      (find-empty_tracker (allocate os 100 16 0 limited_state).0)
      (unfold Tracker.size in omega arith) (unfold Tracker.snapshot_all total in omega arith)
