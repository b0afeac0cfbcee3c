-- ===== src/Manager/Realloc.antt =====
-- `Manager::reallocate`.
use mem_sentry.Base.{ℕ, not, ◌||◌, none, some, ltb, ◌==◌, if◌then◌else◌}
use mem_sentry.Memory.{copy}
use mem_sentry.Types.{AllocationRecord}
use mem_sentry.Block.{verify_canary}
use mem_sentry.Tracker
use mem_sentry.Guard.{is_guard_active}
use mem_sentry.Manager.State.{Platform, State, raw_system_realloc, alert}
use mem_sentry.Manager.Allocate.{allocate}
use mem_sentry.Manager.Free.{is_none, deallocate}

-- The check of the old block, with an alert if it fails.
unfoldable pub check_old : ℕ → AllocationRecord → State → State
check_old ptr old s =
    let verdict = verify_canary s.memory old.raw_ptr s.config.canary_footer_size in
    if s.config.enable_canary then (if is_none verdict then s else alert ptr verdict s) else s

module _ (os : Platform) where
  -- A tracked block moves: checked, allocated anew, copied, freed.
  unfoldable pub move_block : ℕ → ℕ → AllocationRecord → State → ℕ × State
  unfolding check_old allocate deallocate
  move_block ptr new_size old s =
      let fresh = allocate os new_size old.alignment old.tag (check_old ptr old s) in
      let copy_bytes = if ltb old.requested_size new_size then old.requested_size else new_size in
      let copied = record (fresh.1) { memory = copy copy_bytes (fresh.1).memory fresh.0 ptr } in
      if fresh.0 == 0 then (0, fresh.1) else (fresh.0, deallocate os ptr copied)

  unfoldable pub reallocate : ℕ → ℕ → State → ℕ × State
  unfolding move_block raw_system_realloc allocate deallocate
  reallocate ptr new_size s =
      let tracked : ℕ × State = elim (Tracker.find ptr s.tracker) [
        | none ↦ raw_system_realloc os ptr new_size s
        | some old ↦ move_block ptr new_size old s
      ] in
      if ptr == 0
      then allocate os new_size s.config.alignment 0 s
      else if new_size == 0
      then (0, deallocate os ptr s)
      else if is_guard_active s.depth || not s.initialized
      then raw_system_realloc os ptr new_size s
      else tracked
