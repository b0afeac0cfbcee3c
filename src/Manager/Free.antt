-- ===== src/Manager/Free.antt =====
-- `Manager::deallocate`.
use mem_sentry.Base.{ℕ, Bool, true, false, Option, none, some, replicate, ◌==◌, if◌then◌else◌}
use mem_sentry.Types.{
  CorruptionType, intact, header_corrupted, footer_corrupted, double_free, use_after_free,
  untracked_pointer, AllocationRecord, canary_freed_magic, canary_header_magic,
}
use mem_sentry.Block.{magic_at, get_header_from_user_ptr, verify_canary, poison_block}
use mem_sentry.Stats.{update_on_free}
use mem_sentry.Tracker
use mem_sentry.Tracker.{success, not_found, double_free_detected}
use mem_sentry.Histogram.{record_size}
use mem_sentry.Guard.{is_guard_active}
use mem_sentry.Manager.State.{Platform, State, guarded_unit, raw_system_free, alert}
use mem_sentry.Manager.Allocate.{footer_size_of}

abbrev pub is_none : CorruptionType → Bool
is_none intact = true
is_none header_corrupted = false
is_none footer_corrupted = false
is_none double_free = false
is_none use_after_free = false
is_none untracked_pointer = false

-- The default record that `erase` writes to.
abbrev pub blank_record : ℕ → AllocationRecord
blank_record general = record {
  allocation_id = 0;
  user_ptr = 0;
  raw_ptr = 0;
  requested_size = 0;
  total_size = 0;
  alignment = 0;
  thread_id = 0;
  tag = general;
  timestamp = 0;
  callstack = replicate 32 0;
  frame_count = 0;
}

abbrev pub or_blank : ℕ → Option AllocationRecord → AllocationRecord
or_blank general none = blank_record general
or_blank general (some rec) = rec

module _ (os : Platform) where
  -- With a guard active: the block is returned to the system without a look at the tracker.
  unfoldable pub free_unguarded : ℕ → State → State
  unfolding raw_system_free
  free_unguarded user_ptr s = elim (get_header_from_user_ptr s.memory user_ptr) [
    | some h ↦ if magic_at s.memory h == canary_freed_magic then s else raw_system_free os h s
    | none ↦ raw_system_free os user_ptr s
  ]

  -- A tracked block: checked, counted, and, if intact, poisoned and returned to the system.
  unfoldable pub free_tracked : ℕ → AllocationRecord → State → State
  unfolding raw_system_free
  free_tracked user_ptr rec s =
      let footer_size = footer_size_of s.config in
      let verdict = verify_canary s.memory rec.raw_ptr footer_size in
      let alerted = if is_none verdict then s else alert user_ptr verdict s in
      let counted = record alerted {
        stats = update_on_free rec.requested_size alerted.stats;
        free_hist = record_size rec.requested_size alerted.free_hist;
      } in
      if is_none verdict
      then raw_system_free os rec.raw_ptr
          (record counted { memory = poison_block counted.memory rec.raw_ptr footer_size })
      else counted

  -- A pointer that is neither tracked nor in quarantine.
  unfoldable pub free_untracked : ℕ → State → State
  unfolding raw_system_free
  free_untracked user_ptr s = elim (get_header_from_user_ptr s.memory user_ptr) [
    | some h ↦
        if magic_at s.memory h == canary_freed_magic
        then alert user_ptr double_free s
        else if magic_at s.memory h == canary_header_magic
        then raw_system_free os h
            (record s { memory = poison_block s.memory h s.config.canary_footer_size })
        else raw_system_free os user_ptr s
    | none ↦ raw_system_free os user_ptr s
  ]

  -- What follows the call of `erase`, by the status that it returned.
  unfoldable pub after_erase : ℕ → Tracker.Erased → State → State
  unfolding free_tracked free_untracked
  after_erase user_ptr (success, rec, t) s =
      free_tracked user_ptr (or_blank os.general rec) (record s { tracker = t })
  after_erase user_ptr (double_free_detected, rec, t) s =
      alert user_ptr double_free (record s { tracker = t })
  after_erase user_ptr (not_found, rec, t) s = free_untracked user_ptr (record s { tracker = t })

  unfoldable pub deallocate_guarded : ℕ → State → State
  unfolding after_erase
  deallocate_guarded user_ptr s = after_erase user_ptr (Tracker.erase user_ptr s.tracker) s

  unfoldable pub deallocate : ℕ → State → State
  unfolding free_unguarded deallocate_guarded
  deallocate user_ptr s =
      if user_ptr == 0
      then s
      else if is_guard_active s.depth
      then free_unguarded user_ptr s
      else guarded_unit (deallocate_guarded user_ptr) s
