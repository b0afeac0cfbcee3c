-- ===== src/Tests/Resizing.antt =====
-- Reallocation, the hooks, and the leak reports.
use mem_sentry.Base.{
  ℕ, ◌+◌, ◌%◌, ◌^◌, ◌≡◌, ◌<◌, ◌≤◌, refl, ap, ◌∙◌, false, none, some, arith, ltb, ◌⊎◌, length,
  replicate, total,
}
use mem_sentry.Memory.{load}
use mem_sentry.Guard.{is_guard_active}
use mem_sentry.Types.{AllocationRecord}
use mem_sentry.Sampling.{is_sampled}
use mem_sentry.Block.{effective_alignment, user_address}
use mem_sentry.Stats.{update_on_alloc, zero_stats}
use mem_sentry.Base.Dict
use mem_sentry.Tracker
use mem_sentry.Tracker.Shards.{empty_tracker-IsValid, insert-IsValid}
use mem_sentry.Tracker.View.{find-insert}
use mem_sentry.Manager.State.{Platform, State, raw_system_alloc}
use mem_sentry.Manager.Allocate.{track, allocate_guarded, allocate, choose_tag}
use mem_sentry.Manager.Realloc.{check_old, move_block, reallocate}
use mem_sentry.Manager.Register.{IsTracked, allocate-Allocated, choose_tag_lem}
use mem_sentry.Manager.Accounts.{IsBalanced}
use mem_sentry.Manager.Resize.{reallocate_tracked}
use mem_sentry.Manager.Resize.Balance.{reallocate_failed}
use mem_sentry.Manager.Leaks.{get_suppressed_count, leak_report, has_unsuppressed_leaks}
use mem_sentry.Manager.Leaks.Partition.{leaks_partition}
use mem_sentry.Hooks.{track_alloc, memsentry_calloc, memsentry_posix_memalign}
use mem_sentry.Hooks.Routes.{calloc_zeroed, posix_memalign_aligned}
use mem_sentry.Tests.World.{os, fresh_state}

-- One block of 100 bytes at 80 is tracked, with the canaries off.
abbrev old_record : AllocationRecord
old_record = record {
  allocation_id = 0;
  user_ptr = 80;
  raw_ptr = 8;
  requested_size = 100;
  total_size = 184;
  alignment = 16;
  thread_id = 7;
  tag = 16;
  timestamp = 0;
  callstack = replicate 32 0;
  frame_count = 0;
}

abbrev one_block : State
one_block = record fresh_state {
  config = record (fresh_state.config) { enable_canary = false };
  tracker = Tracker.insert 80 old_record fresh_state.tracker;
  stats = update_on_alloc 100 zero_stats;
}

one_found : Tracker.find 80 one_block.tracker ≡ some old_record
one_found =
    find-insert 80 80 old_record fresh_state.tracker empty_tracker-IsValid (λ e. omega arith)

tracked_300 : IsTracked os 300 16 65536 one_block
unfolding is_guard_active is_sampled effective_alignment
tracked_300 = record {
  idle = refl;
  started = refl;
  sampled = refl;
  mapped = refl;
  fits = record { mapped = λ e. omega arith; space = omega arith; narrow = omega arith };
}

fresh_address : (allocate os 300 16 16 one_block).0 ≡ 65616
unfolding effective_alignment user_address
fresh_address = (allocate-Allocated os 300 16 16 65536 one_block tracked_300).user

moved_address : (reallocate os 80 300 one_block).0 ≡ 65616
unfolding is_guard_active move_block check_old
moved_address =
    ap (λ (r : ℕ × State). r.0)
      (reallocate_tracked os 80 300 one_block (λ e. omega arith) (λ e. omega arith) old_record refl
        one_found)
    ∙ rw fresh_address

one_block-IsBalanced : IsBalanced one_block
unfolding Tracker.size Tracker.snapshot_all Tracker.insert total update_on_alloc Dict.insert
one_block-IsBalanced = record {
  valid = insert-IsValid 80 old_record fresh_state.tracker empty_tracker-IsValid;
  active = refl;
  current = refl;
  count_fits = omega arith;
  bytes_fit = omega arith;
}

elsewhere : Tracker.find (reallocate os 80 300 one_block).0 one_block.tracker ≡ none
unfolding Tracker.find Tracker.insert Dict.lookup Dict.insert
elsewhere = rw moved_address refl

-- The system has no memory left.
abbrev exhausted : Platform
exhausted = record os { malloc = λ calls size. 0 }

refused : (reallocate exhausted 80 300 one_block).0 ≡ 0
unfolding is_guard_active is_sampled move_block check_old allocate allocate_guarded track
    raw_system_alloc mem_sentry.Block.calculate_total_size
refused =
    ap (λ (r : ℕ × State). r.0)
      (reallocate_tracked exhausted 80 300 one_block (λ e. omega arith) (λ e. omega arith)
        old_record refl one_found)

reallocate_failed_example : (reallocate exhausted 80 300 one_block).1.tracker ≡ one_block.tracker
unfolding is_guard_active
reallocate_failed_example =
    reallocate_failed exhausted 80 300 old_record one_block (λ e. omega arith) (λ e. omega arith)
      refl one_found refused

tracked_12 : IsTracked os 12 16 65536 fresh_state
unfolding is_guard_active is_sampled effective_alignment
tracked_12 = record {
  idle = refl;
  started = refl;
  sampled = refl;
  mapped = refl;
  fits = record { mapped = λ e. omega arith; space = omega arith; narrow = omega arith };
}

calloc_address : (memsentry_calloc os 3 4 fresh_state).0 ≡ 65616
unfolding memsentry_calloc track_alloc is_guard_active effective_alignment user_address
calloc_address =
    let a = (allocate-Allocated os 12 16 48 65536 fresh_state tracked_12).user in rw a refl

calloc_zeroed_example :
    let r = memsentry_calloc os 3 4 fresh_state in
    let plain = allocate os 12 16 48 fresh_state in
    (r.0 ≡ plain.0)
    × ((r.1).stats ≡ (plain.1).stats)
    × ((q : ℕ) → r.0 ≤ q → q < r.0 + 12 → (r.1).memory q ≡ 0)
    × ((q : ℕ) → (q < r.0) ⊎ (r.0 + 12 ≤ q) → (r.1).memory q ≡ (plain.1).memory q)
calloc_zeroed_example = calloc_zeroed os 3 4 fresh_state (λ e. omega (arith, calloc_address, e))

tracked_aligned : IsTracked os 100 (2 ^ 6) 65536 fresh_state
unfolding is_guard_active is_sampled effective_alignment
tracked_aligned = record {
  idle = refl;
  started = refl;
  sampled = refl;
  mapped = refl;
  fits = record { mapped = λ e. omega arith; space = omega arith; narrow = omega arith };
}

posix_memalign_aligned_example :
    let r = memsentry_posix_memalign os 4096 64 100 fresh_state in
    (r.0 ≡ 0) × (load 8 (r.1).memory 4096 % 64 ≡ 0)
posix_memalign_aligned_example =
    posix_memalign_aligned os 4096 6 100 65536 fresh_state (λ e. omega arith) (omega arith)
      tracked_aligned

choose_tag_lem_example : choose_tag os fresh_state.config 128 0 ≡ 128
choose_tag_lem_example = choose_tag_lem os fresh_state.config 128 0 (λ e. omega arith)

leaks_partition_example :
    ((get_suppressed_count os one_block).0 + length ((leak_report os one_block).0).leaks
      ≡ Tracker.size one_block.tracker)
    × ((has_unsuppressed_leaks os one_block).0
        ≡ ltb 0 (length ((leak_report os one_block).0).leaks))
unfolding Dict.lookup
leaks_partition_example = leaks_partition os one_block (λ a f e. absurd (ground (arith, e)))
