-- ===== src/Tests/Manager.antt =====
-- The Manager and the hooks.
use mem_sentry.Base.{
  ℕ, ◌+◌, ◌≡◌, ◌≢◌, refl, ap, ◌∙◌, ◌∷◌, [], true, false, some, arith, inl, ==_refl, total,
}
use mem_sentry.Memory.{Memory, byte, store}
use mem_sentry.Memory.Laws.{store_outside}
use mem_sentry.Guard.{is_guard_active}
use mem_sentry.Types.{double_free, footer_corrupted}
use mem_sentry.Sampling.{is_sampled}
use mem_sentry.Block.{effective_alignment, user_address}
use mem_sentry.Block.RedZone.{IsBytes}
use mem_sentry.Block.Bytes.{init_block-IsBytes, store-IsBytes}
use mem_sentry.Tracker
use mem_sentry.Tracker.Shards.{IsValid, empty_tracker-IsValid, insert-IsValid}
use mem_sentry.Tracker.View.{find-insert}
use mem_sentry.Tracker.Quarantine.{erases, replay}
use mem_sentry.Tracker.Window.{erasures}
use mem_sentry.Manager.State.{State, alert, mallocs}
use mem_sentry.Manager.Allocate.{allocate, choose_tag}
use mem_sentry.Manager.Free.{deallocate}
use mem_sentry.Manager.Register.{
  IsTracked, total_of, allocate-Allocated, Allocated, allocate-init_block,
}
use mem_sentry.Manager.RoundTrip.{RoundTrip, round_trip, overrun_reported}
use mem_sentry.Manager.Untracked.{double_free_reported}
use mem_sentry.Manager.Accounts.{IsBalanced, allocate-IsBalanced, deallocate-IsBalanced}
use mem_sentry.Tracker.View.{find-empty_tracker}
use mem_sentry.Tests.World.{os, fresh_state}

tracked_100 : IsTracked os 100 16 65536 fresh_state
unfolding is_guard_active is_sampled effective_alignment
tracked_100 = record {
  idle = refl;
  started = refl;
  sampled = refl;
  mapped = refl;
  fits = record { mapped = λ e. omega arith; space = omega arith; narrow = omega arith };
}

allocate-Allocated_example :
    Allocated os 100 16 0 65536 fresh_state (allocate os 100 16 0 fresh_state)
allocate-Allocated_example = allocate-Allocated os 100 16 0 65536 fresh_state tracked_100

-- The block, its address, and the state after.
abbrev block : ℕ × State
block = allocate os 100 16 0 fresh_state

block_address : block.0 ≡ 65616
unfolding effective_alignment user_address
block_address = (allocate-Allocated os 100 16 0 65536 fresh_state tracked_100).user

block-IsBytes : IsBytes (block.1).memory
block-IsBytes = rw (allocate-init_block os 100 16 0 65536 fresh_state tracked_100) (
    init_block-IsBytes 16 _ 65536 100 (effective_alignment 16) 16 1
      (choose_tag os fresh_state.config 0 0) true 7 (λ q. omega arith))

-- The client writes one byte of its payload.
abbrev written_memory : Memory
written_memory = store 1 (block.1).memory 65620 42

round_trip_example :
    RoundTrip os block.0 65536
      (total_of fresh_state.config 16 100)
      fresh_state
      (deallocate os block.0 (record (block.1) { memory = written_memory }))
round_trip_example =
    round_trip os 100 16 0 65536 fresh_state written_memory tracked_100 empty_tracker-IsValid
      (store-IsBytes 1 (block.1).memory 65620 42 block-IsBytes)
      (λ q lo e hi. store_outside 1 (block.1).memory 65620 42 q (ground (arith, e, block_address)))
      (omega arith) (omega arith)

-- The client writes one byte past its payload.
abbrev overrun_memory : Memory
overrun_memory = store 1 (block.1).memory (block.0 + 100 + 3) 42

overrun_byte : overrun_memory (block.0 + 100 + 3) ≢ (block.1).memory (block.0 + 100 + 3)
unfolding store byte
overrun_byte e =
    let kept =
      (allocate-Allocated os 100 16 0 65536 fresh_state tracked_100).live.zone refl (omega arith) 3
        (omega arith) in
    let put : overrun_memory (block.0 + 100 + 3) ≡ 42 = ground arith in omega (arith, kept, put, e)

overrun_reported_example :
    let after = deallocate os block.0 (record (block.1) { memory = overrun_memory }) in
    (after.alerts ≡ (block.0, footer_corrupted) ∷ []) × (after.calls ≡ mallocs 200 65536 ∷ [])
unfolding effective_alignment
overrun_reported_example =
    overrun_reported os 100 16 0 65536 fresh_state overrun_memory tracked_100 empty_tracker-IsValid
      (store-IsBytes 1 (block.1).memory (block.0 + 100 + 3) 42 block-IsBytes) refl (omega arith)
      (λ q lo hi.
        store_outside 1 (block.1).memory (block.0 + 100 + 3) 42 q
          (inl (omega (arith, block_address))))
      3 (omega arith) overrun_byte

-- The block is found.
block_found :
    Tracker.find block.0 (block.1).tracker
    ≡ some (allocate-Allocated os 100 16 0 65536 fresh_state tracked_100).found.0
block_found =
    let a = allocate-Allocated os 100 16 0 65536 fresh_state tracked_100 in
    rw a.found.1 (
      find-insert block.0 block.0 a.found.0 fresh_state.tracker empty_tracker-IsValid
        (λ e. omega (arith, block_address, e))
      ∙ rw (==_refl block.0))

block-IsValid : IsValid (block.1).tracker
block-IsValid =
    let a = allocate-Allocated os 100 16 0 65536 fresh_state tracked_100 in
    rw a.found.1 (insert-IsValid block.0 a.found.0 fresh_state.tracker empty_tracker-IsValid)

-- Freed, and freed again with one other erasure between.
abbrev freed_state : State
freed_state = deallocate os block.0 (block.1)

abbrev later_state : State
later_state = record fresh_state { tracker = replay (erases 4096 ∷ []) freed_state.tracker }

idle_block : is_guard_active (block.1).depth ≡ false
unfolding is_guard_active
idle_block = ap is_guard_active (allocate-Allocated os 100 16 0 65536 fresh_state tracked_100).depth

double_free_reported_example :
    deallocate os block.0 later_state ≡ alert block.0 double_free later_state
unfolding is_guard_active erasures
double_free_reported_example =
    double_free_reported os block.0
      (allocate-Allocated os 100 16 0 65536 fresh_state tracked_100).found.0 (block.1) later_state
      (erases 4096 ∷ []) block-IsValid idle_block refl block_found refl (tt, tt) (omega arith)

fresh-IsBalanced : IsBalanced fresh_state
fresh-IsBalanced = record {
  valid = empty_tracker-IsValid;
  active = unfold Tracker.size in refl;
  current = unfold Tracker.snapshot_all total in refl;
  count_fits = unfold Tracker.size in omega arith;
  bytes_fit = unfold Tracker.snapshot_all total in omega arith;
}

deallocate-IsBalanced_example : IsBalanced (deallocate os block.0 (block.1))
deallocate-IsBalanced_example = deallocate-IsBalanced os block.0 (block.1) balanced
  where
    balanced : IsBalanced (block.1)
    balanced =
        allocate-IsBalanced os 100 16 0 fresh_state fresh-IsBalanced
          (λ e. omega (arith, block_address, e)) (find-empty_tracker block.0)
          (unfold Tracker.size in omega arith) (unfold Tracker.snapshot_all total in omega arith)
