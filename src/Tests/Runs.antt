-- ===== src/Tests/Runs.antt =====
-- A run of the Manager over an allocator that keeps its promises.
use mem_sentry.Base.{
  ℕ, ◌+◌, ◌*◌, ◌≤◌, ◌≡◌, ◌≢◌, refl, ◌∙◌, ap, false, ◌&&◌, List, [], ◌∷◌, some, arith, ltb, leb,
  if◌then◌else◌, length, total, ==_refl, inr,
}
use mem_sentry.Guard.{is_guard_active}
use mem_sentry.Sampling.{is_sampled}
use mem_sentry.Block.{effective_alignment, user_address}
use mem_sentry.Tracker
use mem_sentry.Tracker.Shards.{empty_tracker-IsValid}
use mem_sentry.Tracker.View.{find-insert}
use mem_sentry.Manager.State.{Platform, State, SystemCall, mallocs, frees, reallocs}
use mem_sentry.Manager.Allocate.{allocate}
use mem_sentry.Manager.Free.{deallocate}
use mem_sentry.Manager.Register.{IsTracked, allocate-Allocated}
use mem_sentry.Manager.History.{block_at, IsLog, IsAllocator, IsSound, books}
use mem_sentry.Manager.History.Effects.{tracked}
use mem_sentry.Manager.History.Runs.{Run, here, next, allocates, run_from_empty}
use mem_sentry.Manager.History.Runs
use mem_sentry.Tests.World.{os, fresh_state}

-- The k-th call gets the k-th 64 KB, up to a thousand calls; what is larger gets null.
abbrev next_arena : List SystemCall → ℕ → ℕ
next_arena calls size =
    if leb size 65536 && ltb (length calls) 1000 then 65536 * (1 + length calls) else 0

abbrev arena : Platform
arena = record os { malloc = next_arena; realloc = λ calls ptr size. next_arena calls size }

below :
    (cs : List SystemCall) (b m : ℕ)
    → IsLog arena cs
    → block_at cs b ≡ some m
    → (b ≤ 65536 * length cs) × (b + m ≤ 65536 * (1 + length cs))
unfolding IsLog block_at
below [] b m log h = absurd (ground (arith, h))
below (mallocs n p ∷ cs) b m log h = ground (arith, below cs b m log.1, log.0, h)
below (frees p ∷ cs) b m log h = ground (arith, below cs b m log.1, h)
below (reallocs p n q ∷ cs) b m log h = ground (arith, below cs b m log.2, log.1, h)

arena_apart :
    (cs : List SystemCall) (n b m : ℕ)
    → (b ≤ 65536 * length cs)
    → (b + m ≤ 65536 * (1 + length cs))
    → next_arena cs n ≢ 0
    → (next_arena cs n ≢ b) × (b + m ≤ next_arena cs n)
arena_apart cs n b m lo hi mapped = (λ e. ground (arith, e, mapped), ground (arith, mapped))

arena-IsAllocator : IsAllocator arena
arena-IsAllocator = record {
  malloc_apart = λ cs n b m log mapped out.
      let old = below cs b m log out in
      let away = arena_apart cs n b m old.0 old.1 mapped in (away.0, inr away.1);
  malloc_space = λ cs n log mapped. ground (arith, mapped);
  realloc_apart = λ cs p n b m log held mapped out other.
      let old = below cs b m log out in
      let away = arena_apart cs n b m old.0 old.1 mapped in (away.0, inr away.1);
}

tracked_100 : IsTracked arena 100 16 65536 fresh_state
unfolding is_guard_active is_sampled effective_alignment
tracked_100 = record {
  idle = refl;
  started = refl;
  sampled = refl;
  mapped = refl;
  fits = record { mapped = λ e. omega arith; space = omega arith; narrow = omega arith };
}

abbrev block : ℕ × State
block = allocate arena 100 16 0 fresh_state

block_address : block.0 ≡ 65616
unfolding effective_alignment user_address
block_address = (allocate-Allocated arena 100 16 0 65536 fresh_state tracked_100).user

block_found :
    Tracker.find block.0 (block.1).tracker
    ≡ some (allocate-Allocated arena 100 16 0 65536 fresh_state tracked_100).found.0
block_found =
    let a = allocate-Allocated arena 100 16 0 65536 fresh_state tracked_100 in
    rw a.found.1 (
      find-insert block.0 block.0 a.found.0 fresh_state.tracker empty_tracker-IsValid
        (λ e. omega (arith, block_address, e))
      ∙ rw (==_refl block.0))

idle_block : is_guard_active (block.1).depth ≡ false
unfolding is_guard_active
idle_block =
    ap is_guard_active (allocate-Allocated arena 100 16 0 65536 fresh_state tracked_100).depth

-- 100 bytes are allocated and freed again.
there_and_back : Run arena fresh_state (deallocate arena block.0 (block.1))
unfolding effective_alignment Tracker.size Tracker.snapshot_all total
there_and_back =
    next
      (next here (
        allocates 100 16 0 (record { narrow_size = omega arith; narrow = omega arith })
          (omega arith, omega arith)))
      (Runs.frees block.0 (tracked _ idle_block block_found))

run_from_empty_example : IsSound arena (books (deallocate arena block.0 (block.1)))
run_from_empty_example = run_from_empty arena arena-IsAllocator refl refl refl there_and_back
