-- ===== src/Tests/Moving.antt =====
-- A block that is live in memory and moves.
use mem_sentry.Memory.{Memory}
use mem_sentry.Base.{
  ℕ, List, [], ◌∷◌, ◌≤◌, ltb, leb, ◌&&◌, if◌then◌else◌, ◌+◌, ◌≡◌, refl, inr, false, arith,
  replicate,
}
use mem_sentry.Types.{AllocationRecord}
use mem_sentry.Guard.{is_guard_active}
use mem_sentry.Sampling.{is_sampled}
use mem_sentry.Block.{effective_alignment, user_address, init_block}
use mem_sentry.Block.Live.{IsLive, Fits, init_block-IsLive}
use mem_sentry.Tracker
use mem_sentry.Tracker.Shards.{empty_tracker-IsValid, insert-IsValid}
use mem_sentry.Tracker.View.{find-insert}
use mem_sentry.Manager.State.{Platform, State, SystemCall, mallocs, frees, reallocs}
use mem_sentry.Manager.Realloc.{check_old, reallocate}
use mem_sentry.Manager.Register.{IsTracked, total_of}
use mem_sentry.Manager.Resize.Content.{Spares, reallocate_content}
use mem_sentry.Tests.World.{os, fresh_state}

abbrev old_record : AllocationRecord
old_record = record {
  allocation_id = 0;
  user_ptr = 4176;
  raw_ptr = 4096;
  requested_size = 100;
  total_size = 184;
  alignment = 16;
  thread_id = 7;
  tag = 16;
  timestamp = 0;
  callstack = replicate 32 0;
  frame_count = 0;
}

-- 100 bytes at 4176, with the canaries off.
abbrev live_block : State
live_block = record fresh_state {
  config = record (fresh_state.config) { enable_canary = false };
  tracker = Tracker.insert 4176 old_record fresh_state.tracker;
  memory = (init_block 16 (λ q. q) 4096 100 16 0 0 16 false 7).1;
}

-- An allocator that keeps the size of a chunk in the 8 bytes before it, and a link of its free list
-- in the first 8 bytes of a freed chunk.
abbrev bookkeeping : List SystemCall → Memory → Memory
bookkeeping [] m q = m q
bookkeeping (mallocs size p ∷ calls) m q = if leb p (q + 8) && ltb q p then size else m q
bookkeeping (frees p ∷ calls) m q = if leb p q && ltb q (p + 8) then 0 else m q
bookkeeping (reallocs p size p' ∷ calls) m q = if leb p' (q + 8) && ltb q p' then size else m q

abbrev platform : Platform
platform = record os { settle = bookkeeping }

mallocs-Spares :
    (size p : ℕ) (calls : List SystemCall) (m : Memory) (a b : ℕ)
    → b + 8 ≤ p
    → Spares platform (mallocs size p ∷ calls) m a b
mallocs-Spares size p calls m a b before q lo hi = ground (arith, before, lo, hi)

frees-Spares :
    (p : ℕ) (calls : List SystemCall) (m : Memory) (a b : ℕ)
    → p + 8 ≤ a
    → Spares platform (frees p ∷ calls) m a b
frees-Spares p calls m a b after q lo hi = ground (arith, after, lo, hi)

old-Fits : Fits 4096 100 16 0
unfolding effective_alignment
old-Fits = record { mapped = λ e. omega arith; space = omega arith; narrow = omega arith }

old-IsLive : IsLive live_block.memory 4096 4176 100 0 false
unfolding effective_alignment user_address
old-IsLive = init_block-IsLive 16 (λ q. q) old-Fits 0 16 false 7

moving_300 : IsTracked platform 300 16 65536 (check_old 4176 old_record live_block)
unfolding check_old is_guard_active is_sampled effective_alignment
moving_300 = record {
  idle = refl;
  started = refl;
  sampled = refl;
  mapped = refl;
  fits = record { mapped = λ e. omega arith; space = omega arith; narrow = omega arith };
}

reallocate_content_example :
    let r = reallocate platform 4176 300 live_block in
    (r.1).memory (r.0 + 9) ≡ live_block.memory (4176 + 9)
unfolding is_guard_active
reallocate_content_example =
    reallocate_content platform 4176 300 old_record live_block 65536 false moving_300 old-IsLive
      (inr (omega arith)) (mallocs-Spares _ _ [] _ _ _ (omega arith))
      (frees-Spares _ (mallocs (total_of live_block.config 16 300) 65536 ∷ []) _ _ _ (omega arith))
      (λ e. omega arith) (λ e. omega arith) refl
      (insert-IsValid 4176 old_record fresh_state.tracker empty_tracker-IsValid)
      (find-insert 4176 4176 old_record fresh_state.tracker empty_tracker-IsValid
        (λ e. omega arith))
      9 (omega arith)
