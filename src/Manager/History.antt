-- ===== src/Manager/History.antt =====
-- The Manager over a whole run: what a C library's allocator promises, the books that the Manager
-- keeps, and what a call may do to them.
pub mod Soundness
pub mod Effects
pub mod Calls
pub mod Runs
use mem_sentry.Base.{
  ℕ, ◌+◌, ◌≤◌, ◌<◌, ◌≡◌, ◌≢◌, ◌⊎◌, List, [], ◌∷◌, Option, none, some, ◌==◌, if◌then◌else◌,
}
use mem_sentry.Memory.{word_mod}
use mem_sentry.Types.{AllocationRecord}
use mem_sentry.Stats.{MemoryStats, update_on_alloc, update_on_free}
use mem_sentry.Tracker
use mem_sentry.Manager.State.{Platform, State, SystemCall, mallocs, frees, reallocs}
use mem_sentry.Manager.Accounts.{AreInStep, live_bytes}

-- The size of the block that the system has out at an address, by the calls so far.
unfoldable pub block_at : List SystemCall → ℕ → Option ℕ
block_at [] b = none
block_at (mallocs n p ∷ cs) b =
    let before = block_at cs b in if p == 0 then before else if p == b then some n else before
block_at (frees p ∷ cs) b = let before = block_at cs b in if p == b then none else before
block_at (reallocs p n q ∷ cs) b =
    let before = block_at cs b in
    if q == 0 then before else if q == b then some n else if p == b then none else before

-- Two blocks that have no byte in common.
abbrev pub Apart : ℕ → ℕ → ℕ → ℕ → Type 0
Apart p n b m = (p ≢ b) × ((p + n ≤ b) ⊎ (b + m ≤ p))

module _ (os : Platform) where
  -- Calls with the results that the platform gives, which free only blocks that are out.
  unfoldable pub IsLog : List SystemCall → Type 0
  IsLog [] = Unit
  IsLog (mallocs n p ∷ cs) = (p ≡ os.malloc cs n) × IsLog cs
  IsLog (frees p ∷ cs) = (block_at cs p ≢ none) × IsLog cs
  IsLog (reallocs p n q ∷ cs) = (block_at cs p ≢ none) × (q ≡ os.realloc cs p n) × IsLog cs

  -- What malloc and realloc are documented to do: a block that is not null lies in the address space,
  -- and apart from every block that is out.
  pub record IsAllocator : Type 0 where
    pub malloc_apart :
        (cs : List SystemCall) (n b m : ℕ)
        → IsLog cs
        → os.malloc cs n ≢ 0
        → block_at cs b ≡ some m
        → Apart (os.malloc cs n) n b m
    pub malloc_space :
        (cs : List SystemCall) (n : ℕ)
        → IsLog cs
        → os.malloc cs n ≢ 0
        → os.malloc cs n + n ≤ word_mod
    pub realloc_apart :
        (cs : List SystemCall) (p n b m : ℕ)
        → IsLog cs
        → block_at cs p ≢ none
        → os.realloc cs p n ≢ 0
        → block_at cs b ≡ some m
        → p ≢ b
        → Apart (os.realloc cs p n) n b m

-- The counters, the tracker, and the calls of the system's allocator.
pub record Books : Type 0 where
  pub stats : MemoryStats
  pub tracker : Tracker.ShardedTracker
  pub calls : List SystemCall

abbrev pub books : State → Books
books s = record { stats = s.stats; tracker = s.tracker; calls = s.calls }

-- A pointer that the system gave out and that is not the raw address of a tracked block.
pub record IsForeign (p : ℕ) (b : Books) : Type 0 where
  pub out : block_at b.calls p ≢ none
  pub untracked :
      (k : ℕ) (rec : AllocationRecord) → Tracker.find k b.tracker ≡ some rec → rec.raw_ptr ≢ p

-- One more block of this size does not overflow the counters.
abbrev pub HasRoom : ℕ → Books → Type 0
HasRoom size b = (Tracker.size b.tracker + 1 < word_mod) × (live_bytes b.tracker + size < word_mod)

-- What a call does to the books.
pub data Effect (os : Platform) (b b' : Books) : Type 0 where
  quiet : b' ≡ b → Effect os b b'
  passed :
      (n : ℕ) → b' ≡ record b { calls = mallocs n (os.malloc b.calls n) ∷ b.calls } → Effect os b b'
  registered :
      (user : ℕ) (rec : AllocationRecord)
      → rec.raw_ptr ≡ os.malloc b.calls rec.total_size
      → rec.raw_ptr ≢ 0
      → rec.raw_ptr ≤ user
      → user < rec.raw_ptr + rec.total_size
      → HasRoom rec.requested_size b
      → b' ≡ record {
        stats = update_on_alloc rec.requested_size b.stats;
        tracker = Tracker.insert user rec b.tracker;
        calls = mallocs rec.total_size rec.raw_ptr ∷ b.calls;
      }
      → Effect os b b'
  withheld :
      (p : ℕ) (rec : AllocationRecord)
      → Tracker.find p b.tracker ≡ some rec
      → b' ≡ record {
        stats = update_on_free rec.requested_size b.stats;
        tracker = (Tracker.erase p b.tracker).2;
        calls = b.calls;
      }
      → Effect os b b'
  returned :
      (p : ℕ) (rec : AllocationRecord)
      → Tracker.find p b.tracker ≡ some rec
      → b' ≡ record {
        stats = update_on_free rec.requested_size b.stats;
        tracker = (Tracker.erase p b.tracker).2;
        calls = frees rec.raw_ptr ∷ b.calls;
      }
      → Effect os b b'
  freed : (p : ℕ) → IsForeign p b → b' ≡ record b { calls = frees p ∷ b.calls } → Effect os b b'
  resized :
      (p n : ℕ)
      → IsForeign p b
      → b' ≡ record b { calls = reallocs p n (os.realloc b.calls p n) ∷ b.calls }
      → Effect os b b'

-- The books are right: the counters agree with the tracker; each tracked block is one that the
-- system has out, with the user address in it; and no two of them have a byte in common.
pub record IsSound (os : Platform) (b : Books) : Type 0 where
  pub log : IsLog os b.calls
  pub in_step : AreInStep b.stats b.tracker
  pub owned :
      (k : ℕ) (rec : AllocationRecord)
      → Tracker.find k b.tracker ≡ some rec
      → (block_at b.calls rec.raw_ptr ≡ some rec.total_size)
        × (rec.raw_ptr ≤ k)
        × (k < rec.raw_ptr + rec.total_size)
  pub apart :
      (j k : ℕ) (r q : AllocationRecord)
      → Tracker.find j b.tracker ≡ some r
      → Tracker.find k b.tracker ≡ some q
      → j ≢ k
      → Apart r.raw_ptr r.total_size q.raw_ptr q.total_size
