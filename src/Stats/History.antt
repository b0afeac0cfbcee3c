-- ===== src/Stats/History.antt =====
-- The counters against the history of allocations and frees.
use mem_sentry.Base.{ℕ, ◌+◌, ◌-◌, ◌≤◌, ◌<◌, max, ◌≡◌, List, [], ◌∷◌, arith}
use mem_sentry.Memory.{word_mod}
use mem_sentry.Stats.{MemoryStats, zero_stats, update_on_alloc, update_on_free}

pub data Event : Type 0 where
  allocates frees : ℕ → Event

-- The counters after a history, newest first.
unfoldable pub replay : List Event → MemoryStats
replay [] = zero_stats
replay (allocates n ∷ es) = update_on_alloc n (replay es)
replay (frees n ∷ es) = update_on_free n (replay es)

-- What the history says, in unbounded numbers.
unfoldable pub allocated : List Event → ℕ
allocated [] = 0
allocated (allocates n ∷ es) = n + allocated es
allocated (frees n ∷ es) = allocated es

unfoldable pub freed : List Event → ℕ
freed [] = 0
freed (allocates n ∷ es) = freed es
freed (frees n ∷ es) = n + freed es

unfoldable pub allocations : List Event → ℕ
allocations [] = 0
allocations (allocates n ∷ es) = 1 + allocations es
allocations (frees n ∷ es) = allocations es

unfoldable pub releases : List Event → ℕ
releases [] = 0
releases (allocates n ∷ es) = releases es
releases (frees n ∷ es) = 1 + releases es

-- The most bytes that were live at once.
unfoldable pub peak : List Event → ℕ
unfolding allocated freed
peak [] = 0
peak (allocates n ∷ es) = max (n + allocated es - freed es) (peak es)
peak (frees n ∷ es) = peak es

-- At every time what was freed had been allocated.
abbrev pub IsBalanced : List Event → Type 0
IsBalanced [] = Unit
IsBalanced (allocates n ∷ es) = IsBalanced es
IsBalanced (frees n ∷ es) =
    (n + freed es ≤ allocated es) × (1 + releases es ≤ allocations es) × IsBalanced es

-- The counters say of a history what it says itself.
pub record Reports (es : List Event) (s : MemoryStats) : Type 0 where
  pub total_allocated : s.total_allocated_bytes ≡ allocated es
  pub total_freed : s.total_freed_bytes ≡ freed es
  pub current : s.current_allocated_bytes + freed es ≡ allocated es
  pub highest : s.peak_allocated_bytes ≡ peak es
  pub count_allocated : s.total_allocation_count ≡ allocations es
  pub count_freed : s.total_free_count ≡ releases es
  pub active : s.active_allocation_count + releases es ≡ allocations es

-- For a history of allocations and frees that never frees more than was allocated, with lifetime
-- totals below 2^64, the seven counters equal what the history says in unbounded numbers; the peak
-- is the most bytes that were live at once.
pub replay-Reports :
    (es : List Event)
    → IsBalanced es
    → allocated es < word_mod
    → allocations es < word_mod
    → Reports es (replay es)
unfolding replay allocated freed allocations releases peak update_on_alloc update_on_free
replay-Reports [] b w c = ground arith
replay-Reports (allocates n ∷ es) b w c =
    let r = replay-Reports es b (omega arith) (omega arith) in ground (arith, r)
replay-Reports (frees n ∷ es) b w c = let r = replay-Reports es b.2 w c in ground (arith, r)

pub peak-ge : (es : List Event) → allocated es - freed es ≤ peak es
unfolding allocated freed peak
peak-ge [] = omega arith
peak-ge (allocates n ∷ es) = omega arith
peak-ge (frees n ∷ es) = omega (arith, peak-ge es)
