-- ===== src/Stats/Interleaved.antt =====
-- All counters but the peak with any number of threads: each `fetch_add` and `fetch_sub` of
-- `update_on_alloc` and `update_on_free` is a single step, and the steps of the threads come in any
-- order that keeps that of each thread.
pub mod Totals
use mem_sentry.Base.{
  ℕ, zero, suc, ◌+◌, ◌-◌, ◌%◌, ◌<◌, ◌≡◌, ◌≢◌, refl, sym, ◌∙◌, List, [], ◌∷◌, ◌++◌, map, length,
  get_or, set, total, All, arith, ◌==◌, if◌then◌else◌, Bool-cases, inl, inr, total-set, total-map,
  total-append,
}
use mem_sentry.Memory.{word_mod}
use mem_sentry.Stats.{MemoryStats, fetch_add, fetch_sub, update_on_alloc, update_on_free}
use mem_sentry.Stats.History.{Event, allocates, frees}

pub data Counter : Type 0 where
  allocated_bytes freed_bytes current_bytes allocations releases active : Counter

abbrev pub index : Counter → ℕ
index allocated_bytes = 0
index freed_bytes = 1
index current_bytes = 2
index allocations = 3
index releases = 4
index active = 5

abbrev pub value : Counter → MemoryStats → ℕ
value allocated_bytes s = s.total_allocated_bytes
value freed_bytes s = s.total_freed_bytes
value current_bytes s = s.current_allocated_bytes
value allocations s = s.total_allocation_count
value releases s = s.total_free_count
value active s = s.active_allocation_count

-- One atomic operation on one counter.
pub data CounterStep : Type 0 where
  adds subtracts : Counter → ℕ → CounterStep

-- The steps of one call, in the order of the code.
abbrev pub steps_of : Event → List CounterStep
steps_of (allocates n) =
    adds allocated_bytes n ∷ adds allocations 1 ∷ adds active 1 ∷ adds current_bytes n ∷ []
steps_of (frees n) =
    adds freed_bytes n ∷ adds releases 1 ∷ subtracts active 1 ∷ subtracts current_bytes n ∷ []

-- The steps of a thread that makes these calls.
abbrev pub thread_steps : List Event → List CounterStep
thread_steps [] = []
thread_steps (e ∷ es) = steps_of e ++ thread_steps es

abbrev pub Counters : Type 0
Counters = Counter → ℕ

unfoldable pub step : CounterStep → Counters → Counters
step (adds d n) k c = if index c == index d then fetch_add (k c) n else k c
step (subtracts d n) k c = if index c == index d then fetch_sub (k c) n else k c

unfoldable pub run : List CounterStep → Counters → Counters
unfolding step
run [] k = k
run (x ∷ xs) k = run xs (step x k)

-- The order in which the steps of the threads come: each time some thread makes its next one.
pub data Interleaves : List (List CounterStep) → List CounterStep → Type 0 where
  finished :
      {threads : List (List CounterStep)} → All (λ t. t ≡ []) threads → Interleaves threads []
  moves :
      {threads : List (List CounterStep)} {steps : List CounterStep} (i : ℕ) (x : CounterStep)
      (rest : List CounterStep)
      → get_or threads i [] ≡ x ∷ rest
      → Interleaves (set threads i rest) steps
      → Interleaves threads (x ∷ steps)

-- The calls of a list, one after another.
unfoldable pub calls : List Event → MemoryStats → MemoryStats
calls [] s = s
calls (allocates n ∷ es) s = calls es (update_on_alloc n s)
calls (frees n ∷ es) s = calls es (update_on_free n s)

-- One thread after another.
unfoldable pub in_turn : List (List Event) → MemoryStats → MemoryStats
in_turn [] s = s
in_turn (es ∷ threads) s = in_turn threads (calls es s)
