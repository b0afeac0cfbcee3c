-- ===== src/Stats/Interleaved/Totals.antt =====
-- What the interleaved steps add to each counter.
use mem_sentry.Base.{
  ℕ, zero, suc, ◌+◌, ◌-◌, ◌%◌, ◌<◌, ◌≡◌, ◌≢◌, refl, sym, ◌∙◌, List, [], ◌∷◌, map, length, get_or,
  total, All, arith, ◌==◌, if◌then◌else◌, Bool-cases, inl, inr, total-set, total-append,
}
use mem_sentry.Memory.{word_mod}
use mem_sentry.Stats.{MemoryStats, update_on_alloc, update_on_free}
use mem_sentry.Stats.History.{Event, allocates, frees}
use mem_sentry.Stats.Interleaved.{
  Counter, allocated_bytes, freed_bytes, current_bytes, allocations, releases, active, index, value,
  CounterStep, adds, subtracts, steps_of, thread_steps, Counters, step, run, Interleaves, finished,
  moves, calls, in_turn,
}

-- What a step adds to a counter, as a 64-bit number.
abbrev delta : Counter → CounterStep → ℕ
delta c (adds d n) = if index c == index d then n else 0
delta c (subtracts d n) = if index c == index d then word_mod - n else 0

abbrev net : Counter → List CounterStep → ℕ
net c xs = total (delta c) xs

step-delta :
    (x : CounterStep) (k : Counters) (c : Counter)
    → k c < word_mod
    → (step x k c ≡ (k c + delta c x) % word_mod) × (step x k c < word_mod)
unfolding step
step-delta (adds d n) k c small = elim (Bool-cases (index c == index d)) [
  | inl same ↦ rw same (refl, omega arith)
  | inr other ↦ rw other (omega arith, small)
]
step-delta (subtracts d n) k c small = elim (Bool-cases (index c == index d)) [
  | inl same ↦ rw same (refl, omega arith)
  | inr other ↦ rw other (omega arith, small)
]

run-net :
    (xs : List CounterStep) (k : Counters) (c : Counter)
    → k c < word_mod
    → run xs k c ≡ (k c + net c xs) % word_mod
unfolding run total
run-net [] k c small = omega arith
run-net (x ∷ xs) k c small =
    let (here, kept) = step-delta x k c small in
    let later = run-net xs (step x k) c kept in omega (arith, here, later)

-- A thread that has a step left is one of the threads.
in_range :
    (threads : List (List CounterStep)) (i : ℕ) → get_or threads i [] ≢ [] → i < length threads
in_range [] i some_left = absurd (some_left refl)
in_range (t ∷ threads) zero some_left = omega arith
in_range (t ∷ threads) (suc i) some_left = omega (arith, in_range threads i some_left)

finished-net :
    (c : Counter) (threads : List (List CounterStep))
    → All (λ t. t ≡ []) threads
    → total (net c) threads ≡ 0
unfolding total
finished-net c [] done = refl
finished-net c (t ∷ threads) done = rw done.0 (omega (arith, finished-net c threads done.1))

-- Whatever the order, the steps are those of the threads.
Interleaves-net :
    (c : Counter) {threads : List (List CounterStep)} {steps : List CounterStep}
    → Interleaves threads steps
    → net c steps ≡ total (net c) threads
unfolding total
Interleaves-net c {threads} (finished done) = sym (finished-net c threads done)
Interleaves-net c {threads} (moves i x rest next others) =
    let there = in_range threads i (λ e. cc (next, e)) in
    let swapped = rw next at (total-set (net c) threads i rest [] there) in
    let later = Interleaves-net c others in omega (arith, swapped, later)

update_on_alloc-net :
    (c : Counter) (n : ℕ) (s : MemoryStats)
    → value c s < word_mod
    → (value c (update_on_alloc n s) ≡ (value c s + net c (steps_of (allocates n))) % word_mod)
      × (value c (update_on_alloc n s) < word_mod)
unfolding update_on_alloc total
update_on_alloc-net allocated_bytes n s small = (omega arith, omega arith)
update_on_alloc-net freed_bytes n s small = (omega (arith, small), small)
update_on_alloc-net current_bytes n s small = (omega arith, omega arith)
update_on_alloc-net allocations n s small = (omega arith, omega arith)
update_on_alloc-net releases n s small = (omega (arith, small), small)
update_on_alloc-net active n s small = (omega arith, omega arith)

update_on_free-net :
    (c : Counter) (n : ℕ) (s : MemoryStats)
    → value c s < word_mod
    → (value c (update_on_free n s) ≡ (value c s + net c (steps_of (frees n))) % word_mod)
      × (value c (update_on_free n s) < word_mod)
unfolding update_on_free total
update_on_free-net allocated_bytes n s small = (omega (arith, small), small)
update_on_free-net freed_bytes n s small = (omega arith, omega arith)
update_on_free-net current_bytes n s small = (omega arith, omega arith)
update_on_free-net allocations n s small = (omega (arith, small), small)
update_on_free-net releases n s small = (omega arith, omega arith)
update_on_free-net active n s small = (omega arith, omega arith)

calls-net :
    (c : Counter) (es : List Event) (s : MemoryStats)
    → value c s < word_mod
    → (value c (calls es s) ≡ (value c s + net c (thread_steps es)) % word_mod)
      × (value c (calls es s) < word_mod)
unfolding calls
calls-net c [] s small = (unfold total in omega (arith, small), small)
calls-net c (allocates n ∷ es) s small =
    let (here, kept) = update_on_alloc-net c n s small in
    let (later, fits) = calls-net c es (update_on_alloc n s) kept in
    (
      omega (arith, here, later, total-append (delta c) (steps_of (allocates n)) (thread_steps es)),
      fits,
    )
calls-net c (frees n ∷ es) s small =
    let (here, kept) = update_on_free-net c n s small in
    let (later, fits) = calls-net c es (update_on_free n s) kept in
    (
      omega (arith, here, later, total-append (delta c) (steps_of (frees n)) (thread_steps es)),
      fits,
    )

in_turn-net :
    (c : Counter) (threads : List (List Event)) (s : MemoryStats)
    → value c s < word_mod
    → value c (in_turn threads s)
      ≡ (value c s + total (net c) (map thread_steps threads)) % word_mod
unfolding in_turn total
in_turn-net c [] s small = omega (arith, small)
in_turn-net c (es ∷ threads) s small =
    let (here, kept) = calls-net c es s small in
    let later = in_turn-net c threads (calls es s) kept in omega (arith, here, later)

-- However the atomic steps of any number of threads are interleaved, each counter but the peak ends
-- as if the threads had made their calls one after another, from 64-bit counters.
pub run-in_turn :
    (threads : List (List Event)) (steps : List CounterStep) (s : MemoryStats) (c : Counter)
    → Interleaves (map thread_steps threads) steps
    → value c s < word_mod
    → run steps (λ d. value d s) c ≡ value c (in_turn threads s)
run-in_turn threads steps s c order small =
    run-net steps (λ d. value d s) c small
    ∙ rw (Interleaves-net c order, in_turn-net c threads s small)
