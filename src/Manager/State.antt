-- ===== src/Manager/State.antt =====
-- The state that the Manager and its operations read and write: the members of the Manager, the
-- thread-locals of one thread, the heap, and what was reported; and the platform below it, whose
-- allocator, clock, linker and floating point are parameters.
use mem_sentry.Base.{ℕ, Bool, List, ◌∷◌, ◌==◌, if◌then◌else◌}
use mem_sentry.Base.Int.{ℤ}
use mem_sentry.Memory.{Memory}
use mem_sentry.Types.{Text, Config, CorruptionType}
use mem_sentry.Stats.{MemoryStats}
use mem_sentry.Tracker.{ShardedTracker}
use mem_sentry.Histogram.{AllocationHistogram}
use mem_sentry.Sampling.{Doubles, Sampler}
use mem_sentry.StackTrace.{Linker, SymbolCache}
use mem_sentry.Guard.{inc_guard, dec_guard}

-- The calls of the C library's allocator that are made for the blocks of clients, with their
-- results. The mallocs of the library for itself, as of a map's node in `tracker_.insert` or of the
-- strings of a report, are made under the guard, go straight to the system, and are left out.
pub data SystemCall : Type 0 where
  mallocs : (size result : ℕ) → SystemCall
  frees : (ptr : ℕ) → SystemCall
  reallocs : (ptr size result : ℕ) → SystemCall

-- What the platform does may depend on all calls of its allocator before, newest first. `settle` is
-- the memory after the newest call: the allocator may write its own bookkeeping, and realloc moves
-- bytes. `general` and so on are the addresses of the literals "General", "malloc", "calloc" and
-- "aligned_alloc".
pub record Platform : Type 0 where
  pub malloc : List SystemCall → ℕ → ℕ
  pub realloc : List SystemCall → ℕ → ℕ → ℕ
  pub settle : List SystemCall → Memory → Memory
  pub backtrace : List SystemCall → ℕ → List ℕ
  pub clock : List SystemCall → ℕ
  pub thread_id : ℕ
  pub rng_address : ℕ
  pub doubles : Doubles
  pub linker : Linker
  pub text_at : ℕ → Text
  pub general : ℕ
  pub malloc_tag : ℕ
  pub calloc_tag : ℕ
  pub aligned_alloc_tag : ℕ

-- `alerts` are the corruption alerts and `alarms` the calls of `on_limit_exceeded`, newest first;
-- what such a callback does itself is not modelled. `exit_hooks` counts the atexit registrations,
-- and `provider_initialized` is the flag of the stack trace provider.
pub record State : Type 0 where
  pub config : Config
  pub initialized : Bool
  pub alloc_counter : ℕ
  pub stats : MemoryStats
  pub tracker : ShardedTracker
  pub free_hist : AllocationHistogram
  pub rules : List Text
  pub provider_initialized : Bool
  pub symbol_cache : SymbolCache
  pub exit_hooks : ℕ
  pub memory : Memory
  pub calls : List SystemCall
  pub alerts : List (ℕ × CorruptionType)
  pub alarms : List (ℕ × ℕ)
  pub depth : ℤ
  pub scope_tag : ℕ
  pub sampler : Sampler

-- A `RecursionGuard` around the rest of a function.
abbrev pub guarded {ℓ} : {A : Type ℓ} → (State → A × State) → State → A × State
guarded f s =
    let r = f (record s { depth = inc_guard s.depth }) in
    (r.0, record (r.1) { depth = dec_guard (r.1).depth })

abbrev pub guarded_unit : (State → State) → State → State
guarded_unit f s =
    let r = f (record s { depth = inc_guard s.depth }) in record r { depth = dec_guard r.depth }

module _ (os : Platform) where
  abbrev system_call : SystemCall → State → State
  system_call call s =
      let calls = call ∷ s.calls in record s { calls = calls; memory = os.settle calls s.memory }

  unfoldable pub raw_system_alloc : ℕ → State → ℕ × State
  raw_system_alloc size s = let p = os.malloc s.calls size in (p, system_call (mallocs size p) s)

  unfoldable pub raw_system_free : ℕ → State → State
  raw_system_free ptr s = if ptr == 0 then s else system_call (frees ptr) s

  unfoldable pub raw_system_realloc : ℕ → ℕ → State → ℕ × State
  unfolding raw_system_alloc
  raw_system_realloc ptr new_size s =
      let p = os.realloc s.calls ptr new_size in
      if ptr == 0
      then raw_system_alloc new_size s
      else if new_size == 0
      then (0, system_call (frees ptr) s)
      else (p, system_call (reallocs ptr new_size p) s)

abbrev pub alert : ℕ → CorruptionType → State → State
alert ptr corruption s = record s { alerts = (ptr, corruption) ∷ s.alerts }
