-- ===== src/Stats/Race.antt =====
-- The loop of `update_on_alloc` that raises the peak, with any number of threads interleaved: the
-- fetch_add, the load and each compare_exchange_weak are single steps, and the exchange may fail
-- also when nothing changed. `high` is not in the code: it is the highest value that `current` has
-- been raised to.
pub mod Invariant
pub mod Progress
use mem_sentry.Base.{
  ℕ, ◌+◌, ◌%◌, ◌≤◌, ◌<◌, max, ◌≡◌, refl, ap, ◌≢◌, ◌⊎◌, inl, inr, arith, ltb, ◌==◌, ==_refl,
  ==_false, eq_or_ne, if◌then◌else◌,
}
use mem_sentry.Stats.{fetch_add, fetch_sub}

-- Where a thread stands: outside, after its fetch_add, or in the loop with the peak that it saw.
pub data Phase : Type 0 where
  outside : Phase
  added : ℕ → Phase
  looping : ℕ → ℕ → Phase

pub record Shared : Type 0 where
  pub current : ℕ
  pub peak : ℕ
  pub high : ℕ
  pub phase : ℕ → Phase

abbrev pub move : (ℕ → Phase) → ℕ → Phase → ℕ → Phase
move f i p j = if i == j then p else f j

-- Thread i makes one step.
pub data Step (s u : Shared) : Type 0 where
  adds :
      (i bytes : ℕ)
      → s.phase i ≡ outside
      → u ≡ record {
        current = fetch_add s.current bytes;
        peak = s.peak;
        high = max s.high (fetch_add s.current bytes);
        phase = move s.phase i (added (fetch_add s.current bytes));
      }
      → Step s u
  loads :
      (i c : ℕ)
      → s.phase i ≡ added c
      → u ≡ record s { phase = move s.phase i (looping c s.peak) }
      → Step s u
  leaves :
      (i c seen : ℕ)
      → s.phase i ≡ looping c seen
      → c ≤ seen
      → u ≡ record s { phase = move s.phase i outside }
      → Step s u
  exchanges :
      (i c seen : ℕ)
      → s.phase i ≡ looping c seen
      → seen < c
      → s.peak ≡ seen
      → u ≡ record s { peak = c; phase = move s.phase i outside }
      → Step s u
  retries :
      (i c seen : ℕ)
      → s.phase i ≡ looping c seen
      → seen < c
      → u ≡ record s { phase = move s.phase i (looping c s.peak) }
      → Step s u
  subtracts : (bytes : ℕ) → u ≡ record s { current = fetch_sub s.current bytes } → Step s u

pub data Steps (s : Shared) : Shared → Type 0 where
  here : Steps s s
  next : {t u : Shared} → Steps s t → Step t u → Steps s u
