-- ===== src/Manager/Release.antt =====
-- What `deallocate` does, by the kind of pointer that it is given.
use mem_sentry.Base.{ℕ, ◌≡◌, refl, ap, ◌∙◌, ◌⊎◌, inl, inr, ◌≢◌, ◌∷◌, false, some, arith, ==_false}
use mem_sentry.Guard.{is_guard_active, inc_guard, dec_guard}
use mem_sentry.Guard.Nesting.{dec-inc}
use mem_sentry.Types.{
  AllocationRecord, CorruptionType, intact, header_corrupted, footer_corrupted, double_free,
  use_after_free, untracked_pointer,
}
use mem_sentry.Block.{verify_canary, poison_block}
use mem_sentry.Stats.{update_on_free}
use mem_sentry.Histogram.{record_size}
use mem_sentry.Tracker
use mem_sentry.Tracker.{success, not_found, double_free_detected}
use mem_sentry.Tracker.View.{erase_found}
use mem_sentry.Manager.State.{Platform, State, guarded_unit, frees, raw_system_free}
use mem_sentry.Manager.Allocate.{footer_size_of}
use mem_sentry.Manager.Free.{is_none, after_erase, free_tracked, deallocate_guarded, deallocate}

-- The check passes, or there is something to report.
pub verdict-cases : (v : CorruptionType) → (v ≡ intact) ⊎ ((v ≢ intact) × (is_none v ≡ false))
verdict-cases intact = inl refl
verdict-cases header_corrupted = inr (λ e. ground (arith, e), refl)
verdict-cases footer_corrupted = inr (λ e. ground (arith, e), refl)
verdict-cases double_free = inr (λ e. ground (arith, e), refl)
verdict-cases use_after_free = inr (λ e. ground (arith, e), refl)
verdict-cases untracked_pointer = inr (λ e. ground (arith, e), refl)

-- The verdict on the block of a record.
abbrev pub verdict_on : AllocationRecord → State → CorruptionType
verdict_on rec s = verify_canary s.memory rec.raw_ptr (footer_size_of s.config)

-- A tracked pointer: what is counted and forgotten whatever the verdict.
pub record Released (user_ptr : ℕ) (rec : AllocationRecord) (s s' : State) : Type 0 where
  pub stats : s'.stats ≡ update_on_free rec.requested_size s.stats
  pub free_hist : s'.free_hist ≡ record_size rec.requested_size s.free_hist
  pub tracker : s'.tracker ≡ (Tracker.erase user_ptr s.tracker).2
  pub depth : s'.depth ≡ s.depth
  pub config : s'.config ≡ s.config

module _ (os : Platform) where
  -- The block itself: returned to the system, poisoned, if it is intact.
  pub record Returned (rec : AllocationRecord) (s s' : State) : Type 0 where
    pub calls : s'.calls ≡ frees rec.raw_ptr ∷ s.calls
    pub memory :
        s'.memory
        ≡ os.settle
            (frees rec.raw_ptr ∷ s.calls)
            (poison_block s.memory rec.raw_ptr (footer_size_of s.config))
    pub alerts : s'.alerts ≡ s.alerts

-- Else it is reported, and kept from the system.
pub record Withheld (user_ptr : ℕ) (rec : AllocationRecord) (s s' : State) : Type 0 where
  pub calls : s'.calls ≡ s.calls
  pub memory : s'.memory ≡ s.memory
  pub alerts : s'.alerts ≡ (user_ptr, verdict_on rec s) ∷ s.alerts

pub verdict_on-mapped :
    (rec : AllocationRecord) (s : State) → verdict_on rec s ≡ intact → rec.raw_ptr ≢ 0
unfolding verify_canary
verdict_on-mapped rec s clean null = ground (arith, clean, null)

module _ (os : Platform) (p : ℕ) (rec : AllocationRecord) (s : State) where
  free_tracked-clean :
      verdict_on rec s ≡ intact
      → free_tracked os p rec s ≡ record s {
        stats = update_on_free rec.requested_size s.stats;
        free_hist = record_size rec.requested_size s.free_hist;
        calls = frees rec.raw_ptr ∷ s.calls;
        memory =
            os.settle
              (frees rec.raw_ptr ∷ s.calls)
              (poison_block s.memory rec.raw_ptr (footer_size_of s.config));
      }
  unfolding free_tracked raw_system_free
  free_tracked-clean clean = rw (clean, ==_false rec.raw_ptr 0 (verdict_on-mapped rec s clean))

  free_tracked-dirty :
      verdict_on rec s ≢ intact
      → free_tracked os p rec s ≡ record s {
        stats = update_on_free rec.requested_size s.stats;
        free_hist = record_size rec.requested_size s.free_hist;
        alerts = (p, verdict_on rec s) ∷ s.alerts;
      }
  unfolding free_tracked
  free_tracked-dirty dirty = elim (verdict-cases (verdict_on rec s)) [
    | inl clean ↦ absurd (dirty clean)
    | inr (_, reported) ↦ rw reported
  ]

pub deallocate-idle :
    (os : Platform) (p : ℕ) (s : State)
    → p ≢ 0
    → is_guard_active s.depth ≡ false
    → deallocate os p s ≡ guarded_unit (deallocate_guarded os p) s
unfolding deallocate
deallocate-idle os p s nz idle = rw (==_false p 0 nz, idle)

deallocate_guarded-tracked :
    (os : Platform) (p : ℕ) (rec : AllocationRecord) (s : State)
    → Tracker.find p s.tracker ≡ some rec
    → deallocate_guarded os p s
      ≡ free_tracked os p rec (record s { tracker = (Tracker.erase p s.tracker).2 })
unfolding deallocate_guarded after_erase
deallocate_guarded-tracked os p rec s tracked = rw (erase_found p rec s.tracker tracked).1

module _ (os : Platform) (p : ℕ) (rec : AllocationRecord) (s : State)
    (idle : is_guard_active s.depth ≡ false) (tracked : Tracker.find p s.tracker ≡ some rec) where
  -- The state in which the block is freed.
  abbrev erased : State
  erased = record s { tracker = (Tracker.erase p s.tracker).2; depth = inc_guard s.depth }

  deallocate-free_tracked :
      deallocate os p s
      ≡ (let r = free_tracked os p rec erased in record r { depth = dec_guard r.depth })
  deallocate-free_tracked =
      let (nz, run) = erase_found p rec s.tracker tracked in
      deallocate-idle os p s nz idle
      ∙ ap (λ (r : State). record r { depth = dec_guard r.depth })
          (deallocate_guarded-tracked os p rec (record s { depth = inc_guard s.depth }) tracked)

  -- Whatever the check says, a tracked pointer is counted as freed and forgotten.
  pub deallocate-Released : Released p rec s (deallocate os p s)
  deallocate-Released = elim (verdict-cases (verdict_on rec s)) [
    | inl clean ↦
        rw (deallocate-free_tracked, free_tracked-clean os p rec erased clean)
          (record {
            stats = refl;
            free_hist = refl;
            tracker = refl;
            depth = dec-inc s.depth;
            config = refl;
          })
    | inr (dirty, reported) ↦
        rw (deallocate-free_tracked, free_tracked-dirty os p rec erased dirty)
          (record {
            stats = refl;
            free_hist = refl;
            tracker = refl;
            depth = dec-inc s.depth;
            config = refl;
          })
  ]

  pub deallocate-Returned : verdict_on rec s ≡ intact → Returned os rec s (deallocate os p s)
  deallocate-Returned clean =
      rw (deallocate-free_tracked, free_tracked-clean os p rec erased clean)
        (record { calls = refl; memory = refl; alerts = refl })

  pub deallocate-Withheld : verdict_on rec s ≢ intact → Withheld p rec s (deallocate os p s)
  deallocate-Withheld dirty =
      rw (deallocate-free_tracked, free_tracked-dirty os p rec erased dirty)
        (record { calls = refl; memory = refl; alerts = refl })
