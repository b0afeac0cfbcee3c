-- ===== src/Manager/Untracked.antt =====
-- What `deallocate` does with a pointer that has no record.
use mem_sentry.Base.{
  ℕ, ◌≡◌, refl, ap, ◌∙◌, ◌≤◌, inl, inr, ◌≢◌, List, true, false, some, none, Option-cases,
  Bool-cases, ◌==◌, ==_false, eq_or_ne, All, arith,
}
use mem_sentry.Guard.{is_guard_active, inc_guard, dec_guard}
use mem_sentry.Guard.Nesting.{dec-inc}
use mem_sentry.Types.{AllocationRecord, double_free, canary_freed_magic, canary_header_magic}
use mem_sentry.Block.{magic_at, get_header_from_user_ptr, poison_block}
use mem_sentry.Memory.{Memory}
use mem_sentry.Tracker
use mem_sentry.Tracker.{success, not_found, double_free_detected}
use mem_sentry.Tracker.Shards.{IsValid}
use mem_sentry.Tracker.View.{find_nonzero, erase_found, erase_missing}
use mem_sentry.Tracker.Quarantine.{Call, replay}
use mem_sentry.Tracker.Window.{Leaves, erasures, double_free_window}
use mem_sentry.Manager.State.{Platform, State, guarded_unit, raw_system_free, alert}
use mem_sentry.Manager.Free.{
  after_erase, free_untracked, free_unguarded, deallocate_guarded, deallocate,
}
use mem_sentry.Manager.Outcome.{Untouched}
use mem_sentry.Manager.Release.{deallocate-idle, deallocate-Released}

abbrev same_s : (s : State) → Untouched s s
same_s s = record { stats = refl; tracker = refl; depth = refl; config = refl; alarms = refl }

module _ (os : Platform) (p : ℕ) (s : State) where
  raw_system_free-Untouched : Untouched s (raw_system_free os p s)
  unfolding raw_system_free
  raw_system_free-Untouched = elim (eq_or_ne p 0) [
    | inl null ↦ rw null (same_s s)
    | inr mapped ↦
        rw (==_false p 0 mapped)
          (record { stats = refl; tracker = refl; depth = refl; config = refl; alarms = refl })
  ]

module _ (os : Platform) (p : ℕ) (s : State) where
  free_unguarded-Untouched : Untouched s (free_unguarded os p s)
  unfolding free_unguarded
  free_unguarded-Untouched = elim (Option-cases (get_header_from_user_ptr s.memory p)) [
    | inl lost ↦ rw (free_unguarded, lost) (raw_system_free-Untouched os p s)
    | inr (h, found) ↦ elim (Bool-cases (magic_at s.memory h == canary_freed_magic)) [
      | inl freed ↦ rw (free_unguarded, found, freed) (same_s s)
      | inr kept ↦ rw (free_unguarded, found, kept) (raw_system_free-Untouched os h s)
    ]
  ]

  free_untracked-Untouched : Untouched s (free_untracked os p s)
  unfolding free_untracked
  free_untracked-Untouched = elim (Option-cases (get_header_from_user_ptr s.memory p)) [
    | inl lost ↦ rw (free_untracked, lost) (raw_system_free-Untouched os p s)
    | inr (h, found) ↦ elim (Bool-cases (magic_at s.memory h == canary_freed_magic)) [
      | inl freed ↦
          rw (free_untracked, found, freed)
            (record { stats = refl; tracker = refl; depth = refl; config = refl; alarms = refl })
      | inr kept ↦ elim (Bool-cases (magic_at s.memory h == canary_header_magic)) [
        | inl live ↦
            rw (free_untracked, found, kept, live)
              (poisoned (
                raw_system_free-Untouched os h
                  (record s { memory = poison_block s.memory h s.config.canary_footer_size })))
        | inr odd ↦ rw (free_untracked, found, kept, odd) (raw_system_free-Untouched os p s)
      ]
    ]
  ]
    where
      poisoned : {m : Memory} {s' : State} → Untouched (record s { memory = m }) s' → Untouched s s'
      poisoned u = record {
        stats = u.stats;
        tracker = u.tracker;
        depth = u.depth;
        config = u.config;
        alarms = u.alarms;
      }

module _ (os : Platform) (p : ℕ) (s : State) where
  -- `erase` says that there is no record, and leaves the tracker as it is.
  after_erase-Untouched :
      (e : Tracker.Erased) → e.0 ≢ success → e.2 ≡ s.tracker → Untouched s (after_erase os p e s)
  unfolding after_erase
  after_erase-Untouched (success, rec, t) failed same = absurd (failed refl)
  after_erase-Untouched (double_free_detected, rec, t) failed same = record {
    stats = refl;
    tracker = same;
    depth = refl;
    config = refl;
    alarms = refl;
  }
  after_erase-Untouched (not_found, rec, t) failed same =
      let u = free_untracked-Untouched os p (record s { tracker = t }) in
      record {
        stats = u.stats;
        tracker = u.tracker ∙ same;
        depth = u.depth;
        config = u.config;
        alarms = u.alarms;
      }

  after_erase-quarantined :
      (e : Tracker.Erased)
      → e.0 ≡ double_free_detected
      → e.2 ≡ s.tracker
      → after_erase os p e s ≡ alert p double_free s
  unfolding after_erase
  after_erase-quarantined (success, rec, t) seen same = absurd (ground (arith, seen))
  after_erase-quarantined (not_found, rec, t) seen same = absurd (ground (arith, seen))
  after_erase-quarantined (double_free_detected, rec, t) seen same = rw same

module _ (os : Platform) (p : ℕ) (s : State) where
  deallocate_guarded-Untouched :
      Tracker.find p s.tracker ≡ none → Untouched s (guarded_unit (deallocate_guarded os p) s)
  unfolding deallocate_guarded
  deallocate_guarded-Untouched absent =
      let (_, same, failed) = erase_missing p s.tracker absent in
      let u =
        after_erase-Untouched os p (record s { depth = inc_guard s.depth })
          (Tracker.erase p s.tracker) failed same in
      record {
        stats = u.stats;
        tracker = u.tracker;
        depth = ap dec_guard u.depth ∙ dec-inc s.depth;
        config = u.config;
        alarms = u.alarms;
      }

  -- Counters, records and depth are as before.
  pub deallocate-Untouched : Tracker.find p s.tracker ≡ none → Untouched s (deallocate os p s)
  deallocate-Untouched absent = elim (eq_or_ne p 0) [
    | inl null ↦ unfold deallocate in rw null (same_s s)
    | inr nz ↦ elim (Bool-cases (is_guard_active s.depth)) [
      | inl busy ↦ unfold deallocate in rw (==_false p 0 nz, busy) (free_unguarded-Untouched os p s)
      | inr idle ↦ rw (deallocate-idle os p s nz idle) (deallocate_guarded-Untouched absent)
    ]
  ]

  -- With a guard active nothing is counted or forgotten, whatever the pointer.
  pub deallocate_nested-Untouched : is_guard_active s.depth ≡ true → Untouched s (deallocate os p s)
  unfolding deallocate
  deallocate_nested-Untouched busy = elim (eq_or_ne p 0) [
    | inl null ↦ rw null (same_s s)
    | inr nz ↦ rw (==_false p 0 nz, busy) (free_unguarded-Untouched os p s)
  ]

  -- A pointer in quarantine: an alert, and nothing else.
  pub deallocate_quarantined :
      p ≢ 0
      → is_guard_active s.depth ≡ false
      → Tracker.find p s.tracker ≡ none
      → (Tracker.erase p s.tracker).0 ≡ double_free_detected
      → deallocate os p s ≡ alert p double_free s
  unfolding deallocate_guarded
  deallocate_quarantined nz idle absent seen =
      let (_, same, _) = erase_missing p s.tracker absent in
      deallocate-idle os p s nz idle
      ∙ ap (λ (r : State). record r { depth = dec_guard r.depth })
          (after_erase-quarantined os p (record s { depth = inc_guard s.depth })
            (Tracker.erase p s.tracker) seen same)
      ∙ rw (dec-inc s.depth)

-- A tracked pointer that is freed twice, with no guard active and with any tracker calls between
-- that do not insert it again and erase at most 255 times: the second free is an alert of a double
-- free and changes nothing else, so nothing goes to the system twice.
pub double_free_reported :
    (os : Platform) (p : ℕ) (rec : AllocationRecord) (s s' : State) (cs : List Call)
    → IsValid s.tracker
    → is_guard_active s.depth ≡ false
    → is_guard_active s'.depth ≡ false
    → Tracker.find p s.tracker ≡ some rec
    → s'.tracker ≡ replay cs (deallocate os p s).tracker
    → All (Leaves p) cs
    → erasures cs ≤ 255
    → deallocate os p s' ≡ alert p double_free s'
double_free_reported os p rec s s' cs v idle idle' tracked later all few =
    let freed = deallocate-Released os p rec s idle tracked in
    let here : s'.tracker ≡ replay cs (Tracker.erase p s.tracker).2 =
      later ∙ ap (replay cs) freed.tracker in
    let seen =
      ap (λ t. (Tracker.erase p t).0) here
      ∙ double_free_window p rec s.tracker cs v tracked all few in
    let nz = find_nonzero p rec s.tracker tracked in
    elim (Option-cases (Tracker.find p s'.tracker)) [
      | inl absent ↦ deallocate_quarantined os p s' nz idle' absent seen
      | inr (again, found) ↦
          absurd (ground (arith, seen, ap (λ e. e.0) (erase_found p again s'.tracker found).1))
    ]
