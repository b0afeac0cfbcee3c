-- ===== src/Manager/Resize.antt =====
-- What `reallocate` does on each of its paths.
pub mod Balance
pub mod Content
use mem_sentry.Base.{
  ℕ, ◌+◌, ◌<◌, ◌≡◌, refl, sym, ap, ◌∙◌, ◌⊎◌, inl, inr, ◌≢◌, not, ◌||◌, Bool, true, false, Option,
  some, none, arith, ◌==◌, ==_false, if-true, if-false, Bool-cases, Option-cases, eq_or_ne, ltb,
  if◌then◌else◌,
}
use mem_sentry.Memory.{word_mod, copy}
use mem_sentry.Guard.{is_guard_active}
use mem_sentry.Types.{AllocationRecord, CorruptionType}
use mem_sentry.Block.{verify_canary}
use mem_sentry.Tracker
use mem_sentry.Tracker.View.{find-insert}
use mem_sentry.Manager.State.{Platform, State, raw_system_realloc, raw_system_alloc, alert}
use mem_sentry.Manager.Allocate.{allocate}
use mem_sentry.Manager.Free.{is_none, deallocate}
use mem_sentry.Manager.Realloc.{check_old, move_block, reallocate}
use mem_sentry.Manager.Outcome.{Untouched, Registered, allocate-Outcome}
use mem_sentry.Manager.Accounts.{
  IsBalanced, live_bytes, Untouched-IsBalanced, allocate-IsBalanced, deallocate-IsBalanced,
}

pub check_old-Untouched :
    (ptr : ℕ) (old : AllocationRecord) (s : State) → Untouched s (check_old ptr old s)
unfolding check_old
check_old-Untouched ptr old s =
    let verdict = verify_canary s.memory old.raw_ptr s.config.canary_footer_size in
    elim (Bool-cases s.config.enable_canary) [
      | inl on ↦ elim (Bool-cases (is_none verdict)) [
        | inl clean ↦
            rw (check_old, on, clean)
              (record { stats = refl; tracker = refl; depth = refl; config = refl; alarms = refl })
        | inr dirty ↦
            rw (check_old, on, dirty)
              (record { stats = refl; tracker = refl; depth = refl; config = refl; alarms = refl })
      ]
      | inr off ↦
          rw (check_old, off)
            (record { stats = refl; tracker = refl; depth = refl; config = refl; alarms = refl })
    ]

module _ (os : Platform) (ptr new_size : ℕ) (old : AllocationRecord) (s : State) where
  -- The new block, and the state in which the old one is freed.
  abbrev pub fresh : ℕ × State
  fresh = allocate os new_size old.alignment old.tag (check_old ptr old s)

  abbrev pub copied : State
  copied = record (fresh.1) {
    memory =
        copy (if ltb old.requested_size new_size then old.requested_size else new_size)
          (fresh.1).memory fresh.0 ptr;
  }

  copied-IsBalanced : IsBalanced (fresh.1) → IsBalanced copied
  copied-IsBalanced b = record {
    valid = b.valid;
    active = b.active;
    current = b.current;
    count_fits = b.count_fits;
    bytes_fit = b.bytes_fit;
  }

  pub move_block_failed : fresh.0 ≡ 0 → move_block os ptr new_size old s ≡ (0, fresh.1)
  unfolding move_block
  move_block_failed null = let none_left : (fresh.0 == 0) ≡ true = rw null in if-true _ _ none_left

  pub move_block_moved :
      fresh.0 ≢ 0 → move_block os ptr new_size old s ≡ (fresh.0, deallocate os ptr copied)
  unfolding move_block
  move_block_moved mapped = if-false _ _ (==_false _ _ mapped)

  -- Whether the block moves or not, the counters stay in step.
  move_block-IsBalanced :
      IsBalanced s
      → (move_block os ptr new_size old s).0 ≢ 0
      → Tracker.find (move_block os ptr new_size old s).0 s.tracker ≡ none
      → Tracker.size s.tracker + 1 < word_mod
      → live_bytes s.tracker + new_size < word_mod
      → IsBalanced (move_block os ptr new_size old s).1
  move_block-IsBalanced b nz new hc hb = elim (eq_or_ne fresh.0 0) [
    | inl null ↦ absurd (nz (ap (λ (r : ℕ × State). r.0) (move_block_failed null)))
    | inr mapped ↦
        let moved = move_block_moved mapped in
        let same = check_old-Untouched ptr old s in
        let new' : Tracker.find fresh.0 (check_old ptr old s).tracker ≡ none =
          ap (Tracker.find fresh.0) same.tracker ∙ rw moved at new in
        let grown =
          allocate-IsBalanced os new_size old.alignment old.tag (check_old ptr old s)
            (Untouched-IsBalanced same b) mapped new' (rw same.tracker hc) (rw same.tracker hb) in
        rw moved (deallocate-IsBalanced os ptr copied (copied-IsBalanced grown))
  ]

raw_system_realloc-Untouched :
    (os : Platform) (ptr new_size : ℕ) (s : State)
    → Untouched s (raw_system_realloc os ptr new_size s).1
unfolding raw_system_realloc raw_system_alloc
raw_system_realloc-Untouched os ptr new_size s = elim (eq_or_ne ptr 0) [
  | inl null ↦
      rw null (record { stats = refl; tracker = refl; depth = refl; config = refl; alarms = refl })
  | inr mapped ↦ elim (eq_or_ne new_size 0) [
    | inl none_left ↦
        rw (none_left, ==_false ptr 0 mapped)
          (record { stats = refl; tracker = refl; depth = refl; config = refl; alarms = refl })
    | inr some_left ↦
        rw (==_false new_size 0 some_left, ==_false ptr 0 mapped)
          (record { stats = refl; tracker = refl; depth = refl; config = refl; alarms = refl })
  ]
]

module _ (os : Platform) (ptr new_size : ℕ) (s : State) (mapped : ptr ≢ 0)
    (some_left : new_size ≢ 0) where
  -- With a guard active or before `initialize`, the C library's realloc is called.
  pub reallocate_raw :
      (is_guard_active s.depth || not s.initialized) ≡ true
      → reallocate os ptr new_size s ≡ raw_system_realloc os ptr new_size s
  unfolding reallocate
  reallocate_raw off =
      if-false _ _ (==_false ptr 0 mapped)
      ∙ if-false _ _ (==_false new_size 0 some_left)
      ∙ if-true _ _ off

  pub reallocate_untracked :
      (is_guard_active s.depth || not s.initialized) ≡ false
      → Tracker.find ptr s.tracker ≡ none
      → reallocate os ptr new_size s ≡ raw_system_realloc os ptr new_size s
  unfolding reallocate
  reallocate_untracked on absent =
      if-false _ _ (==_false ptr 0 mapped)
      ∙ if-false _ _ (==_false new_size 0 some_left)
      ∙ if-false _ _ on
      ∙ rw absent

  pub reallocate_tracked :
      (old : AllocationRecord)
      → (is_guard_active s.depth || not s.initialized) ≡ false
      → Tracker.find ptr s.tracker ≡ some old
      → reallocate os ptr new_size s ≡ move_block os ptr new_size old s
  unfolding reallocate
  reallocate_tracked old on found =
      if-false _ _ (==_false ptr 0 mapped)
      ∙ if-false _ _ (==_false new_size 0 some_left)
      ∙ if-false _ _ on
      ∙ rw found
