-- ===== src/Manager/Resize/Balance.antt =====
-- Reallocation and the counters, and a reallocation that fails.
use mem_sentry.Base.{
  ℕ, ◌+◌, ◌<◌, ◌≡◌, refl, sym, ap, ◌∙◌, inl, inr, ◌≢◌, not, ◌||◌, false, some, none, ==_false,
  Bool-cases, Option-cases, eq_or_ne,
}
use mem_sentry.Memory.{word_mod}
use mem_sentry.Guard.{is_guard_active}
use mem_sentry.Types.{AllocationRecord}
use mem_sentry.Tracker
use mem_sentry.Manager.State.{Platform, State}
use mem_sentry.Manager.Allocate.{allocate}
use mem_sentry.Manager.Realloc.{check_old, reallocate}
use mem_sentry.Manager.Outcome.{allocate-Outcome}
use mem_sentry.Manager.Accounts.{IsBalanced, live_bytes, Untouched-IsBalanced, allocate-IsBalanced}
use mem_sentry.Manager.Resize.{
  fresh, check_old-Untouched, move_block_failed, move_block_moved, move_block-IsBalanced,
  raw_system_realloc-Untouched, reallocate_raw, reallocate_untracked, reallocate_tracked,
}

-- What a resizing keeps, of the pointer and the state that it returns.
abbrev KeepsBalance : ℕ → State → ℕ × State → Type 0
KeepsBalance new_size s r =
    r.0 ≢ 0
    → Tracker.find r.0 s.tracker ≡ none
    → Tracker.size s.tracker + 1 < word_mod
    → live_bytes s.tracker + new_size < word_mod
    → IsBalanced r.1

resize-KeepsBalance :
    (os : Platform) (ptr new_size : ℕ) (s : State)
    → IsBalanced s
    → ptr ≢ 0
    → new_size ≢ 0
    → KeepsBalance new_size s (reallocate os ptr new_size s)
resize-KeepsBalance os ptr new_size s b mapped some_left =
    let raw = Untouched-IsBalanced (raw_system_realloc-Untouched os ptr new_size s) b in
    elim (Bool-cases (is_guard_active s.depth || not s.initialized)) [
      | inl off ↦ rw (reallocate_raw os ptr new_size s mapped some_left off) (λ _ _ _ _. raw)
      | inr on ↦ elim (Option-cases (Tracker.find ptr s.tracker)) [
        | inl absent ↦
            rw (reallocate_untracked os ptr new_size s mapped some_left on absent) (λ _ _ _ _. raw)
        | inr (old, found) ↦
            rw (reallocate_tracked os ptr new_size s mapped some_left old on found)
              (move_block-IsBalanced os ptr new_size old s b)
      ]
    ]

-- A reallocation that returns a pointer keeps the counters in step with the tracker on every path,
-- if that pointer had no record before and the counts still fit 64 bits.
pub reallocate-IsBalanced :
    (os : Platform) (ptr new_size : ℕ) (s : State)
    → IsBalanced s
    → (reallocate os ptr new_size s).0 ≢ 0
    → Tracker.find (reallocate os ptr new_size s).0 s.tracker ≡ none
    → Tracker.size s.tracker + 1 < word_mod
    → live_bytes s.tracker + new_size < word_mod
    → IsBalanced (reallocate os ptr new_size s).1
reallocate-IsBalanced os ptr new_size s b = elim (eq_or_ne ptr 0) [
  | inl null ↦ from_null null
  | inr mapped ↦ elim (eq_or_ne new_size 0) [
    | inl none_left ↦ λ nz _ _ _. absurd (nz (frees_all mapped none_left))
    | inr some_left ↦ resize-KeepsBalance os ptr new_size s b mapped some_left
  ]
]
  where
    from_null : ptr ≡ 0 → KeepsBalance new_size s (reallocate os ptr new_size s)
    from_null null =
        let start : reallocate os ptr new_size s ≡ allocate os new_size s.config.alignment 0 s =
          unfold reallocate in rw null in
        rw start (allocate-IsBalanced os new_size s.config.alignment 0 s b)

    frees_all : ptr ≢ 0 → new_size ≡ 0 → (reallocate os ptr new_size s).0 ≡ 0
    frees_all mapped none_left = unfold reallocate in rw (none_left, ==_false ptr 0 mapped)

insert_null : (rec : AllocationRecord) (t : Tracker.ShardedTracker) → Tracker.insert 0 rec t ≡ t
unfolding Tracker.insert
insert_null rec t = refl

-- A reallocation of a tracked pointer to a size other than 0, with no guard active and the library
-- initialized, that returns null leaves the tracker as it was: the old block keeps its record.
pub reallocate_failed :
    (os : Platform) (ptr new_size : ℕ) (old : AllocationRecord) (s : State)
    → ptr ≢ 0
    → new_size ≢ 0
    → (is_guard_active s.depth || not s.initialized) ≡ false
    → Tracker.find ptr s.tracker ≡ some old
    → (reallocate os ptr new_size s).0 ≡ 0
    → (reallocate os ptr new_size s).1.tracker ≡ s.tracker
reallocate_failed os ptr new_size old s mapped some_left on found failed =
    let path = reallocate_tracked os ptr new_size s mapped some_left old on found in
    let r = fresh os ptr new_size old s in
    elim (eq_or_ne r.0 0) [
      | inl null ↦
          rw (path, move_block_failed os ptr new_size old s null)
            (elim (allocate-Outcome os new_size old.alignment old.tag (check_old ptr old s)) [
              | inl u ↦ u.tracker ∙ (check_old-Untouched ptr old s).tracker
              | inr g ↦
                  g.tracker
                  ∙ ap (λ p. Tracker.insert p g.rec (check_old ptr old s).tracker) null
                  ∙ insert_null g.rec (check_old ptr old s).tracker
                  ∙ (check_old-Untouched ptr old s).tracker
            ])
      | inr moved ↦ absurd (
          moved (
            ap (λ (x : ℕ × State). x.0) (sym (path ∙ move_block_moved os ptr new_size old s moved))
            ∙ failed))
    ]
