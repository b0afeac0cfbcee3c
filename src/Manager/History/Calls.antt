-- ===== src/Manager/History/Calls.antt =====
-- Each call of a client that frees only what it may keeps the books right.
use mem_sentry.Base.{
  ℕ, ◌≡◌, refl, sym, ap, ◌∙◌, ◌≢◌, inl, inr, not, ◌||◌, false, List, [], ◌∷◌, none, some, ◌==◌,
  ==_false, ==_refl, if-true, if-false, eq_or_ne, Bool-cases, arith, subst,
}
use mem_sentry.Types.{AllocationRecord}
use mem_sentry.Block.{verify_canary, get_header_from_user_ptr}
use mem_sentry.Guard.{is_guard_active}
use mem_sentry.Tracker
use mem_sentry.Tracker.Shards.{IsValid}
use mem_sentry.Tracker.View.{find-insert, find_nonzero}
use mem_sentry.Manager.State.{SystemCall, mallocs, reallocs, Platform, State, raw_system_realloc}
use mem_sentry.Manager.Allocate.{allocate}
use mem_sentry.Manager.Free.{is_none, deallocate}
use mem_sentry.Manager.Realloc.{check_old, move_block, reallocate}
use mem_sentry.Manager.Outcome.{allocate-Outcome}
use mem_sentry.Manager.Resize.{
  fresh, copied, check_old-Untouched, move_block_failed, move_block_moved, reallocate_raw,
  reallocate_untracked, reallocate_tracked,
}
use mem_sentry.Manager.History.{
  block_at, IsAllocator, books, IsForeign, HasRoom, Effect, resized, IsSound,
}
use mem_sentry.Manager.History.Soundness.{Effect-IsSound}
use mem_sentry.Manager.History.Effects.{IsSane, MayFree, allocate-Effect, deallocate-Effect}

-- A pointer that a client may reallocate: null, a tracked one while the library is on, or one that
-- the system gave out itself.
pub data MayResize (p size : ℕ) (s : State) : Type 0 where
  null : p ≡ 0 → IsSane size s.config.alignment s.config → MayResize p size s
  moved :
      (old : AllocationRecord)
      → (is_guard_active s.depth || not s.initialized) ≡ false
      → Tracker.find p s.tracker ≡ some old
      → IsSane size old.alignment s.config
      → MayResize p size s
  foreign :
      Tracker.find p s.tracker ≡ none
      → get_header_from_user_ptr s.memory p ≡ none
      → IsForeign p (books s)
      → MayResize p size s

block_at-null : (cs : List SystemCall) → block_at cs 0 ≡ none
unfolding block_at
block_at-null [] = refl
block_at-null (mallocs n p ∷ cs) = ground (arith, block_at-null cs)
block_at-null (SystemCall.frees p ∷ cs) = ground (arith, block_at-null cs)
block_at-null (reallocs p n q ∷ cs) = ground (arith, block_at-null cs)

module _ (os : Platform) (sys : IsAllocator os) where
  pub allocate-IsSound :
      (size alignment tag : ℕ) (s : State)
      → IsSane size alignment s.config
      → HasRoom size (books s)
      → IsSound os (books s)
      → IsSound os (books (allocate os size alignment tag s).1)
  allocate-IsSound size alignment tag s sane room h =
      Effect-IsSound os sys (books s) _ h
        (allocate-Effect os sys size alignment tag s h.log sane room)

  pub deallocate-IsSound :
      (p : ℕ) (s : State)
      → MayFree p s
      → IsSound os (books s)
      → IsSound os (books (deallocate os p s))
  deallocate-IsSound p s may h = Effect-IsSound os sys (books s) _ h (deallocate-Effect os p s may)

  check_old-books :
      (p : ℕ) (old : AllocationRecord) (s : State) → books (check_old p old s) ≡ books s
  unfolding check_old
  check_old-books p old s =
      let verdict = verify_canary s.memory old.raw_ptr s.config.canary_footer_size in
      elim (Bool-cases s.config.enable_canary) [
        | inl on ↦ elim (Bool-cases (is_none verdict)) [
          | inl clean ↦ rw (check_old, on, clean)
          | inr dirty ↦ rw (check_old, on, dirty)
        ]
        | inr off ↦ rw (check_old, off)
      ]

  -- A pointer that was tracked before an allocation is tracked after.
  still_tracked :
      (p size alignment tag : ℕ) (old : AllocationRecord) (s : State)
      → IsValid s.tracker
      → Tracker.find p s.tracker ≡ some old
      → (rec : AllocationRecord) × (Tracker.find p (allocate os size alignment tag s).1.tracker
          ≡ some rec)
  still_tracked p size alignment tag old s v found =
      elim (allocate-Outcome os size alignment tag s) [
        | inl u ↦ (old, rw u.tracker found)
        | inr g ↦ elim (eq_or_ne (allocate os size alignment tag s).0 0) [
          | inl nowhere ↦ (old, rw (g.tracker, nowhere) (unfold Tracker.insert in found))
          | inr mapped ↦
              let law =
                find-insert (allocate os size alignment tag s).0 p g.rec s.tracker v mapped in
              elim (eq_or_ne (allocate os size alignment tag s).0 p) [
                | inl same ↦ (
                  g.rec,
                  rw g.tracker (
                      law
                      ∙ if-true {b = (allocate os size alignment tag s).0 == p} _ _
                          (rw same (==_refl p))),
                )
                | inr other ↦ (
                  old,
                  rw g.tracker (
                      law
                      ∙ if-false {b = (allocate os size alignment tag s).0 == p} _ _
                          (==_false _ p other)
                      ∙ found),
                )
              ]
        ]
      ]

  -- An allocation leaves the recursion depth as it was.
  allocate-depth :
      (size alignment tag : ℕ) (s : State) → (allocate os size alignment tag s).1.depth ≡ s.depth
  allocate-depth size alignment tag s = elim (allocate-Outcome os size alignment tag s) [
    | inl u ↦ u.depth
    | inr g ↦ g.depth
  ]

  move-IsSound :
      (p size : ℕ) (old : AllocationRecord) (s : State)
      → is_guard_active s.depth ≡ false
      → Tracker.find p s.tracker ≡ some old
      → IsSane size old.alignment s.config
      → HasRoom size (books s)
      → IsSound os (books s)
      → IsSound os (books (move_block os p size old s).1)
  move-IsSound p size old s idle found sane room h =
      let s₀ = check_old p old s in
      let same = check_old-Untouched p old s in
      let kept = sym (check_old-books p old s) in
      let r = fresh os p size old s in
      let found₀ : Tracker.find p s₀.tracker ≡ some old =
        ap (Tracker.find p) same.tracker ∙ found in
      let grown : IsSound os (books r.1) =
        allocate-IsSound size old.alignment old.tag s₀
          (subst (IsSane size old.alignment) (sym same.config) sane)
          (subst (HasRoom size) kept room) (subst (IsSound os) kept h) in
      elim (eq_or_ne r.0 0) [
        | inl null_ptr ↦ rw (move_block_failed os p size old s null_ptr) grown
        | inr mapped ↦
            let (rec, there) =
              still_tracked p size old.alignment old.tag old s₀ (rw same.tracker h.in_step.valid)
                found₀ in
            let quiet_depth = allocate-depth size old.alignment old.tag s₀ ∙ same.depth in
            rw (move_block_moved os p size old s mapped) (
              deallocate-IsSound p (copied os p size old s)
                (MayFree.tracked rec (ap is_guard_active quiet_depth ∙ idle) there) grown)
      ]

  free_instead : (p size : ℕ) (s : State) → MayResize p size s → MayFree p s
  free_instead p size s (null z sane) = MayFree.null z
  free_instead p size s (moved old on found sane) = MayFree.tracked old (ground (arith, on)) found
  free_instead p size s (foreign absent bare mine) = MayFree.foreign absent bare mine

  raw_system_realloc-Effect :
      (p size : ℕ) (s : State)
      → p ≢ 0
      → size ≢ 0
      → IsForeign p (books s)
      → Effect os (books s) (books (raw_system_realloc os p size s).1)
  unfolding raw_system_realloc
  raw_system_realloc-Effect p size s nz some_left mine =
      rw (==_false p 0 nz, ==_false size 0 some_left) (resized p size mine refl)

  resize-IsSound :
      (p size : ℕ) (s : State)
      → MayResize p size s
      → HasRoom size (books s)
      → p ≢ 0
      → size ≢ 0
      → IsSound os (books s)
      → IsSound os (books (reallocate os p size s).1)
  resize-IsSound p size s (null z sane) room nz some_left h = absurd (nz z)
  resize-IsSound p size s (moved old on found sane) room nz some_left h =
      rw (reallocate_tracked os p size s nz some_left old on found)
        (move-IsSound p size old s (ground (arith, on)) found sane room h)
  resize-IsSound p size s (foreign absent bare mine) room nz some_left h =
      let raw =
        Effect-IsSound os sys (books s) _ h
          (raw_system_realloc-Effect p size s nz some_left mine) in
      elim (Bool-cases (is_guard_active s.depth || not s.initialized)) [
        | inl off ↦ rw (reallocate_raw os p size s nz some_left off) raw
        | inr on ↦ rw (reallocate_untracked os p size s nz some_left on absent) raw
      ]

  from_null :
      (p size : ℕ) (s : State)
      → MayResize p size s
      → HasRoom size (books s)
      → IsSound os (books s)
      → p ≡ 0
      → IsSound os (books (reallocate os p size s).1)
  from_null p size s (null _ sane) room h z =
      let start : reallocate os p size s ≡ allocate os size s.config.alignment 0 s =
        unfold reallocate in rw z in
      rw start (allocate-IsSound size s.config.alignment 0 s sane room h)
  from_null p size s (moved old on found sane) room h z =
      absurd (find_nonzero p old s.tracker found z)
  from_null p size s (foreign absent bare mine) room h z =
      absurd (mine.out (ap (block_at s.calls) z ∙ block_at-null s.calls))

  pub reallocate-IsSound :
      (p size : ℕ) (s : State)
      → MayResize p size s
      → HasRoom size (books s)
      → IsSound os (books s)
      → IsSound os (books (reallocate os p size s).1)
  reallocate-IsSound p size s may room h = elim (eq_or_ne p 0) [
    | inl z ↦ from_null p size s may room h z
    | inr nz ↦ elim (eq_or_ne size 0) [
      | inl none_left ↦
          let freed : reallocate os p size s ≡ (0, deallocate os p s) =
            unfold reallocate in rw (none_left, ==_false p 0 nz) in
          rw freed (deallocate-IsSound p s (free_instead p size s may) h)
      | inr some_left ↦ resize-IsSound p size s may room nz some_left h
    ]
  ]
