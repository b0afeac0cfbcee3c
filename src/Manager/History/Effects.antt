-- ===== src/Manager/History/Effects.antt =====
-- What `allocate`, `deallocate` and `reallocate` do to the books.
use mem_sentry.Base.{
  ℕ, ◌+◌, ◌^◌, ◌≤◌, ◌<◌, ◌≡◌, refl, ◌∙◌, ◌≢◌, ◌⊎◌, inl, inr, not, ◌||◌, false, none, some, ==_false,
  eq_or_ne, Bool-cases, arith, ltb,
}
use mem_sentry.Memory.{word_mod}
use mem_sentry.Types.{AllocationRecord, Config}
use mem_sentry.Block.{
  effective_alignment, calculate_total_size, init_block, get_header_from_user_ptr,
}
use mem_sentry.Block.Layout.{calculate_total_size_lem}
use mem_sentry.Block.Live.{Fits, user_of-bounds, init_block-user}
use mem_sentry.Stats.{fetch_add, update_on_alloc}
use mem_sentry.Sampling.{is_sampled}
use mem_sentry.Guard.{is_guard_active, inc_guard}
use mem_sentry.Tracker
use mem_sentry.Tracker.{success, not_found, double_free_detected}
use mem_sentry.Tracker.View.{erase_missing}
use mem_sentry.Manager.State.{Platform, State, raw_system_alloc, raw_system_free}
use mem_sentry.Manager.Allocate.{
  footer_size_of, choose_tag, new_record, register, track, allocate_guarded, allocate,
}
use mem_sentry.Manager.Free.{
  after_erase, free_untracked, free_unguarded, deallocate_guarded, deallocate,
}
use mem_sentry.Manager.Outcome.{watch-alarms}
use mem_sentry.Manager.Release.{
  verdict-cases, verdict_on, deallocate-idle, deallocate-Released, deallocate-Returned,
  deallocate-Withheld,
}
use mem_sentry.Manager.Untracked.{deallocate_quarantined}
use mem_sentry.Manager.History.{
  IsLog, IsAllocator, books, HasRoom, IsForeign, Effect, quiet, passed, registered, withheld,
  returned, freed,
}

-- A size and an alignment that 64-bit sizes and the 32-bit back offset can express.
pub record IsSane (size alignment : ℕ) (config : Config) : Type 0 where
  pub narrow_size : size < word_mod
  pub narrow : 68 + effective_alignment alignment + footer_size_of config ≤ 2 ^ 32

effective_again : (a : ℕ) → effective_alignment (effective_alignment a) ≡ effective_alignment a
unfolding effective_alignment
effective_again a = ground arith

total-cases :
    (size alignment footer : ℕ)
    → size < word_mod
    → 68 + effective_alignment alignment + footer ≤ 2 ^ 32
    → let total = calculate_total_size size (effective_alignment alignment) footer in
      (total ≡ 0) ⊎ (total ≡ 68 + effective_alignment alignment + size + footer)
total-cases size alignment footer hs hn =
    let again = effective_again alignment in
    let law =
      calculate_total_size_lem size (effective_alignment alignment) footer hs
        (omega (arith, again)) in
    elim (Bool-cases
      (ltb (68 + effective_alignment (effective_alignment alignment) + size + footer) word_mod)) [
        | inl fits ↦ inr (law ∙ rw (fits, again))
        | inr over ↦ inl (law ∙ rw over)
      ]

module _ (os : Platform) (sys : IsAllocator os) (size alignment tag : ℕ) where
  -- The block is registered.
  register-Effect :
      (total alloc_id : ℕ) (s : State)
      → IsLog os s.calls
      → IsSane size alignment s.config
      → HasRoom size (books s)
      → total ≡ 68 + effective_alignment alignment + size + footer_size_of s.config
      → os.malloc s.calls total ≢ 0
      → Effect os (books s) (
          books
            (register os size
              (effective_alignment alignment)
              total
              tag
              alloc_id
              (os.malloc s.calls total)
              (raw_system_alloc os total s).1).1)
  unfolding register new_record raw_system_alloc
  register-Effect total alloc_id s log sane room sum mapped =
      let eff = effective_alignment alignment in
      let raw = os.malloc s.calls total in
      let x = (raw_system_alloc os total s).1 in
      let final_tag = choose_tag os s.config s.scope_tag tag in
      let again = effective_again alignment in
      let space = sys.malloc_space s.calls total log mapped in
      let n = sane.narrow in
      let fits : Fits raw size eff (footer_size_of s.config) = record {
        mapped = mapped;
        space = omega (arith, space, sum, again);
        narrow = omega (arith, again, n);
      } in
      let block =
        init_block os.general x.memory raw size eff (footer_size_of s.config) alloc_id final_tag
          s.config.enable_canary os.thread_id in
      let rec = new_record os alloc_id block.0 raw size total eff final_tag x in
      let user =
        init_block-user os.general x.memory fits alloc_id final_tag s.config.enable_canary
          os.thread_id in
      let b = user_of-bounds fits in
      let (a, same) = watch-alarms os (record x {
        memory = block.1;
        stats = update_on_alloc size s.stats;
        tracker = Tracker.insert block.0 rec s.tracker;
      }) in
      registered block.0 rec refl mapped (omega (arith, user, b))
        (omega (arith, user, b, sum, again)) room (rw same)

  track-Effect :
      (alloc_id : ℕ) (s : State)
      → IsLog os s.calls
      → IsSane size alignment s.config
      → HasRoom size (books s)
      → Effect os (books s) (books (track os size alignment tag alloc_id s).1)
  unfolding track raw_system_alloc
  track-Effect alloc_id s log sane room =
      let eff = effective_alignment alignment in
      let total = calculate_total_size size eff (footer_size_of s.config) in
      elim (eq_or_ne total 0) [
        | inl none_left ↦ rw none_left (quiet refl)
        | inr some_left ↦ elim (eq_or_ne (os.malloc s.calls total) 0) [
          | inl failed ↦ rw (==_false _ 0 some_left, failed) (passed total (rw failed))
          | inr mapped ↦
              rw (==_false total 0 some_left, ==_false _ 0 mapped)
                (register-Effect total alloc_id s log sane room (exact some_left) mapped)
        ]
      ]
    where
      exact :
          calculate_total_size size (effective_alignment alignment) (footer_size_of s.config) ≢ 0
          → calculate_total_size size (effective_alignment alignment) (footer_size_of s.config)
            ≡ 68 + effective_alignment alignment + size + footer_size_of s.config
      exact some_left =
          elim (total-cases size alignment (footer_size_of s.config) sane.narrow_size sane.narrow) [
            | inl zero ↦ absurd (some_left zero)
            | inr sum ↦ sum
          ]

  allocate_guarded-Effect :
      (s : State)
      → IsLog os s.calls
      → IsSane size alignment s.config
      → HasRoom size (books s)
      → Effect os (books s) (books (allocate_guarded os size alignment tag s).1)
  unfolding allocate_guarded raw_system_alloc
  allocate_guarded-Effect s log sane room =
      let decision = is_sampled os.doubles os.rng_address s.config size s.alloc_counter s.sampler in
      let s' = record s { alloc_counter = fetch_add s.alloc_counter 1; sampler = decision.1 } in
      elim (Bool-cases decision.0) [
        | inl on ↦ rw on (track-Effect s.alloc_counter s' log sane room)
        | inr off ↦ rw off (passed size refl)
      ]

  pub allocate-Effect :
      (s : State)
      → IsLog os s.calls
      → IsSane size alignment s.config
      → HasRoom size (books s)
      → Effect os (books s) (books (allocate os size alignment tag s).1)
  unfolding allocate raw_system_alloc
  allocate-Effect s log sane room =
      elim (Bool-cases (is_guard_active s.depth || not s.initialized)) [
        | inl plain ↦ rw plain (passed size refl)
        | inr on ↦
            rw on (allocate_guarded-Effect (record s { depth = inc_guard s.depth }) log sane room)
      ]

-- A pointer that a client may free: null, tracked (and no guard active), in quarantine, or one that
-- the system gave out itself, before which no block header is found.
pub data MayFree (p : ℕ) (s : State) : Type 0 where
  null : p ≡ 0 → MayFree p s
  tracked :
      (rec : AllocationRecord)
      → is_guard_active s.depth ≡ false
      → Tracker.find p s.tracker ≡ some rec
      → MayFree p s
  quarantined :
      is_guard_active s.depth ≡ false
      → Tracker.find p s.tracker ≡ none
      → (Tracker.erase p s.tracker).0 ≡ double_free_detected
      → MayFree p s
  foreign :
      Tracker.find p s.tracker ≡ none
      → get_header_from_user_ptr s.memory p ≡ none
      → IsForeign p (books s)
      → MayFree p s

module _ (os : Platform) (p : ℕ) (s : State) where
  tracked-Effect :
      (rec : AllocationRecord)
      → is_guard_active s.depth ≡ false
      → Tracker.find p s.tracker ≡ some rec
      → Effect os (books s) (books (deallocate os p s))
  tracked-Effect rec idle found =
      let counted = deallocate-Released os p rec s idle found in
      elim (verdict-cases (verdict_on rec s)) [
        | inl clean ↦ returned p rec found (
            rw (
              counted.stats,
              counted.tracker,
              (deallocate-Returned os p rec s idle found clean).calls,
            ))
        | inr (dirty, _) ↦ withheld p rec found (
            rw (
              counted.stats,
              counted.tracker,
              (deallocate-Withheld os p rec s idle found dirty).calls,
            ))
      ]

  -- `erase` finds no record.
  after_erase-Effect :
      (e : Tracker.Erased)
      → e.0 ≢ success
      → e.2 ≡ s.tracker
      → p ≢ 0
      → get_header_from_user_ptr s.memory p ≡ none
      → IsForeign p (books s)
      → Effect os (books s) (books (after_erase os p e s))
  unfolding after_erase free_untracked raw_system_free
  after_erase-Effect (success, rec, t) failed same nz bare mine = absurd (failed refl)
  after_erase-Effect (double_free_detected, rec, t) failed same nz bare mine = quiet (rw same)
  after_erase-Effect (not_found, rec, t) failed same nz bare mine =
      rw (free_untracked, bare, ==_false p 0 nz) (freed p mine (rw same))

  free_unguarded-Effect :
      p ≢ 0
      → get_header_from_user_ptr s.memory p ≡ none
      → IsForeign p (books s)
      → Effect os (books s) (books (free_unguarded os p s))
  unfolding free_unguarded raw_system_free
  free_unguarded-Effect nz bare mine =
      rw (free_unguarded, bare, ==_false p 0 nz) (freed p mine refl)

module _ (os : Platform) (p : ℕ) (s : State) where
  foreign-Effect :
      Tracker.find p s.tracker ≡ none
      → get_header_from_user_ptr s.memory p ≡ none
      → IsForeign p (books s)
      → Effect os (books s) (books (deallocate os p s))
  unfolding deallocate_guarded
  foreign-Effect absent bare mine = elim (eq_or_ne p 0) [
    | inl null_ptr ↦ unfold deallocate in rw null_ptr (quiet refl)
    | inr nz ↦ elim (Bool-cases (is_guard_active s.depth)) [
      | inl busy ↦
          unfold deallocate in
          rw (==_false p 0 nz, busy) (free_unguarded-Effect os p s nz bare mine)
      | inr idle ↦
          let (_, same, failed) = erase_missing p s.tracker absent in
          rw (deallocate-idle os p s nz idle) (
            after_erase-Effect os p (record s { depth = inc_guard s.depth })
              (Tracker.erase p s.tracker) failed same nz bare mine)
    ]
  ]

  pub deallocate-Effect : MayFree p s → Effect os (books s) (books (deallocate os p s))
  deallocate-Effect (null z) = unfold deallocate in rw z (quiet refl)
  deallocate-Effect (tracked rec idle found) = tracked-Effect os p s rec idle found
  deallocate-Effect (foreign absent bare mine) = foreign-Effect absent bare mine
  deallocate-Effect (quarantined idle absent seen) = elim (eq_or_ne p 0) [
    | inl z ↦ unfold deallocate in rw z (quiet refl)
    | inr nz ↦ rw (deallocate_quarantined os p s nz idle absent seen) (quiet refl)
  ]
