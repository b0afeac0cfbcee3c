-- ===== src/Manager/Resize/Content.antt =====
-- The bytes that a reallocation carries over.
use mem_sentry.Base.{
  ℕ, ◌+◌, ◌-◌, ◌≤◌, ◌<◌, ◌≡◌, refl, ◌∷◌, ap, ◌∙◌, ◌⊎◌, inl, inr, ◌≢◌, not, ◌||◌, Bool, false, some,
  arith, ltb, ==_false, if-false, if◌then◌else◌, Bool-cases, List,
}
use mem_sentry.Memory.{Memory, copy}
use mem_sentry.Guard.{is_guard_active}
use mem_sentry.Types.{AllocationRecord}
use mem_sentry.Block.{effective_alignment, verify_canary}
use mem_sentry.Block.Live.{IsLive, IsLive-congr, user_of, user_of-bounds}
use mem_sentry.Block.Outside.{init_block_outside}
use mem_sentry.Block.{poison_block}
use mem_sentry.Block.Poison.{poison_block_outside}
use mem_sentry.Tracker
use mem_sentry.Tracker.Shards.{IsValid}
use mem_sentry.Tracker.View.{find-insert}
use mem_sentry.Manager.State.{Platform, State, SystemCall, mallocs, frees}
use mem_sentry.Manager.Allocate.{footer_size_of, choose_tag}
use mem_sentry.Manager.Free.{is_none}
use mem_sentry.Manager.Realloc.{check_old, reallocate}
use mem_sentry.Manager.Register.{IsTracked, total_of, allocate-Allocated, allocate-init_block}
use mem_sentry.Manager.Release.{
  verdict-cases, verdict_on, verdict_on-mapped, deallocate-Returned, deallocate-Withheld,
}
use mem_sentry.Manager.Resize.{
  fresh, copied, check_old-Untouched, move_block_moved, reallocate_tracked,
}

check_old-memory :
    (ptr : ℕ) (old : AllocationRecord) (s : State) → (check_old ptr old s).memory ≡ s.memory
unfolding check_old
check_old-memory ptr old s =
    let clean = is_none (verify_canary s.memory old.raw_ptr s.config.canary_footer_size) in
    elim (Bool-cases s.config.enable_canary) [
      | inl on ↦ elim (Bool-cases clean) [
        | inl yes_ ↦ rw (check_old, on, yes_)
        | inr no_ ↦ rw (check_old, on, no_)
      ]
      | inr off ↦ rw (check_old, off)
    ]

copy_inside :
    (n : ℕ) (m : Memory) (to from q : ℕ) → q < n → copy n m to from (to + q) ≡ m (from + q)
unfolding copy
copy_inside n m to from q l = let e : to + q - to ≡ q = omega arith in ground (arith, e)

copy_outside :
    (n : ℕ) (m : Memory) (to from q : ℕ) → (q < to) ⊎ (to + n ≤ q) → copy n m to from q ≡ m q
unfolding copy
copy_outside n m to from q out = ground (arith, out)

check_old-calls :
    (ptr : ℕ) (old : AllocationRecord) (s : State) → (check_old ptr old s).calls ≡ s.calls
unfolding check_old
check_old-calls ptr old s =
    let clean = is_none (verify_canary s.memory old.raw_ptr s.config.canary_footer_size) in
    elim (Bool-cases s.config.enable_canary) [
      | inl on ↦ elim (Bool-cases clean) [
        | inl yes_ ↦ rw (check_old, on, yes_)
        | inr no_ ↦ rw (check_old, on, no_)
      ]
      | inr off ↦ rw (check_old, off)
    ]

-- The newest call of the system's allocator, made on memory `m`, leaves the bytes from a to b.
abbrev pub Spares : Platform → List SystemCall → Memory → ℕ → ℕ → Type 0
Spares os calls m a b = (q : ℕ) → a ≤ q → q < b → os.settle calls m q ≡ m q

-- The smaller of the two sizes, as the code computes it.
abbrev pub copy_bytes : ℕ → ℕ → ℕ
copy_bytes old_size new_size = if ltb old_size new_size then old_size else new_size

module _ (os : Platform) (ptr new_size : ℕ) (old : AllocationRecord) (s : State) (raw : ℕ)
    (canary : Bool) (go : IsTracked os new_size old.alignment raw (check_old ptr old s))
    (live : IsLive s.memory old.raw_ptr ptr old.requested_size (footer_size_of s.config) canary)
    (apart : (raw + total_of s.config old.alignment new_size ≤ old.raw_ptr)
      ⊎ (ptr + old.requested_size + footer_size_of s.config ≤ raw))
    (spares_old : Spares os
      (mallocs (total_of s.config old.alignment new_size) raw ∷ s.calls)
      s.memory
      old.raw_ptr
      (ptr + old.requested_size + footer_size_of s.config))
    (spares_new : Spares os
      (frees old.raw_ptr ∷ mallocs (total_of s.config old.alignment new_size) raw ∷ s.calls)
      (poison_block (copied os ptr new_size old s).memory old.raw_ptr (footer_size_of s.config))
      raw
      (raw + total_of s.config old.alignment new_size)) where
  -- What the allocator is called with.
  asked :
      total_of (check_old ptr old s).config old.alignment new_size
      ≡ total_of s.config old.alignment new_size
  asked = ap (λ c. total_of c old.alignment new_size) (check_old-Untouched ptr old s).config

  log :
      {size result : ℕ}
      → size ≡ total_of s.config old.alignment new_size
      → result ≡ raw
      → mallocs size result ∷ (check_old ptr old s).calls
        ≡ mallocs (total_of s.config old.alignment new_size) raw ∷ s.calls
  log e f = rw (e, f, check_old-calls ptr old s)

  fresh_log :
      (fresh os ptr new_size old s).1.calls
      ≡ mallocs (total_of s.config old.alignment new_size) raw ∷ s.calls
  fresh_log =
      let x = check_old ptr old s in
      (allocate-Allocated os new_size old.alignment old.tag raw x go).calls ∙ log asked refl

  -- The old block is as it was after the new one was laid out.
  old_kept :
      (q : ℕ)
      → old.raw_ptr ≤ q
      → q < ptr + old.requested_size + footer_size_of s.config
      → (fresh os ptr new_size old s).1.memory q ≡ s.memory q
  old_kept q lo hi =
      let x = check_old ptr old s in
      let r = allocate-Allocated os new_size old.alignment old.tag raw x go in
      let same : footer_size_of x.config ≡ footer_size_of s.config =
        ap footer_size_of (check_old-Untouched ptr old s).config in
      let b = user_of-bounds go.fits in
      ap (λ (m : Memory). m q) (allocate-init_block os new_size old.alignment old.tag raw x go)
      ∙ init_block_outside os.general _ go.fits x.alloc_counter
          (choose_tag os x.config x.scope_tag old.tag) x.config.enable_canary os.thread_id q
          (out r.user r.inside same b lo hi)
      ∙ ap (λ calls. os.settle calls x.memory q) (log asked go.mapped)
      ∙ ap
          (λ (m : Memory).
            os.settle (mallocs (total_of s.config old.alignment new_size) raw ∷ s.calls) m q)
          (check_old-memory ptr old s)
      ∙ spares_old q lo hi
    where
      out :
          (r0 : (fresh os ptr new_size old s).0 ≡ user_of raw (effective_alignment old.alignment))
          → (fresh os ptr new_size old s).0 + new_size + footer_size_of (check_old ptr old s).config
            ≤ raw + total_of (check_old ptr old s).config old.alignment new_size
          → footer_size_of (check_old ptr old s).config ≡ footer_size_of s.config
          → (raw + 68 ≤ user_of raw (effective_alignment old.alignment))
            × (user_of raw (effective_alignment old.alignment)
                < raw + 68 + effective_alignment (effective_alignment old.alignment))
          → old.raw_ptr ≤ q
          → q < ptr + old.requested_size + footer_size_of s.config
          → (q < raw)
            ⊎ ((user_of raw (effective_alignment old.alignment) ≤ q)
                × (q < user_of raw (effective_alignment old.alignment) + new_size))
            ⊎ (user_of raw (effective_alignment old.alignment)
                  + new_size
                  + footer_size_of (check_old ptr old s).config
                ≤ q)
      out r0 inside same b lo hi = elim apart [
        | inl before ↦ inr (inr (omega arith))
        | inr after ↦ inl (omega arith)
      ]

  -- The payload of the new block lies in the memory that it got.
  new_bounds :
      (raw ≤ (fresh os ptr new_size old s).0)
      × ((fresh os ptr new_size old s).0 + new_size
          ≤ raw + total_of s.config old.alignment new_size)
  new_bounds =
      let x = check_old ptr old s in
      let r = allocate-Allocated os new_size old.alignment old.tag raw x go in
      let user = r.user in
      let inside = r.inside in
      let same : footer_size_of x.config ≡ footer_size_of s.config =
        ap footer_size_of (check_old-Untouched ptr old s).config in
      let b = user_of-bounds go.fits in (omega (arith, user, b), omega (arith, inside, same))

  -- The copy, and the old block after it.
  copied_new :
      (q : ℕ)
      → q < copy_bytes old.requested_size new_size
      → (copied os ptr new_size old s).memory ((fresh os ptr new_size old s).0 + q)
        ≡ s.memory (ptr + q)
  copied_new q l =
      let p = live.place in
      copy_inside (copy_bytes old.requested_size new_size) (fresh os ptr new_size old s).1.memory
        (fresh os ptr new_size old s).0 ptr q l
      ∙ old_kept (ptr + q) (omega arith) (ground arith)

  beside :
      (q : ℕ)
      → old.raw_ptr ≤ q
      → q < ptr + old.requested_size + footer_size_of s.config
      → (q < (fresh os ptr new_size old s).0)
        ⊎ ((fresh os ptr new_size old s).0 + copy_bytes old.requested_size new_size ≤ q)
  beside q lo hi =
      let (start, end) = new_bounds in
      let fewer : copy_bytes old.requested_size new_size ≤ new_size = ground arith in
      elim apart [ inl before ↦ inr (omega arith) | inr after ↦ inl (omega arith) ]

  copied-IsLive :
      IsLive
        (copied os ptr new_size old s).memory
        old.raw_ptr
        ptr
        old.requested_size
        (footer_size_of s.config)
        canary
  copied-IsLive =
      IsLive-congr
        (λ q lo e hi.
          copy_outside (copy_bytes old.requested_size new_size)
            (fresh os ptr new_size old s).1.memory (fresh os ptr new_size old s).0 ptr q
            (beside q lo hi)
          ∙ old_kept q lo hi)
        live

  copied_config : (copied os ptr new_size old s).config ≡ s.config
  copied_config =
      (allocate-Allocated os new_size old.alignment old.tag raw (check_old ptr old s) go).config
      ∙ (check_old-Untouched ptr old s).config

  copied_idle : is_guard_active (copied os ptr new_size old s).depth ≡ false
  copied_idle =
      ap is_guard_active
        (allocate-Allocated os new_size old.alignment old.tag raw (check_old ptr old s) go).depth
      ∙ go.idle

  moved : (fresh os ptr new_size old s).0 ≢ ptr
  moved e =
      let (start, end) = new_bounds in
      let p = live.place in
      let b = user_of-bounds go.fits in
      let u =
        (allocate-Allocated os new_size old.alignment old.tag raw (check_old ptr old s) go).user in
      elim apart [ inl before ↦ omega arith | inr after ↦ omega (arith, u, b) ]

  null_fresh : (fresh os ptr new_size old s).0 ≢ 0
  null_fresh e =
      let b = user_of-bounds go.fits in
      let u =
        (allocate-Allocated os new_size old.alignment old.tag raw (check_old ptr old s) go).user in
      omega (arith, u, b, e)

  copied_found :
      IsValid s.tracker
      → Tracker.find ptr s.tracker ≡ some old
      → Tracker.find ptr (copied os ptr new_size old s).tracker ≡ some old
  copied_found v found =
      let r = allocate-Allocated os new_size old.alignment old.tag raw (check_old ptr old s) go in
      let same = (check_old-Untouched ptr old s).tracker in
      ap (Tracker.find ptr)
        (r.found.1 ∙ ap (Tracker.insert (fresh os ptr new_size old s).0 r.found.0) same)
      ∙ find-insert (fresh os ptr new_size old s).0 ptr r.found.0 s.tracker v null_fresh
      ∙ if-false _ _ (==_false _ _ moved)
      ∙ found

  -- A reallocation of a tracked pointer of a well formed tracker carries over the bytes of the old
  -- block, up to the smaller size: the old block is live in memory, the new size is not 0, the
  -- library is initialized with no guard active, the new allocation is tracked in memory apart from
  -- the old block, the system's malloc of the new block does not write to the old one, which is in
  -- use, and its free of the old block does not write to the new one.
  pub reallocate_content :
      ptr ≢ 0
      → new_size ≢ 0
      → (is_guard_active s.depth || not s.initialized) ≡ false
      → IsValid s.tracker
      → Tracker.find ptr s.tracker ≡ some old
      → (q : ℕ) → q < copy_bytes old.requested_size new_size
      → let r = reallocate os ptr new_size s in (r.1).memory (r.0 + q) ≡ s.memory (ptr + q)
  reallocate_content mapped some_left on v found q l =
      let path =
        reallocate_tracked os ptr new_size s mapped some_left old on found
        ∙ move_block_moved os ptr new_size old s null_fresh in
      let x = copied os ptr new_size old s in
      let (start, end) = new_bounds in
      let few : copy_bytes old.requested_size new_size ≤ new_size = ground arith in
      rw path (elim (verdict-cases (verdict_on old x)) [
        | inl clean ↦
            let freed = deallocate-Returned os ptr old x copied_idle (copied_found v found) clean in
            ap (λ (m : Memory). m ((fresh os ptr new_size old s).0 + q)) freed.memory
            ∙ rw (copied_config, fresh_log)
                (spares_new ((fresh os ptr new_size old s).0 + q) (omega arith) (omega arith)
                  ∙ poison_block_outside copied-IsLive (verdict_on-mapped old x clean)
                      ((fresh os ptr new_size old s).0 + q)
                      (elim apart [
                        | inl before ↦ inl (omega arith)
                        | inr after ↦ inr (inr (omega arith))
                      ]))
            ∙ copied_new q l
        | inr (dirty, _) ↦
            let kept = deallocate-Withheld os ptr old x copied_idle (copied_found v found) dirty in
            ap (λ (m : Memory). m ((fresh os ptr new_size old s).0 + q)) kept.memory
            ∙ copied_new q l
      ])
