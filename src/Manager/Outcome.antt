-- ===== src/Manager/Outcome.antt =====
-- What one call of the Manager does to the counters and the tracker: nothing, one registration, or
-- one release.
use mem_sentry.Base.{
  ℕ, ◌≡◌, refl, ap, ◌∙◌, ◌⊎◌, inl, inr, not, ◌||◌, ◌&&◌, ltb, List, ◌∷◌, ◌==◌, Bool-cases,
  if◌then◌else◌,
}
use mem_sentry.Block.{effective_alignment, calculate_total_size, init_block}
use mem_sentry.Sampling.{is_sampled}
use mem_sentry.Guard.{is_guard_active, inc_guard, dec_guard}
use mem_sentry.Guard.Nesting.{dec-inc}
use mem_sentry.Types.{Config, AllocationRecord}
use mem_sentry.Stats.{MemoryStats, fetch_add, update_on_alloc}
use mem_sentry.Tracker
use mem_sentry.Manager.State.{Platform, State, guarded, raw_system_alloc}
use mem_sentry.Manager.Allocate.{
  footer_size_of, choose_tag, new_record, watch, register, track, allocate_guarded, allocate,
}

-- The calls of `on_limit_exceeded` after the watchdog has looked at the counters.
abbrev pub alarmed : Config → MemoryStats → List (ℕ × ℕ) → List (ℕ × ℕ)
alarmed config stats alarms =
    if ltb 0 config.max_heap_bytes
      && config.on_limit_exceeded
      && ltb config.max_heap_bytes stats.current_allocated_bytes
    then (stats.current_allocated_bytes, config.max_heap_bytes) ∷ alarms
    else alarms

-- The same counters, alarms, records, settings and depth.
pub record Untouched (s s' : State) : Type 0 where
  pub stats : s'.stats ≡ s.stats
  pub tracker : s'.tracker ≡ s.tracker
  pub depth : s'.depth ≡ s.depth
  pub config : s'.config ≡ s.config
  pub alarms : s'.alarms ≡ s.alarms

-- A block of `size` bytes was counted and tracked under `user`.
pub record Registered (size user : ℕ) (s s' : State) : Type 0 where
  pub rec : AllocationRecord
  pub rec_user : rec.user_ptr ≡ user
  pub rec_size : rec.requested_size ≡ size
  pub stats : s'.stats ≡ update_on_alloc size s.stats
  pub tracker : s'.tracker ≡ Tracker.insert user rec s.tracker
  pub depth : s'.depth ≡ s.depth
  pub config : s'.config ≡ s.config
  pub alarms : s'.alarms ≡ alarmed s.config s'.stats s.alarms

abbrev pub Outcome : ℕ → State → ℕ × State → Type 0
Outcome size s r = Untouched s r.1 ⊎ Registered size r.0 s r.1

-- Steps that touch nothing may come before.
after-Untouched :
    {size : ℕ} {s s₀ : State} (r : ℕ × State)
    → Untouched s s₀
    → Outcome size s₀ r
    → Outcome size s r
after-Untouched {size} r h (inl u) = inl (record {
  stats = u.stats ∙ h.stats;
  tracker = u.tracker ∙ h.tracker;
  depth = u.depth ∙ h.depth;
  config = u.config ∙ h.config;
  alarms = u.alarms ∙ h.alarms;
})
after-Untouched {size} r h (inr g) = inr (record {
  rec = g.rec;
  rec_user = g.rec_user;
  rec_size = g.rec_size;
  stats = g.stats ∙ ap (update_on_alloc size) h.stats;
  tracker = g.tracker ∙ ap (Tracker.insert r.0 g.rec) h.tracker;
  depth = g.depth ∙ h.depth;
  config = g.config ∙ h.config;
  alarms = rw (← h.config, ← h.alarms) g.alarms;
})

guarded-Outcome :
    (f : State → ℕ × State) (size : ℕ) (s : State)
    → ((s' : State) → Outcome size s' (f s'))
    → Outcome size s (guarded f s)
guarded-Outcome f size s h = elim (h (record s { depth = inc_guard s.depth })) [
  | inl u ↦ inl (record {
    stats = u.stats;
    tracker = u.tracker;
    depth = ap dec_guard u.depth ∙ dec-inc s.depth;
    config = u.config;
    alarms = u.alarms;
  })
  | inr r ↦ inr (record {
    rec = r.rec;
    rec_user = r.rec_user;
    rec_size = r.rec_size;
    stats = r.stats;
    tracker = r.tracker;
    depth = ap dec_guard r.depth ∙ dec-inc s.depth;
    config = r.config;
    alarms = r.alarms;
  })
]

watch-alarmed :
    (os : Platform) (s : State)
    → watch os s ≡ record s { alarms = alarmed s.config s.stats s.alarms }
unfolding watch
watch-alarmed os s =
    let limit = s.config.max_heap_bytes in
    elim (Bool-cases (ltb 0 limit)) [
      | inl limited ↦ elim (Bool-cases s.config.on_limit_exceeded) [
        | inl called ↦ elim (Bool-cases (ltb limit s.stats.current_allocated_bytes)) [
          | inl high ↦ rw (limited, called, high)
          | inr low ↦ rw (limited, called, low)
        ]
        | inr silent ↦ rw (limited, silent)
      ]
      | inr free ↦ rw free
    ]

-- The watchdog does no more than report.
pub watch-alarms :
    (os : Platform) (s : State) → (a : List (ℕ × ℕ)) × (watch os s ≡ record s { alarms = a })
watch-alarms os s = (alarmed s.config s.stats s.alarms, watch-alarmed os s)

module _ (os : Platform) (size : ℕ) where
  register-Outcome :
      (eff_align total_size tag alloc_id raw : ℕ) (s : State)
      → Outcome size s (register os size eff_align total_size tag alloc_id raw s)
  unfolding register new_record
  register-Outcome eff_align total_size tag alloc_id raw s =
      let final_tag = choose_tag os s.config s.scope_tag tag in
      let block =
        init_block os.general s.memory raw size eff_align (footer_size_of s.config) alloc_id
          final_tag s.config.enable_canary os.thread_id in
      let rec = new_record os alloc_id block.0 raw size total_size eff_align final_tag s in
      let quiet = watch-alarmed os (record s {
        memory = block.1;
        stats = update_on_alloc size s.stats;
        tracker = Tracker.insert block.0 rec s.tracker;
      }) in
      inr (record {
        rec = rec;
        rec_user = refl;
        rec_size = refl;
        stats = rw quiet;
        tracker = rw quiet;
        depth = rw quiet;
        config = rw quiet;
        alarms = rw quiet;
      })

  system_alloc-Outcome : (n : ℕ) (s : State) → Outcome size s (raw_system_alloc os n s)
  unfolding raw_system_alloc
  system_alloc-Outcome n s =
      inl (record { stats = refl; tracker = refl; depth = refl; config = refl; alarms = refl })

  track-Outcome :
      (alignment tag alloc_id : ℕ) (s : State)
      → Outcome size s (track os size alignment tag alloc_id s)
  unfolding track raw_system_alloc
  track-Outcome alignment tag alloc_id s =
      let eff_align = effective_alignment alignment in
      let total_size = calculate_total_size size eff_align (footer_size_of s.config) in
      let raw = raw_system_alloc os total_size s in
      elim (Bool-cases (total_size == 0)) [
        | inl none_left ↦ rw none_left (
            inl
              (record { stats = refl; tracker = refl; depth = refl; config = refl; alarms = refl }))
        | inr fits ↦ elim (Bool-cases (os.malloc s.calls total_size == 0)) [
          | inl failed ↦
              rw (fits, failed)
                (inl (record {
                  stats = refl;
                  tracker = refl;
                  depth = refl;
                  config = refl;
                  alarms = refl;
                }))
          | inr mapped ↦
              rw (fits, mapped)
                (after-Untouched _
                  (record {
                    stats = refl;
                    tracker = refl;
                    depth = refl;
                    config = refl;
                    alarms = refl;
                  })
                  (register-Outcome eff_align total_size tag alloc_id raw.0 raw.1))
        ]
      ]

  allocate_guarded-Outcome :
      (alignment tag : ℕ) (s : State) → Outcome size s (allocate_guarded os size alignment tag s)
  unfolding allocate_guarded
  allocate_guarded-Outcome alignment tag s =
      let decision = is_sampled os.doubles os.rng_address s.config size s.alloc_counter s.sampler in
      let s' = record s { alloc_counter = fetch_add s.alloc_counter 1; sampler = decision.1 } in
      elim (Bool-cases decision.0) [
        | inl on ↦ rw on (
            after-Untouched _
              (record { stats = refl; tracker = refl; depth = refl; config = refl; alarms = refl })
              (track-Outcome alignment tag s.alloc_counter s'))
        | inr off ↦ rw off (
            after-Untouched _
              (record { stats = refl; tracker = refl; depth = refl; config = refl; alarms = refl })
              (system_alloc-Outcome size s'))
      ]

  -- `allocate` leaves the counters and the tracker alone, or counts the size and tracks the pointer
  -- that it returns; the recursion depth is as before either way.
  pub allocate-Outcome :
      (alignment tag : ℕ) (s : State) → Outcome size s (allocate os size alignment tag s)
  unfolding allocate
  allocate-Outcome alignment tag s =
      elim (Bool-cases (is_guard_active s.depth || not s.initialized)) [
        | inl plain ↦ rw plain (system_alloc-Outcome size s)
        | inr on ↦ rw on (
            guarded-Outcome (allocate_guarded os size alignment tag) size s
              (allocate_guarded-Outcome alignment tag))
      ]
