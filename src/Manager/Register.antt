-- ===== src/Manager/Register.antt =====
-- An allocation that is tracked: what `allocate` returns, builds in memory and records.
use mem_sentry.Base.{
  ℕ, ◌+◌, ◌≤◌, ◌≡◌, refl, ap, ◌∙◌, ◌||◌, inl, inr, ◌≢◌, ◌∷◌, true, false, not, arith, ◌==◌,
  ==_false, if◌then◌else◌, eq_or_ne, if-true, if-false,
}
use mem_sentry.Guard.{is_guard_active, inc_guard, dec_guard}
use mem_sentry.Guard.Nesting.{dec-inc}
use mem_sentry.Types.{AllocationRecord, Config}
use mem_sentry.Block.{effective_alignment, calculate_total_size, init_block}
use mem_sentry.Block.Layout.{calculate_total_size_lem}
use mem_sentry.Block.Live.{
  IsLive, Fits, user_of, user_of-bounds, init_block-user, init_block-IsLive,
}
use mem_sentry.ScopeTag.{get_current_tag}
use mem_sentry.Sampling.{is_sampled}
use mem_sentry.Stats.{fetch_add, update_on_alloc}
use mem_sentry.Tracker
use mem_sentry.Manager.State.{Platform, State, mallocs, raw_system_alloc}
use mem_sentry.Manager.Allocate.{
  footer_size_of, choose_tag, new_record, register, track, allocate_guarded, allocate,
}
use mem_sentry.Manager.Outcome.{watch-alarms}

-- The tag of a record is the caller's, else that of the scope, else "General", and never depends on
-- the configured default tag (where the literal "General" has an address).
pub choose_tag_lem :
    (os : Platform) (config : Config) (scope_tag tag : ℕ)
    → os.general ≢ 0
    → choose_tag os config scope_tag tag
      ≡ (if not (tag == 0) then tag else if not (scope_tag == 0) then scope_tag else os.general)
unfolding choose_tag get_current_tag
choose_tag_lem os config scope_tag tag there = elim (eq_or_ne scope_tag 0) [
  | inl unset ↦ rw (unset, ==_false os.general 0 there)
  | inr set ↦ rw (==_false scope_tag 0 set, ==_false scope_tag 0 set)
]

-- The bytes that are asked of the system.
abbrev pub total_of : Config → ℕ → ℕ → ℕ
total_of config alignment size = 68 + effective_alignment alignment + size + footer_size_of config

-- An allocation of `size` bytes in state `s` that is tracked: no guard is active, the library is
-- initialized, the sampler picks it, and the system returns memory at `raw` in which the block fits.
pub record IsTracked (os : Platform) (size alignment raw : ℕ) (s : State) : Type 0 where
  pub idle : is_guard_active s.depth ≡ false
  pub started : s.initialized ≡ true
  pub sampled :
      (is_sampled os.doubles os.rng_address s.config size s.alloc_counter s.sampler).0 ≡ true
  pub mapped : os.malloc s.calls (total_of s.config alignment size) ≡ raw
  pub fits : Fits raw size (effective_alignment alignment) (footer_size_of s.config)

-- What is returned, and the state after.
pub record Allocated (os : Platform) (size alignment tag raw : ℕ) (s : State) (r : ℕ × State)
    : Type 0 where
  pub user : r.0 ≡ user_of raw (effective_alignment alignment)
  pub calls : (r.1).calls ≡ mallocs (total_of s.config alignment size) raw ∷ s.calls
  pub alerts : (r.1).alerts ≡ s.alerts
  pub live : IsLive (r.1).memory raw r.0 size (footer_size_of s.config) s.config.enable_canary
  pub inside : r.0 + size + footer_size_of s.config ≤ raw + total_of s.config alignment size
  pub found :
      (rec : AllocationRecord) × ((r.1).tracker ≡ Tracker.insert r.0 rec s.tracker)
      × (rec.raw_ptr ≡ raw)
      × (rec.requested_size ≡ size)
      × (rec.tag ≡ choose_tag os s.config s.scope_tag tag)
  pub stats : (r.1).stats ≡ update_on_alloc size s.stats
  pub depth : (r.1).depth ≡ s.depth
  pub config : (r.1).config ≡ s.config

effective_again : (a : ℕ) → effective_alignment (effective_alignment a) ≡ effective_alignment a
unfolding effective_alignment
effective_again a = ground arith

module _ (os : Platform) (size alignment tag raw : ℕ) (s : State)
    (go : IsTracked os size alignment raw s) where
  total_size :
      calculate_total_size size (effective_alignment alignment) (footer_size_of s.config)
      ≡ total_of s.config alignment size
  total_size =
      let f = go.fits.space in
      let n = go.fits.mapped in
      let again = effective_again alignment in
      let law =
        calculate_total_size_lem size (effective_alignment alignment) (footer_size_of s.config)
          (omega (arith, again)) (omega (arith, again)) in
      ground (arith, law, again)

  track-register :
      (s' : State) (alloc_id : ℕ)
      → s'.config ≡ s.config
      → s'.calls ≡ s.calls
      → track os size alignment tag alloc_id s'
        ≡ register os size
            (effective_alignment alignment)
            (total_of s.config alignment size)
            tag
            alloc_id
            raw
            (raw_system_alloc os (total_of s.config alignment size) s').1
  unfolding track raw_system_alloc
  track-register s' alloc_id config calls =
      let some_bytes : total_of s.config alignment size ≢ 0 = omega arith in
      rw (
        config,
        calls,
        total_size,
        go.mapped,
        ==_false _ _ some_bytes,
        ==_false raw 0 go.fits.mapped,
      )

  abbrev entered : State
  entered = record s {
    depth = inc_guard s.depth;
    alloc_counter = fetch_add s.alloc_counter 1;
    sampler = (is_sampled os.doubles os.rng_address s.config size s.alloc_counter s.sampler).1;
  }

  abbrev leave : ℕ × State → ℕ × State
  leave r = (r.0, record (r.1) { depth = dec_guard (r.1).depth })

  allocate-register :
      allocate os size alignment tag s
      ≡ leave (
          register os size
            (effective_alignment alignment)
            (total_of s.config alignment size)
            tag
            s.alloc_counter
            raw
            (raw_system_alloc os (total_of s.config alignment size) entered).1)
  unfolding allocate allocate_guarded
  allocate-register =
      let on : (is_guard_active s.depth || not s.initialized) ≡ false = rw (go.idle, go.started) in
      if-false _ _ on
      ∙ ap leave (if-true _ _ go.sampled ∙ track-register entered s.alloc_counter refl refl)

  -- An allocation that is tracked (no guard, initialized, sampled, memory at `raw` in which the
  -- block fits) makes one malloc call of the exact total, returns an address whose block lies
  -- inside it and is live in memory, and counts and tracks it with its raw pointer, size and tag;
  -- no alert, same depth.
  pub allocate-Allocated : Allocated os size alignment tag raw s (allocate os size alignment tag s)
  unfolding register new_record raw_system_alloc
  allocate-Allocated =
      let eff_align = effective_alignment alignment in
      let x = (raw_system_alloc os (total_of s.config alignment size) entered).1 in
      let final_tag = choose_tag os s.config s.scope_tag tag in
      let block =
        init_block os.general x.memory raw size eff_align (footer_size_of s.config) s.alloc_counter
          final_tag s.config.enable_canary os.thread_id in
      let rec =
        new_record os s.alloc_counter block.0 raw size (total_of s.config alignment size) eff_align
          final_tag x in
      let (a, quiet) = watch-alarms os (record x {
        memory = block.1;
        stats = update_on_alloc size s.stats;
        tracker = Tracker.insert block.0 rec s.tracker;
      }) in
      let user =
        init_block-user os.general x.memory go.fits s.alloc_counter final_tag s.config.enable_canary
          os.thread_id in
      let live =
        init_block-IsLive os.general x.memory go.fits s.alloc_counter final_tag
          s.config.enable_canary os.thread_id in
      let b = user_of-bounds go.fits in
      let again = effective_again alignment in
      rw (allocate-register, quiet)
        (record {
          user = user;
          calls = rw go.mapped;
          alerts = refl;
          live = rw user live;
          inside = rw user (omega (arith, b, again));
          found = (rec, refl, refl, refl, refl);
          stats = refl;
          depth = dec-inc s.depth;
          config = refl;
        })

  -- The memory that `init_block` leaves is the memory after.
  pub allocate-init_block :
      (allocate os size alignment tag s).1.memory
      ≡ (init_block os.general
          (os.settle
            (mallocs
                (total_of s.config alignment size)
                (os.malloc s.calls (total_of s.config alignment size))
              ∷ s.calls)
            s.memory)
          raw
          size
          (effective_alignment alignment)
          (footer_size_of s.config)
          s.alloc_counter
          (choose_tag os s.config s.scope_tag tag)
          s.config.enable_canary
          os.thread_id).1
  unfolding register raw_system_alloc
  allocate-init_block = rw (allocate-register, (watch-alarms os _).1)
