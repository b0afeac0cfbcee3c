-- ===== src/Manager/Allocate.antt =====
-- `Manager::allocate`.
use mem_sentry.Base.{
  ℕ, not, ◌&&◌, ◌||◌, List, [], ◌∷◌, ◌++◌, min, ltb, ◌==◌, if◌then◌else◌, length, drop, replicate,
}
use mem_sentry.Types.{Config, AllocationRecord}
use mem_sentry.Block.{effective_alignment, calculate_total_size, init_block}
use mem_sentry.Stats.{fetch_add, update_on_alloc}
use mem_sentry.Tracker
use mem_sentry.ScopeTag.{get_current_tag}
use mem_sentry.Sampling.{is_sampled}
use mem_sentry.StackTrace.{capture}
use mem_sentry.Guard.{is_guard_active}
use mem_sentry.Manager.State.{Platform, State, guarded, raw_system_alloc}

abbrev pub footer_size_of : Config → ℕ
footer_size_of config = if config.enable_canary then config.canary_footer_size else 0

module _ (os : Platform) where
  -- The tag of a record: the caller's, else that of the scope, else the configured one.
  unfoldable pub choose_tag : Config → ℕ → ℕ → ℕ
  unfolding get_current_tag
  choose_tag config scope_tag tag =
      let active_tag = get_current_tag os.general scope_tag in
      if not (tag == 0)
      then tag
      else if not (active_tag == 0)
      then active_tag
      else config.default_tag

  -- The frames that are captured for a record, if stack traces are on.
  unfoldable pub capture_frames : State → List ℕ
  capture_frames s =
      if s.config.enable_stacktrace
      then capture (os.backtrace s.calls) (min s.config.max_stack_depth 32)
          s.config.stack_skip_frames
      else []

  -- The record of a block. The call stack is an array of 32 entries that starts out null.
  unfoldable pub new_record : ℕ → ℕ → ℕ → ℕ → ℕ → ℕ → ℕ → State → AllocationRecord
  unfolding capture_frames
  new_record alloc_id user_ptr raw_ptr size total_size eff_align tag s =
      let frames = capture_frames s in
      record {
        allocation_id = alloc_id;
        user_ptr = user_ptr;
        raw_ptr = raw_ptr;
        requested_size = size;
        total_size = total_size;
        alignment = eff_align;
        thread_id = os.thread_id;
        tag = tag;
        timestamp = os.clock s.calls;
        callstack = frames ++ drop (length frames) (replicate 32 0);
        frame_count = length frames;
      }

  -- The watchdog at the end of `allocate`.
  unfoldable pub watch : State → State
  watch s =
      let current = s.stats.current_allocated_bytes in
      let limit = s.config.max_heap_bytes in
      if ltb 0 limit && s.config.on_limit_exceeded
      then (if ltb limit current then record s { alarms = (current, limit) ∷ s.alarms } else s)
      else s

  -- The block is laid out in the raw memory, counted and tracked.
  unfoldable pub register : ℕ → ℕ → ℕ → ℕ → ℕ → ℕ → State → ℕ × State
  unfolding choose_tag new_record watch
  register size eff_align total_size tag alloc_id raw_ptr s =
      let final_tag = choose_tag s.config s.scope_tag tag in
      let block =
        init_block os.general s.memory raw_ptr size eff_align (footer_size_of s.config) alloc_id
          final_tag s.config.enable_canary os.thread_id in
      let rec = new_record alloc_id block.0 raw_ptr size total_size eff_align final_tag s in
      (
        block.0,
        watch (record s {
          memory = block.1;
          stats = update_on_alloc size s.stats;
          tracker = Tracker.insert block.0 rec s.tracker;
        }),
      )

  -- From the computation of the size on.
  unfoldable pub track : ℕ → ℕ → ℕ → ℕ → State → ℕ × State
  unfolding register raw_system_alloc effective_alignment
  track size alignment tag alloc_id s =
      let eff_align = effective_alignment alignment in
      let total_size = calculate_total_size size eff_align (footer_size_of s.config) in
      let raw = raw_system_alloc os total_size s in
      if total_size == 0
      then (0, s)
      else if raw.0 == 0
      then (0, raw.1)
      else register size eff_align total_size tag alloc_id raw.0 raw.1

  -- The body under the guard: the id, the sampling decision, and the two ways on.
  unfoldable pub allocate_guarded : ℕ → ℕ → ℕ → State → ℕ × State
  unfolding track raw_system_alloc
  allocate_guarded size alignment tag s =
      let alloc_id = s.alloc_counter in
      let decision = is_sampled os.doubles os.rng_address s.config size alloc_id s.sampler in
      let s' = record s { alloc_counter = fetch_add s.alloc_counter 1; sampler = decision.1 } in
      if decision.0 then track size alignment tag alloc_id s' else raw_system_alloc os size s'

  unfoldable pub allocate : ℕ → ℕ → ℕ → State → ℕ × State
  unfolding allocate_guarded raw_system_alloc
  allocate size alignment tag s =
      if is_guard_active s.depth || not s.initialized
      then raw_system_alloc os size s
      else guarded (allocate_guarded size alignment tag) s
