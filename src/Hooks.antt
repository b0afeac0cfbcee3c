-- ===== src/Hooks.antt =====
-- src/allocator_hooks.cpp and the end of src/memsentry.cpp: the functions that stand in for those of
-- the C library and the operators of C++, on top of the Manager.
pub mod Routes
use mem_sentry.Base.{
  ℕ, ◌+◌, ◌-◌, ◌*◌, ◌%◌, bit_and, Bool, true, false, not, ◌||◌, Option, none, some, ◌==◌,
  if◌then◌else◌,
}
use mem_sentry.Memory.{word_mod, fill, store}
use mem_sentry.Guard.{is_guard_active}
use mem_sentry.Manager.State.{
  Platform, State, raw_system_alloc, raw_system_free, raw_system_realloc,
}
use mem_sentry.Manager.Allocate.{allocate}
use mem_sentry.Manager.Free.{deallocate}
use mem_sentry.Manager.Realloc.{reallocate}

-- The test of `posix_memalign` on its alignment.
unfoldable pub refuses_alignment : ℕ → Bool
refuses_alignment alignment =
    not (bit_and alignment ((alignment + (word_mod - 1)) % word_mod) == 0)
    || not (alignment % 8 == 0)

module _ (os : Platform) where
  unfoldable pub track_alloc : ℕ → ℕ → ℕ → State → ℕ × State
  unfolding allocate raw_system_alloc
  track_alloc size alignment tag s =
      if is_guard_active s.depth || not s.initialized
      then raw_system_alloc os size s
      else allocate os size alignment tag s

  unfoldable pub track_free : ℕ → State → State
  unfolding deallocate raw_system_free
  track_free ptr s =
      if ptr == 0
      then s
      else if is_guard_active s.depth
      then raw_system_free os ptr s
      else deallocate os ptr s

  unfoldable pub track_realloc : ℕ → ℕ → State → ℕ × State
  unfolding reallocate raw_system_realloc
  track_realloc ptr new_size s =
      if is_guard_active s.depth || not s.initialized
      then raw_system_realloc os ptr new_size s
      else reallocate os ptr new_size s

  unfoldable pub memsentry_malloc : ℕ → State → ℕ × State
  unfolding track_alloc
  memsentry_malloc size = track_alloc size 16 os.malloc_tag

  unfoldable pub memsentry_calloc : ℕ → ℕ → State → ℕ × State
  unfolding track_alloc
  memsentry_calloc num size s =
      let total = num * size % word_mod in
      let r = track_alloc total 16 os.calloc_tag s in
      if r.0 == 0 then r else (r.0, record (r.1) { memory = fill total (r.1).memory r.0 0 })

  unfoldable pub memsentry_realloc : ℕ → ℕ → State → ℕ × State
  unfolding track_realloc
  memsentry_realloc = track_realloc

  unfoldable pub memsentry_free : ℕ → State → State
  unfolding track_free
  memsentry_free = track_free

  unfoldable pub memsentry_aligned_alloc : ℕ → ℕ → State → ℕ × State
  unfolding track_alloc
  memsentry_aligned_alloc alignment size = track_alloc size alignment os.aligned_alloc_tag

  -- The error code, 0 for success; `memptr` is the address that the pointer is written to.
  unfoldable pub memsentry_posix_memalign : ℕ → ℕ → ℕ → State → ℕ × State
  unfolding memsentry_aligned_alloc refuses_alignment
  memsentry_posix_memalign memptr alignment size s =
      let r = memsentry_aligned_alloc alignment size s in
      if memptr == 0
      then (22, s)
      else if refuses_alignment alignment
      then (22, s)
      else if r.0 == 0
      then (12, r.1)
      else (0, record (r.1) { memory = store 8 (r.1).memory memptr r.0 })

  -- The throwing operators new: none stands for `std::bad_alloc`. Without an alignment they pass
  -- the defaults of `track_alloc`, 16 and no tag.
  unfoldable pub operator_new : ℕ → ℕ → State → Option ℕ × State
  unfolding track_alloc
  operator_new size alignment s =
      let r = track_alloc size alignment 0 s in if r.0 == 0 then (none, r.1) else (some r.0, r.1)

  unfoldable pub operator_new_nothrow : ℕ → ℕ → State → ℕ × State
  unfolding track_alloc
  operator_new_nothrow size alignment = track_alloc size alignment 0

  -- All operators delete.
  unfoldable pub operator_delete : ℕ → State → State
  unfolding track_free
  operator_delete = track_free
