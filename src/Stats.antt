-- ===== src/Stats.antt =====
-- MemoryStats of include/memsentry/types.hpp: seven 64-bit counters that wrap. Each atomic operation
-- is one step; here the operations of one call run without another thread between them, and
-- `Stats.Race` has the loop that raises the peak, and `Stats.Interleaved` the other counters, with
-- the threads interleaved.
pub mod History
pub mod Race
pub mod Interleaved
use mem_sentry.Base.{ℕ, zero, ◌+◌, ◌-◌, ◌%◌, ltb, if◌then◌else◌}
use mem_sentry.Memory.{word_mod}

pub record MemoryStats : Type 0 where
  pub total_allocated_bytes : ℕ
  pub total_freed_bytes : ℕ
  pub current_allocated_bytes : ℕ
  pub peak_allocated_bytes : ℕ
  pub total_allocation_count : ℕ
  pub total_free_count : ℕ
  pub active_allocation_count : ℕ

abbrev pub zero_stats : MemoryStats
zero_stats = record {
  total_allocated_bytes = 0;
  total_freed_bytes = 0;
  current_allocated_bytes = 0;
  peak_allocated_bytes = 0;
  total_allocation_count = 0;
  total_free_count = 0;
  active_allocation_count = 0;
}

abbrev pub fetch_add : ℕ → ℕ → ℕ
fetch_add x n = (x + n) % word_mod

abbrev pub fetch_sub : ℕ → ℕ → ℕ
fetch_sub x n = (x + (word_mod - n)) % word_mod

-- Alone, the loop ends in its first round: it stores the new current value if that is higher.
unfoldable pub raise_peak : ℕ → ℕ → ℕ
raise_peak current peak = if ltb peak current then current else peak

unfoldable pub update_on_alloc : ℕ → MemoryStats → MemoryStats
unfolding raise_peak
update_on_alloc bytes s =
    let current = fetch_add s.current_allocated_bytes bytes in
    record s {
      total_allocated_bytes = fetch_add s.total_allocated_bytes bytes;
      total_allocation_count = fetch_add s.total_allocation_count 1;
      active_allocation_count = fetch_add s.active_allocation_count 1;
      current_allocated_bytes = current;
      peak_allocated_bytes = raise_peak current s.peak_allocated_bytes;
    }

unfoldable pub update_on_free : ℕ → MemoryStats → MemoryStats
update_on_free bytes s = record s {
  total_freed_bytes = fetch_add s.total_freed_bytes bytes;
  total_free_count = fetch_add s.total_free_count 1;
  active_allocation_count = fetch_sub s.active_allocation_count 1;
  current_allocated_bytes = fetch_sub s.current_allocated_bytes bytes;
}
