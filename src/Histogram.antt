-- ===== src/Histogram.antt =====
-- include/memsentry/profiler/histogram.hpp and fragmentation.hpp: allocation sizes sorted into eight
-- buckets, and the fragmentation report.
pub mod Buckets
use mem_sentry.Base.{
  ℕ, ◌+◌, ◌-◌, ◌%◌, Bool, true, false, ◌&&◌, List, [], ◌∷◌, ltb, leb, if◌then◌else◌,
}
use mem_sentry.Memory.{word_mod}
use mem_sentry.Types.{Text, codes, AllocationRecord}
use mem_sentry.Stats.{MemoryStats}
use mem_sentry.Sampling.{Doubles, Double}

pub record SizeBucket : Type 0 where
  pub label : Text
  pub min_bytes : ℕ
  pub max_bytes : ℕ
  pub count : ℕ
  pub total_bytes : ℕ

abbrev pub empty_bucket : Text → ℕ → ℕ → SizeBucket
empty_bucket label lo hi = record {
  label = label;
  min_bytes = lo;
  max_bytes = hi;
  count = 0;
  total_bytes = 0;
}

abbrev pub AllocationHistogram : Type 0
AllocationHistogram = List SizeBucket

abbrev pub new_histogram : AllocationHistogram
new_histogram =
    empty_bucket (codes "[1 - 16 B]") 1 16
    ∷ empty_bucket (codes "[17 - 64 B]") 17 64
    ∷ empty_bucket (codes "[65 - 256 B]") 65 256
    ∷ empty_bucket (codes "[257 B - 1 KB]") 257 1024
    ∷ empty_bucket (codes "[1 KB - 4 KB]") 1025 4096
    ∷ empty_bucket (codes "[4 KB - 64 KB]") 4097 65536
    ∷ empty_bucket (codes "[64 KB - 1 MB]") 65537 1048576
    ∷ empty_bucket (codes "[> 1 MB]") 1048577 (word_mod - 1)
    ∷ []

abbrev pub covers : SizeBucket → ℕ → Bool
covers b size = leb b.min_bytes size && leb size b.max_bytes

-- The first bucket that covers the size counts it.
unfoldable pub record_size : ℕ → AllocationHistogram → AllocationHistogram
record_size size [] = []
record_size size (b ∷ bs) =
    if covers b size
    then record b {
      count = (b.count + 1) % word_mod;
      total_bytes = (b.total_bytes + size) % word_mod;
    }
      ∷ bs
    else b ∷ record_size size bs

unfoldable pub feed : List AllocationRecord → AllocationHistogram → AllocationHistogram
unfolding record_size
feed [] h = h
feed (rec ∷ recs) h = feed recs (record_size rec.requested_size h)

pub record FragmentationReport : Type 0 where
  pub external_fragmentation_ratio : Double
  pub peak_allocated_bytes : ℕ
  pub current_allocated_bytes : ℕ
  pub total_freed_bytes : ℕ
  pub total_freed_blocks : ℕ
  pub avg_freed_block_size : Double
  pub active_buckets : AllocationHistogram
  pub freed_buckets : AllocationHistogram

-- `FragmentationAnalyzer::analyze`, over the histogram of the freed sizes.
unfoldable pub analyze :
    Doubles → MemoryStats → List AllocationRecord → AllocationHistogram → FragmentationReport
unfolding feed
analyze fp stats active_records freed = record {
  external_fragmentation_ratio =
      if ltb 0 stats.peak_allocated_bytes
      then fp.sub fp.one (
          fp.div (fp.of_uint64 stats.current_allocated_bytes)
            (fp.of_uint64 stats.peak_allocated_bytes))
      else fp.zero;
  peak_allocated_bytes = stats.peak_allocated_bytes;
  current_allocated_bytes = stats.current_allocated_bytes;
  total_freed_bytes = stats.total_freed_bytes;
  total_freed_blocks = stats.total_free_count;
  avg_freed_block_size =
      if ltb 0 stats.total_free_count
      then fp.div (fp.of_uint64 stats.total_freed_bytes) (fp.of_uint64 stats.total_free_count)
      else fp.zero;
  active_buckets = feed active_records new_histogram;
  freed_buckets = freed;
}
