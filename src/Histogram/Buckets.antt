-- ===== src/Histogram/Buckets.antt =====
-- What the buckets hold after a run of records: each size in the one bucket that covers it.
use mathlib.Core.Path.{ap₂}
use mem_sentry.Base.{
  ℕ, ◌+◌, ◌%◌, ◌<◌, ◌≡◌, refl, ◌∙◌, true, false, List, [], ◌∷◌, map, arith, ltb, Bool-cases, inl,
  inr, if◌then◌else◌, total, All,
}
use mem_sentry.Memory.{word_mod}
use mem_sentry.Types.{AllocationRecord}
use mem_sentry.Histogram.{SizeBucket, AllocationHistogram, new_histogram, covers, record_size, feed}

-- The ranges ascend, so no size is covered twice.
abbrev pub Ascending : AllocationHistogram → Type 0
Ascending [] = Unit
Ascending (b ∷ bs) = All (λ c. b.max_bytes < c.min_bytes) bs × Ascending bs

-- What one recorded size adds to a bucket.
abbrev pub bumped : ℕ → SizeBucket → SizeBucket
bumped size b =
    if covers b size
    then record b {
      count = (b.count + 1) % word_mod;
      total_bytes = (b.total_bytes + size) % word_mod;
    }
    else b

untouched :
    (size : ℕ) (b : SizeBucket) (bs : AllocationHistogram)
    → covers b size ≡ true
    → All (λ c. b.max_bytes < c.min_bytes) bs
    → map (bumped size) bs ≡ bs
untouched size b [] h above = refl
untouched size b (c ∷ cs) h above =
    let far : covers c size ≡ false = ground (arith, above.0) in
    let rest = untouched size b cs h above.1 in rw (far, rest)

-- Stopping at the first bucket that covers the size loses nothing: every bucket that covers it is
-- bumped, and no other.
pub record_size-bumped :
    (size : ℕ) (bs : AllocationHistogram)
    → Ascending bs
    → record_size size bs ≡ map (bumped size) bs
unfolding record_size
record_size-bumped size [] a = refl
record_size-bumped size (b ∷ bs) a = elim (Bool-cases (covers b size)) [
  | inl hit ↦ rw (hit, untouched size b bs hit a.0)
  | inr miss ↦ rw (miss, record_size-bumped size bs a.1)
]

-- The sizes of some records that a bucket covers, counted and summed.
unfoldable pub covered_count : SizeBucket → List AllocationRecord → ℕ
covered_count b [] = 0
covered_count b (r ∷ rs) = (if covers b r.requested_size then 1 else 0) + covered_count b rs

unfoldable pub covered_bytes : SizeBucket → List AllocationRecord → ℕ
covered_bytes b [] = 0
covered_bytes b (r ∷ rs) =
    (if covers b r.requested_size then r.requested_size else 0) + covered_bytes b rs

-- The bucket after all of the records, if nothing wraps.
abbrev pub tallied : List AllocationRecord → SizeBucket → SizeBucket
tallied rs b = record b {
  count = b.count + covered_count b rs;
  total_bytes = b.total_bytes + covered_bytes b rs;
}

abbrev pub Roomy : List AllocationRecord → SizeBucket → Type 0
Roomy rs b =
    (b.count + covered_count b rs < word_mod) × (b.total_bytes + covered_bytes b rs < word_mod)

bumped-Ascending :
    (size : ℕ) (bs : AllocationHistogram) → Ascending bs → Ascending (map (bumped size) bs)
bumped-Ascending size [] a = tt
bumped-Ascending size (b ∷ bs) a = (above b bs a.0, bumped-Ascending size bs a.1)
  where
    above :
        (b : SizeBucket) (cs : AllocationHistogram)
        → All (λ c. b.max_bytes < c.min_bytes) cs
        → All (λ c. (bumped size b).max_bytes < c.min_bytes) (map (bumped size) cs)
    above b [] h = tt
    above b (c ∷ cs) h = (ground (arith, h.0), above b cs h.1)

covered-bumped :
    (n : ℕ) (b : SizeBucket) (rs : List AllocationRecord)
    → (covered_count (bumped n b) rs ≡ covered_count b rs)
      × (covered_bytes (bumped n b) rs ≡ covered_bytes b rs)
unfolding covered_count covered_bytes
covered-bumped n b [] = (refl, refl)
covered-bumped n b (r ∷ rs) =
    let (c, t) = covered-bumped n b rs in
    let same : covers (bumped n b) r.requested_size ≡ covers b r.requested_size = ground arith in
    (rw (same, c), rw (same, t))

bumped-tallied :
    (r : AllocationRecord) (rs : List AllocationRecord) (b : SizeBucket)
    → Roomy (r ∷ rs) b
    → Roomy rs (bumped r.requested_size b)
      × (tallied rs (bumped r.requested_size b) ≡ tallied (r ∷ rs) b)
unfolding covered_count covered_bytes
bumped-tallied r rs b h =
    let (c, t) = covered-bumped r.requested_size b rs in
    (ground (arith, c, t), ground (arith, c, t))

bumped-Roomy :
    (r : AllocationRecord) (rs : List AllocationRecord) (bs : AllocationHistogram)
    → All (Roomy (r ∷ rs)) bs
    → All (Roomy rs) (map (bumped r.requested_size) bs)
      × (map (tallied rs) (map (bumped r.requested_size) bs) ≡ map (tallied (r ∷ rs)) bs)
bumped-Roomy r rs [] h = (tt, refl)
bumped-Roomy r rs (b ∷ bs) h =
    let (roomy, same) = bumped-Roomy r rs bs h.1 in
    let first = bumped-tallied r rs b h.0 in ((first.0, roomy), ap₂ ◌∷◌ first.1 same)

-- After feeding records to buckets with ascending ranges, in which nothing wraps, each bucket has
-- gained the number and the bytes of the records that it covers.
pub feed-tallied :
    (rs : List AllocationRecord) (bs : AllocationHistogram)
    → Ascending bs
    → All (Roomy rs) bs
    → feed rs bs ≡ map (tallied rs) bs
unfolding feed covered_count covered_bytes
feed-tallied [] bs a h = nothing bs
  where
    nothing : (bs : AllocationHistogram) → bs ≡ map (tallied []) bs
    nothing [] = refl
    nothing (b ∷ bs) = ap₂ ◌∷◌ (ground arith) (nothing bs)
feed-tallied (r ∷ rs) bs a h =
    let (roomy, same) = bumped-Roomy r rs bs h in
    let step = record_size-bumped r.requested_size bs a in
    rw step (feed-tallied rs _ (bumped-Ascending r.requested_size bs a) roomy ∙ same)

new_histogram-Ascending : Ascending new_histogram
new_histogram-Ascending = omega arith

-- The buckets of a new histogram cover each 64-bit size but 0 exactly once, and 0 not at all.
pub covered_once :
    (size : ℕ)
    → size < word_mod
    → total (λ b. if covers b size then 1 else 0) new_histogram ≡ (if ltb 0 size then 1 else 0)
unfolding total
covered_once size h = ground arith
