-- ===== src/Sampling/Budget.antt =====
-- Byte-interval sampling: allocations are passed over until their sizes together reach the
-- interval that was drawn, and the one that reaches it is tracked.
use mem_sentry.Base.{
  ℕ, ◌+◌, ◌-◌, ◌^◌, ◌≤◌, ◌<◌, ◌≡◌, refl, Bool, true, false, List, [], ◌∷◌, arith, replicate, length,
}
use mem_sentry.Base.Int.{pos}
use mem_sentry.Sampling.{Doubles, Sampler, sample_bytes, next_geometric_interval}

module _ (fp : Doubles) (address rate : ℕ) where
  -- The decisions on allocations of the given sizes, one after another.
  unfoldable pub decide_all : List ℕ → Sampler → List Bool × Sampler
  decide_all [] s = ([], s)
  decide_all (size ∷ sizes) s =
      let d = sample_bytes fp address rate size s in
      let r = decide_all sizes d.1 in (d.0 ∷ r.0, r.1)

  unfoldable pub sum : List ℕ → ℕ
  sum [] = 0
  sum (n ∷ ns) = n + sum ns

  skip_one :
      (size b : ℕ) (s : Sampler)
      → s.bytes_until_sample ≡ pos b
      → size < b
      → size < 2 ^ 63
      → sample_bytes fp address rate size s
        ≡ (false, record s { bytes_until_sample = pos (b - size) })
  unfolding sample_bytes
  skip_one size b s h lt small = ground (arith, h)

  track_one :
      (size b : ℕ) (s : Sampler)
      → s.bytes_until_sample ≡ pos b
      → 0 < b
      → b ≤ size
      → size < 2 ^ 63
      → let drawn = next_geometric_interval fp address rate s in
        sample_bytes fp address rate size s
        ≡ (true, record (drawn.1) { bytes_until_sample = drawn.0 })
  unfolding sample_bytes
  track_one size b s h positive le small = ground (arith, h)

  -- Sizes whose sum is below the interval are all passed over, and use up their sum of it.
  pub decide_all_below :
      (sizes : List ℕ) (b : ℕ) (s : Sampler)
      → s.bytes_until_sample ≡ pos b
      → sum sizes < b
      → b < 2 ^ 63
      → decide_all sizes s
        ≡ (replicate (length sizes) false, record s { bytes_until_sample = pos (b - sum sizes) })
  unfolding decide_all sum
  decide_all_below [] b s h lt small = ground (arith, h)
  decide_all_below (n ∷ ns) b s h lt small =
      let step = skip_one n b s h (omega arith) (omega arith) in
      let rest =
        decide_all_below ns (b - n) (record s { bytes_until_sample = pos (b - n) }) refl
          (omega arith) (omega arith) in
      let e : b - n - sum ns ≡ b - (n + sum ns) = omega arith in rw (step, rest, e)

  -- Byte-interval sampling: after sizes whose sum is below the interval b, the allocation that
  -- reaches b is tracked and a new interval is drawn (b and its size below 2^63).
  pub decide_reached :
      (sizes : List ℕ) (size b : ℕ) (s : Sampler)
      → s.bytes_until_sample ≡ pos b
      → sum sizes < b
      → b ≤ sum sizes + size
      → b < 2 ^ 63
      → size < 2 ^ 63
      → let before = (decide_all sizes s).1 in
        let drawn = next_geometric_interval fp address rate before in
        sample_bytes fp address rate size before
        ≡ (true, record (drawn.1) { bytes_until_sample = drawn.0 })
  decide_reached sizes size b s h lt reach small fits =
      let before = decide_all_below sizes b s h lt small in
      rw before (track_one size (b - sum sizes) _ refl (omega arith) (omega arith) fits)
