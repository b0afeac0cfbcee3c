-- ===== src/Sampling.antt =====
-- The sampling part of `Manager::allocate` and its helpers in src/memsentry.cpp (the version
-- without Windows TLS). Doubles are taken by their bit patterns, and the operations on them are
-- parameters.
pub mod Rates
pub mod Budget
use mem_sentry.Base.{
  ℕ, ◌+◌, ◌-◌, ◌*◌, ◌/◌, ◌%◌, ◌^◌, bit_and, bit_xor, Bool, true, false, not, ltb, leb, ◌==◌,
  if◌then◌else◌,
}
use mem_sentry.Base.Int.{ℤ, pos, ◌+ℤ◌, ◌-ℤ◌, ltb_ℤ, int64}
use mem_sentry.Memory.{word_mod}
use mem_sentry.Types.{Config}

abbrev pub Double : Type 0
Double = ℕ

-- IEEE arithmetic, std::log, the conversions, and the literals 0.0, 1.0, 1e-10 and 2^53.
pub record Doubles : Type 0 where
  pub of_uint64 : ℕ → Double
  pub to_int64 : Double → ℤ
  pub to_uint64 : Double → ℕ
  pub add : Double → Double → Double
  pub div : Double → Double → Double
  pub mul : Double → Double → Double
  pub sub : Double → Double → Double
  pub neg : Double → Double
  pub log : Double → Double
  pub le : Double → Double → Bool
  pub lt : Double → Double → Bool
  pub zero : Double
  pub one : Double
  pub tiny : Double
  pub two_pow_53 : Double

-- The thread-local state.
pub record Sampler : Type 0 where
  pub rng_state : ℕ
  pub bytes_until_sample : ℤ

-- One round of xorshift, on a seed that is not 0; `address` is that of the thread-local itself.
unfoldable pub next_state : ℕ → ℕ → ℕ
next_state address state =
    let s₀ = if state == 0 then bit_xor 0x853c49e6748fea9b address else state in
    let s₁ = bit_xor s₀ (s₀ * 2 ^ 13 % word_mod) in
    let s₂ = bit_xor s₁ (s₁ / 2 ^ 7) in bit_xor s₂ (s₂ * 2 ^ 17 % word_mod)

module _ (fp : Doubles) (address : ℕ) where
  unfoldable pub next_uniform_double : Sampler → Double × Sampler
  unfolding next_state
  next_uniform_double s =
      let state = next_state address s.rng_state in
      (
        fp.div (fp.of_uint64 (bit_and state 0x1FFFFFFFFFFFFF)) fp.two_pow_53,
        record s { rng_state = state },
      )

  unfoldable pub next_geometric_interval : ℕ → Sampler → ℤ × Sampler
  unfolding next_uniform_double ◌+ℤ◌
  next_geometric_interval mean_bytes s =
      let drawn = next_uniform_double s in
      let u₁ = if fp.le drawn.0 fp.zero then fp.tiny else drawn.0 in
      let u₂ = if fp.le fp.one u₁ then fp.sub fp.one fp.tiny else u₁ in
      let scaled = fp.mul (fp.neg (fp.of_uint64 mean_bytes)) (fp.log (fp.sub fp.one u₂)) in
      if mean_bytes == 0 then (pos 0, s) else (fp.to_int64 scaled +ℤ pos 1, drawn.1)

  -- Byte-interval sampling: is this allocation tracked?
  unfoldable pub sample_bytes : ℕ → ℕ → Sampler → Bool × Sampler
  unfolding next_geometric_interval ◌-ℤ◌
  sample_bytes rate size s =
      let expired = not (ltb_ℤ (pos 0) s.bytes_until_sample) in
      let start = if expired then next_geometric_interval rate s else (s.bytes_until_sample, s) in
      let redrawn = next_geometric_interval rate start.1 in
      if ltb_ℤ (int64 size) start.0
      then (false, record (start.1) { bytes_until_sample = start.0 -ℤ int64 size })
      else (true, record (redrawn.1) { bytes_until_sample = redrawn.0 })

  -- The three ways of sampling, in the order of the code. The id is that of the allocation.
  unfoldable pub is_sampled : Config → ℕ → ℕ → Sampler → Bool × Sampler
  unfolding sample_bytes
  is_sampled config size alloc_id s =
      if ltb 0 config.sampling_rate_bytes
      then sample_bytes config.sampling_rate_bytes size s
      else if ltb 1 config.sample_every_n
      then (alloc_id % config.sample_every_n == 0, s)
      else if ltb config.sampling_percentage 100
      then (ltb (alloc_id % 100) config.sampling_percentage, s)
      else (true, s)
