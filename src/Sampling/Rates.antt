-- ===== src/Sampling/Rates.antt =====
-- How many of a run of allocations the two deterministic ways of sampling track.
use native.Mathlib.Nat.{mod-eq_of_lt, add-mod_right}
use mem_sentry.Base.{
  ℕ, zero, suc, ◌+◌, ◌%◌, ◌≤◌, ◌<◌, min, ◌≡◌, refl, ap, ◌∙◌, Bool, arith, ltb, ◌==◌, if◌then◌else◌,
}
use mem_sentry.Types.{Config}
use mem_sentry.Sampling.{Doubles, Sampler, is_sampled}

abbrev pub flag : Bool → ℕ
flag b = if b then 1 else 0

-- How many of the n numbers from a on pass a test.
unfoldable pub tally : (ℕ → Bool) → ℕ → ℕ → ℕ
tally p a zero = 0
tally p a (suc n) = flag (p a) + tally p (suc a) n

tally_last : (p : ℕ → Bool) (a n : ℕ) → tally p a (suc n) ≡ tally p a n + flag (p (a + n))
unfolding tally
tally_last p a zero = let e : a + 0 ≡ a = omega arith in rw e (omega arith)
tally_last p a (suc n) =
    let e : a + suc n ≡ suc a + n = omega arith in rw e (omega (arith, tally_last p (suc a) n))

tally_congr :
    (p q : ℕ → Bool) (a n : ℕ)
    → ((i : ℕ) → a ≤ i → i < a + n → p i ≡ q i)
    → tally p a n ≡ tally q a n
unfolding tally
tally_congr p q a zero h = refl
tally_congr p q a (suc n) h =
    let first = h a (omega arith) (omega arith) in
    let rest = tally_congr p q (suc a) n (λ i lo hi. h i (omega arith) (omega arith)) in
    rw (first, rest)

-- A test of period n passes as often in every window of n numbers.
tally_periodic : (p : ℕ → Bool) (n a : ℕ) → ((i : ℕ) → p (i + n) ≡ p i) → tally p a n ≡ tally p 0 n
tally_periodic p n zero h = refl
tally_periodic p n (suc a) h =
    let both : flag (p a) + tally p (suc a) n ≡ tally p a n + flag (p (a + n)) =
      unfold tally in tally_last p a n in
    omega (arith, both, ap flag (h a), tally_periodic p n a h)

tally_below : (k n : ℕ) → tally (λ i. ltb i k) 0 n ≡ min k n
tally_below k zero = unfold tally in omega arith
tally_below k (suc n) = tally_last (λ i. ltb i k) 0 n ∙ ground (arith, tally_below k n)

-- With byte-interval sampling off and n = `sample_every_n` above 1, of n allocations with
-- consecutive ids exactly one is tracked.
pub every_n_rate :
    (fp : Doubles) (address : ℕ) (config : Config) (size first : ℕ) (s : Sampler)
    → config.sampling_rate_bytes ≡ 0
    → 1 < config.sample_every_n
    → tally (λ id. (is_sampled fp address config size id s).0) first config.sample_every_n ≡ 1
unfolding is_sampled
every_n_rate fp address config size first s off many =
    let n = config.sample_every_n in
    tally_congr _ (λ id. id % n == 0) first n (λ i lo hi. ground (arith, off))
    ∙ tally_periodic (λ id. id % n == 0) n first (λ i. rw (add-mod_right i n))
    ∙ tally_congr _ (λ id. ltb id 1) 0 n
        (λ i lo hi. let e : i % n ≡ i = mod-eq_of_lt (omega arith) in rw e (ground arith))
    ∙ tally_below 1 n
    ∙ omega arith

-- With the other two ways of sampling off and a percentage below 100, of 100 allocations with
-- consecutive ids exactly the percentage is tracked.
pub percentage_rate :
    (fp : Doubles) (address : ℕ) (config : Config) (size first : ℕ) (s : Sampler)
    → config.sampling_rate_bytes ≡ 0
    → config.sample_every_n ≤ 1
    → config.sampling_percentage < 100
    → tally (λ id. (is_sampled fp address config size id s).0) first 100
      ≡ config.sampling_percentage
unfolding is_sampled
percentage_rate fp address config size first s off one few =
    let k = config.sampling_percentage in
    tally_congr _ (λ id. ltb (id % 100) k) first 100 (λ i lo hi. ground (arith, off))
    ∙ tally_periodic (λ id. ltb (id % 100) k) 100 first (λ i. rw (add-mod_right i 100))
    ∙ tally_congr _ (λ id. ltb id k) 0 100 (λ i lo hi. let e : i % 100 ≡ i = omega arith in rw e)
    ∙ tally_below k 100
    ∙ omega arith
