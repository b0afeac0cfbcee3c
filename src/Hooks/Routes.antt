-- ===== src/Hooks/Routes.antt =====
-- What the functions on top of the Manager keep of its guarantees.
use native.Mathlib.Nat.{mul-mod_right}
use native.Mathlib.Omega.{pow_step}
use mem_sentry.Base.{
  ℕ, zero, suc, ◌+◌, ◌-◌, ◌*◌, ◌%◌, ◌^◌, ◌≤◌, ◌<◌, ◌≡◌, refl, ap, ◌∙◌, ◌≢◌, false, not, ◌||◌, inl,
  inr, ◌⊎◌, arith, ==_false, bit_and, if-true, if-false, Bool-cases, eq_or_ne,
}
use mem_sentry.Base.Bits.{bit_and_ones}
use mem_sentry.Memory.{Memory, word_mod, load, store, fill}
use mem_sentry.Memory.Laws.{fill_outside, load-store_self}
use mem_sentry.Guard.{is_guard_active}
use mem_sentry.Block.{effective_alignment, user_address}
use mem_sentry.Block.Live.{user_of-bounds}
use mem_sentry.Block.Layout.{user_address-aligned}
use mem_sentry.Manager.State.{Platform, State}
use mem_sentry.Manager.Allocate.{allocate}
use mem_sentry.Manager.Register.{IsTracked, allocate-Allocated}
use mem_sentry.Hooks.{
  track_alloc, memsentry_calloc, memsentry_aligned_alloc, refuses_alignment,
  memsentry_posix_memalign,
}

-- The test at the front of `track_alloc` is that of `allocate`: the two are one function.
pub track_alloc-allocate :
    (os : Platform) (size alignment tag : ℕ) (s : State)
    → track_alloc os size alignment tag s ≡ allocate os size alignment tag s
unfolding track_alloc
track_alloc-allocate os size alignment tag s =
    elim (Bool-cases (is_guard_active s.depth || not s.initialized)) [
      | inl off ↦ if-true _ _ off ∙ unfold allocate in rw off
      | inr on ↦ if-false _ _ on
    ]

module _ (os : Platform) (num size : ℕ) (s : State) where
  abbrev zeroing : ℕ × State
  zeroing = allocate os (num * size % word_mod) 16 os.calloc_tag s

  calloc_failed : zeroing.0 ≡ 0 → memsentry_calloc os num size s ≡ zeroing
  unfolding memsentry_calloc
  calloc_failed null = rw (track_alloc-allocate os (num * size % word_mod) 16 os.calloc_tag s, null)

  calloc_filled :
      zeroing.0 ≢ 0
      → memsentry_calloc os num size s ≡ (
        zeroing.0,
        record (zeroing.1) { memory = fill (num * size % word_mod) (zeroing.1).memory zeroing.0 0 },
      )
  unfolding memsentry_calloc
  calloc_filled there = rw (
    track_alloc-allocate os (num * size % word_mod) 16 os.calloc_tag s,
    ==_false zeroing.0 0 there,
  )

fill_inside : (n : ℕ) (m : Memory) (a q : ℕ) → a ≤ q → q < a + n → fill n m a 0 q ≡ 0
unfolding fill
fill_inside n m a q lo hi = ground arith

-- A pointer other than null that `memsentry_calloc` returns is that of the allocation of num * size
-- mod 2^64 bytes, its block is zero throughout, and the counters and all bytes outside are as that
-- allocation left them.
pub calloc_zeroed :
    (os : Platform) (num size : ℕ) (s : State)
    → (memsentry_calloc os num size s).0 ≢ 0
    → let total = num * size % word_mod in
      let r = memsentry_calloc os num size s in
      let plain = allocate os total 16 os.calloc_tag s in
      (r.0 ≡ plain.0)
      × ((r.1).stats ≡ (plain.1).stats)
      × ((q : ℕ) → r.0 ≤ q → q < r.0 + total → (r.1).memory q ≡ 0)
      × ((q : ℕ) → (q < r.0) ⊎ (r.0 + total ≤ q) → (r.1).memory q ≡ (plain.1).memory q)
calloc_zeroed os num size s mapped =
    let total = num * size % word_mod in
    let plain = allocate os total 16 os.calloc_tag s in
    elim (eq_or_ne plain.0 0) [
      | inl null ↦
          absurd (mapped (ap (λ (r : ℕ × State). r.0) (calloc_failed os num size s null) ∙ null))
      | inr there ↦ rw (calloc_filled os num size s there) (
        refl,
        refl,
        λ q lo hi. fill_inside total (plain.1).memory plain.0 q lo hi,
        fill_outside total (plain.1).memory plain.0 0,
      )
    ]

effective_alignment-power : (a : ℕ) → 16 ≤ a → effective_alignment a ≡ a
unfolding effective_alignment
effective_alignment-power a wide = ground arith

mul-mod_one : (a : ℕ) → a % a ≡ 0
mul-mod_one a = let e : a * 1 ≡ a = omega arith in rw e at (mul-mod_right a 1)

power-mod_eight : (k : ℕ) → 8 ≤ 2 ^ k → 2 ^ k % 8 ≡ 0
power-mod_eight zero wide = absurd (omega arith)
power-mod_eight (suc zero) wide = absurd (omega arith)
power-mod_eight (suc (suc zero)) wide = absurd (omega arith)
power-mod_eight (suc (suc (suc j))) wide =
    let a = pow_step 2 (suc (suc j)) in
    let b = pow_step 2 (suc j) in let c = pow_step 2 j in omega (arith, a, b, c)

-- The usual trick: a power of two and its predecessor have no bit in common.
pub refuses_alignment-power :
    (k : ℕ) → 8 ≤ 2 ^ k → 2 ^ k < word_mod → refuses_alignment (2 ^ k) ≡ false
unfolding refuses_alignment
refuses_alignment-power k wide fits =
    let before : (2 ^ k + (word_mod - 1)) % word_mod ≡ 2 ^ k - 1 = omega arith in
    let bits : bit_and (2 ^ k) (2 ^ k - 1) ≡ 0 = bit_and_ones k (2 ^ k) ∙ mul-mod_one (2 ^ k) in
    rw (before, bits, power-mod_eight k wide)

posix_memalign-run :
    (os : Platform) (memptr alignment size : ℕ) (s : State)
    → memptr ≢ 0
    → refuses_alignment alignment ≡ false
    → (allocate os size alignment os.aligned_alloc_tag s).0 ≢ 0
    → let r = allocate os size alignment os.aligned_alloc_tag s in
      memsentry_posix_memalign os memptr alignment size s
      ≡ (0, record (r.1) { memory = store 8 (r.1).memory memptr r.0 })
unfolding memsentry_posix_memalign memsentry_aligned_alloc
posix_memalign-run os memptr alignment size s there accepted mapped = rw (
  track_alloc-allocate os size alignment os.aligned_alloc_tag s,
  ==_false memptr 0 there,
  accepted,
  ==_false _ 0 mapped,
)

-- `memsentry_posix_memalign` with a power of two from 16 on as alignment, on an allocation that is
-- tracked and with a target that is not null, returns 0 and writes a pointer that is a multiple of
-- the alignment.
pub posix_memalign_aligned :
    (os : Platform) (memptr k size raw : ℕ) (s : State)
    → memptr ≢ 0
    → 16 ≤ 2 ^ k
    → IsTracked os size (2 ^ k) raw s
    → let r = memsentry_posix_memalign os memptr (2 ^ k) size s in
      (r.0 ≡ 0) × (load 8 (r.1).memory memptr % 2 ^ k ≡ 0)
posix_memalign_aligned os memptr k size raw s there wide go =
    let a = allocate-Allocated os size (2 ^ k) os.aligned_alloc_tag raw s go in
    let r = allocate os size (2 ^ k) os.aligned_alloc_tag s in
    let space = go.fits.space in
    let eff : effective_alignment (2 ^ k) ≡ 2 ^ k = effective_alignment-power (2 ^ k) wide in
    let eff' : effective_alignment (effective_alignment (2 ^ k)) ≡ 2 ^ k =
      ap effective_alignment eff ∙ eff in
    let b = user_of-bounds go.fits in
    let mapped : r.0 ≢ 0 = λ null. omega (arith, b, a.user, null) in
    let accepted = refuses_alignment-power k (omega arith) (omega (arith, eff')) in
    let user : r.0 ≡ user_address raw (2 ^ k) = a.user ∙ rw (eff, eff) in
    let aligned = user_address-aligned raw k wide (omega (arith, eff')) in
    rw (posix_memalign-run os memptr (2 ^ k) size s there accepted mapped) (
      refl,
      ap (λ x. x % 2 ^ k) (load-store_self 8 (r.1).memory memptr r.0 (omega (arith, b, a.user)))
          ∙ rw user aligned,
    )
