-- ===== src/Block/Layout.antt =====
-- Where the payload of a block lies: alignment, and that everything fits the bytes asked for.
-- `calculate_total_size` and the address arithmetic of `init_block`.
use native.Mathlib.Nat.{div-add-mod, mul-mod_right}
use mem_sentry.Base.{
  ℕ, ◌+◌, ◌-◌, ◌*◌, ◌/◌, ◌%◌, ◌^◌, ◌≤◌, ◌<◌, ◌≡◌, bit_and, arith, ltb, if◌then◌else◌,
}
use mem_sentry.Base.Bits.{bit_and_complement, bit_and-le, bit_and_ones}
use mem_sentry.Memory.{word_mod}
use mem_sentry.Block.{effective_alignment, calculate_total_size, user_address}

pub effective_alignment-ge : (a : ℕ) → 16 ≤ effective_alignment a
unfolding effective_alignment
effective_alignment-ge a = ground arith

-- The masked address, as the sum less its masked-off bits.
user_address-split :
    (raw_addr eff : ℕ)
    → 16 ≤ eff
    → raw_addr + 68 + eff ≤ word_mod
    → user_address raw_addr eff + bit_and (raw_addr + 68 + (eff - 1)) (eff - 1)
      ≡ raw_addr + 68 + (eff - 1)
unfolding user_address
user_address-split raw_addr eff lo hi =
    let start : (raw_addr + 64 + 4) % word_mod ≡ raw_addr + 68 = omega arith in
    let rounded : (raw_addr + 68 + (eff - 1)) % word_mod ≡ raw_addr + 68 + (eff - 1) =
      omega arith in
    rw (start, rounded)
      (bit_and_complement 64 (raw_addr + 68 + (eff - 1)) (eff - 1) (omega arith) (omega arith))

-- The payload starts after the header and the back offset, and less than the alignment later.
pub user_address-bounds :
    (raw_addr eff : ℕ)
    → 16 ≤ eff
    → raw_addr + 68 + eff ≤ word_mod
    → (raw_addr + 68 ≤ user_address raw_addr eff)
      × (user_address raw_addr eff < raw_addr + 68 + eff)
user_address-bounds raw_addr eff lo hi =
    let split = user_address-split raw_addr eff lo hi in
    let masked = bit_and-le 64 (raw_addr + 68 + (eff - 1)) (eff - 1) (omega arith) (omega arith) in
    omega (arith, split, masked)

-- For a power of two the payload is aligned.
pub user_address-aligned :
    (raw_addr k : ℕ)
    → 16 ≤ 2 ^ k
    → raw_addr + 68 + 2 ^ k ≤ word_mod
    → user_address raw_addr (2 ^ k) % 2 ^ k ≡ 0
user_address-aligned raw_addr k lo hi =
    let y = raw_addr + 68 + (2 ^ k - 1) in
    let split = user_address-split raw_addr (2 ^ k) lo hi in
    let ones = bit_and_ones k y in
    let quotient = div-add-mod y (2 ^ k) in
    let whole : user_address raw_addr (2 ^ k) ≡ 2 ^ k * (y / 2 ^ k) =
      omega (arith, split, ones, quotient) in
    rw whole (mul-mod_right (2 ^ k) (y / 2 ^ k))

-- The size asked of the system: 0 exactly when it would not fit a size_t, else the exact sum.
pub calculate_total_size_lem :
    (size alignment footer : ℕ)
    → size < word_mod
    → 68 + effective_alignment alignment + footer < word_mod
    → calculate_total_size size alignment footer ≡ (
        if ltb (68 + effective_alignment alignment + size + footer) word_mod
        then 68 + effective_alignment alignment + size + footer
        else 0)
unfolding calculate_total_size
calculate_total_size_lem size alignment footer hs hm =
    let eff = effective_alignment alignment in
    let offset : (64 + 4 + eff) % word_mod ≡ 68 + eff = omega arith in
    let room : (word_mod - 1 + (word_mod - (68 + eff)) + (word_mod - footer)) % word_mod
        ≡ word_mod - 1 - (68 + eff) - footer =
      omega arith in
    rw (offset, room) (ground arith)
