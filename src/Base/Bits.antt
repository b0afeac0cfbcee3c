-- ===== src/Base/Bits.antt =====
-- Masks: `x & (2 ^ k - 1)` and `x & ~m` on words, from the digit recursion of the native operation.
use Prim.Native.Nat.{digits, bit_and-bitwise}
use native.Mathlib.Nat.{pow-suc, mod-lt, mod-eq_of_lt, div-add-mod, mul-add-mod_self_left}
use mem_sentry.Base.{
  ℕ, zero, suc, ◌+◌, ◌-◌, ◌*◌, ◌/◌, ◌%◌, ◌^◌, ◌≤◌, ◌<◌, min, bit_and, ◌≡◌, refl, sym, ap, ◌∙◌,
  arith,
}

-- Digit by digit, in as many rounds as are given.
abbrev conjoin : (x y rounds : ℕ) → ℕ
conjoin x y rounds = digits (λ _. 0) min rounds x y

-- Any two numbers of rounds that reach up to x give the same.
conjoin_rounds : (x y r t : ℕ) → (x ≤ r) × (x ≤ t) → conjoin x y r ≡ conjoin x y t
conjoin_rounds zero y r t _ = conjoin_none y r ∙ sym (conjoin_none y t)
  where
    conjoin_none : (y r : ℕ) → conjoin 0 y r ≡ 0
    conjoin_none y zero = refl
    conjoin_none y (suc r) = refl
conjoin_rounds (suc x) y zero t reach = absurd (omega (arith, reach.0))
conjoin_rounds (suc x) y (suc r) zero reach = absurd (omega (arith, reach.1))
conjoin_rounds (suc x) y (suc r) (suc t) reach =
    let halves = conjoin_rounds (suc x / 2) (y / 2) r t (omega arith, omega arith) in
    omega (arith, halves)

null-bit_and : (y : ℕ) → bit_and 0 y ≡ 0
null-bit_and y = bit_and-bitwise 0 y

-- The lowest digit and the rest.
pub bit_and_halves : (x y : ℕ) → bit_and x y ≡ min (x % 2) (y % 2) + 2 * bit_and (x / 2) (y / 2)
bit_and_halves zero y =
    let none_here = null-bit_and y in
    let none_there = null-bit_and (y / 2) in omega (arith, none_here, none_there)
bit_and_halves (suc x) y =
    let half = suc x / 2 in
    let shorter = conjoin_rounds half (y / 2) x half (omega arith, omega arith) in
    let whole = bit_and-bitwise (suc x) y in
    let rest = bit_and-bitwise half (y / 2) in omega (arith, whole, rest, shorter)

-- A mask of no bits, on numbers of w bits.
bit_and-none : (w x : ℕ) → x < 2 ^ w → bit_and x 0 ≡ 0
bit_and-none zero x small = let z : x ≡ 0 = omega arith in rw z (null-bit_and 0)
bit_and-none (suc w) x small =
    let half = bit_and-none w (x / 2) (omega (arith, pow-suc 2 w)) in
    omega (arith, half, bit_and_halves x 0)

below_power : (x : ℕ) → x < 2 ^ x
below_power zero = omega arith
below_power (suc x) = omega (arith, pow-suc 2 x, below_power x)

-- `x & m` and `x & ~m` share out the bits of x, for every mask of w bits.
pub bit_and_complement :
    (w a m : ℕ) → a < 2 ^ w → m < 2 ^ w → bit_and a (2 ^ w - 1 - m) + bit_and a m ≡ a
bit_and_complement zero a m ha hm =
    let za : a ≡ 0 = omega arith in
    rw za (omega (arith, null-bit_and (2 ^ 0 - 1 - m), null-bit_and m))
bit_and_complement (suc w) a m ha hm =
    let pw = pow-suc 2 w in
    let half : (2 ^ suc w - 1 - m) / 2 ≡ 2 ^ w - 1 - m / 2 = omega (arith, pw) in
    let bit : (2 ^ suc w - 1 - m) % 2 ≡ 1 - m % 2 = omega (arith, pw) in
    let ih = bit_and_complement w (a / 2) (m / 2) (omega (arith, pw)) (omega (arith, pw)) in
    let lo = bit_and_halves a (2 ^ suc w - 1 - m) in
    omega (arith, rw (half, bit) at lo, bit_and_halves a m, ih)

pub bit_and-le : (w a m : ℕ) → a < 2 ^ w → m < 2 ^ w → bit_and a m ≤ m
bit_and-le zero a m ha hm = let za : a ≡ 0 = omega arith in rw za (omega (arith, null-bit_and m))
bit_and-le (suc w) a m ha hm =
    let pw = pow-suc 2 w in
    omega (
      arith,
      bit_and_halves a m,
      bit_and-le w (a / 2) (m / 2) (omega (arith, pw)) (omega (arith, pw)),
    )

mod_double : (a p : ℕ) → 0 < p → a % (p * 2) ≡ a / 2 % p * 2 + a % 2
mod_double a p h =
    let q = a / 2 / p in
    let r = a / 2 % p in
    let r_lt : r < p = mod-lt (a / 2) h in
    let split : a ≡ p * 2 * q + (r * 2 + a % 2) = omega (arith, div-add-mod (a / 2) p) in
    let low : (r * 2 + a % 2) % (p * 2) ≡ r * 2 + a % 2 = mod-eq_of_lt (omega arith) in
    ap (λ x. x % (p * 2)) split ∙ mul-add-mod_self_left (p * 2) q (r * 2 + a % 2) ∙ low

pow_pos : (k : ℕ) → 0 < 2 ^ k
pow_pos zero = omega arith
pow_pos (suc k) = omega (arith, pow-suc 2 k, pow_pos k)

-- A mask of k ones takes the remainder modulo 2 ^ k.
pub bit_and_ones : (k a : ℕ) → bit_and a (2 ^ k - 1) ≡ a % 2 ^ k
bit_and_ones zero a = omega (arith, bit_and-none a a (below_power a))
bit_and_ones (suc k) a =
    let pw = pow-suc 2 k in
    let half : (2 ^ suc k - 1) / 2 ≡ 2 ^ k - 1 = omega (arith, pw) in
    let bit : (2 ^ suc k - 1) % 2 ≡ 1 = omega (arith, pw, pow_pos k) in
    let step = bit_and_halves a (2 ^ suc k - 1) in
    rw pw (
      omega (
        arith,
        rw (half, bit, pw) at step,
        bit_and_ones k (a / 2),
        mod_double a (2 ^ k) (pow_pos k),
      ))
