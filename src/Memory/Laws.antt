-- ===== src/Memory/Laws.antt =====
-- Laws of reads and writes of the byte memory: a read back, and writes to other places.
use native.Mathlib.Nat.{pow-suc}
use mem_sentry.Base.{
  ℕ, zero, suc, ◌+◌, ◌-◌, ◌/◌, ◌%◌, ◌^◌, ◌≤◌, ◌<◌, ◌≡◌, refl, ◌⊎◌, inl, inr, arith,
}
use mem_sentry.Memory.{Memory, byte, store, load, fill}

pub byte-lt : (k v : ℕ) → byte k v < 256
unfolding byte
byte-lt zero v = omega arith
byte-lt (suc k) v = byte-lt k (v / 256)

-- A written byte, and a byte elsewhere.
pub store_inside : (n : ℕ) (m : Memory) (a v k : ℕ) → k < n → store n m a v (a + k) ≡ byte k v
unfolding store
store_inside n m a v k h = let e : a + k - a ≡ k = omega arith in ground (arith, e)

pub store_outside : (n : ℕ) (m : Memory) (a v q : ℕ) → (q < a) ⊎ (a + n ≤ q) → store n m a v q ≡ m q
unfolding store
store_outside n m a v q h = ground arith

pub fill_outside : (n : ℕ) (m : Memory) (a v q : ℕ) → (q < a) ⊎ (a + n ≤ q) → fill n m a v q ≡ m q
unfolding fill
fill_outside n m a v q h = ground arith

-- A read depends on the bytes that it reads.
pub load_congr :
    (n : ℕ) (m m' : Memory) (a : ℕ)
    → ((q : ℕ) → a ≤ q → q < a + n → m q ≡ m' q)
    → load n m a ≡ load n m' a
unfolding load
load_congr zero m m' a h = refl
load_congr (suc n) m m' a h = omega (
  arith,
  h a (omega arith) (omega arith),
  load_congr n m m' (suc a) (λ q lo hi. h q (omega arith) (omega arith)),
)

-- A read is not changed by a write elsewhere.
pub load-store_apart :
    (n w : ℕ) (m : Memory) (a b v : ℕ)
    → (a + n ≤ b) ⊎ (b + w ≤ a)
    → load n (store w m b v) a ≡ load n m a
load-store_apart n w m a b v h =
    load_congr n (store w m b v) m a (λ q lo hi. store_outside w m b v q (apart q lo hi h))
  where
    apart : (q : ℕ) → a ≤ q → q < a + n → (a + n ≤ b) ⊎ (b + w ≤ a) → (q < b) ⊎ (b + w ≤ q)
    apart q lo hi (inl l) = inl (omega arith)
    apart q lo hi (inr r) = inr (omega arith)

load-bytes :
    (n : ℕ) (m : Memory) (a v : ℕ)
    → ((k : ℕ) → k < n → m (a + k) ≡ byte k v)
    → v < 256 ^ n
    → load n m a ≡ v
unfolding load byte
load-bytes zero m a v h b = omega arith
load-bytes (suc n) m a v h b =
    let pw = pow-suc 256 n in
    let first : m a ≡ v % 256 = let e : a + 0 ≡ a = omega arith in rw e at (h 0 (omega arith)) in
    let rest =
      load-bytes n m (suc a) (v / 256)
        (λ k l. let e : a + suc k ≡ suc a + k = omega arith in rw e at (h (suc k) (omega arith)))
        (omega (arith, pw)) in
    omega (arith, first, rest)

-- A number that fits is read back.
pub load-store_self : (n : ℕ) (m : Memory) (a v : ℕ) → v < 256 ^ n → load n (store n m a v) a ≡ v
load-store_self n m a v h = load-bytes n (store n m a v) a v (λ k l. store_inside n m a v k l) h
