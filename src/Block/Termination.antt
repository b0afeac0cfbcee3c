-- ===== src/Block/Termination.antt =====
-- The loops over a red zone as the code has them, without a bound on their rounds: the offset is a
-- 64-bit number, and each round moves it on by 8.
use mem_sentry.Base.{
  ℕ, zero, suc, ◌+◌, ◌-◌, ◌*◌, ◌%◌, ◌≤◌, ◌<◌, ◌≡◌, refl, ◌↔◌, Bool, true, false, arith, ltb,
  Bool-cases, inl, inr, lt→ltb, ltb-false, ltb→lt,
}
use mem_sentry.Memory.{Memory, word_mod, store, load}
use mem_sentry.Types.{canary_footer_magic}
use mem_sentry.Block.{chunk_length, write_red_zone, same_bytes, red_zone_intact}

-- The loop that fills a red zone of n bytes at p, from offset i on, ends after so many rounds with
-- this memory.
pub data Fills (magic p n : ℕ) : ℕ → ℕ → Memory → Memory → Type 0 where
  filled : {i : ℕ} {m m' : Memory} → n ≤ i → m' ≡ m → Fills magic p n 0 i m m'
  chunk :
      {rounds i : ℕ} {m m' : Memory}
      → i < n
      → Fills magic p n rounds ((i + 8) % word_mod) (store (chunk_length n i) m (p + i) magic) m'
      → Fills magic p n (suc rounds) i m m'

-- The comparison of the chunk at offset i.
abbrev same_chunk : Memory → ℕ → ℕ → ℕ → Bool
same_chunk m p n i =
    same_bytes (chunk_length n i) (load (chunk_length n i) m (p + i)) canary_footer_magic

-- The loop that checks a red zone, with its early return.
pub data Checks (m : Memory) (p n : ℕ) : ℕ → ℕ → Bool → Type 0 where
  checked : {i : ℕ} {b : Bool} → n ≤ i → b ≡ true → Checks m p n 0 i b
  differs : {i : ℕ} {b : Bool} → i < n → same_chunk m p n i ≡ false → b ≡ false → Checks m p n 1 i b
  agrees :
      {rounds i : ℕ} {b : Bool}
      → i < n
      → same_chunk m p n i ≡ true
      → Checks m p n rounds ((i + 8) % word_mod) b
      → Checks m p n (suc rounds) i b

-- The offset does not wrap.
next_offset : (n i : ℕ) → n + 8 ≤ word_mod → i < n → (i + 8) % word_mod ≡ i + 8
next_offset n i narrow lt = omega arith

chunk_next :
    (magic p n : ℕ) {rounds i : ℕ} {m m' : Memory}
    → n + 8 ≤ word_mod
    → i < n
    → Fills magic p n rounds (i + 8) (store (chunk_length n i) m (p + i) magic) m'
    → Fills magic p n (suc rounds) i m m'
chunk_next magic p n {i = i} narrow lt run = chunk lt (rw (next_offset n i narrow lt) run)

agrees_next :
    (m : Memory) (p n : ℕ) {rounds i : ℕ} {b : Bool}
    → n + 8 ≤ word_mod
    → i < n
    → same_chunk m p n i ≡ true
    → Checks m p n rounds (i + 8) b
    → Checks m p n (suc rounds) i b
agrees_next m p n {i = i} narrow lt same run = agrees lt same (rw (next_offset n i narrow lt) run)

write_red_zone-Fills :
    (fuel magic p n i : ℕ) (m : Memory)
    → n + 8 ≤ word_mod
    → n ≤ i + fuel
    → (k : ℕ) × Fills magic p n k i m (write_red_zone fuel magic p n i m) × (8 * k ≤ n + 7 - i)
unfolding write_red_zone
write_red_zone-Fills zero magic p n i m narrow enough = (0, filled (omega arith) refl, omega arith)
write_red_zone-Fills (suc fuel) magic p n i m narrow enough = elim (Bool-cases (ltb i n)) [
  | inr stop ↦ rw stop (0, filled (ground arith) refl, omega arith)
  | inl go ↦
      let lt = ltb→lt i n go in
      let (k, run, few) =
        write_red_zone-Fills fuel magic p n (i + 8) (store (chunk_length n i) m (p + i) magic)
          narrow (omega arith) in
      rw go (suc k, chunk_next magic p n narrow lt run, omega arith)
]

Fills-write_red_zone :
    (fuel magic p n : ℕ) {k i : ℕ} {m m' : Memory}
    → n + 8 ≤ word_mod
    → n ≤ i + fuel
    → Fills magic p n k i m m'
    → m' ≡ write_red_zone fuel magic p n i m
unfolding write_red_zone
Fills-write_red_zone zero magic p n narrow enough (filled le e) = e
Fills-write_red_zone (suc fuel) magic p n {i = i} narrow enough (filled le e) =
    rw (ltb-false i n le) e
Fills-write_red_zone zero magic p n narrow enough (chunk lt run) =
    absurd (omega (arith, lt, enough))
Fills-write_red_zone (suc fuel) magic p n {i = i} narrow enough (chunk lt run) =
    let next = next_offset n i narrow lt in
    rw (lt→ltb i n lt)
      (Fills-write_red_zone fuel magic p n narrow (omega (arith, enough)) (rw next at run))

red_zone_intact-Checks :
    (fuel : ℕ) (m : Memory) (p n i : ℕ)
    → n + 8 ≤ word_mod
    → n ≤ i + fuel
    → (k : ℕ) × Checks m p n k i (red_zone_intact fuel m p n i) × (8 * k ≤ n + 7 - i)
unfolding red_zone_intact
red_zone_intact-Checks zero m p n i narrow enough = (0, checked (omega arith) refl, omega arith)
red_zone_intact-Checks (suc fuel) m p n i narrow enough = elim (Bool-cases (ltb i n)) [
  | inr stop ↦ rw stop (0, checked (ground arith) refl, omega arith)
  | inl go ↦
      let lt = ltb→lt i n go in
      let (k, run, few) = red_zone_intact-Checks fuel m p n (i + 8) narrow (omega arith) in
      elim (Bool-cases (same_chunk m p n i)) [
        | inl same ↦ rw (go, same) (suc k, agrees_next m p n narrow lt same run, omega arith)
        | inr other ↦ rw (go, other) (1, differs lt other refl, omega arith)
      ]
]

Checks-red_zone_intact :
    (fuel : ℕ) (m : Memory) (p n : ℕ) {k i : ℕ} {b : Bool}
    → n + 8 ≤ word_mod
    → n ≤ i + fuel
    → Checks m p n k i b
    → b ≡ red_zone_intact fuel m p n i
unfolding red_zone_intact
Checks-red_zone_intact zero m p n narrow enough (checked le e) = e
Checks-red_zone_intact (suc fuel) m p n {i = i} narrow enough (checked le e) =
    rw (ltb-false i n le) e
Checks-red_zone_intact zero m p n narrow enough (differs lt other e) =
    absurd (omega (arith, lt, enough))
Checks-red_zone_intact (suc fuel) m p n {i = i} narrow enough (differs lt other e) =
    rw (lt→ltb i n lt, other) e
Checks-red_zone_intact zero m p n narrow enough (agrees lt same run) =
    absurd (omega (arith, lt, enough))
Checks-red_zone_intact (suc fuel) m p n {i = i} narrow enough (agrees lt same run) =
    let next = next_offset n i narrow lt in
    rw (lt→ltb i n lt, same)
      (Checks-red_zone_intact fuel m p n narrow (omega (arith, enough)) (rw next at run))

-- For a red zone of at most 2^64 - 8 bytes, the loop that fills it and the loop that checks it,
-- with 64-bit offsets and no bound on their rounds, end after at most one round for each 8 bytes
-- begun, with the results of `write_red_zone` and `red_zone_intact`, and with no other.
pub red_zone_loops_end :
    (magic : ℕ) (m : Memory) (p n : ℕ)
    → n + 8 ≤ word_mod
    → (m' : Memory) (b : Bool)
    → (((k : ℕ) × Fills magic p n k 0 m m' × (8 * k ≤ n + 7))
        ↔ (m' ≡ write_red_zone n magic p n 0 m))
      × (((k : ℕ) × Checks m p n k 0 b × (8 * k ≤ n + 7)) ↔ (b ≡ red_zone_intact n m p n 0))
red_zone_loops_end magic m p n narrow m' b =
    let (k, fills, few) = write_red_zone-Fills n magic p n 0 m narrow (omega arith) in
    let (j, checks, short) = red_zone_intact-Checks n m p n 0 narrow (omega arith) in
    (
      (
        λ run. Fills-write_red_zone n magic p n narrow (omega arith) run.1,
        λ e. rw e (k, fills, omega (arith, few)),
      ),
      (
        λ run. Checks-red_zone_intact n m p n narrow (omega arith) run.1,
        λ e. rw e (j, checks, omega (arith, short)),
      ),
    )
