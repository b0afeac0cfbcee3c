-- ===== src/Block/RedZone.antt =====
-- The footer red zone: what filling it writes, and what checking it finds. The loops of
-- `init_block`, `verify_canary` and `poison_block`.
use mem_sentry.Base.{
  ℕ, zero, suc, ◌+◌, ◌-◌, ◌*◌, ◌/◌, ◌%◌, ◌≤◌, ◌<◌, ◌≡◌, refl, sym, ap, ◌∙◌, ◌⊎◌, inl, inr, ◌↔◌,
  true, arith, ltb, Bool-cases,
}
use mem_sentry.Memory.{Memory, byte, store, load}
use mem_sentry.Memory.Laws.{store_inside, store_outside}
use mem_sentry.Types.{canary_footer_magic}
use mem_sentry.Block.{chunk_length, write_red_zone, same_bytes, red_zone_intact}

-- Every cell of the address space holds a byte.
abbrev pub IsBytes : Memory → Type 0
IsBytes m = (q : ℕ) → m q < 256

-- The red zone of n bytes at p holds the bytes of a magic number, over and over.
abbrev pub Holds : Memory → ℕ → ℕ → ℕ → Type 0
Holds m p n magic = (j : ℕ) → j < n → m (p + j) ≡ byte (j % 8) magic

pub chunk_bounds :
    (n i : ℕ) → i < n → (0 < chunk_length n i) × (chunk_length n i ≤ 8) × (i + chunk_length n i ≤ n)
unfolding chunk_length
chunk_bounds n i h = ground arith

chunk_end : (n i j : ℕ) → i ≤ j → j < n → (j < i + chunk_length n i) ⊎ (i + 8 ≤ j)
unfolding chunk_length
chunk_end n i j lo hi = ground arith

-- Filling writes nothing outside the red zone.
pub write_red_zone_outside :
    (rounds magic p n i : ℕ) (m : Memory) (q : ℕ)
    → (q < p + i) ⊎ (p + n ≤ q)
    → write_red_zone rounds magic p n i m q ≡ m q
unfolding write_red_zone
write_red_zone_outside zero magic p n i m q h = refl
write_red_zone_outside (suc rounds) magic p n i m q h = elim (Bool-cases (ltb i n)) [
  | inr stop ↦ rw stop
  | inl go ↦
      let b = chunk_bounds n i (ground arith) in
      let c = chunk_length n i in
      let written = store c m (p + i) magic in
      let later = write_red_zone_outside rounds magic p n (i + 8) written q (omega arith) in
      let first = store_outside c m (p + i) magic q (omega arith) in rw (go, later) first
]

-- Filling writes every byte of the red zone. `d` counts the chunks before offset i.
write_red_zone_inside :
    (rounds magic p n d : ℕ) (m : Memory) (j : ℕ)
    → n ≤ 8 * d + rounds
    → 8 * d ≤ j
    → j < n
    → write_red_zone rounds magic p n (8 * d) m (p + j) ≡ byte (j % 8) magic
unfolding write_red_zone
write_red_zone_inside zero magic p n d m j enough lo hi = absurd (omega arith)
write_red_zone_inside (suc rounds) magic p n d m j enough lo hi =
    let i = 8 * d in
    let c = chunk_length n i in
    let written = store c m (p + i) magic in
    let go : ltb i n ≡ true = ground arith in
    let next : i + 8 ≡ 8 * suc d = omega arith in
    let b = chunk_bounds n i (omega arith) in
    elim (chunk_end n i j lo hi) [
      | inl near ↦
          let later =
            write_red_zone_outside rounds magic p n (i + 8) written (p + j) (inl (omega arith)) in
          let place : p + j ≡ p + i + (j - i) = omega arith in
          let index : j % 8 ≡ j - i = omega arith in
          rw (go, later, index, place) (store_inside c m (p + i) magic (j - i) (omega arith))
      | inr far ↦
          rw (go, next)
            (write_red_zone_inside rounds magic p n (suc d) written j (omega arith) (omega arith)
              hi)
    ]

-- After filling, the red zone holds the magic number.
pub write_red_zone-Holds :
    (magic p n : ℕ) (m : Memory) → Holds (write_red_zone n magic p n 0 m) p n magic
write_red_zone-Holds magic p n m j h =
    write_red_zone_inside n magic p n 0 m j (omega arith) (omega arith) h

-- std::memcmp of bytes in memory with those of a number.
same_bytes-load :
    (n : ℕ) (m : Memory) (a v : ℕ)
    → IsBytes m
    → same_bytes n (load n m a) v ≡ true
    → (k : ℕ) → k < n
    → m (a + k) ≡ byte k v
unfolding same_bytes load byte
same_bytes-load zero m a v bytes h k l = absurd (omega arith)
same_bytes-load (suc n) m a v bytes h zero l =
    let e : a + 0 ≡ a = omega arith in rw e (ground (arith, bytes a))
same_bytes-load (suc n) m a v bytes h (suc k) l =
    let e : a + suc k ≡ suc a + k = omega arith in
    let tail : (m a + 256 * load n m (suc a)) / 256 ≡ load n m (suc a) = omega (arith, bytes a) in
    rw e
      (same_bytes-load n m (suc a) (v / 256) bytes (ground (arith, rw tail at h)) k (omega arith))

load-same_bytes :
    (n : ℕ) (m : Memory) (a v : ℕ)
    → IsBytes m
    → ((k : ℕ) → k < n → m (a + k) ≡ byte k v)
    → same_bytes n (load n m a) v ≡ true
unfolding same_bytes load byte
load-same_bytes zero m a v bytes h = refl
load-same_bytes (suc n) m a v bytes h =
    let tail : (m a + 256 * load n m (suc a)) / 256 ≡ load n m (suc a) = omega (arith, bytes a) in
    let e₀ : a + 0 ≡ a = omega arith in
    let first = rw e₀ at (h 0 (omega arith)) in
    let rest =
      load-same_bytes n m (suc a) (v / 256) bytes
        (λ k l. let e : a + suc k ≡ suc a + k = omega arith in rw e at (h (suc k) (omega arith))) in
    rw tail (ground (arith, first, rest, bytes a))

-- A check that passes from offset i = 8 * d on has seen the magic number in every byte.
intact_inside :
    (rounds p n d : ℕ) (m : Memory) (j : ℕ)
    → IsBytes m
    → n ≤ 8 * d + rounds
    → red_zone_intact rounds m p n (8 * d) ≡ true
    → 8 * d ≤ j
    → j < n
    → m (p + j) ≡ byte (j % 8) canary_footer_magic
unfolding red_zone_intact
intact_inside zero p n d m j bytes enough ok lo hi = absurd (omega arith)
intact_inside (suc rounds) p n d m j bytes enough ok lo hi =
    let i = 8 * d in
    let c = chunk_length n i in
    let same = same_bytes c (load c m (p + i)) canary_footer_magic in
    let rest = red_zone_intact rounds m p n (i + 8) in
    let go : ltb i n ≡ true = ground arith in
    let next : i + 8 ≡ 8 * suc d = omega arith in
    let passed : (same ≡ true) × (rest ≡ true) = ground (arith, rw go at ok) in
    let b = chunk_bounds n i (omega arith) in
    elim (chunk_end n i j lo hi) [
      | inl near ↦
          let place : p + j ≡ p + i + (j - i) = omega arith in
          let index : j % 8 ≡ j - i = omega arith in
          rw (place, index)
            (same_bytes-load c m (p + i) canary_footer_magic bytes passed.0 (j - i) (omega arith))
      | inr far ↦
          intact_inside rounds p n (suc d) m j bytes (omega arith) (rw next at passed.1)
            (omega arith) hi
    ]

intact_of_Holds :
    (rounds p n d : ℕ) (m : Memory)
    → IsBytes m
    → Holds m p n canary_footer_magic
    → red_zone_intact rounds m p n (8 * d) ≡ true
unfolding red_zone_intact
intact_of_Holds zero p n d m bytes h = refl
intact_of_Holds (suc rounds) p n d m bytes h = elim (Bool-cases (ltb (8 * d) n)) [
  | inr stop ↦ rw stop
  | inl go ↦
      let i = 8 * d in
      let c = chunk_length n i in
      let b = chunk_bounds n i (ground arith) in
      let next : i + 8 ≡ 8 * suc d = omega arith in
      let same : same_bytes c (load c m (p + i)) canary_footer_magic ≡ true =
        load-same_bytes c m (p + i) canary_footer_magic bytes (λ k l.
          let place : p + i + k ≡ p + (i + k) = omega arith in
          let index : k ≡ (i + k) % 8 = omega arith in
          rw place (h (i + k) (omega arith) ∙ ap (λ x. byte x canary_footer_magic) (sym index))) in
      rw (go, same, next) (intact_of_Holds rounds p n (suc d) m bytes h)
]

-- The check passes exactly when every byte of the red zone still holds the footer magic.
pub red_zone_intact_iff :
    (p n : ℕ) (m : Memory)
    → IsBytes m
    → (red_zone_intact n m p n 0 ≡ true) ↔ Holds m p n canary_footer_magic
red_zone_intact_iff p n m bytes = (
  λ ok j h. intact_inside n p n 0 m j bytes (omega arith) ok (omega arith) h,
  λ h. intact_of_Holds n p n 0 m bytes h,
)
