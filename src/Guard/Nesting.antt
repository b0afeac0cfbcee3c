-- ===== src/Guard/Nesting.antt =====
-- Nested guards. A `RecursionGuard` is constructed where its scope is entered and destroyed where
-- it is left, so the guards of a thread nest like brackets.
use mathlib.Core.Path.{ap₂}
use mem_sentry.Base.{
  ℕ, suc, ◌+◌, ◌%◌, ◌<◌, max, ◌≡◌, refl, ap, Bool, true, List, [], ◌∷◌, ◌++◌, arith,
}
use mem_sentry.Memory.{word_mod}
use mem_sentry.Base.Int.{ℤ, pos}
use mem_sentry.Guard.{
  Slot, is_guard_active, inc_guard, dec_guard, is_guard_active_windows, inc_guard_windows,
  dec_guard_windows,
}

-- What a thread does: it asks whether a guard is active, or opens a guard around an inner part.
pub data Acts : Type 0 where
  done : Acts
  asks : Acts → Acts
  guards : Acts → Acts → Acts

-- The depth after, and the answers in order.
unfoldable pub run : Acts → ℤ → ℤ × List Bool
run done d = (d, [])
run (asks rest) d = let r = run rest d in (r.0, is_guard_active d ∷ r.1)
run (guards inner rest) d =
    let i = run inner (inc_guard d) in let r = run rest (dec_guard i.0) in (r.0, i.1 ++ r.1)

unfoldable pub run_windows : Acts → Slot → Slot × List Bool
run_windows done s = (s, [])
run_windows (asks rest) s = let r = run_windows rest s in (r.0, is_guard_active_windows s ∷ r.1)
run_windows (guards inner rest) s =
    let i = run_windows inner (inc_guard_windows s) in
    let r = run_windows rest (dec_guard_windows i.0) in (r.0, i.1 ++ r.1)

-- How many guards are open at once where most are.
unfoldable pub nesting : Acts → ℕ
nesting done = 0
nesting (asks rest) = nesting rest
nesting (guards inner rest) = max (suc (nesting inner)) (nesting rest)

-- What the answers should be: yes inside a guard, and outside what held before.
unfoldable pub answers : Acts → Bool → List Bool
answers done b = []
answers (asks rest) b = b ∷ answers rest b
answers (guards inner rest) b = answers inner true ++ answers rest b

pub dec-inc : (d : ℤ) → dec_guard (inc_guard d) ≡ d
unfolding dec_guard inc_guard
dec-inc d = ground arith

inc-active : (n : ℕ) → is_guard_active (inc_guard (pos n)) ≡ true
unfolding is_guard_active inc_guard
inc-active n = ground arith

inc-pos : (n : ℕ) → inc_guard (pos n) ≡ pos (suc n)
unfolding inc_guard
inc-pos n = ground arith

-- Whatever a thread does, its guards leave the depth as it was, and a guard is active exactly
-- inside of one.
pub run_lem :
    (a : Acts) (n : ℕ)
    → ((run a (pos n)).0 ≡ pos n) × ((run a (pos n)).1 ≡ answers a (is_guard_active (pos n)))
unfolding run answers
run_lem done n = (refl, refl)
run_lem (asks rest) n = let r = run_lem rest n in (r.0, ap (◌∷◌ (is_guard_active (pos n))) r.1)
run_lem (guards inner rest) n =
    let i = run_lem inner (suc n) in
    let r = run_lem rest n in
    let back : dec_guard (pos (suc n)) ≡ pos n = rw (← inc-pos n) (dec-inc (pos n)) in
    let inside : is_guard_active (pos (suc n)) ≡ true = rw (← inc-pos n) (inc-active n) in
    rw (inc-pos n, i.0, back, i.1, inside) (r.0, ap (◌++◌ (answers inner true)) r.1)

abbrev slot : ℕ → Slot
slot n = record { available = true; value = n }

same_answer : (n : ℕ) → is_guard_active_windows (slot n) ≡ is_guard_active (pos n)
unfolding is_guard_active_windows is_guard_active
same_answer n = ground arith

inc_slot : (n : ℕ) → n + 1 < word_mod → inc_guard_windows (slot n) ≡ slot (suc n)
unfolding inc_guard_windows
inc_slot n room = let fits : (n + 1) % word_mod ≡ suc n = omega (arith, room) in ap slot fits

dec_slot : (n : ℕ) → dec_guard_windows (slot (suc n)) ≡ slot n
unfolding dec_guard_windows
dec_slot n = ground arith

-- With a TLS slot at n and fewer than 2 ^ 64 guards open at once, those n counted in, nested guards
-- of the Windows version leave the slot as it was, and every question whether a guard is active is
-- answered as in the POSIX version.
pub run_windows_lem :
    (a : Acts) (n : ℕ)
    → n + nesting a < word_mod
    → let s : Slot = record { available = true; value = n } in
      ((run_windows a s).0 ≡ s) × ((run_windows a s).1 ≡ (run a (pos n)).1)
unfolding run_windows run nesting
run_windows_lem done n room = (refl, refl)
run_windows_lem (asks rest) n room =
    let r = run_windows_lem rest n room in (r.0, ap₂ ◌∷◌ (same_answer n) r.1)
run_windows_lem (guards inner rest) n room =
    let i = run_windows_lem inner (suc n) (ground (arith, room)) in
    let r = run_windows_lem rest n (ground (arith, room)) in
    let up = inc_slot n (ground (arith, room)) in
    let posix = run_lem inner (suc n) in
    let back : dec_guard (pos (suc n)) ≡ pos n = rw (← inc-pos n) (dec-inc (pos n)) in
    rw (up, i.0, dec_slot n, inc-pos n, posix.0, back) (r.0, ap₂ ◌++◌ i.1 r.1)
