-- ===== src/Guard.antt =====
-- include/memsentry/core/recursion_guard.hpp: the thread-local recursion depth. The POSIX version
-- keeps an int, here an integer without bounds: the overflow of the int at 2 ^ 31 nested guards is
-- not modelled. The Windows version keeps a 64-bit unsigned number in a TLS slot, if it got one,
-- which wraps when it is raised and does not go below 0.
pub mod Nesting
use mem_sentry.Base.{ℕ, ◌+◌, ◌-◌, ◌%◌, Bool, true, false, List, [], ◌∷◌, ltb, if◌then◌else◌}
use mem_sentry.Memory.{word_mod}
use mem_sentry.Base.Int.{ℤ, pos, ◌+ℤ◌, ◌-ℤ◌, ltb_ℤ}

unfoldable pub is_guard_active : ℤ → Bool
is_guard_active depth = ltb_ℤ (pos 0) depth

unfoldable pub inc_guard : ℤ → ℤ
unfolding ◌+ℤ◌
inc_guard depth = depth +ℤ pos 1

unfoldable pub dec_guard : ℤ → ℤ
unfolding ◌-ℤ◌
dec_guard depth = depth -ℤ pos 1

-- The value of the slot, and whether TlsAlloc returned an index.
pub record Slot : Type 0 where
  pub available : Bool
  pub value : ℕ

unfoldable pub is_guard_active_windows : Slot → Bool
is_guard_active_windows slot = if slot.available then ltb 0 slot.value else false

unfoldable pub inc_guard_windows : Slot → Slot
inc_guard_windows slot =
    if slot.available then record slot { value = (slot.value + 1) % word_mod } else slot

unfoldable pub dec_guard_windows : Slot → Slot
dec_guard_windows slot =
    if slot.available
    then (if ltb 0 slot.value then record slot { value = slot.value - 1 } else slot)
    else slot
