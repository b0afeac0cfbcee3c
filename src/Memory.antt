-- ===== src/Memory.antt =====
-- The address space as bytes: what `reinterpret_cast` reads and writes and std::memcpy of a word
-- do in include/memsentry/core/header.hpp, on a little-endian machine.
pub mod Laws
use mem_sentry.Base.{
  ℕ, zero, suc, ◌+◌, ◌-◌, ◌*◌, ◌/◌, ◌%◌, ◌^◌, Bool, ◌&&◌, leb, ltb, if◌then◌else◌,
}

-- A byte for each address.
abbrev pub Memory : Type 0
Memory = ℕ → ℕ

-- uintptr_t and size_t have 64 bits.
abbrev pub word_mod : ℕ
word_mod = 2 ^ 64

-- The k-th byte of a number.
unfoldable pub byte : ℕ → ℕ → ℕ
byte zero v = v % 256
byte (suc k) v = byte k (v / 256)

-- Write the low n bytes of v at address a.
unfoldable pub store : ℕ → Memory → ℕ → ℕ → Memory
unfolding byte
store n m a v q = if leb a q && ltb q (a + n) then byte (q - a) v else m q

-- Read n bytes at address a as a number.
unfoldable pub load : ℕ → Memory → ℕ → ℕ
load zero m a = 0
load (suc n) m a = m a + 256 * load n m (suc a)

-- std::memset.
unfoldable pub fill : ℕ → Memory → ℕ → ℕ → Memory
fill n m a v q = if leb a q && ltb q (a + n) then v % 256 else m q

-- std::memcpy of n bytes between blocks that do not overlap.
unfoldable pub copy : ℕ → Memory → ℕ → ℕ → Memory
copy n m to from q = if leb to q && ltb q (to + n) then m (from + (q - to)) else m q
