-- ===== src/Block/Header.antt =====
-- The header and the back offset: what the member reads find after `init_block` wrote them, and
-- that `get_header_from_user_ptr` leads from the user address back to the header.
use mem_sentry.Base.{
  ℕ, ◌+◌, ◌≤◌, ◌<◌, ◌≡◌, refl, ◌∙◌, Bool, true, false, not, arith, ◌==◌, if◌then◌else◌,
}
use mem_sentry.Memory.{Memory, word_mod, load}
use mem_sentry.Memory.Laws.{load-store_apart, load-store_self, load_congr}
use mem_sentry.Block.{
  BlockHeader, magic_at, requested_size_at, user_offset_at, has_canary_at, write_header,
}

abbrev flag : Bool → ℕ
flag b = if b then 1 else 0

-- The members of a header as `write_header` leaves them.
pub record Reads (m : Memory) (h : ℕ) (header : BlockHeader) : Type 0 where
  pub magic : magic_at m h ≡ header.magic
  pub requested_size : requested_size_at m h ≡ header.requested_size
  pub user_offset : user_offset_at m h ≡ header.user_offset
  pub has_canary : has_canary_at m h ≡ header.has_canary

-- Members survive any change of memory outside the header.
pub Reads-congr :
    {m m' : Memory} {h : ℕ} {header : BlockHeader}
    → ((q : ℕ) → h ≤ q → q < h + 64 → m' q ≡ m q)
    → Reads m h header
    → Reads m' h header
unfolding magic_at requested_size_at user_offset_at has_canary_at
Reads-congr {m} {m'} {h} {header} same r =
    let word = λ (n a : ℕ) (lo : h ≤ a) (hi : a + n ≤ h + 64).
      load_congr n m' m a (λ q l u. same q (omega arith) (omega arith)) in
    record {
      magic = word 8 h (omega arith) (omega arith) ∙ r.magic;
      requested_size = word 8 (h + 16) (omega arith) (omega arith) ∙ r.requested_size;
      user_offset = word 8 (h + 32) (omega arith) (omega arith) ∙ r.user_offset;
      has_canary = rw (word 1 (h + 56) (omega arith) (omega arith)) r.has_canary;
    }

flag_read : (b : Bool) → not (flag b == 0) ≡ b
flag_read true = refl
flag_read false = refl

flag-lt : (b : Bool) → flag b < 256
flag-lt true = omega arith
flag-lt false = omega arith

-- What was assigned is read back: no member's write touches another member.
pub write_header-Reads :
    (m : Memory) (h : ℕ) (header : BlockHeader)
    → header.magic < word_mod
    → header.requested_size < word_mod
    → header.user_offset < word_mod
    → Reads (write_header m h header) h header
unfolding magic_at requested_size_at user_offset_at has_canary_at write_header
write_header-Reads m h header hm hs ho =
    let bit : load 1 (write_header m h header) (h + 56) ≡ flag header.has_canary =
      grind (arith, load-store_apart, load-store_self, flag-lt) in
    record {
      magic = grind (arith, load-store_apart, load-store_self);
      requested_size = grind (arith, load-store_apart, load-store_self);
      user_offset = grind (arith, load-store_apart, load-store_self);
      has_canary = rw bit (flag_read header.has_canary);
    }
