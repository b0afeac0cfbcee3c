-- ===== src/Block.antt =====
-- include/memsentry/core/header.hpp: a block is a 64-byte header at the raw address, a 32-bit back
-- offset right before the user address, the payload, and the footer red zone. uintptr_t arithmetic
-- wraps at 2 ^ 64; arithmetic on pointers into a block, which may not overflow, is plain.
pub mod Bytes
pub mod Outside
pub mod Layout
pub mod RedZone
pub mod Header
pub mod Live
pub mod Verdict
pub mod Termination
pub mod Poison
use mem_sentry.Base.{
  ℕ, zero, suc, ◌+◌, ◌-◌, ◌/◌, ◌%◌, bit_and, Bool, true, false, ◌&&◌, ◌||◌, not, Option, none, some,
  leb, ltb, ◌==◌, if◌then◌else◌,
}
use mem_sentry.Memory.{Memory, word_mod, store, load}
use mem_sentry.Types.{
  CorruptionType, intact, header_corrupted, footer_corrupted, double_free, untracked_pointer,
  canary_header_magic, canary_footer_magic, canary_freed_magic,
}

-- The struct; its members lie at the offsets 0, 8, 16, 24, 32, 40, 48, 56 (a byte), 57 (three
-- bytes of padding) and 60 (four bytes).
pub record BlockHeader : Type 0 where
  pub magic : ℕ
  pub allocation_id : ℕ
  pub requested_size : ℕ
  pub total_size : ℕ
  pub user_offset : ℕ
  pub alignment : ℕ
  pub tag : ℕ
  pub has_canary : Bool
  pub thread_id : ℕ

-- sizeof(BlockHeader), and alignof(std::max_align_t).
abbrev pub header_size : ℕ
header_size = 64

abbrev pub max_align : ℕ
max_align = 16

-- The member reads of a BlockHeader at address h that the code makes.
unfoldable pub magic_at : Memory → ℕ → ℕ
magic_at m h = load 8 m h

unfoldable pub requested_size_at : Memory → ℕ → ℕ
requested_size_at m h = load 8 m (h + 16)

unfoldable pub user_offset_at : Memory → ℕ → ℕ
user_offset_at m h = load 8 m (h + 32)

unfoldable pub has_canary_at : Memory → ℕ → Bool
has_canary_at m h = not (load 1 m (h + 56) == 0)

unfoldable pub effective_alignment : ℕ → ℕ
effective_alignment alignment = if ltb max_align alignment then alignment else max_align

unfoldable pub calculate_total_size : ℕ → ℕ → ℕ → ℕ
unfolding effective_alignment
calculate_total_size requested_size alignment footer_size =
    let eff_align = effective_alignment alignment in
    let max_offset = (header_size + 4 + eff_align) % word_mod in
    let room = (word_mod - 1 + (word_mod - max_offset) + (word_mod - footer_size)) % word_mod in
    if ltb room requested_size then 0 else (max_offset + requested_size + footer_size) % word_mod

-- The user address that `init_block` computes: the least multiple of the alignment, if that is a
-- power of two, that leaves room for the header and the back offset.
unfoldable pub user_address : ℕ → ℕ → ℕ
user_address raw_addr eff_align =
    let min_user_addr = (raw_addr + header_size + 4) % word_mod in
    bit_and ((min_user_addr + (eff_align - 1)) % word_mod) (word_mod - 1 - (eff_align - 1))

-- The assignments to the header's members.
unfoldable pub write_header : Memory → ℕ → BlockHeader → Memory
write_header m₀ h header =
    let m₁ = store 8 m₀ h header.magic in
    let m₂ = store 8 m₁ (h + 8) header.allocation_id in
    let m₃ = store 8 m₂ (h + 16) header.requested_size in
    let m₄ = store 8 m₃ (h + 24) header.total_size in
    let m₅ = store 8 m₄ (h + 32) header.user_offset in
    let m₆ = store 8 m₅ (h + 40) header.alignment in
    let m₇ = store 8 m₆ (h + 48) header.tag in
    let m₈ = store 1 m₇ (h + 56) (if header.has_canary then 1 else 0) in
    let m₉ = store 3 m₈ (h + 57) 0 in store 4 m₉ (h + 60) header.thread_id

-- The length of the chunk that starts at offset i of a red zone.
unfoldable pub chunk_length : ℕ → ℕ → ℕ
chunk_length footer_size i = if ltb (footer_size - i) 8 then footer_size - i else 8

-- The loop that fills a red zone with a magic number, from offset i on. Each round moves on by 8,
-- so `footer_size` rounds are enough.
unfoldable pub write_red_zone : ℕ → ℕ → ℕ → ℕ → ℕ → Memory → Memory
unfolding chunk_length
write_red_zone zero magic footer_ptr footer_size i m = m
write_red_zone (suc rounds) magic footer_ptr footer_size i m =
    let written = store (chunk_length footer_size i) m (footer_ptr + i) magic in
    let rest = write_red_zone rounds magic footer_ptr footer_size (i + 8) written in
    if ltb i footer_size then rest else m

-- std::memcmp of the low n bytes of two numbers: are they the same?
unfoldable pub same_bytes : ℕ → ℕ → ℕ → Bool
same_bytes zero u v = true
same_bytes (suc n) u v = u % 256 == v % 256 && same_bytes n (u / 256) (v / 256)

-- The loop of `verify_canary`: does the red zone hold the footer magic from offset i on?
unfoldable pub red_zone_intact : ℕ → Memory → ℕ → ℕ → ℕ → Bool
unfolding chunk_length same_bytes
red_zone_intact zero m footer_ptr footer_size i = true
red_zone_intact (suc rounds) m footer_ptr footer_size i =
    let copy_len = chunk_length footer_size i in
    let same = same_bytes copy_len (load copy_len m (footer_ptr + i)) canary_footer_magic in
    let rest = red_zone_intact rounds m footer_ptr footer_size (i + 8) in
    if ltb i footer_size then (if same then rest else false) else true

-- `init_block`, given the address of the literal "General"; it returns the user address.
unfoldable pub init_block : ℕ → Memory → ℕ → ℕ → ℕ → ℕ → ℕ → ℕ → Bool → ℕ → ℕ × Memory
unfolding effective_alignment user_address write_header write_red_zone
init_block general m raw_memory requested_size alignment footer_size alloc_id tag enable_canary
      thread_id =
    let eff_align = effective_alignment alignment in
    let user_addr = user_address raw_memory eff_align in
    let user_offset = (user_addr + (word_mod - raw_memory)) % word_mod in
    let total_size =
      (user_offset + requested_size + (if enable_canary then footer_size else 0)) % word_mod in
    let with_header = write_header m raw_memory (record {
      magic = canary_header_magic;
      allocation_id = alloc_id;
      requested_size = requested_size;
      total_size = total_size;
      user_offset = user_offset;
      alignment = eff_align;
      tag = if tag == 0 then general else tag;
      has_canary = enable_canary;
      thread_id = thread_id;
    }) in
    let with_offset = store 4 with_header (user_addr - 4) user_offset in
    let with_footer =
      write_red_zone footer_size canary_footer_magic (user_addr + requested_size) footer_size 0
        with_offset in
    if raw_memory == 0
    then (0, m)
    else (user_addr, if enable_canary && leb 8 footer_size then with_footer else with_offset)

-- `get_header_from_user_ptr`: `none` is nullptr.
unfoldable pub get_header_from_user_ptr : Memory → ℕ → Option ℕ
unfolding magic_at user_offset_at
get_header_from_user_ptr m user_addr =
    let offset = load 4 m (user_addr - 4) in
    let candidate = (user_addr + (word_mod - offset)) % word_mod in
    if user_addr == 0
    then none
    else if ltb user_addr (header_size + 4)
    then none
    else if ltb offset (header_size + 4) || ltb (4096 + header_size) offset
    then none
    else if magic_at m candidate == canary_header_magic
    then (if user_offset_at m candidate == offset then some candidate else none)
    else none

unfoldable pub verify_canary : Memory → ℕ → ℕ → CorruptionType
unfolding magic_at requested_size_at user_offset_at has_canary_at red_zone_intact
verify_canary m header footer_size =
    let footer_ptr = header + user_offset_at m header + requested_size_at m header in
    if header == 0
    then untracked_pointer
    else if magic_at m header == canary_freed_magic
    then double_free
    else if not (magic_at m header == canary_header_magic)
    then header_corrupted
    else if has_canary_at m header && leb 8 footer_size
    then (if red_zone_intact footer_size m footer_ptr footer_size 0
        then intact
        else footer_corrupted)
    else intact

-- The red zone is overwritten with the freed magic, if the block has one.
unfoldable pub poison_red_zone : Memory → ℕ → ℕ → Memory
unfolding requested_size_at user_offset_at has_canary_at write_red_zone
poison_red_zone m header footer_size =
    let footer_ptr = header + user_offset_at m header + requested_size_at m header in
    if has_canary_at m header && leb 8 footer_size
    then write_red_zone footer_size canary_freed_magic footer_ptr footer_size 0 m
    else m

unfoldable pub poison_block : Memory → ℕ → ℕ → Memory
unfolding user_offset_at poison_red_zone
poison_block m header footer_size =
    let m₁ = store 8 m header canary_freed_magic in
    let m₂ = store 4 m₁ (header + user_offset_at m₁ header - 4) 0 in
    let m₃ =
      if leb (header_size + 4) (user_offset_at m₁ header)
      then poison_red_zone m₂ header footer_size
      else m₁ in
    if header == 0 then m else store 8 m₃ (header + 32) 0
