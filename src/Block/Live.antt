-- ===== src/Block/Live.antt =====
-- A block as `init_block` leaves it, and what keeps it so: the client may write its payload and
-- anything outside the block.
use mem_sentry.Base.{
  ℕ, ◌+◌, ◌-◌, ◌%◌, ◌^◌, ◌≤◌, ◌<◌, ◌≡◌, refl, ◌∙◌, ◌⊎◌, inl, inr, ◌≢◌, Bool, true, ◌&&◌, arith, leb,
  ==_false, if◌then◌else◌, Bool-cases,
}
use mem_sentry.Memory.{Memory, word_mod, store, load}
use mem_sentry.Memory.Laws.{load-store_self, load_congr, store_outside}
use mem_sentry.Types.{canary_header_magic, canary_footer_magic}
use mem_sentry.Block.{
  BlockHeader, magic_at, requested_size_at, user_offset_at, has_canary_at, write_header,
  write_red_zone, effective_alignment, user_address, init_block,
}
use mem_sentry.Block.Layout.{effective_alignment-ge, user_address-bounds}
use mem_sentry.Block.RedZone.{Holds, write_red_zone_outside, write_red_zone-Holds}
use mem_sentry.Block.Header.{Reads, Reads-congr, write_header-Reads}

-- The block of `size` bytes at `user` with its header at `h`.
pub record IsLive (m : Memory) (h user size footer : ℕ) (canary : Bool) : Type 0 where
  pub place : h + 68 ≤ user
  pub magic : magic_at m h ≡ canary_header_magic
  pub requested_size : requested_size_at m h ≡ size
  pub user_offset : user_offset_at m h ≡ user - h
  pub has_canary : has_canary_at m h ≡ canary
  pub back : load 4 m (user - 4) ≡ user - h
  pub zone : canary ≡ true → 8 ≤ footer → Holds m (user + size) footer canary_footer_magic

-- A place that the library does not use: the payload of the block, or outside of it.
abbrev pub IsClient : (h user size footer q : ℕ) → Type 0
IsClient h user size footer q =
    (q < h) ⊎ ((user ≤ q) × (q < user + size)) ⊎ (user + size + footer ≤ q)

-- The header of a live block, as far as the code reads it.
abbrev pub header_of : ℕ → ℕ → Bool → BlockHeader
header_of size offset canary = record {
  magic = canary_header_magic;
  allocation_id = 0;
  requested_size = size;
  total_size = 0;
  user_offset = offset;
  alignment = 0;
  tag = 0;
  has_canary = canary;
  thread_id = 0;
}

pub IsLive-Reads :
    {m : Memory} {h user size footer : ℕ} {canary : Bool}
    → IsLive m h user size footer canary
    → Reads m h (header_of size (user - h) canary)
IsLive-Reads v = record {
  magic = v.magic;
  requested_size = v.requested_size;
  user_offset = v.user_offset;
  has_canary = v.has_canary;
}

-- Writes of the client keep the block live.
pub IsLive-congr :
    {m m' : Memory} {h user size footer : ℕ} {canary : Bool}
    → ((q : ℕ) → (h ≤ q) → (q < user) ⊎ (user + size ≤ q) → q < user + size + footer → m' q ≡ m q)
    → IsLive m h user size footer canary
    → IsLive m' h user size footer canary
IsLive-congr {m} {m'} {h} {user} {size} {footer} {canary} same v =
    let p = v.place in
    let r =
      Reads-congr {m = m} {m' = m'} {h = h} (λ q lo hi. same q lo (inl (omega arith)) (omega arith))
        (IsLive-Reads v) in
    record {
      place = p;
      magic = r.magic;
      requested_size = r.requested_size;
      user_offset = r.user_offset;
      has_canary = r.has_canary;
      back =
          load_congr 4 m' m (user - 4)
            (λ q lo hi. same q (omega arith) (inl (omega arith)) (omega arith))
          ∙ v.back;
      zone = λ c f j l.
          same (user + size + j) (omega arith) (inr (omega arith)) (omega arith) ∙ v.zone c f j l;
    }

-- The arguments of `init_block` at which the block fits the address space, and the back offset
-- fits its 32 bits.
pub record Fits (raw size alignment footer : ℕ) : Type 0 where
  pub mapped : raw ≢ 0
  pub space : raw + 68 + effective_alignment alignment + size + footer ≤ word_mod
  pub narrow : 68 + effective_alignment alignment ≤ 2 ^ 32

abbrev pub user_of : ℕ → ℕ → ℕ
user_of raw alignment = user_address raw (effective_alignment alignment)

-- A block that is live up to its payload, and its red zone.
widen :
    {m : Memory} {h user size footer : ℕ} {canary : Bool}
    → IsLive m h user size 0 canary
    → (canary ≡ true → 8 ≤ footer → Holds m (user + size) footer canary_footer_magic)
    → IsLive m h user size footer canary
widen v z = record {
  place = v.place;
  magic = v.magic;
  requested_size = v.requested_size;
  user_offset = v.user_offset;
  has_canary = v.has_canary;
  back = v.back;
  zone = z;
}

-- The red zone is written last, and only if the block has one.
zoned :
    (m : Memory) {h user size : ℕ} (footer : ℕ) (canary : Bool)
    → IsLive m h user size 0 canary
    → IsLive
        (if canary && leb 8 footer
          then write_red_zone footer canary_footer_magic (user + size) footer 0 m
          else m)
        h
        user
        size
        footer
        canary
zoned m {h} {user} {size} footer canary v = elim (Bool-cases (canary && leb 8 footer)) [
  | inl on ↦
      let p = v.place in
      rw on (
        widen
          (IsLive-congr
            (λ q lo e hi.
              write_red_zone_outside footer canary_footer_magic (user + size) footer 0 m q
                (inl (omega arith)))
            v)
          (λ c f. write_red_zone-Holds canary_footer_magic (user + size) footer m))
  | inr off ↦ rw off (widen v (λ c f. absurd (ground (arith, off))))
]

module _ {raw size alignment footer : ℕ} (fits : Fits raw size alignment footer) where
  pub user_of-bounds :
      (raw + 68 ≤ user_of raw alignment)
      × (user_of raw alignment < raw + 68 + effective_alignment alignment)
  user_of-bounds =
      let f = fits.space in
      user_address-bounds raw (effective_alignment alignment) (effective_alignment-ge alignment)
        (omega arith)

  -- The header and the back offset, before the red zone.
  headed :
      (m : Memory) (header : BlockHeader)
      → header.magic ≡ canary_header_magic
      → header.requested_size ≡ size
      → header.user_offset ≡ user_of raw alignment - raw
      → IsLive
          (store 4
            (write_header m raw header)
            (user_of raw alignment - 4)
            (user_of raw alignment - raw))
          raw
          (user_of raw alignment)
          size
          0
          header.has_canary
  headed m header em es eo =
      let user = user_of raw alignment in
      let b = user_of-bounds in
      let f = fits.space in
      let n = fits.narrow in
      let r =
        Reads-congr {m' = store 4 (write_header m raw header) (user - 4) (user - raw)}
          (λ q lo hi.
            store_outside 4 (write_header m raw header) (user - 4) (user - raw) q
              (inl (omega arith)))
          (write_header-Reads m raw header (rw em (omega arith)) (rw es (omega arith))
            (rw eo (omega arith))) in
      record {
        place = b.0;
        magic = r.magic ∙ em;
        requested_size = r.requested_size ∙ es;
        user_offset = r.user_offset ∙ eo;
        has_canary = r.has_canary;
        back = load-store_self 4 (write_header m raw header) (user - 4) (user - raw) (omega arith);
        zone = λ c e. absurd (omega arith);
      }

module _ (general : ℕ) (m : Memory) {raw size alignment footer : ℕ}
    (fits : Fits raw size alignment footer) (alloc_id tag : ℕ) (canary : Bool) (thread_id : ℕ) where
  pub init_block-user :
      (init_block general m raw size alignment footer alloc_id tag canary thread_id).0
      ≡ user_of raw alignment
  unfolding init_block
  init_block-user = rw (==_false raw 0 fits.mapped)

  -- The block that `init_block` builds is live.
  pub init_block-IsLive :
      IsLive
        (init_block general m raw size alignment footer alloc_id tag canary thread_id).1
        raw
        (user_of raw alignment)
        size
        footer
        canary
  unfolding init_block
  init_block-IsLive =
      let user = user_of raw alignment in
      let b = user_of-bounds fits in
      let f = fits.space in
      let off : (user + (word_mod - raw)) % word_mod ≡ user - raw = omega arith in
      rw (==_false raw 0 fits.mapped, off) (zoned _ footer canary (headed fits m _ refl refl refl))
