-- ===== src/Block/Verdict.antt =====
-- What `verify_canary` and `get_header_from_user_ptr` conclude, from memory as it is.
use mem_sentry.Base.{
  ℕ, ◌+◌, ◌-◌, ◌%◌, ◌≤◌, ◌<◌, ◌≡◌, refl, sym, ◌∙◌, inl, inr, ◌≢◌, ◌↔◌, Bool, true, ◌&&◌, none, some,
  arith, leb, ==_false, Bool-cases,
}
use mem_sentry.Memory.{Memory, word_mod}
use mem_sentry.Types.{intact, footer_corrupted, canary_header_magic, canary_footer_magic}
use mem_sentry.Block.{
  magic_at, requested_size_at, user_offset_at, has_canary_at, red_zone_intact, verify_canary,
  get_header_from_user_ptr,
}
use mem_sentry.Block.RedZone.{IsBytes, Holds, red_zone_intact_iff}
use mem_sentry.Block.Live.{IsLive, IsLive-Reads}
use mem_sentry.Block.Header.{Reads-congr}

-- Where the members of the header say that the red zone starts.
abbrev pub zone_at : Memory → ℕ → ℕ
zone_at m h = h + user_offset_at m h + requested_size_at m h

-- In a memory of bytes, a block at an address other than null is found intact exactly if its header
-- magic is in place and, if it has a red zone of at least 8 bytes, every byte of the red zone is
-- that of the footer magic.
pub verify_canary-eq-intact :
    (m : Memory) (h footer : ℕ)
    → IsBytes m
    → h ≢ 0
    → (verify_canary m h footer ≡ intact) ↔ (
        (magic_at m h ≡ canary_header_magic)
        × (has_canary_at m h ≡ true
            → 8 ≤ footer
            → Holds m (zone_at m h) footer canary_footer_magic))
unfolding verify_canary
verify_canary-eq-intact m h footer bytes mapped =
    let zone = red_zone_intact_iff (zone_at m h) footer m bytes in
    (
      λ e. (ground (arith, e), λ c f. zone.0 (ground (arith, e))),
      λ r. elim (Bool-cases (has_canary_at m h && leb 8 footer)) [
        | inl on ↦
            let whole = zone.1 (r.1 (ground (arith, on)) (ground (arith, on))) in
            rw (==_false h 0 mapped, r.0, on, whole)
        | inr off ↦ rw (==_false h 0 mapped, r.0, off)
      ],
    )

module _ {m : Memory} {h user size footer : ℕ} {canary : Bool}
    (live : IsLive m h user size footer canary) where
  pub zone_at-IsLive : zone_at m h ≡ user + size
  zone_at-IsLive = let p = live.place in omega (arith, live.user_offset, live.requested_size)

  -- A live block passes the check.
  pub verify_canary-IsLive : IsBytes m → h ≢ 0 → verify_canary m h footer ≡ intact
  verify_canary-IsLive bytes mapped =
      (verify_canary-eq-intact m h footer bytes mapped).1
        (live.magic, λ c f. rw zone_at-IsLive (live.zone (sym live.has_canary ∙ c) f))

  -- The header of a live block is found from its user address, if the user address is a 64-bit
  -- number at most 4160 bytes after the header.
  pub get_header_from_user_ptr-IsLive :
      user < word_mod → user - h ≤ 4096 + 64 → get_header_from_user_ptr m user ≡ some h
  unfolding get_header_from_user_ptr
  get_header_from_user_ptr-IsLive fits near =
      let p = live.place in
      let here : (user + (word_mod - (user - h))) % word_mod ≡ h = omega arith in
      rw (live.back, here, live.magic, live.user_offset) (ground arith)

  -- A block whose padding is larger is not found from its user address.
  pub get_header_from_user_ptr_far : 4096 + 64 < user - h → get_header_from_user_ptr m user ≡ none
  unfolding get_header_from_user_ptr
  get_header_from_user_ptr_far far = rw live.back (ground arith)

-- An overrun of a live block that changes a byte of the red zone, and not the header, is reported.
pub verify_canary_overrun :
    {m m' : Memory} {h user size footer : ℕ}
    → IsLive m h user size footer true
    → IsBytes m'
    → h ≢ 0
    → 8 ≤ footer
    → ((q : ℕ) → h ≤ q → q < h + 64 → m' q ≡ m q)
    → (j : ℕ) → j < footer
    → m' (user + size + j) ≢ m (user + size + j)
    → verify_canary m' h footer ≡ footer_corrupted
unfolding verify_canary
verify_canary_overrun {m} {m'} {h} {user} {size} {footer} live bytes mapped wide same j l differs =
    let p = live.place in
    let r = Reads-congr {m = m} {m' = m'} {h = h} same (IsLive-Reads live) in
    let start : zone_at m' h ≡ user + size = omega (arith, r.user_offset, r.requested_size) in
    elim (Bool-cases (red_zone_intact footer m' (user + size) footer 0)) [
      | inl whole ↦
          let byte_kept = (red_zone_intact_iff (user + size) footer m' bytes).0 whole j l in
          absurd (differs (byte_kept ∙ sym (live.zone refl wide j l)))
      | inr broken ↦ rw (==_false h 0 mapped, r.magic, r.has_canary, start, broken) (ground arith)
    ]
