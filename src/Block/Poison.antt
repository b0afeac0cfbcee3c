-- ===== src/Block/Poison.antt =====
-- What `poison_block` leaves behind: a freed block is recognised as freed, its header is no longer
-- found from the user address, and nothing outside the block changes.
use mem_sentry.Base.{
  ℕ, ◌+◌, ◌-◌, ◌≤◌, ◌<◌, ◌≡◌, ◌∙◌, ◌⊎◌, inl, inr, ◌≢◌, Bool, none, arith, ==_false,
}
use mem_sentry.Memory.{Memory, load, store}
use mem_sentry.Memory.Laws.{load-store_apart, load-store_self, load_congr, store_outside}
use mem_sentry.Types.{double_free, canary_freed_magic}
use mem_sentry.Block.{
  magic_at, requested_size_at, user_offset_at, poison_red_zone, poison_block, verify_canary,
  get_header_from_user_ptr,
}
use mem_sentry.Block.RedZone.{write_red_zone_outside}
use mem_sentry.Block.Live.{IsLive}

module _ {m : Memory} {h user size footer : ℕ} {canary : Bool}
    (live : IsLive m h user size footer canary) where
  -- Stamped as freed, with the back offset cleared.
  abbrev stamped : Memory
  stamped = store 4 (store 8 m h canary_freed_magic) (user - 4) 0

  offset_stamped : user_offset_at (store 8 m h canary_freed_magic) h ≡ user - h
  unfolding user_offset_at
  offset_stamped =
      load-store_apart 8 8 m (h + 32) h canary_freed_magic (inr (omega arith)) ∙ live.user_offset

  zone_start : h + user_offset_at stamped h + requested_size_at stamped h ≡ user + size
  unfolding user_offset_at requested_size_at
  zone_start =
      let p = live.place in grind (arith, load-store_apart, live.user_offset, live.requested_size)

  poison_block-eq :
      h ≢ 0 → poison_block m h footer ≡ store 8 (poison_red_zone stamped h footer) (h + 32) 0
  unfolding poison_block
  poison_block-eq mapped =
      let p = live.place in
      let place : h + (user - h) - 4 ≡ user - 4 = omega arith in
      rw (offset_stamped, place, ==_false h 0 mapped) (ground arith)

  poison_red_zone_outside :
      (q : ℕ)
      → (q < user + size) ⊎ (user + size + footer ≤ q)
      → poison_red_zone stamped h footer q ≡ stamped q
  unfolding poison_red_zone
  poison_red_zone_outside q out =
      let apart = λ (x : Memory).
        write_red_zone_outside footer canary_freed_magic (user + size) footer 0 x q in
      rw zone_start (ground (arith, apart stamped))

  -- Poisoning changes the header, the back offset and the red zone only: the client's bytes stay.
  pub poison_block_outside :
      h ≢ 0
      → (q : ℕ) → (q < h) ⊎ ((user ≤ q) × (q < user + size)) ⊎ (user + size + footer ≤ q)
      → poison_block m h footer q ≡ m q
  poison_block_outside mapped q out =
      let p = live.place in
      rw (poison_block-eq mapped) (
        store_outside 8 (poison_red_zone stamped h footer) (h + 32) 0 q (ground arith)
        ∙ poison_red_zone_outside q (ground arith)
        ∙ store_outside 4 (store 8 m h canary_freed_magic) (user - 4) 0 q (ground arith)
        ∙ store_outside 8 m h canary_freed_magic q (ground arith))

  -- The header up to the back offset, in the poisoned memory.
  poisoned_low :
      h ≢ 0
      → (q : ℕ) → (q < h + 32) ⊎ ((h + 40 ≤ q) × (q < user + size))
      → poison_block m h footer q ≡ stamped q
  poisoned_low mapped q near =
      let p = live.place in
      rw (poison_block-eq mapped) (
        store_outside 8 (poison_red_zone stamped h footer) (h + 32) 0 q (ground arith)
        ∙ poison_red_zone_outside q (ground arith))

  pub magic_at-poison_block : h ≢ 0 → magic_at (poison_block m h footer) h ≡ canary_freed_magic
  unfolding magic_at
  magic_at-poison_block mapped =
      let p = live.place in
      load_congr 8 (poison_block m h footer) stamped h
        (λ q lo hi. poisoned_low mapped q (inl (omega arith)))
      ∙ load-store_apart 8 4 (store 8 m h canary_freed_magic) h (user - 4) 0 (inl (omega arith))
      ∙ load-store_self 8 m h canary_freed_magic (omega arith)

  -- A freed block is reported as a double free.
  pub verify_canary-poison_block :
      h ≢ 0 → verify_canary (poison_block m h footer) h footer ≡ double_free
  unfolding verify_canary
  verify_canary-poison_block mapped =
      rw (==_false h 0 mapped, magic_at-poison_block mapped) (ground arith)

  -- The header of a live block that was poisoned is not found from its user address any more.
  pub get_header_from_user_ptr-poison_block :
      h ≢ 0 → get_header_from_user_ptr (poison_block m h footer) user ≡ none
  unfolding get_header_from_user_ptr
  get_header_from_user_ptr-poison_block mapped =
      let p = live.place in
      let cut : load 4 (poison_block m h footer) (user - 4) ≡ 0 =
        load_congr 4 (poison_block m h footer) stamped (user - 4)
          (λ q lo hi. poisoned_low mapped q (inr (omega arith, omega arith)))
        ∙ load-store_self 4 (store 8 m h canary_freed_magic) (user - 4) 0 (omega arith) in
      rw cut (ground arith)
