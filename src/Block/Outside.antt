-- ===== src/Block/Outside.antt =====
-- Where `init_block` does not write: outside the block, and in its payload.
use mem_sentry.Base.{
  ℕ, ◌+◌, ◌-◌, ◌≤◌, ◌<◌, ◌≡◌, ◌∙◌, ◌⊎◌, inl, inr, Bool, ◌&&◌, arith, leb, ==_false, Bool-cases,
}
use mem_sentry.Memory.{Memory, store}
use mem_sentry.Memory.Laws.{store_outside}
use mem_sentry.Types.{canary_footer_magic}
use mem_sentry.Block.{BlockHeader, write_header, init_block}
use mem_sentry.Block.RedZone.{write_red_zone_outside}
use mem_sentry.Block.Live.{Fits, user_of, user_of-bounds}

write_header_outside :
    (m : Memory) (h : ℕ) (header : BlockHeader) (q : ℕ)
    → (q < h) ⊎ (h + 64 ≤ q)
    → write_header m h header q ≡ m q
unfolding write_header store
write_header_outside m h header q out = ground (arith, out)

module _ (general : ℕ) (m : Memory) {raw size alignment footer : ℕ}
    (fits : Fits raw size alignment footer) (alloc_id tag : ℕ) (canary : Bool) (thread_id : ℕ) where
  pub init_block_outside :
      (q : ℕ)
      → (q < raw)
        ⊎ ((user_of raw alignment ≤ q) × (q < user_of raw alignment + size))
        ⊎ (user_of raw alignment + size + footer ≤ q)
      → (init_block general m raw size alignment footer alloc_id tag canary thread_id).1 q ≡ m q
  unfolding init_block
  init_block_outside q out =
      let b = user_of-bounds fits in
      let user = user_of raw alignment in
      let headed : (header : BlockHeader) (offset : ℕ)
          → store 4 (write_header m raw header) (user - 4) offset q ≡ m q =
        λ header offset.
          store_outside 4 (write_header m raw header) (user - 4) offset q (ground (arith, out))
          ∙ write_header_outside m raw header q (ground (arith, out)) in
      elim (Bool-cases (canary && leb 8 footer)) [
        | inl on ↦
            rw (==_false raw 0 fits.mapped, on)
              (write_red_zone_outside footer canary_footer_magic (user + size) footer 0 _ q
                  (ground (arith, out))
                ∙ headed _ _)
        | inr off ↦ rw (==_false raw 0 fits.mapped, off) (headed _ _)
      ]
