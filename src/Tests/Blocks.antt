-- ===== src/Tests/Blocks.antt =====
-- Blocks in memory.
use mem_sentry.Base.{ℕ, ◌+◌, ◌*◌, ◌≤◌, ◌≡◌, ◌↔◌, true, none, some, arith}
use mem_sentry.Memory.{Memory}
use mem_sentry.Types.{intact, canary_header_magic, canary_footer_magic}
use mem_sentry.Block.{
  effective_alignment, user_address, magic_at, has_canary_at, init_block, verify_canary,
  get_header_from_user_ptr, poison_block, write_red_zone, red_zone_intact,
}
use mem_sentry.Block.Termination.{Fills, Checks, red_zone_loops_end}
use mem_sentry.Block.RedZone.{Holds}
use mem_sentry.Block.Bytes.{init_block-IsBytes}
use mem_sentry.Block.Live.{IsLive, Fits, init_block-IsLive}
use mem_sentry.Block.Verdict.{zone_at, verify_canary-eq-intact, get_header_from_user_ptr-IsLive}
use mem_sentry.Block.Poison.{get_header_from_user_ptr-poison_block}

-- 100 bytes at 4096, with a red zone of 16.
abbrev block_memory : Memory
block_memory = (init_block 16 (λ q. 0) 4096 100 16 16 1 0 true 7).1

block-Fits : Fits 4096 100 16 16
unfolding effective_alignment
block-Fits = record { mapped = λ e. omega arith; space = omega arith; narrow = omega arith }

block-IsLive : IsLive block_memory 4096 4176 100 16 true
unfolding effective_alignment user_address
block-IsLive = init_block-IsLive 16 (λ q. 0) block-Fits 1 0 true 7

verify_canary-eq-intact_example : (verify_canary block_memory 4096 16 ≡ intact) ↔ (
    (magic_at block_memory 4096 ≡ canary_header_magic)
    × (has_canary_at block_memory 4096 ≡ true
        → 8 ≤ 16
        → Holds block_memory (zone_at block_memory 4096) 16 canary_footer_magic))
verify_canary-eq-intact_example =
    verify_canary-eq-intact block_memory 4096 16
      (init_block-IsBytes 16 (λ q. 0) 4096 100 16 16 1 0 true 7 (λ q. omega arith))
      (λ e. omega arith)

get_header_from_user_ptr-IsLive_example : get_header_from_user_ptr block_memory 4176 ≡ some 4096
get_header_from_user_ptr-IsLive_example =
    get_header_from_user_ptr-IsLive block-IsLive (omega arith) (omega arith)

red_zone_loops_end_example :
    (((k : ℕ) × Fills canary_footer_magic 4276 16 k 0 block_memory block_memory × (8 * k ≤ 16 + 7))
      ↔ (block_memory ≡ write_red_zone 16 canary_footer_magic 4276 16 0 block_memory))
    × (((k : ℕ) × Checks block_memory 4276 16 k 0 true × (8 * k ≤ 16 + 7))
        ↔ (true ≡ red_zone_intact 16 block_memory 4276 16 0))
red_zone_loops_end_example =
    red_zone_loops_end canary_footer_magic block_memory 4276 16 (omega arith) block_memory true

get_header_from_user_ptr-poison_block_example :
    get_header_from_user_ptr (poison_block block_memory 4096 16) 4176 ≡ none
get_header_from_user_ptr-poison_block_example =
    get_header_from_user_ptr-poison_block block-IsLive (λ e. omega arith)
