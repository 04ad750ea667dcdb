-- ===== src/Audio/Flac/Blocks.antt =====
-- Fixed blocks (audio/flac.rs): rounding up, and what the encoder accepts.
use play_on_air.Prelude.{ℕ, zero, suc, ◌+◌, ◌%◌, ◌^◌, ◌≤◌, ◌<◌, ◌≡◌, refl, arith, suc-eq_zero}
use play_on_air.Audio.Flac.{flac_block_size, round_up_to_flac_blocks}

-- Up to 2 ^ 63 frames, the rounded count is the least multiple of the block size that is not below the count.
pub round_up_to_flac_blocks_lem :
    (frames : ℕ)
    → frames ≤ 2 ^ 63
    → (round_up_to_flac_blocks frames % flac_block_size ≡ 0)
      × (frames ≤ round_up_to_flac_blocks frames)
      × (round_up_to_flac_blocks frames < frames + flac_block_size)
unfolding round_up_to_flac_blocks
round_up_to_flac_blocks_lem zero h = (refl, omega arith, omega arith)
round_up_to_flac_blocks_lem (suc n) h = rw (suc-eq_zero n) (omega arith)
