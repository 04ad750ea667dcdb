-- ===== src/Audio/Tests.antt =====
-- The audio components (crates/play-on-air/src/audio) at concrete inputs.
use play_on_air.Prelude.{
  ℕ, ◌+◌, ◌/◌, ◌%◌, ◌^◌, ◌-◌, ◌≤◌, ◌<◌, ◌≡◌, ◌⊎◌, List, [], ◌∷◌, length, some, arith,
}
use play_on_air.Prelude.Text.{codes}
use play_on_air.Error.{ok, err, audio}
use play_on_air.Audio.PcmRing.{PcmRing, push_f32, pop_i16, pump_chunks, new}
use play_on_air.Audio.PcmRing.Order.{IsValid, buf-push_f32, pop_i16_lem}
use play_on_air.Audio.PcmRing.Bounds.{new-IsValid, push_f32_accounts}
use play_on_air.Audio.PcmRing.Pump.{pump_chunks_lem}
use play_on_air.Audio.PcmRing.History.{
  Call, pushes, pops_f32, pops_i16, clears, run, run-new-IsValid,
}
use play_on_air.Audio.Wav.{wav_header}
use play_on_air.Audio.Wav.RoundTrip.{IsWavHeader, wav_header_lem}
use play_on_air.Audio.Flac.{flac_block_size, round_up_to_flac_blocks}
use play_on_air.Audio.Flac.Blocks.{round_up_to_flac_blocks_lem}

-- A stereo ring for three frames, with two frames and a half in it.
abbrev stereo : PcmRing ℕ
stereo = record {
  channels = 2;
  buf = 1 ∷ 2 ∷ 3 ∷ 4 ∷ 5 ∷ [];
  capacity_samples = 6;
  frames_dropped_overflow = 0;
  underrun_polls = 0;
}

stereo-IsValid : IsValid stereo
stereo-IsValid = omega arith

buf-push_f32_example : (push_f32 (6 ∷ 7 ∷ 8 ∷ []) stereo).buf ≡ 3 ∷ 4 ∷ 5 ∷ 6 ∷ 7 ∷ 8 ∷ []
buf-push_f32_example = buf-push_f32 stereo (6 ∷ 7 ∷ 8 ∷ []) stereo-IsValid (omega arith)

push_f32_accounts_example :
    let q = push_f32 (6 ∷ 7 ∷ 8 ∷ []) stereo in
    (length q.buf ≡ 6) × (q.frames_dropped_overflow ≡ (0 + (5 + 3 - length q.buf) / 2) % 2 ^ 64)
push_f32_accounts_example = push_f32_accounts stereo (6 ∷ 7 ∷ 8 ∷ []) stereo-IsValid (omega arith)

pop_i16_lem_example :
    ((pop_i16 (λ x. x + 1) 3 9 stereo).0 ≡ 2 ∷ 3 ∷ 4 ∷ 5 ∷ [])
    × ((pop_i16 (λ x. x + 1) 3 9 stereo).1 ≡ 2)
    × ((pop_i16 (λ x. x + 1) 3 9 stereo).2.buf ≡ 5 ∷ [])
pop_i16_lem_example = pop_i16_lem (λ x. x + 1) 3 9 stereo stereo-IsValid

pump_chunks_lem_example :
    (source' : PcmRing ℕ) × (sink' : PcmRing ℕ) × (pump_chunks 5 stereo (new 2 8)
      ≡ some (source', sink'))
    × (source'.buf ≡ 5 ∷ [])
    × (sink'.buf ≡ (push_f32 (1 ∷ 2 ∷ 3 ∷ 4 ∷ []) (new 2 8)).buf)
pump_chunks_lem_example = pump_chunks_lem 5 stereo (new 2 8) stereo-IsValid new_valid (omega arith)
  where
    new_valid : IsValid (new {A = ℕ} 2 8)
    new_valid = new-IsValid 2 8 (omega arith)

abbrev calls : List (Call ℕ)
calls = pushes (1 ∷ 2 ∷ 3 ∷ []) ∷ pops_i16 1 1 ∷ clears ∷ pops_f32 4 ∷ []

run-new-IsValid_example : IsValid (run (λ (x : ℕ). x) calls (new 2 1))
run-new-IsValid_example = run-new-IsValid (λ (x : ℕ). x) 2 1 calls (omega arith) (omega arith)

wav_header_lem_example :
    ((◌≡◌ {A = ℕ} 2 0)
      × (wav_header 2 44100 1000 ≡ err (audio (codes "channels must be at least 1"))))
    ⊎ ((1 ≤ 2)
        × (◌≡◌ {A = ℕ} 44100 0)
        × (wav_header 2 44100 1000 ≡ err (audio (codes "sample_rate must be non-zero"))))
    ⊎ ((1 ≤ 2)
        × (1 ≤ 44100)
        × ((h : List ℕ) × (wav_header 2 44100 1000 ≡ ok h) × IsWavHeader 2 44100 1000 h))
wav_header_lem_example = wav_header_lem 2 44100 1000 (omega arith) (omega arith) (omega arith)

round_up_to_flac_blocks_lem_example :
    (round_up_to_flac_blocks 88200 % flac_block_size ≡ 0)
    × (88200 ≤ round_up_to_flac_blocks 88200)
    × (round_up_to_flac_blocks 88200 < 88200 + flac_block_size)
round_up_to_flac_blocks_lem_example = round_up_to_flac_blocks_lem 88200 (omega arith)
