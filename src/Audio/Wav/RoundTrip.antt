-- ===== src/Audio/Wav/RoundTrip.antt =====
-- A reader of the WAV header (audio/wav.rs) finds the fields that were asked for.
use play_on_air.Prelude.{
  ℕ, ◌+◌, ◌*◌, ◌≤◌, ◌≡◌, refl, ◌⊎◌, inl, inr, zero, suc, min, List, length, arith, suc-eq_zero,
}
use play_on_air.Prelude.Words.{u16_max, u32_max}
use play_on_air.Prelude.Bytes.{slice, of_le_bytes, of_le_bytes-u16, of_le_bytes-u32}
use play_on_air.Prelude.Text.{codes}
use play_on_air.Error.{ok, err, audio}
use play_on_air.Audio.Wav.{wav_header, write_fields}

-- A little-endian number of `n` bytes at `at`.
abbrev pub read_le : List ℕ → ℕ → ℕ → ℕ
read_le h at n = of_le_bytes (slice h at n)

-- A PCM header in the canonical layout.
pub record IsWavHeader (channels sample_rate data_len : ℕ) (h : List ℕ) : Type 0 where
  pub size : length h ≡ 44
  pub riff : slice h 0 4 ≡ codes "RIFF"
  pub riff_size : read_le h 4 4 ≡ min (36 + data_len) u32_max
  pub wave : slice h 8 8 ≡ codes "WAVEfmt "
  pub fmt_size : read_le h 16 4 ≡ 16
  pub format : read_le h 20 2 ≡ 1
  pub channel_count : read_le h 22 2 ≡ channels
  pub rate : read_le h 24 4 ≡ sample_rate
  pub byte_rate : read_le h 28 4 ≡ min (sample_rate * min (channels * 2) u16_max) u32_max
  pub block_align : read_le h 32 2 ≡ min (channels * 2) u16_max
  pub bits : read_le h 34 2 ≡ 16
  pub tag : slice h 36 4 ≡ codes "data"
  pub payload : read_le h 40 4 ≡ data_len

write_fields-IsWavHeader :
    (channels sample_rate data_len : ℕ)
    → channels ≤ u16_max
    → sample_rate ≤ u32_max
    → data_len ≤ u32_max
    → IsWavHeader channels sample_rate data_len (write_fields channels sample_rate data_len)
unfolding write_fields
write_fields-IsWavHeader channels sample_rate data_len hc hr hd = record {
  size = refl;
  riff = refl;
  riff_size = of_le_bytes-u32 _ (omega arith);
  wave = refl;
  fmt_size = refl;
  format = refl;
  channel_count = of_le_bytes-u16 channels (omega arith);
  rate = of_le_bytes-u32 sample_rate (omega arith);
  byte_rate = of_le_bytes-u32 _ (omega arith);
  block_align = of_le_bytes-u16 _ (omega arith);
  bits = refl;
  tag = refl;
  payload = of_le_bytes-u32 data_len (omega arith);
}

-- For any channel count, rate and length of their word sizes, the header is refused when the
-- channels or the rate are 0, and otherwise is 44 bytes that read back as the fields asked for.
pub wav_header_lem :
    (channels sample_rate data_len : ℕ)
    → channels ≤ u16_max
    → sample_rate ≤ u32_max
    → data_len ≤ u32_max
    → ((channels ≡ 0)
        × (wav_header channels sample_rate data_len
            ≡ err (audio (codes "channels must be at least 1"))))
      ⊎ ((1 ≤ channels)
          × (sample_rate ≡ 0)
          × (wav_header channels sample_rate data_len
              ≡ err (audio (codes "sample_rate must be non-zero"))))
      ⊎ ((1 ≤ channels)
          × (1 ≤ sample_rate)
          × ((h : List ℕ) × (wav_header channels sample_rate data_len ≡ ok h)
              × IsWavHeader channels sample_rate data_len h))
unfolding wav_header
wav_header_lem zero sample_rate data_len hc hr hd = inl (refl, refl)
wav_header_lem (suc c) zero data_len hc hr hd = inr (inl (omega arith, refl, rw (suc-eq_zero c)))
wav_header_lem (suc c) (suc r) data_len hc hr hd = inr (
    inr (
      omega arith,
      omega arith,
      (
        write_fields (suc c) (suc r) data_len,
        rw (suc-eq_zero c, suc-eq_zero r),
        write_fields-IsWavHeader (suc c) (suc r) data_len hc hr hd,
      ),
    ))
