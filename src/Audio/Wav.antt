-- ===== src/Audio/Wav.antt =====
-- crates/play-on-air/src/audio/wav.rs: the 44-byte header in front of a PCM body.
pub mod RoundTrip
use play_on_air.Prelude.{ℕ, zero, suc, ◌/◌, ◌*◌, List, [], ◌∷◌, replicate, ◌==◌, if◌then◌else◌}
use play_on_air.Prelude.Words.{u16_max, u32_max, saturating_add, saturating_mul}
use play_on_air.Prelude.Bytes.{u16_le_bytes, u32_le_bytes, copy_at}
use play_on_air.Prelude.Text.{Text, codes}
use play_on_air.Error.{Result, ok, err, audio}

write_u16_le : List ℕ → ℕ → ℕ → List ℕ
write_u16_le buf offset value = copy_at buf offset (u16_le_bytes value)

write_u32_le : List ℕ → ℕ → ℕ → List ℕ
write_u32_le buf offset value = copy_at buf offset (u32_le_bytes value)

-- `h[at] = b'…'` for four letters in a row.
write_tag : List ℕ → ℕ → Text → List ℕ
write_tag buf at tag = copy_at buf at tag

-- The writes of `wav_header` below its two guards, in the source's order.
write_fields : ℕ → ℕ → ℕ → List ℕ
unfolding write_u16_le write_u32_le write_tag
write_fields channels sample_rate data_len =
    let block_align = saturating_mul u16_max channels (16 / 8) in
    let byte_rate = saturating_mul u32_max sample_rate block_align in
    let riff_size = saturating_add u32_max 36 data_len in
    let h0 = write_tag (replicate 44 0) 0 (codes "RIFF") in
    let h1 = write_u32_le h0 4 riff_size in
    let h2 = write_tag h1 8 (codes "WAVE") in
    let h3 = write_tag h2 12 (codes "fmt ") in
    let h4 = write_u32_le h3 16 16 in
    let h5 = write_u16_le h4 20 1 in
    let h6 = write_u16_le h5 22 channels in
    let h7 = write_u32_le h6 24 sample_rate in
    let h8 = write_u32_le h7 28 byte_rate in
    let h9 = write_u16_le h8 32 block_align in
    let h10 = write_u16_le h9 34 16 in
    let h11 = write_tag h10 36 (codes "data") in write_u32_le h11 40 data_len

unfoldable pub wav_header : ℕ → ℕ → ℕ → Result (List ℕ)
unfolding write_fields
wav_header channels sample_rate data_len =
    if channels == 0
    then err (audio (codes "channels must be at least 1"))
    else (if sample_rate == 0
        then err (audio (codes "sample_rate must be non-zero"))
        else ok (write_fields channels sample_rate data_len))

unfoldable pub continuous_wav_header : ℕ → ℕ → Result (List ℕ)
unfolding wav_header
continuous_wav_header channels sample_rate = wav_header channels sample_rate (u32_max / 2)
