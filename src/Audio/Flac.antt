-- ===== src/Audio/Flac.antt =====
-- crates/play-on-air/src/audio/flac.rs: the fixed-block live FLAC encoder around flacenc.
--
-- `S` stands for i16 samples. flacenc (fill, encode and write of one frame) is the parameter
-- `encode_frame`: from the frame number and a full block it makes the frame's bytes, or fails.
-- The arena and the scratch buffers hold no state that a later frame reads.
pub mod Blocks
use play_on_air.Prelude.{
  ℕ, zero, suc, ◌+◌, ◌*◌, List, [], ◌∷◌, ◌++◌, length, max, ◌==◌, if◌then◌else◌, Option, none, some,
}
use play_on_air.Prelude.Words.{u64_max, saturating_add, saturating_mul, div_ceil}
use play_on_air.Prelude.Text.{Text, codes}
use play_on_air.Error.{Result, ok, err, audio}

abbrev pub flac_block_size : ℕ
flac_block_size = 2048

-- Worst-case bytes of one frame.
pub max_live_frame_bytes : ℕ → ℕ
max_live_frame_bytes channels =
    let verbatim_subframe =
      saturating_add u64_max (div_ceil (saturating_mul u64_max flac_block_size 17) 8) 1 in
    saturating_add u64_max (saturating_mul u64_max channels verbatim_subframe) 19

unfoldable pub round_up_to_flac_blocks : ℕ → ℕ
round_up_to_flac_blocks frames =
    if frames == 0
    then 0
    else saturating_mul u64_max (div_ceil frames flac_block_size) flac_block_size

pub record LiveFlacEncoder : Type 0 where
  pub channels : ℕ
  pub sample_rate : ℕ
  pub frame_number : ℕ

-- What flacenc answers when an encoder is set up; `none` says that a call succeeds.
pub record FlacLibrary : Type 0 where
  pub stream_info_error : ℕ → ℕ → Option Text
  pub block_sizes_error : ℕ → Option Text
  pub frame_buf_error : ℕ → ℕ → Option Text
  pub config_error : Option Text
  pub stream_info_bytes : LiveFlacEncoder → Result (List ℕ)

-- `?` on a call of the library, with the text that the error gets in front.
abbrev pub or_fail : Option Text → Text → Result LiveFlacEncoder → Result LiveFlacEncoder
or_fail none message rest = rest
or_fail (some e) message rest = err (audio (message ++ e))

-- `live_stream_info`, before `rest`.
unfoldable pub live_stream_info :
    FlacLibrary → ℕ → ℕ → Result LiveFlacEncoder → Result LiveFlacEncoder
live_stream_info library sample_rate channels rest =
    if channels == 0
    then err (audio (codes "channels must be at least 1"))
    else (if sample_rate == 0
        then err (audio (codes "sample_rate must be non-zero"))
        else or_fail (library.stream_info_error sample_rate channels)
            (codes "invalid FLAC StreamInfo: ")
            (or_fail (library.block_sizes_error flac_block_size)
              (codes "invalid FLAC block sizes: ") rest))

unfoldable pub new : FlacLibrary → ℕ → ℕ → Result LiveFlacEncoder
unfolding live_stream_info
new library sample_rate channels = live_stream_info library sample_rate channels (
    or_fail (library.frame_buf_error channels flac_block_size)
      (codes "FLAC FrameBuf alloc failed: ")
      (or_fail library.config_error (codes "invalid FLAC encoder config: ")
        (ok (record { channels = channels; sample_rate = sample_rate; frame_number = 0 }))))

module _ {S : Type 0} (encode_frame : LiveFlacEncoder → List S → Option (List ℕ)) where
  frame_result : LiveFlacEncoder → Option (List ℕ) → Result (List ℕ × LiveFlacEncoder)
  frame_result e none = err (audio (codes "FLAC frame encode failed"))
  frame_result e (some bytes) =
      ok (bytes, record e { frame_number = saturating_add u64_max e.frame_number 1 })

  unfoldable pub encode_block : List S → LiveFlacEncoder → Result (List ℕ × LiveFlacEncoder)
  unfolding frame_result
  encode_block i16_samples e =
      if length i16_samples == saturating_mul u64_max flac_block_size e.channels
      then frame_result e (encode_frame e i16_samples)
      else err (audio (codes "FLAC block has a wrong number of samples"))
