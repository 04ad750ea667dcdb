-- ===== src/Audio.antt =====
-- crates/play-on-air/src/audio: the PCM ring, the WAV header and the FLAC framing.
pub mod PcmRing
pub mod Wav
pub mod Flac
mod Tests
