-- ===== src/Media/LiveWav.antt =====
-- The body of a live WAV response in crates/play-on-air/src/media/http.rs: one turn of the stream's
-- closure, and what it writes.
--
-- `A` stands for the ring's f32 samples; an i16 sample is its bit pattern. A turn ends the stream,
-- hands a chunk over at once, hands one over after a pacing sleep, or found the ring empty and tries
-- again after a sleep. The turn itself runs between two waits, so the server's state does not change
-- under it; other tasks run during the sleeps. The scratch buffers are written before they are read.
pub mod Ready
pub mod Turns
pub mod Runs
pub mod Length
pub mod Layout
pub mod Audio
use play_on_air.Prelude.{
  ℕ, zero, suc, ◌+◌, ◌-◌, ◌*◌, ◌/◌, min, max, Bool, true, false, not, ◌&&◌, List, [], ◌∷◌, ◌++◌,
  replicate, length, leb, ltb, ◌==◌, if◌then◌else◌, Option, none, some,
}
use play_on_air.Prelude.Words.{u64_max, saturating_add, saturating_mul}
use play_on_air.Prelude.Bytes.{u16_le_bytes}
use play_on_air.Audio.PcmRing.{PcmRing, pop_i16, occupancy_frames}
use play_on_air.Media.Pace.{pace_realtime_shared}
use play_on_air.Media.State.{AppState, signal}
use play_on_air.Media.Server.{WavBody}

abbrev pub live_chunk_frames : ℕ
live_chunk_frames = 1024

abbrev pub drop_log_interval : ℕ
drop_log_interval = 1_000_000_000

abbrev pub is_superseded : WavBody → AppState → Bool
is_superseded b s = not (s.live_generation == b.generation)

-- `i16_to_le_bytes`.
abbrev pub le_bytes : List ℕ → List ℕ
le_bytes [] = []
le_bytes (v ∷ vs) = u16_le_bytes v ++ le_bytes vs

-- Account for a chunk that is handed over; the chunk that reaches the cap signals the rollover.
unfoldable pub emit_chunk : ℕ → List ℕ → ℕ → WavBody → AppState → WavBody × AppState
unfolding signal
emit_chunk now chunk pcm_frames b s =
    let sent = saturating_add u64_max b.bytes_sent (length chunk) in
    let b' = record b {
      bytes_sent = sent;
      frames_emitted =
          if ltb 0 pcm_frames
          then saturating_add u64_max b.frames_emitted pcm_frames
          else b.frames_emitted;
    } in
    let s' = record s { bytes_served = sent; last_body_write = some now } in
    (b', if ltb b.bytes_sent b.threshold && leb b.threshold sent then signal s' else s')

-- What a turn does next.
pub data Turn : Type 0 where
  ends : Turn
  emits : List ℕ → ℕ → WavBody → Turn
  paces : Option ℕ → List ℕ → ℕ → WavBody → Turn
  underruns : WavBody → Turn

abbrev pub remaining : WavBody → ℕ
remaining b = b.threshold - b.bytes_sent

-- Whole frames that fit below the cap.
abbrev pub frames_fit : WavBody → ℕ
frames_fit b = remaining b / saturating_mul u64_max b.channels 2

-- Silence in front, while the preroll lasts; `emit_silence_pad` fills the last partial frame.
preroll_turn : WavBody → Turn
preroll_turn b =
    if saturating_mul u64_max b.channels 2 == 0
    then ends
    else (if frames_fit b == 0
        then emits (replicate (remaining b) 0) 0 b
        else (let n = min (min b.preroll_frames_left live_chunk_frames) (frames_fit b) in
            emits (le_bytes (replicate (saturating_mul u64_max n b.channels) 0)) n
              (record b { preroll_frames_left = b.preroll_frames_left - n })))

module _ {A : Type 0} (f32_to_i16 : A → ℕ) where
  pub log_due : Option ℕ → ℕ → Bool
  log_due none now = true
  log_due (some t) now = leb drop_log_interval (now - t)

  maybe_log_ring_drops : ℕ → PcmRing A → WavBody → WavBody
  unfolding log_due
  maybe_log_ring_drops now ring b =
      let drops = ring.frames_dropped_overflow in
      if ltb b.last_drops_seen drops && log_due b.last_drop_log now
      then record b { last_drops_seen = drops; last_drop_log = some now }
      else b

  -- What follows a pop: sleep on an empty ring, else the chunk waits for its pace.
  paced : ℕ → ℕ → WavBody → List ℕ × ℕ × PcmRing A → Turn × PcmRing A
  paced first_now now b (samples, frames, ring) =
      let (origin, sleep) =
        pace_realtime_shared b.frames_emitted b.pace_origin b.sample_rate frames
          (occupancy_frames ring) live_chunk_frames first_now now in
      (
        if frames == 0
            then underruns b
            else paces sleep (le_bytes samples) frames (record b { pace_origin = some origin }),
        ring,
      )

  pop_turn : ℕ → ℕ → ℕ → PcmRing A → WavBody → Turn × PcmRing A
  unfolding paced maybe_log_ring_drops
  pop_turn split first_now now ring b0 =
      let b = maybe_log_ring_drops now ring b0 in
      if saturating_mul u64_max b.channels 2 == 0
      then (ends, ring)
      else (if frames_fit b == 0
          then (emits (replicate (remaining b) 0) 0 b, ring)
          else paced first_now now b
              (pop_i16 f32_to_i16 split (min live_chunk_frames (frames_fit b)) ring))

  -- The header goes first, then the preroll, then what is popped.
  header_turn : Option (List ℕ) → ℕ → ℕ → ℕ → PcmRing A → WavBody → Turn × PcmRing A
  unfolding pop_turn preroll_turn
  header_turn (some header) split first_now now ring b =
      (emits header 0 (record b { header = none }), ring)
  header_turn none split first_now now ring b =
      if ltb 0 b.preroll_frames_left
      then (preroll_turn b, ring)
      else pop_turn split first_now now ring b

  -- One turn of the closure, and one round of its loop: the loop starts with the same two tests.
  unfoldable pub turn : ℕ → ℕ → ℕ → AppState → PcmRing A → WavBody → Turn × PcmRing A
  unfolding header_turn
  turn split first_now now s ring b =
      if is_superseded b s
      then (ends, ring)
      else (if leb b.threshold b.bytes_sent
          then (ends, ring)
          else header_turn b.header split first_now now ring b)
