-- ===== src/Media/LiveFlac.antt =====
-- The body of a live FLAC response in crates/play-on-air/src/media/http.rs: one turn of the stream's
-- closure, and what it writes.
--
-- As for a WAV body, a turn runs between two waits. It is unbounded: no cap, no rollover. FLAC blocks
-- have a fixed size, so only whole blocks are encoded. `encode_frame` is the FLAC library.
pub mod Turns
pub mod Runs
pub mod Chunks
pub mod Blocks
use play_on_air.Prelude.{
  ℕ, ◌-◌, ◌*◌, min, max, Bool, true, false, List, [], ◌∷◌, replicate, length, ltb, leb, ◌==◌, not,
  ◌&&◌, if◌then◌else◌, Option, none, some,
}
use play_on_air.Prelude.Words.{u64_max, saturating_add, saturating_mul}
use play_on_air.Error.{Result, ok, err}
use play_on_air.Audio.PcmRing.{PcmRing, pop_i16, occupancy_frames, available_frames}
use play_on_air.Audio.Flac.{LiveFlacEncoder, flac_block_size, encode_block}
use play_on_air.Media.Pace.{pace_realtime_shared}
use play_on_air.Media.State.{AppState}
use play_on_air.Media.Server.{FlacBody}
use play_on_air.Media.LiveWav.{log_due}

abbrev pub is_superseded : FlacBody → AppState → Bool
is_superseded b s = not (s.live_generation == b.generation)

-- Account for a chunk that is handed over.
unfoldable pub emit_chunk : ℕ → List ℕ → ℕ → FlacBody → AppState → FlacBody × AppState
emit_chunk now chunk pcm_frames b s =
    let sent = saturating_add u64_max b.bytes_sent (length chunk) in
    (
      record b {
        bytes_sent = sent;
        frames_emitted =
            if ltb 0 pcm_frames
            then saturating_add u64_max b.frames_emitted pcm_frames
            else b.frames_emitted;
      },
      record s { bytes_served = sent; last_body_write = some now },
    )

-- What a turn does next. `paces` holds the samples, which are encoded after the sleep.
pub data Turn : Type 0 where
  ends : Turn
  emits : List ℕ → ℕ → FlacBody → Turn
  paces : Option ℕ → List ℕ → ℕ → FlacBody → Turn
  waits : FlacBody → Turn

module _ (encode_frame : LiveFlacEncoder → List ℕ → Option (List ℕ)) where
  -- An encoded block is handed over; a failure ends the body.
  encoded : ℕ → FlacBody → Result (List ℕ × LiveFlacEncoder) → Turn
  encoded n b (err e) = ends
  encoded n b (ok (chunk, encoder)) = emits chunk n (record b { encoder = encoder })

  -- The block of `samples`, at once for silence and after its sleep for audio.
  unfoldable pub encode_current : List ℕ → ℕ → FlacBody → Turn
  unfolding encoded encode_block
  encode_current samples n b = encoded n b (encode_block encode_frame samples b.encoder)

  -- Silence in front, a block a turn.
  unfoldable pub preroll_turn : FlacBody → Turn
  unfolding encode_current
  preroll_turn b =
      let n = min b.preroll_frames_left flac_block_size in
      encode_current (replicate (saturating_mul u64_max n b.channels) 0) n
        (record b { preroll_frames_left = b.preroll_frames_left - n })

  module _ {A : Type 0} (f32_to_i16 : A → ℕ) where
    unfoldable pub maybe_log_ring_drops : ℕ → PcmRing A → FlacBody → FlacBody
    maybe_log_ring_drops now ring b =
        let drops = ring.frames_dropped_overflow in
        if ltb b.last_drops_seen drops && log_due f32_to_i16 b.last_drop_log now
        then record b { last_drops_seen = drops; last_drop_log = some now }
        else b

    -- What follows a pop: nothing and a partial block are waited over, a block is paced.
    unfoldable pub popped : ℕ → ℕ → FlacBody → List ℕ × ℕ × PcmRing A → Turn × PcmRing A
    popped first_now now b (samples, frames, ring) =
        let (origin, sleep) =
          pace_realtime_shared b.frames_emitted b.pace_origin b.sample_rate frames
            (occupancy_frames ring) flac_block_size first_now now in
        (
          if frames == 0
              then waits b
              else (if ltb frames flac_block_size
                  then waits b
                  else paces sleep samples frames (record b { pace_origin = some origin })),
          ring,
        )

    -- Below a whole block the turn waits without a pop.
    unfoldable pub pop_turn : ℕ → ℕ → ℕ → PcmRing A → FlacBody → Turn × PcmRing A
    unfolding popped maybe_log_ring_drops
    pop_turn split first_now now ring b0 =
        let b = maybe_log_ring_drops now ring b0 in
        if ltb (available_frames ring) flac_block_size
        then (waits b, ring)
        else popped first_now now b (pop_i16 f32_to_i16 split flac_block_size ring)

    unfoldable pub header_turn :
        Option (List ℕ) → ℕ → ℕ → ℕ → PcmRing A → FlacBody → Turn × PcmRing A
    unfolding preroll_turn pop_turn
    header_turn (some header) split first_now now ring b =
        (emits header 0 (record b { header = none }), ring)
    header_turn none split first_now now ring b =
        if ltb 0 b.preroll_frames_left
        then (preroll_turn b, ring)
        else pop_turn split first_now now ring b

    unfoldable pub turn : ℕ → ℕ → ℕ → AppState → PcmRing A → FlacBody → Turn × PcmRing A
    unfolding header_turn
    turn split first_now now s ring b =
        if is_superseded b s then (ends, ring) else header_turn b.header split first_now now ring b
