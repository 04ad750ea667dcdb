-- ===== src/Media/State.antt =====
-- The shared state of the media server in crates/play-on-air/src/media/http.rs: what is served, and
-- the generation that supersedes live bodies.
--
-- A ring is known by a number, as `Arc` clones of it are one ring.
use play_on_air.Prelude.{ℕ, ◌+◌, ◌/◌, max, List, leb, ltb, if◌then◌else◌, Option, none, some}
use play_on_air.Prelude.Words.{u32_max, u64_max, saturating_mul, wrapping_add64}
use play_on_air.Prelude.Text.{Text}
use play_on_air.Audio.PcmRing.{PcmRing, available_frames}

pub data MediaContent : Type 0 where
  static_body : Text → List ℕ → MediaContent
  live_wav : ℕ → ℕ → ℕ → MediaContent
  live_flac : ℕ → ℕ → ℕ → MediaContent
  empty : MediaContent

pub record Artwork : Type 0 where
  pub id : ℕ
  pub content_type : Text
  pub body : List ℕ

pub record AppState : Type 0 where
  pub content : MediaContent
  pub live_generation : ℕ
  pub max_body_bytes : ℕ
  pub bytes_served : ℕ
  pub last_body_write : Option ℕ
  pub rollover : ℕ
  pub artwork : Option Artwork

abbrev pub live_content_length : ℕ
live_content_length = u32_max / 2 + 44

unfoldable pub start : AppState
start = record {
  content = empty;
  live_generation = 0;
  max_body_bytes = live_content_length;
  bytes_served = 0;
  last_body_write = none;
  rollover = 0;
  artwork = none;
}

unfoldable pub set_content : MediaContent → AppState → AppState
set_content content s = record s { content = content }

unfoldable pub set_artwork : Option Artwork → AppState → AppState
set_artwork artwork s = record s { artwork = artwork }

unfoldable pub set_max_body_bytes : ℕ → AppState → AppState
set_max_body_bytes n s = record s { max_body_bytes = max n 44 }

-- `live_generation.fetch_add(1)`.
abbrev pub bump : AppState → AppState
bump s = record s { live_generation = wrapping_add64 s.live_generation 1 }

unfoldable pub invalidate_live : AppState → AppState
invalidate_live s = record (bump s) { content = empty }

unfoldable pub end_live_bodies : AppState → AppState
end_live_bodies s = bump s

-- `RolloverSignal::signal`; a waiter returns once the count is past the one it has seen.
unfoldable pub signal : AppState → AppState
signal s = record s { rollover = wrapping_add64 s.rollover 1 }

unfoldable pub wait_past : ℕ → AppState → Option ℕ
wait_past seen s = if ltb seen s.rollover then some s.rollover else none

unfoldable pub live_body_threshold : ℕ → ℕ
live_body_threshold max_body_bytes = max max_body_bytes 44

abbrev pub silence_preroll_ms : ℕ
silence_preroll_ms = 2000

module _ {A : Type 0} where
  unfoldable pub silence_preroll_frames : ℕ → PcmRing A → ℕ → ℕ
  silence_preroll_frames sample_rate ring min_real_frames =
      if leb (max min_real_frames 1) (available_frames ring)
      then 0
      else saturating_mul u64_max (max sample_rate 1) silence_preroll_ms / 1000
