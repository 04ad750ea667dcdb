-- ===== src/Media/Server.antt =====
-- The handlers of the routes of the media server in crates/play-on-air/src/media/http.rs, and the
-- bodies that they answer with.
--
-- `rings` reads a ring by its number. Text that only
-- goes to the log is left out, and so is the socket. A header that is absent is `none`; hyper adds
-- the length of a static body itself.
pub mod Generations
pub mod Head
use play_on_air.Prelude.{
  ℕ, suc, ◌+◌, ◌*◌, ◌/◌, max, min, Bool, List, [], length, leb, ltb, ◌==◌, if◌then◌else◌, Option,
  none, some,
}
use play_on_air.Prelude.Words.{u32_max, u64_max, saturating_mul, wrapping_add64}
use play_on_air.Prelude.Text.{Text, codes}
use play_on_air.Error.{Result, ok, err}
use play_on_air.Audio.PcmRing.{PcmRing, available_frames}
use play_on_air.Audio.Wav.{continuous_wav_header}
use play_on_air.Audio.Flac.{FlacLibrary, LiveFlacEncoder, flac_block_size, round_up_to_flac_blocks}
use play_on_air.Audio.Flac
use play_on_air.Media.State.{
  AppState, MediaContent, bump, empty, live_body_threshold, live_content_length, live_flac,
  live_wav, silence_preroll_frames, static_body,
}

-- A live body as it is created for one GET.
pub record WavBody : Type 0 where
  pub ring : ℕ
  pub header : Option (List ℕ)
  pub preroll_frames_left : ℕ
  pub channels : ℕ
  pub sample_rate : ℕ
  pub generation : ℕ
  pub bytes_sent : ℕ
  pub frames_emitted : ℕ
  pub pace_origin : Option ℕ
  pub threshold : ℕ
  pub last_drop_log : Option ℕ
  pub last_drops_seen : ℕ

pub record FlacBody : Type 0 where
  pub ring : ℕ
  pub header : Option (List ℕ)
  pub preroll_frames_left : ℕ
  pub encoder : LiveFlacEncoder
  pub channels : ℕ
  pub sample_rate : ℕ
  pub generation : ℕ
  pub bytes_sent : ℕ
  pub frames_emitted : ℕ
  pub pace_origin : Option ℕ
  pub last_drop_log : Option ℕ
  pub last_drops_seen : ℕ

pub data Body : Type 0 where
  bytes : List ℕ → Body
  wav : WavBody → Body
  flac : FlacBody → Body
  no_bytes : Body

pub record Response : Type 0 where
  pub status : ℕ
  pub content_type : Option Text
  pub content_length : Option ℕ
  pub accept_ranges : Option Text
  pub cache_control : Option Text
  pub body : Body

-- A bare status code.
abbrev pub only_status : ℕ → Response
only_status status = record {
  status = status;
  content_type = none;
  content_length = none;
  accept_ranges = none;
  cache_control = none;
  body = bytes [];
}

-- A status code with a text: the HTTP library sets the type of a string body.
abbrev pub failed : ℕ → Text → Response
failed status message = record {
  status = status;
  content_type = some (codes "text/plain; charset=utf-8");
  content_length = none;
  accept_ranges = none;
  cache_control = none;
  body = bytes message;
}

-- `content_type.parse()`: the header values that the HTTP library accepts.
module _ (is_header_value : Text → Bool) where
  parsed : Text → Option Text
  parsed t = if is_header_value t then some t else none

  unfoldable pub serve_artwork : ℕ → AppState → Response
  unfolding parsed
  serve_artwork id s = elim s.artwork [
    | none ↦ only_status 404
    | some art ↦
        if art.id == id
        then record {
          status = 200;
          content_type = parsed art.content_type;
          content_length = none;
          accept_ranges = none;
          cache_control = some (codes "public, max-age=86400, immutable");
          body = bytes art.body;
        }
        else only_status 404
  ]

  module _ {A : Type 0} (rings : ℕ → PcmRing A) (library : FlacLibrary) where
    wav_response : ℕ → ℕ → ℕ → ℕ → List ℕ → AppState → Response
    unfolding live_body_threshold silence_preroll_frames
    wav_response ring ch rate generation header s =
        let threshold = live_body_threshold s.max_body_bytes in
        record {
          status = 200;
          content_type = some (codes "audio/wav");
          content_length = some threshold;
          accept_ranges = some (codes "none");
          cache_control = none;
          body = wav (record {
            ring = ring;
            header = some header;
            preroll_frames_left = silence_preroll_frames rate (rings ring) 1;
            channels = ch;
            sample_rate = rate;
            generation = generation;
            bytes_sent = 0;
            frames_emitted = 0;
            pace_origin = none;
            threshold = threshold;
            last_drop_log = none;
            last_drops_seen = 0;
          });
        }

    unfoldable pub live_wav_response : ℕ → ℕ → ℕ → ℕ → AppState → Response
    unfolding wav_response
    live_wav_response ring channels sample_rate generation s =
        elim (continuous_wav_header (max channels 1) (max sample_rate 1)) [
          | ok header ↦ wav_response ring (max channels 1) (max sample_rate 1) generation header s
          | err e ↦ failed 500 (codes "wav header")
        ]

    flac_response : ℕ → ℕ → ℕ → ℕ → List ℕ → LiveFlacEncoder → Response
    unfolding round_up_to_flac_blocks silence_preroll_frames
    flac_response ring ch rate generation header encoder = record {
      status = 200;
      content_type = some (codes "audio/flac");
      content_length = none;
      accept_ranges = some (codes "none");
      cache_control = none;
      body = flac (record {
        ring = ring;
        header = some header;
        preroll_frames_left =
            round_up_to_flac_blocks (silence_preroll_frames rate (rings ring) flac_block_size);
        encoder = encoder;
        channels = ch;
        sample_rate = rate;
        generation = generation;
        bytes_sent = 0;
        frames_emitted = 0;
        pace_origin = none;
        last_drop_log = none;
        last_drops_seen = 0;
      });
    }

    -- The `match` on `header_bytes`.
    unfoldable pub with_header : ℕ → ℕ → ℕ → ℕ → LiveFlacEncoder → Result (List ℕ) → Response
    unfolding flac_response
    with_header ring ch rate generation encoder (err e) = failed 500 (codes "flac header")
    with_header ring ch rate generation encoder (ok header) =
        flac_response ring ch rate generation header encoder

    -- The `match` on `LiveFlacEncoder::new`.
    unfoldable pub with_encoder : ℕ → ℕ → ℕ → ℕ → Result LiveFlacEncoder → Response
    unfolding with_header
    with_encoder ring ch rate generation (err e) = failed 500 (codes "flac encoder")
    with_encoder ring ch rate generation (ok encoder) =
        with_header ring ch rate generation encoder (library.stream_info_bytes encoder)

    unfoldable pub live_flac_response : ℕ → ℕ → ℕ → ℕ → Response
    unfolding with_encoder
    live_flac_response ring channels sample_rate generation =
        with_encoder ring (max channels 1) (max sample_rate 1) generation
          (Flac.new library (max sample_rate 1) (max channels 1))

    -- A live GET takes over: it bumps the generation and resets the accounting.
    take_over : AppState → AppState
    take_over s = record (bump s) { bytes_served = 0; last_body_write = none }

    serve_content : MediaContent → AppState → Response × AppState
    unfolding parsed live_wav_response live_flac_response take_over
    serve_content (static_body content_type body) s = (
      record {
        status = 200;
        content_type = parsed content_type;
        content_length = none;
        accept_ranges = none;
        cache_control = none;
        body = bytes body;
      },
      s,
    )
    serve_content (live_wav ring channels sample_rate) s =
        let t = take_over s in (live_wav_response ring channels sample_rate t.live_generation t, t)
    serve_content (live_flac ring channels sample_rate) s =
        let t = take_over s in (live_flac_response ring channels sample_rate t.live_generation, t)
    serve_content empty s = (failed 404 (codes "no stream"), s)

    -- GET /stream.
    unfoldable pub serve_stream : AppState → Response × AppState
    unfolding serve_content
    serve_stream s = serve_content s.content s

  head_of : MediaContent → Response
  unfolding parsed
  head_of (static_body content_type body) = record {
    status = 200;
    content_type = parsed content_type;
    content_length = some (length body);
    accept_ranges = none;
    cache_control = none;
    body = no_bytes;
  }
  head_of (live_wav ring channels sample_rate) = record {
    status = 200;
    content_type = some (codes "audio/wav");
    content_length = some live_content_length;
    accept_ranges = some (codes "none");
    cache_control = none;
    body = no_bytes;
  }
  head_of (live_flac ring channels sample_rate) = record {
    status = 200;
    content_type = some (codes "audio/flac");
    content_length = none;
    accept_ranges = some (codes "none");
    cache_control = none;
    body = no_bytes;
  }
  head_of empty = failed 404 (codes "no stream")

  -- HEAD /stream: it only reads the state.
  unfoldable pub serve_stream_head : AppState → Response
  unfolding head_of
  serve_stream_head s = head_of s.content
