-- ===== src/Media/Tests.antt =====
-- The media server (crates/play-on-air/src/media/http.rs) at concrete inputs.
use play_on_air.Prelude.{
  Option, ℕ, ◌+◌, ◌≤◌, ◌<◌, ◌≡◌, refl, ◌⊎◌, ◌↔◌, Bool, true, List, [], ◌∷◌, length, replicate, none,
  some, arith,
}
use play_on_air.Prelude.Text.{Text}
use play_on_air.Error.{ok}
use play_on_air.Audio.PcmRing.{PcmRing}
use play_on_air.Audio.Flac.{FlacLibrary, LiveFlacEncoder}
use play_on_air.Media.Pace.{pace_plan, audio_due, pace_realtime_shared, pace_late_slack}
use play_on_air.Media.Pace.Lead.{delay, pace_plan_lead, pace_realtime_shared_origin}
use play_on_air.Media.State.{AppState, live_wav, start, live_content_length}
use play_on_air.Media.Server.{WavBody, FlacBody, serve_stream, serve_stream_head}
use play_on_air.Media.Server.Generations.{
  Request, gets, sets_content, ends_bodies, serve, Rising, serve-Rising,
}
use play_on_air.Media.Server.Head.{HeadOf, head-get, head_length_wav}
use play_on_air.Media.LiveFlac
use play_on_air.Media.LiveFlac.Blocks.{Sound, run-Sound}
use play_on_air.Media.LiveWav.Runs.{System, Event, idle, pushes, turns, wakes, run}
use play_on_air.Media.LiveWav.Length.{IsFresh, signalled, EndsWell, run-length}
use play_on_air.Media.LiveWav.Audio.{HeardOf, run_audio}

-- A stereo ring for 64 frames.
abbrev stereo : List ℕ → PcmRing ℕ
stereo buf = record {
  channels = 2;
  buf = buf;
  capacity_samples = 128;
  frames_dropped_overflow = 0;
  underrun_polls = 0;
}

-- A library that accepts every header value and writes an empty stream header.
abbrev accepts : Text → Bool
accepts t = true

abbrev one_ring : ℕ → PcmRing ℕ
one_ring r = stereo []

abbrev no_info : FlacLibrary
no_info = record {
  stream_info_error = λ rate channels. none;
  block_sizes_error = λ size. none;
  frame_buf_error = λ channels size. none;
  config_error = none;
  stream_info_bytes = λ e. ok [];
}

pace_plan_lead_example :
    let plan = pace_plan 441000 1024 44100 0 1_000_000_000 8_000_000_000 50_000_000 in
    let due = audio_due 441000 1024 44100 0 in
    let sent = 1_000_000_000 + delay plan.sleep in
    (due ≤ sent + 8_000_000_000)
    × ((plan.sleep ≡ none) ⊎ ((sent + 8_000_000_000 ≡ due) ⊎ ((sent ≡ 0) × (due < 8_000_000_000))))
    × ((plan.sleep ≡ none) ⊎ (plan.rebaseline ≡ none))
pace_plan_lead_example = pace_plan_lead 441000 1024 44100 0 1_000_000_000 8_000_000_000 50_000_000

pace_realtime_shared_origin_example :
    let due = audio_due 0 1024 44100 0 in
    let moved = (pace_realtime_shared 0 (some 0) 44100 1024 0 1024 0 9_000_000_000).0 in
    ((due + pace_late_slack < 9_000_000_000)
      × (0 < 1024)
      × (audio_due 0 1024 44100 moved ≡ 9_000_000_000))
    ⊎ (((9_000_000_000 ≤ due + pace_late_slack) ⊎ (1024 ≤ 0)) × (moved ≡ 0))
pace_realtime_shared_origin_example =
    pace_realtime_shared_origin 0 (some 0) 44100 1024 0 1024 0 9_000_000_000

abbrev requests : List Request
requests = sets_content (live_wav 0 2 44100) ∷ gets ∷ ends_bodies ∷ gets ∷ []

serve-Rising_example :
    Rising accepts one_ring no_info 0
      (serve accepts one_ring no_info requests start).0
      (serve accepts one_ring no_info requests start).1.live_generation
unfolding start
serve-Rising_example = serve-Rising accepts one_ring no_info requests start (omega arith)

abbrev playing : AppState
playing = record {
  content = live_wav 0 2 44100;
  live_generation = 1;
  max_body_bytes = 60;
  bytes_served = 0;
  last_body_write = none;
  rollover = 0;
  artwork = none;
}

head-get_example :
    HeadOf accepts one_ring no_info playing
      (serve_stream_head accepts playing)
      (serve_stream accepts one_ring no_info playing).0
head-get_example = head-get accepts one_ring no_info playing

head_length_wav_example :
    ((serve_stream_head accepts playing).content_length
      ≡ (serve_stream accepts one_ring no_info playing).0.content_length)
    ↔ (◌≡◌ {A = ℕ} 60 live_content_length)
head_length_wav_example = head_length_wav accepts one_ring no_info playing 0 2 44100 refl

-- A body of at most 60 bytes: the header and four frames.
abbrev short : WavBody
short = record {
  ring = 0;
  header = some (replicate 44 7);
  preroll_frames_left = 0;
  channels = 2;
  sample_rate = 44100;
  generation = 1;
  bytes_sent = 0;
  frames_emitted = 0;
  pace_origin = none;
  threshold = 60;
  last_drop_log = none;
  last_drops_seen = 0;
}

abbrev begin : System ℕ
begin = record { app = playing; ring = stereo (1 ∷ 2 ∷ []); phase = idle short; sent = [] }

begin-IsFresh : IsFresh begin short
begin-IsFresh = record {
  starts = refl;
  nothing_sent = refl;
  ready = omega arith;
  at_zero = refl;
  channels = refl;
  ring_valid = omega arith;
}

abbrev events : List (Event ℕ)
events =
    pushes (3 ∷ 4 ∷ 5 ∷ 6 ∷ 7 ∷ 8 ∷ [])
    ∷ turns 0 0 0
    ∷ turns 0 0 0
    ∷ wakes 5
    ∷ turns 1 6 6
    ∷ wakes 7
    ∷ turns 0 8 8
    ∷ []

run-length_example :
    let t = run (λ x. x) events begin in
    (length t.sent ≤ 60)
    × (t.app.rollover ≡ signalled 0 60 (length t.sent))
    × EndsWell 60 (length t.sent) t.phase
run-length_example = run-length (λ x. x) begin short events begin-IsFresh (omega arith)

run_audio_example :
    let t = run (λ x. x) events begin in
    HeardOf (λ x. x) (replicate 44 7) (1 ∷ 2 ∷ 3 ∷ 4 ∷ 5 ∷ 6 ∷ 7 ∷ 8 ∷ []) 60 t.ring t.sent t.phase
run_audio_example =
    run_audio (λ x. x) begin short (replicate 44 7) events begin-IsFresh refl (omega arith)
      (omega arith)

abbrev writes_samples : LiveFlacEncoder → List ℕ → Option (List ℕ)
writes_samples e samples = some samples

-- A mono FLAC body with one block of silence in front.
abbrev flac_body : FlacBody
flac_body = record {
  ring = 0;
  header = some (7 ∷ []);
  preroll_frames_left = 2048;
  encoder = record { channels = 1; sample_rate = 44100; frame_number = 0 };
  channels = 1;
  sample_rate = 44100;
  generation = 1;
  bytes_sent = 0;
  frames_emitted = 0;
  pace_origin = none;
  last_drop_log = none;
  last_drops_seen = 0;
}

abbrev flac_begin : LiveFlac.Runs.System ℕ
flac_begin = record {
  app = playing;
  ring = record {
    channels = 1;
    buf = 1 ∷ [];
    capacity_samples = 5000;
    frames_dropped_overflow = 0;
    underrun_polls = 0;
  };
  phase = LiveFlac.Runs.idle flac_body;
  written = [];
}

abbrev flac_events : List (LiveFlac.Runs.Event ℕ)
flac_events =
    LiveFlac.Runs.pushes (2 ∷ 3 ∷ [])
    ∷ LiveFlac.Runs.turns 0 0 0
    ∷ LiveFlac.Runs.turns 0 1 1
    ∷ LiveFlac.Runs.turns 1 2 2
    ∷ LiveFlac.Runs.wakes 5
    ∷ []

flac_begin-Sound : Sound writes_samples (λ x. x) (7 ∷ []) 1 (1 ∷ []) flac_begin
flac_begin-Sound = record {
  live = record {
    has_channel = omega arith;
    channels_word = omega arith;
    same_channels = refl;
    encoder_channels = refl;
    whole = refl;
  };
  headed = refl;
  ring_valid = omega arith;
  ring_channels = refl;
  chunks = [];
  all_made = refl;
  in_order = refl;
  blocks = 0;
  whole_blocks = refl;
}

run-Sound_example :
    Sound writes_samples
      (λ x. x)
      (7 ∷ [])
      1
      (1 ∷ 2 ∷ 3 ∷ [])
      (LiveFlac.Runs.run writes_samples (λ x. x) flac_events flac_begin)
run-Sound_example =
    run-Sound writes_samples (λ x. x) (λ e samples h. (samples, refl)) (7 ∷ []) 1 (1 ∷ [])
      flac_events flac_begin (omega arith) flac_begin-Sound
