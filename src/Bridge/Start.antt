-- ===== src/Bridge/Start.antt =====
-- crates/play-on-air/src/bridge/start.rs: the start of a session.
--
-- A start is cut at its awaits; its waits for audio are Prebuffer.
pub mod FirstLoad
use play_on_air.Prelude.{
  ℕ, Bool, true, false, List, [], ◌∷◌, ◌++◌, ◌==◌, if◌then◌else◌, ◌⊎◌, inl, inr, Option, none, some,
}
use play_on_air.Prelude.Words.{u64_max, saturating_add}
use play_on_air.Prelude.Text.{Text}
use play_on_air.Prelude.Maps.{lookup, insert}
use play_on_air.Error.{Error}
use play_on_air.Media.State.{AppState, live_wav, live_flac, set_content}
use play_on_air.Cast.{
  CastTrack, buffered, live, flac, wav, with_track, MediaSessionRef, CastCommand, stop_media,
}
use play_on_air.Bridge.State.{
  EgressKind, flac_live, wav_buffered, CastRoute, PlayingSession, DeviceState, idle, starting,
  playing, following, DeviceSlot, default_slot, Bridge, state_at,
}
use play_on_air.Bridge.Fallback.{is_transport_shaped_cast_error, remember_flac_fallback}
use play_on_air.Bridge.Gates.{preserve_device, cast_load_media}
use play_on_air.Bridge.Teardown.{
  TeardownCastPolicy, stop_best_effort, skip_stop_for_replace, set_state,
}

abbrev pub prior_session : DeviceState → Option PlayingSession
prior_session idle = none
prior_session (starting g) = none
prior_session (playing g session) = some session
prior_session (following g follower) = none

unfoldable pub accept_start_in : DeviceSlot → (ℕ × Option PlayingSession) × DeviceSlot
accept_start_in slot =
    let generation = saturating_add u64_max slot.generation 1 in
    (
      (generation, prior_session slot.state),
      record { generation = generation; state = starting generation },
    )

abbrev pub slot_or_default : Option DeviceSlot → DeviceSlot
slot_or_default none = default_slot
slot_or_default (some slot) = slot

unfoldable pub accept_start : Text → Bridge → (ℕ × Option PlayingSession) × Bridge
unfolding accept_start_in
accept_start device_id b =
    let (accepted, slot) = accept_start_in (slot_or_default (lookup device_id b.devices)) in
    (accepted, record b { devices = insert device_id slot b.devices })

abbrev pub is_starting : ℕ → DeviceState → Bool
is_starting generation idle = false
is_starting generation (starting g) = g == generation
is_starting generation (playing g session) = false
is_starting generation (following g follower) = false

unfoldable pub starting_still : Text → ℕ → Bridge → Bool
starting_still device_id generation b = is_starting generation (state_at device_id b)

unfoldable pub clear_starting_if : Text → ℕ → Bridge → Bridge
unfolding starting_still
clear_starting_if device_id generation b =
    if starting_still device_id generation b then set_state device_id idle b else b

-- The first LOAD: what the receiver answers to FLAC and to WAV are arguments.
pub record InitialLoad : Type 0 where
  pub result : Error ⊎ MediaSessionRef
  pub media : AppState
  pub egress : EgressKind
  pub bridge : Bridge
  pub commands : List CastCommand

module _ (route : CastRoute) (stream_url : Text) (track : CastTrack)
    (ring channels sample_rate : ℕ) where
  unfoldable pub load_wav :
      Error ⊎ MediaSessionRef → AppState → Bridge → List CastCommand → InitialLoad
  unfolding set_content wav with_track cast_load_media
  load_wav answer media b sent =
      let (result, commands) =
        cast_load_media route (with_track track (wav stream_url buffered)) preserve_device answer in
      record {
        result = result;
        media = set_content (live_wav ring channels sample_rate) media;
        egress = wav_buffered;
        bridge = b;
        commands = sent ++ commands;
      }

  unfoldable pub after_flac :
      Text
      → Error ⊎ MediaSessionRef
      → AppState
      → Bridge
      → (Error ⊎ MediaSessionRef) × List CastCommand
      → InitialLoad
  unfolding load_wav
  after_flac device_id wav_answer media b (inr session, commands) = record {
    result = inr session;
    media = media;
    egress = flac_live;
    bridge = b;
    commands = commands;
  }
  after_flac device_id wav_answer media b (inl flac_err, commands) =
      load_wav wav_answer media
        (if is_transport_shaped_cast_error flac_err then b else remember_flac_fallback device_id b)
        commands

  -- The answers are what the receiver would say to a LOAD of FLAC and of WAV.
  unfoldable pub initial_cast_load :
      Text
      → EgressKind
      → Error ⊎ MediaSessionRef
      → Error ⊎ MediaSessionRef
      → AppState
      → Bridge
      → InitialLoad
  unfolding after_flac set_content flac with_track cast_load_media
  initial_cast_load device_id flac_live flac_answer wav_answer media b =
      after_flac device_id wav_answer (set_content (live_flac ring channels sample_rate) media) b (
        cast_load_media route (with_track track (flac stream_url live)) preserve_device flac_answer)
  initial_cast_load device_id wav_buffered flac_answer wav_answer media b =
      load_wav wav_answer media b []

  -- The session that a start installs; `last_volume` is the volume that Cast reports after the LOAD.
  unfoldable pub new_session :
      ℕ → Text → Option Text → Option ℕ → EgressKind → AppState → PlayingSession
  new_session now device_id group last_volume egress media = record {
    media = media;
    device_id = device_id;
    route = route;
    group = group;
    ring = ring;
    source = none;
    stream_url = stream_url;
    channels = channels;
    sample_rate = sample_rate;
    egress = egress;
    paused = false;
    playback_paused = false;
    paused_at = none;
    flush_reload_requested = 0;
    flush_reload_done = 0;
    last_stall_reload_at = none;
    stall_reload_owed = false;
    started_at = now;
    flac_strike = none;
    rollover_running = runs_rollover egress;
    session_alive = true;
    late_stop_allowed = true;
    last_volume_linear = last_volume;
    track = track;
    reload_in_flight = false;
  }
    where
      runs_rollover : EgressKind → Bool
      runs_rollover flac_live = false
      runs_rollover wav_buffered = true

-- A newer start owns the slot, or nothing does.
unfoldable pub orphan_policy : DeviceState → TeardownCastPolicy
orphan_policy idle = stop_best_effort
orphan_policy (starting g) = skip_stop_for_replace
orphan_policy (playing g session) = skip_stop_for_replace
orphan_policy (following g follower) = stop_best_effort

-- Install the session in the slot that still starts it; otherwise how it is torn down.
unfoldable pub install_playing :
    Text → ℕ → PlayingSession → Bridge → Option TeardownCastPolicy × Bridge
unfolding starting_still orphan_policy
install_playing device_id generation session b =
    if starting_still device_id generation b
    then (none, set_state device_id (playing generation session) b)
    else (some (orphan_policy (state_at device_id b)), b)

pub data AfterLoad : Type 0 where
  installs : AfterLoad
  discards : List CastCommand → AfterLoad
  fails : Error → AfterLoad

-- What a start does when its first LOAD is over.
unfoldable pub start_after_load :
    Text → ℕ → CastRoute → Error ⊎ MediaSessionRef → Bridge → AfterLoad × Bridge
unfolding starting_still clear_starting_if
start_after_load device_id generation route (inl e) b =
    (fails e, clear_starting_if device_id generation b)
start_after_load device_id generation route (inr session) b =
    if starting_still device_id generation b
    then (installs, b)
    else (discards (stop_media route.media ∷ []), clear_starting_if device_id generation b)
