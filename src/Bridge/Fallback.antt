-- ===== src/Bridge/Fallback.antt =====
-- crates/play-on-air/src/bridge/fallback.rs: failure strikes, the memory of devices that need WAV, and
-- the switch of a live FLAC session.
--
-- A step here is what the code does under one lock. The rollover task that the switch starts is
-- `rollover_running`; the re-LOAD after the switch is bridge/load.rs, of which the outcome is read.
pub mod Strikes
pub mod Switch
use play_on_air.Prelude.{
  ℕ, ◌-◌, ◌*◌, Bool, true, false, not, ◌&&◌, ◌||◌, List, [], ◌∷◌, map, ltb, ◌==◌, if◌then◌else◌,
  Option, none, some,
}
use play_on_air.Prelude.Text.{Text, codes, same_text, contains, ascii_lower}
use play_on_air.Prelude.Maps.{lookup, modify}
use play_on_air.Error.{Error, config, discovery, media, cast, air_play, audio, bridge, io}
use play_on_air.Media.State.{set_content, live_wav}
use play_on_air.Bridge.State.{
  EgressKind, flac_live, wav_buffered, FlacStrikeReason, media_recovered, PlayingSession,
  DeviceState, idle, starting, playing, following, DeviceSlot, Bridge, state_at,
}

abbrev pub flac_fallback_window : ℕ
flac_fallback_window = 10 * 1_000_000_000

abbrev pub flac_strike_pair_window : ℕ
flac_strike_pair_window = 90 * 1_000_000_000

abbrev transport_words : List Text
transport_words =
    codes "timeout"
    ∷ codes "timed out"
    ∷ codes "disconnected"
    ∷ codes "reply dropped"
    ∷ codes "no warm cast worker"
    ∷ codes "no active session"
    ∷ codes "not connected"
    ∷ codes "reconnect backoff"
    ∷ codes "broken pipe"
    ∷ codes "connection"
    ∷ codes "connect "
    ∷ []

abbrev any_in : List Text → Text → Bool
any_in [] lower = false
any_in (w ∷ ws) lower = contains lower w || any_in ws lower

unfoldable pub is_transport_shaped_cast_error : Error → Bool
is_transport_shaped_cast_error (cast msg) = any_in transport_words (map ascii_lower msg)
is_transport_shaped_cast_error (bridge msg) = any_in transport_words (map ascii_lower msg)
is_transport_shaped_cast_error (io msg) = true
is_transport_shaped_cast_error (config path e) = false
is_transport_shaped_cast_error (discovery msg) = false
is_transport_shaped_cast_error (media msg) = false
is_transport_shaped_cast_error (air_play msg) = false
is_transport_shaped_cast_error (audio msg) = false

pub data FlacStrikeDecision : Type 0 where
  record_only fallback_to_wav : FlacStrikeDecision

unfoldable pub flac_strike_decision :
    Option (ℕ × FlacStrikeReason)
    → ℕ
    → FlacStrikeReason
    → ℕ
    → FlacStrikeDecision × Option (ℕ × FlacStrikeReason)
flac_strike_decision none now reason pair_window = (record_only, some (now, reason))
flac_strike_decision (some (prev_at, _)) now reason pair_window =
    (if ltb (now - prev_at) pair_window then fallback_to_wav else record_only, some (now, reason))

unfoldable pub apply_flac_strike :
    ℕ → FlacStrikeReason → PlayingSession → FlacStrikeDecision × PlayingSession
unfolding flac_strike_decision
apply_flac_strike now reason session =
    let (decision, updated) =
      flac_strike_decision session.flac_strike now reason flac_strike_pair_window in
    (decision, record session { flac_strike = updated })

pub data MediaRecoveredPlan : Type 0 where
  early_immediate : ℕ → MediaRecoveredPlan
  strike_fallback : ℕ → Option FlacStrikeReason → MediaRecoveredPlan

-- `HashSet::contains` and `insert`.
abbrev pub remembered : Text → List Text → Bool
remembered id [] = false
remembered id (x ∷ xs) = same_text id x || remembered id xs

unfoldable pub remember_flac_fallback : Text → Bridge → Bridge
remember_flac_fallback device_id b =
    if remembered device_id b.flac_fallback
    then b
    else record b { flac_fallback = device_id ∷ b.flac_fallback }

-- Write a device's session back.
abbrev pub with_session : Text → ℕ → PlayingSession → Bridge → Bridge
with_session device_id g session b = record b {
  devices = modify device_id (λ slot. record slot { state = playing g session }) b.devices;
}

abbrev pub is_flac : EgressKind → Bool
is_flac flac_live = true
is_flac wav_buffered = false

abbrev pub reason_of : Option (ℕ × FlacStrikeReason) → Option FlacStrikeReason
reason_of none = none
reason_of (some (at, reason)) = some reason

unfoldable pub plan_of :
    ℕ → Option FlacStrikeReason → FlacStrikeDecision → Option MediaRecoveredPlan
plan_of g previous record_only = none
plan_of g previous fallback_to_wav = some (strike_fallback g previous)

unfoldable pub plan_session :
    ℕ → Text → ℕ → PlayingSession → Bridge → Option MediaRecoveredPlan × Bridge
unfolding plan_of
plan_session now device_id g session b =
    let (decision, struck) = apply_flac_strike now media_recovered session in
    if is_flac session.egress
    then (if ltb (now - session.started_at) flac_fallback_window
        then (some (early_immediate g), b)
        else (
          plan_of g (reason_of session.flac_strike) decision,
          with_session device_id g struck b,
        ))
    else (none, b)

unfoldable pub plan_state : ℕ → Text → DeviceState → Bridge → Option MediaRecoveredPlan × Bridge
unfolding plan_session
plan_state now device_id idle b = (none, b)
plan_state now device_id (starting g) b = (none, b)
plan_state now device_id (playing g session) b = plan_session now device_id g session b
plan_state now device_id (following g follower) b = (none, b)

-- `now` is read for the age of the session and for the strike.
unfoldable pub plan_media_recovered_flac : ℕ → Text → Bridge → Option MediaRecoveredPlan × Bridge
unfolding plan_state
plan_media_recovered_flac now device_id b = plan_state now device_id (state_at device_id b) b

-- The session after its switch to WAV.
unfoldable pub switched_to_wav : ℕ → PlayingSession → PlayingSession
unfolding set_content
switched_to_wav now session = record session {
  media = set_content (live_wav session.ring session.channels session.sample_rate) session.media;
  egress = wav_buffered;
  rollover_running = true;
  last_stall_reload_at = some now;
}

unfoldable pub switch_state : ℕ → Text → ℕ → DeviceState → Bridge → Bool × Bridge
unfolding switched_to_wav
switch_state now device_id generation idle b = (false, b)
switch_state now device_id generation (starting g) b = (false, b)
switch_state now device_id generation (following g follower) b = (false, b)
switch_state now device_id generation (playing g session) b =
    if not (g == generation) || not (is_flac session.egress)
    then (false, b)
    else (true, with_session device_id g (switched_to_wav now session) b)

-- The locked part of `switch_playing_to_wav`.
unfoldable pub switch_playing_to_wav : ℕ → Text → ℕ → Bridge → Bool × Bridge
unfolding switch_state
switch_playing_to_wav now device_id generation b =
    switch_state now device_id generation (state_at device_id b) b
