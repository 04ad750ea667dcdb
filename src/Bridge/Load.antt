-- ===== src/Bridge/Load.antt =====
-- crates/play-on-air/src/bridge/load.rs: the re-LOAD of the media that a device plays.
--
-- `reload_playing_media` is cut at its awaits: a `Reload` is where it waits, and `poll` goes on from
-- there with what the code reads then. The session that it loads for may have left its slot meanwhile,
-- so the flags that it reads are arguments.
pub mod Flights
pub mod Bounds
pub mod Flush
pub mod Undisturbed
use play_on_air.Prelude.{
  ℕ, max, Bool, true, false, not, ◌&&◌, ◌||◌, List, [], ◌∷◌, ◌++◌, leb, ◌==◌, if◌then◌else◌, ◌⊎◌,
  inl, inr, Option, none, some,
}
use play_on_air.Prelude.Text.{Text}
use play_on_air.Error.{Error}
use play_on_air.Cast.{
  buffered, live, MediaLoadRequest, flac, wav, with_track, MediaSessionRef, CastCommand, load_media,
  set_level, stop_media,
}
use play_on_air.Bridge.State.{
  EgressKind, flac_live, wav_buffered, PlayingSession, CastRoute, Bridge, playing_at,
}
use play_on_air.Bridge.Fallback.{with_session}
use play_on_air.Bridge.Stall.{ReloadOutcome, loaded, paused, failed}
use play_on_air.Bridge.Gates.{
  LoadAttempt, ReloadGate, ReloadPlan, ReloadValidity, SessionFlags, abort, accept_reload, accepted,
  already_satisfied, attempt_done, attempt_ended, attempt_paused,
  discard_successful_reload_should_stop, gate_paused, is_paused, is_stale, is_valid, proceed,
  reload_gate, rollover, validity_in,
}

-- Where a re-LOAD waits: for `reload_flight`, for the prior LOAD and the start lead, for its LOAD
-- (with the flush requests that it covers), or for the STOP of a LOAD that is not accepted.
pub data Reload : Type 0 where
  returns : ReloadOutcome → Reload
  awaits_flight awaits_lead : Reload
  awaits_load : ℕ → Reload
  awaits_stop : ReloadOutcome → Reload

unfoldable pub egress_request : EgressKind → Text → MediaLoadRequest
unfolding flac wav
egress_request flac_live url = flac url live
egress_request wav_buffered url = wav url buffered

unfoldable pub reload_plan : PlayingSession → ReloadPlan
unfolding egress_request with_track
reload_plan session = record {
  route = session.route;
  request = with_track session.track (egress_request session.egress session.stream_url);
  volume = rollover session.last_volume_linear;
}

unfoldable pub planned : ReloadValidity → PlayingSession → Reload × Option ReloadPlan
unfolding reload_plan
planned is_valid session = (awaits_flight, some (reload_plan session))
planned is_paused session = (returns paused, none)
planned is_stale session = (returns failed, none)

unfoldable pub begin_playing : ℕ → Option (ℕ × PlayingSession) → Reload × Option ReloadPlan
unfolding planned validity_in
begin_playing generation none = (returns failed, none)
begin_playing generation (some (g, session)) = planned (validity_in g generation session) session

-- A re-LOAD up to its first await.
unfoldable pub begin_reload : Text → ℕ → Bridge → Reload × Option ReloadPlan
unfolding begin_playing
begin_reload device_id generation b = begin_playing generation (playing_at device_id b)

-- The gate after the flight lock.
unfoldable pub past_flight : ReloadGate → Reload
past_flight abort = returns failed
past_flight gate_paused = returns paused
past_flight already_satisfied = returns loaded
past_flight (proceed flush_requested) = awaits_lead

-- The gate after the prior LOAD, and the check as the LOAD is published.
unfoldable pub past_lead : SessionFlags → ReloadGate → Reload
past_lead flags abort = returns failed
past_lead flags gate_paused = returns paused
past_lead flags already_satisfied = returns loaded
past_lead flags (proceed flush_requested) =
    if not flags.session_alive
    then returns failed
    else (if flags.playback_paused then returns paused else awaits_load flush_requested)

-- A LOAD that went through on the wire but is not accepted is stopped, except after a replace.
unfoldable pub discarded : SessionFlags → ReloadValidity → Reload
unfolding discard_successful_reload_should_stop
discarded flags validity =
    let outcome = outcome_of validity in
    if discard_successful_reload_should_stop flags.playback_paused flags.session_alive
      flags.late_stop_allowed
    then awaits_stop outcome
    else returns outcome
  where
    outcome_of : ReloadValidity → ReloadOutcome
    outcome_of is_paused = paused
    outcome_of is_valid = failed
    outcome_of is_stale = failed

unfoldable pub past_accept : SessionFlags → ReloadValidity × Bridge → Reload × Bridge
unfolding discarded
past_accept flags (is_valid, b) = (returns loaded, b)
past_accept flags (is_paused, b) = (discarded flags is_paused, b)
past_accept flags (is_stale, b) = (discarded flags is_stale, b)

-- `none` where the result was dropped by a teardown.
unfoldable pub past_load :
    Text → ℕ → ℕ → SessionFlags → Option LoadAttempt → Bridge → Reload × Bridge
unfolding past_accept accept_reload
past_load device_id generation covers_flush flags none b = (returns failed, b)
past_load device_id generation covers_flush flags (some (attempt_done (inl e))) b =
    (returns failed, b)
past_load device_id generation covers_flush flags (some (attempt_done (inr session))) b =
    past_accept flags (accept_reload device_id generation covers_flush b)
past_load device_id generation covers_flush flags (some attempt_paused) b = (returns paused, b)
past_load device_id generation covers_flush flags (some attempt_ended) b = (returns failed, b)

-- What happens when the wait is over.
unfoldable pub poll :
    Text → ℕ → Option ℕ → SessionFlags → Option LoadAttempt → Reload → Bridge → Reload × Bridge
unfolding past_flight past_lead past_load reload_gate
poll device_id generation flush_request flags attempt (returns outcome) b = (returns outcome, b)
poll device_id generation flush_request flags attempt awaits_flight b =
    (past_flight (reload_gate device_id generation flush_request b), b)
poll device_id generation flush_request flags attempt awaits_lead b =
    (past_lead flags (reload_gate device_id generation flush_request b), b)
poll device_id generation flush_request flags attempt (awaits_load covers_flush) b =
    past_load device_id generation covers_flush flags attempt b
poll device_id generation flush_request flags attempt (awaits_stop outcome) b = (returns outcome, b)
