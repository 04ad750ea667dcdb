-- ===== src/Bridge/Gates.antt =====
-- crates/play-on-air/src/bridge/load.rs: the LOAD itself, and the gates that a re-LOAD passes.
--
-- The blocking task of the LOAD is `blocking_load`: it reads the flags before the LOAD (`early`), and
-- after it (`late`). The session that it loads for may have left its slot meanwhile, so the flags are
-- arguments.
use play_on_air.Prelude.{
  ℕ, max, Bool, true, false, not, ◌&&◌, ◌||◌, List, [], ◌∷◌, ◌++◌, leb, ◌==◌, if◌then◌else◌, ◌⊎◌,
  inl, inr, Option, none, some,
}
use play_on_air.Prelude.Text.{Text}
use play_on_air.Error.{Error}
use play_on_air.Cast.{
  MediaLoadRequest, MediaSessionRef, CastCommand, load_media, set_level, stop_media,
}
use play_on_air.Bridge.State.{PlayingSession, CastRoute, Bridge, playing_at}
use play_on_air.Bridge.Fallback.{with_session}

pub data LoadVolumePolicy : Type 0 where
  preserve_device : LoadVolumePolicy
  rollover : Option ℕ → LoadVolumePolicy

unfoldable pub volume_after_load : LoadVolumePolicy → Option ℕ
volume_after_load preserve_device = none
volume_after_load (rollover last_volume) = last_volume

unfoldable pub late_load_should_stop : Bool → Bool → Bool
late_load_should_stop alive late_stop_allowed = not alive && late_stop_allowed

unfoldable pub discard_successful_reload_should_stop : Bool → Bool → Bool → Bool
unfolding late_load_should_stop
discard_successful_reload_should_stop client_paused alive late_stop_allowed =
    client_paused || late_load_should_stop alive late_stop_allowed

pub data ReloadValidity : Type 0 where
  is_valid is_paused is_stale : ReloadValidity

unfoldable pub reload_validity : ℕ → ℕ → Bool → Bool → ReloadValidity
reload_validity live_gen expected_gen alive client_paused =
    if not (live_gen == expected_gen) || not alive
    then is_stale
    else (if client_paused then is_paused else is_valid)

abbrev pub level_commands : Text → Option ℕ → List CastCommand
level_commands key none = []
level_commands key (some level) = set_level key level ∷ []

unfoldable pub level_after : Text → LoadVolumePolicy → Error ⊎ MediaSessionRef → List CastCommand
unfolding volume_after_load
level_after key volume (inl e) = []
level_after key volume (inr session) = level_commands key (volume_after_load volume)

-- The LOAD and what it answers, with the commands that go out.
unfoldable pub cast_load_media :
    CastRoute
    → MediaLoadRequest
    → LoadVolumePolicy
    → Error ⊎ MediaSessionRef
    → (Error ⊎ MediaSessionRef) × List CastCommand
unfolding level_after
cast_load_media route request volume answer =
    (answer, load_media route.media request ∷ level_after route.volume volume answer)

-- What the flags of the session say at one moment.
pub record SessionFlags : Type 0 where
  pub session_alive : Bool
  pub late_stop_allowed : Bool
  pub playback_paused : Bool

unfoldable pub flags_of : PlayingSession → SessionFlags
flags_of session = record {
  session_alive = session.session_alive;
  late_stop_allowed = session.late_stop_allowed;
  playback_paused = session.playback_paused;
}

-- The flags of a session that lives and plays.
abbrev pub playing_flags : SessionFlags
playing_flags = record { session_alive = true; late_stop_allowed = true; playback_paused = false }

pub data LoadAttempt : Type 0 where
  attempt_done : Error ⊎ MediaSessionRef → LoadAttempt
  attempt_paused attempt_ended : LoadAttempt

-- What a re-LOAD reads of the session under the slot lock.
pub record ReloadPlan : Type 0 where
  pub route : CastRoute
  pub request : MediaLoadRequest
  pub volume : LoadVolumePolicy

abbrev pub stop_if : Bool → Text → List CastCommand
stop_if stops key = if stops then stop_media key ∷ [] else []

-- After the LOAD: paused, it is stopped; a session that ended for good stops it too.
unfoldable pub load_ran :
    Text
    → SessionFlags
    → (Error ⊎ MediaSessionRef) × List CastCommand
    → LoadAttempt × List CastCommand
unfolding late_load_should_stop
load_ran key late (result, sent) =
    if late.playback_paused then (attempt_paused, sent ++ stop_media key ∷ []) else (
      attempt_done result,
      sent ++ stop_if (late_load_should_stop late.session_alive late.late_stop_allowed) key,
    )

unfoldable pub blocking_load :
    ReloadPlan
    → SessionFlags
    → SessionFlags
    → Error ⊎ MediaSessionRef
    → LoadAttempt × List CastCommand
unfolding load_ran cast_load_media
blocking_load plan early late answer =
    if not early.session_alive
    then (attempt_ended, [])
    else (if early.playback_paused
        then (attempt_paused, [])
        else load_ran plan.route.media late
            (cast_load_media plan.route plan.request plan.volume answer))

pub data ReloadGate : Type 0 where
  abort gate_paused already_satisfied : ReloadGate
  proceed : ℕ → ReloadGate

unfoldable pub is_covered : Option ℕ → ℕ → Bool
is_covered none flush_done = false
is_covered (some request) flush_done = leb request flush_done

unfoldable pub gate_of : ReloadValidity → Option ℕ → PlayingSession → ReloadGate
unfolding is_covered
gate_of is_stale flush_request session = abort
gate_of is_paused flush_request session = gate_paused
gate_of is_valid flush_request session =
    if is_covered flush_request session.flush_reload_done
    then already_satisfied
    else proceed session.flush_reload_requested

unfoldable pub validity_in : ℕ → ℕ → PlayingSession → ReloadValidity
unfolding reload_validity
validity_in g generation session = reload_validity g generation session.session_alive session.paused

unfoldable pub gate_playing : ℕ → Option ℕ → Option (ℕ × PlayingSession) → ReloadGate
unfolding gate_of validity_in
gate_playing generation flush_request none = abort
gate_playing generation flush_request (some (g, session)) =
    gate_of (validity_in g generation session) flush_request session

unfoldable pub reload_gate : Text → ℕ → Option ℕ → Bridge → ReloadGate
unfolding gate_playing
reload_gate device_id generation flush_request b =
    gate_playing generation flush_request (playing_at device_id b)

unfoldable pub accepted : ℕ → PlayingSession → PlayingSession
accepted covers_flush session = record session {
  flush_reload_done = max session.flush_reload_done covers_flush;
  stall_reload_owed = false;
}

unfoldable pub accept_valid :
    Text → ℕ → ℕ → PlayingSession → ReloadValidity → Bridge → ReloadValidity × Bridge
unfolding accepted
accept_valid device_id g covers_flush session is_valid b =
    (is_valid, with_session device_id g (accepted covers_flush session) b)
accept_valid device_id g covers_flush session is_paused b = (is_paused, b)
accept_valid device_id g covers_flush session is_stale b = (is_stale, b)

unfoldable pub accept_playing :
    Text → ℕ → ℕ → Option (ℕ × PlayingSession) → Bridge → ReloadValidity × Bridge
unfolding accept_valid validity_in
accept_playing device_id generation covers_flush none b = (is_stale, b)
accept_playing device_id generation covers_flush (some (g, session)) b =
    accept_valid device_id g covers_flush session (validity_in g generation session) b

unfoldable pub accept_reload : Text → ℕ → ℕ → Bridge → ReloadValidity × Bridge
unfolding accept_playing
accept_reload device_id generation covers_flush b =
    accept_playing device_id generation covers_flush (playing_at device_id b) b
