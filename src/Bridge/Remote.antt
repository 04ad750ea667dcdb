-- ===== src/Bridge/Remote.antt =====
-- What the Cast device itself tells of its playback (crates/play-on-air/src/bridge/remote.rs): the
-- writes to the session. Telling the AirPlay sender is a call of the receiver and is left.
use play_on_air.Prelude.{ℕ, Bool, true, false, if◌then◌else◌, Option, none, some}
use play_on_air.Prelude.Text.{Text}
use play_on_air.Bridge.State.{PlayingSession, Bridge, playing_at}
use play_on_air.Bridge.Fallback.{with_session}

abbrev pub paused_locally : ℕ → PlayingSession → PlayingSession
paused_locally now session = record session {
  paused = true;
  playback_paused = true;
  paused_at = some now;
}

abbrev pub pause_locally_in : ℕ → Text → Option (ℕ × PlayingSession) → Bridge → Bool × Bridge
pause_locally_in now device_id none b = (false, b)
pause_locally_in now device_id (some (g, session)) b =
    if session.paused
    then (false, b)
    else (true, with_session device_id g (paused_locally now session) b)

-- The result tells whether there is something to forward.
unfoldable pub pause_locally_for_cast : ℕ → Text → Bridge → Bool × Bridge
pause_locally_for_cast now device_id b = pause_locally_in now device_id (playing_at device_id b) b

abbrev pub paused_in : Option (ℕ × PlayingSession) → Bool
paused_in none = false
paused_in (some (g, session)) = session.paused

unfoldable pub is_locally_paused : Text → Bridge → Bool
is_locally_paused device_id b = paused_in (playing_at device_id b)

abbrev pub note_volume_in : Text → ℕ → Option (ℕ × PlayingSession) → Bridge → Bridge
note_volume_in device_id level none b = b
note_volume_in device_id level (some (g, session)) b =
    with_session device_id g (record session { last_volume_linear = some level }) b

-- The level of a Cast volume change, unless it is muted.
unfoldable pub note_cast_volume : Text → ℕ → Bool → Bridge → Bridge
note_cast_volume device_id level muted b =
    if muted then b else note_volume_in device_id level (playing_at device_id b) b
