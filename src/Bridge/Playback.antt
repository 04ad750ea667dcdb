-- ===== src/Bridge/Playback.antt =====
-- crates/play-on-air/src/bridge/playback.rs: AirPlay pause, resume and flush.
--
-- A step here is what the code does under one lock. The Cast commands that it spawns are its result,
-- and what such a command reads right before it goes out are arguments.
use play_on_air.Prelude.{
  ℕ, ◌-◌, ◌*◌, Bool, true, false, not, ◌&&◌, leb, ◌==◌, if◌then◌else◌, Option, none, some,
}
use play_on_air.Prelude.Words.{u64_max, saturating_add}
use play_on_air.Prelude.Text.{Text, codes}
use play_on_air.Media.State.{end_live_bodies}
use play_on_air.Bridge.State.{
  PlayingSession, Bridge, playing_at, flush_reload_owed, session_generation,
}
use play_on_air.Bridge.Fallback.{with_session}

abbrev pub long_pause_reload : ℕ
long_pause_reload = 30 * 1_000_000_000

abbrev is_generation : ℕ → Option ℕ → Bool
is_generation expected_gen none = false
is_generation expected_gen (some g) = g == expected_gen

unfoldable pub detached_cast_control_allowed : Bool → Option ℕ → ℕ → Bool
detached_cast_control_allowed alive live_gen expected_gen =
    alive && is_generation expected_gen live_gen

-- Whether a PAUSE or a PLAY that has its turn goes out: the session is alive, its generation is the
-- live one, and it is still paused or still plays.
unfoldable pub pause_goes_out : Bool → Bool → Text → ℕ → Bridge → Bool
unfolding detached_cast_control_allowed session_generation
pause_goes_out alive paused device_id generation b =
    detached_cast_control_allowed alive (session_generation device_id b) generation && paused

unfoldable pub play_goes_out : Bool → Bool → Text → ℕ → Bridge → Bool
unfolding detached_cast_control_allowed session_generation
play_goes_out alive paused device_id generation b =
    detached_cast_control_allowed alive (session_generation device_id b) generation && not paused

pub record PauseOrigin : Type 0 where
  pub rate0_at : ℕ
  pub bytes_at_rate0 : ℕ

pub data ResumeAction : Type 0 where
  nothing : ResumeAction
  play : ℕ → ResumeAction
  reload : ℕ → Text → Option ℕ → ResumeAction

pub data ResumeDecision : Type 0 where
  to_play to_reload to_reload_flush to_reload_stall to_nothing : ResumeDecision

pub data OwedReload : Type 0 where
  owes_nothing owes_flush owes_stall : OwedReload

unfoldable pub resume_decision : Bool → Bool → OwedReload → ResumeDecision
resume_decision paused long_pause owes_flush = to_reload_flush
resume_decision paused long_pause owes_stall = to_reload_stall
resume_decision paused long_pause owes_nothing =
    if paused && long_pause then to_reload else (if paused then to_play else to_nothing)

unfoldable pub pause_at : ℕ → PlayingSession → PlayingSession
pause_at now session = record session {
  paused = true;
  playback_paused = true;
  paused_at = some now;
}

-- The PAUSE that a pause spawns, for its generation.
unfoldable pub pause_playing :
    ℕ → ℕ → Text → Option (ℕ × PlayingSession) → Bridge → Option (ℕ × PauseOrigin) × Bridge
unfolding pause_at
pause_playing now rate0_at device_id none b = (none, b)
pause_playing now rate0_at device_id (some (g, session)) b = if session.paused then (none, b) else (
  some (g, record { rate0_at = rate0_at; bytes_at_rate0 = session.media.bytes_served }),
  with_session device_id g (pause_at now session) b,
)

unfoldable pub handle_pause : ℕ → ℕ → Text → Bridge → Option (ℕ × PauseOrigin) × Bridge
unfolding pause_playing
handle_pause now rate0_at device_id b =
    pause_playing now rate0_at device_id (playing_at device_id b) b

abbrev pub is_long : ℕ → Option ℕ → Bool
is_long now none = false
is_long now (some at) = leb long_pause_reload (now - at)

unfoldable pub owed_reload : PlayingSession → OwedReload
unfolding flush_reload_owed
owed_reload session =
    if flush_reload_owed session
    then owes_flush
    else (if session.stall_reload_owed then owes_stall else owes_nothing)

unfoldable pub resumed : PlayingSession → PlayingSession
resumed session = record session { paused = false; playback_paused = false; paused_at = none }

unfoldable pub action_of : ℕ → ℕ → ResumeDecision → ResumeAction
action_of generation requested to_play = play generation
action_of generation requested to_reload = reload generation (codes "long_pause_resume") none
action_of generation requested to_reload_flush =
    reload generation (codes "flush_resume") (some requested)
action_of generation requested to_reload_stall = reload generation (codes "stall_owed_resume") none
action_of generation requested to_nothing = nothing

unfoldable pub resume_playing :
    ℕ → Text → Option (ℕ × PlayingSession) → Bridge → Option ResumeAction × Bridge
unfolding resume_decision owed_reload resumed action_of
resume_playing now device_id none b = (none, b)
resume_playing now device_id (some (g, session)) b = (
  some (
      action_of g session.flush_reload_requested
        (resume_decision session.paused (is_long now session.paused_at) (owed_reload session))),
  with_session device_id g (resumed session) b,
)

unfoldable pub plan_resume : ℕ → Text → Bridge → Option ResumeAction × Bridge
unfolding resume_playing
plan_resume now device_id b = resume_playing now device_id (playing_at device_id b) b

unfoldable pub flushed : PlayingSession → PlayingSession
unfolding end_live_bodies
flushed session = record session {
  flush_reload_requested = saturating_add u64_max session.flush_reload_requested 1;
  media = end_live_bodies session.media;
}

unfoldable pub flush_playing : Text → Option (ℕ × PlayingSession) → Bridge → Bridge
unfolding flushed
flush_playing device_id none b = b
flush_playing device_id (some (g, session)) b = with_session device_id g (flushed session) b

unfoldable pub handle_flush : Text → Bridge → Bridge
unfolding flush_playing
handle_flush device_id b = flush_playing device_id (playing_at device_id b) b

served_of : ℕ → Option (ℕ × PlayingSession) → Option ℕ
served_of generation none = none
served_of generation (some (g, session)) =
    if g == generation then some session.media.bytes_served else none

unfoldable pub served_bytes : Text → ℕ → Bridge → Option ℕ
unfolding served_of
served_bytes device_id generation b = served_of generation (playing_at device_id b)
