-- ===== src/Bridge/Life.antt =====
-- The life of the slots: the operations of crates/play-on-air/src/bridge that write one, and those
-- that write a group, as the steps of a history. A generation that an operation names may be old.
-- Left are only the lock of a re-LOAD and the move of a session to another host
-- (`follow_session_endpoint`), which write neither a state nor a generation.
pub mod Updates
pub mod Stamps
pub mod Groups
pub mod Generations
pub mod Superseded
use play_on_air.Prelude.{ℕ, Bool, List, [], ◌∷◌, Option}
use play_on_air.Prelude.Text.{Text}
use play_on_air.Prelude.Maps.{lookup}
use play_on_air.Bridge.State.{PlayingSession, Bridge}
use play_on_air.Registry.{DeviceRegistry}
use play_on_air.Bridge.Stall.Terminal.{terminal_stall_end}
use play_on_air.Bridge.Remote.{pause_locally_for_cast, note_cast_volume}
use play_on_air.Bridge.Volume.{volume_route}
use play_on_air.Bridge.Group.Events.{GroupEvent, group_step}
use play_on_air.Bridge.Fallback.{
  remember_flac_fallback, switch_playing_to_wav, plan_media_recovered_flac,
}
use play_on_air.Bridge.Stall.{owe_stall_reload, note_stall_reload_and_flac_strike}
use play_on_air.Bridge.Playback.{handle_pause, plan_resume, handle_flush}
use play_on_air.Bridge.Gates.{accept_reload}
use play_on_air.Bridge.Teardown.{take_live_session, take_live_session_if_gen, end_all_sessions}
use play_on_air.Bridge.Start.{accept_start, clear_starting_if, install_playing, slot_or_default}

pub data LifeEvent : Type 0 where
  starts ends flushes : Text → LifeEvent
  clears ends_if owes_stall stall_ends : Text → ℕ → LifeEvent
  installs : Text → ℕ → PlayingSession → LifeEvent
  pauses : ℕ → ℕ → Text → LifeEvent
  resumes recovers cast_pauses : ℕ → Text → LifeEvent
  cast_volume : Text → ℕ → Bool → LifeEvent
  sender_volume : (ℕ → Text) → DeviceRegistry → Text → ℕ → LifeEvent
  accepts_reload : Text → ℕ → ℕ → LifeEvent
  switches notes_stall : ℕ → Text → ℕ → LifeEvent
  remembers : Text → LifeEvent
  grouped : (ℕ → ℕ) → GroupEvent → LifeEvent
  shuts_down : LifeEvent

unfoldable pub life_step : LifeEvent → Bridge → Bridge
life_step (starts device_id) b = (accept_start device_id b).1
life_step (ends device_id) b = (take_live_session device_id b).1
life_step (flushes device_id) b = handle_flush device_id b
life_step (clears device_id g) b = clear_starting_if device_id g b
life_step (ends_if device_id g) b = (take_live_session_if_gen device_id g b).1
life_step (owes_stall device_id g) b = (owe_stall_reload device_id g b).1
life_step (installs device_id g session) b = (install_playing device_id g session b).1
life_step (pauses now rate0_at device_id) b = (handle_pause now rate0_at device_id b).1
life_step (resumes now device_id) b = (plan_resume now device_id b).1
life_step (recovers now device_id) b = (plan_media_recovered_flac now device_id b).1
life_step (accepts_reload device_id g covers) b = (accept_reload device_id g covers b).1
life_step (switches now device_id g) b = (switch_playing_to_wav now device_id g b).1
life_step (notes_stall now device_id g) b = (note_stall_reload_and_flac_strike now device_id g b).1
life_step (stall_ends device_id g) b = (terminal_stall_end device_id g b).1
life_step (cast_pauses now device_id) b = (pause_locally_for_cast now device_id b).1
life_step (cast_volume device_id level muted) b = note_cast_volume device_id level muted b
life_step (sender_volume print_port registry device_id level) b =
    (volume_route print_port registry device_id level b).1
life_step (remembers device_id) b = remember_flac_fallback device_id b
life_step (grouped channels_of e) b = group_step channels_of e b
life_step shuts_down b = (end_all_sessions b).1

unfoldable pub life_run : List LifeEvent → Bridge → Bridge
unfolding life_step
life_run [] b = b
life_run (e ∷ es) b = life_run es (life_step e b)

-- `Bridge::new`: no device has a slot.
abbrev pub no_devices : Bridge
no_devices = record { devices = []; flac_fallback = []; groups = [] }

-- The generation that was given out last to a device.
abbrev pub generation_at : Text → Bridge → ℕ
generation_at device_id b = (slot_or_default (lookup device_id b.devices)).generation
