-- ===== src/Bridge/State.antt =====
-- The slots of crates/play-on-air/src/bridge/state.rs: a generation and a state for each device.
--
-- Of a session the model keeps what the modelled parts read or write: the handles of tasks are whether
-- they run, `reload_in_flight` is whether `reload_flight` is locked, and an `AtomicBool` is its value.
-- Instants are nanoseconds, a ring is known by a number, as in the media server, and a linear volume
-- is its bits. Of a pump (`source`) the state keeps the ring that it drains; Audio/PcmRing has its
-- chunks.
use play_on_air.Prelude.{ℕ, Bool, true, false, List, Option, none, some, ltb, if◌then◌else◌}
use play_on_air.Prelude.Text.{Text}
use play_on_air.Prelude.Maps.{lookup}
use play_on_air.Media.State.{AppState}
use play_on_air.Cast.{CastTrack}

pub data EgressKind : Type 0 where
  flac_live wav_buffered : EgressKind

unfoldable pub select_egress : Bool → EgressKind
select_egress device_remembered_wav = if device_remembered_wav then wav_buffered else flac_live

pub data FlacStrikeReason : Type 0 where
  media_recovered stall_watchdog_reload : FlacStrikeReason

-- The workers that the commands of a session go to, by their keys.
pub record CastRoute : Type 0 where
  pub media : Text
  pub volume : Text

unfoldable pub set_media : Text → CastRoute → CastRoute
set_media key route = record route { media = key }

unfoldable pub set_volume : Text → CastRoute → CastRoute
set_volume key route = record route { volume = key }

pub record PlayingSession : Type 0 where
  pub media : AppState
  pub device_id : Text
  pub route : CastRoute
  pub group : Option Text
  pub ring : ℕ
  pub source : Option ℕ
  pub stream_url : Text
  pub channels : ℕ
  pub sample_rate : ℕ
  pub egress : EgressKind
  pub paused : Bool
  pub playback_paused : Bool
  pub paused_at : Option ℕ
  pub flush_reload_requested : ℕ
  pub flush_reload_done : ℕ
  pub last_stall_reload_at : Option ℕ
  pub stall_reload_owed : Bool
  pub started_at : ℕ
  pub flac_strike : Option (ℕ × FlacStrikeReason)
  pub rollover_running : Bool
  pub session_alive : Bool
  pub late_stop_allowed : Bool
  pub last_volume_linear : Option ℕ
  pub track : CastTrack
  pub reload_in_flight : Bool

pub record FollowingSession : Type 0 where
  pub group : Text
  pub sample_rate : ℕ
  pub source : ℕ

pub data DeviceState : Type 0 where
  idle : DeviceState
  starting : ℕ → DeviceState
  playing : ℕ → PlayingSession → DeviceState
  following : ℕ → FollowingSession → DeviceState

pub record DeviceSlot : Type 0 where
  pub generation : ℕ
  pub state : DeviceState

abbrev pub default_slot : DeviceSlot
default_slot = record { generation = 0; state = idle }

abbrev pub is_live_state : DeviceState → Bool
is_live_state idle = false
is_live_state (starting g) = true
is_live_state (playing g session) = true
is_live_state (following g follower) = true

unfoldable pub is_live : DeviceSlot → Bool
is_live slot = is_live_state slot.state

abbrev pub gen_of : DeviceState → Option ℕ
gen_of idle = none
gen_of (starting g) = some g
gen_of (playing g session) = some g
gen_of (following g follower) = some g

unfoldable pub live_gen : DeviceSlot → Option ℕ
live_gen slot = gen_of slot.state

abbrev source_or : ℕ → Option ℕ → ℕ
source_or ring none = ring
source_or ring (some source) = source

-- The AirPlay ring that the audio of a session comes from.
unfoldable pub airplay_ring : PlayingSession → ℕ
airplay_ring session = source_or session.ring session.source

unfoldable pub flush_reload_owed : PlayingSession → Bool
flush_reload_owed session = ltb session.flush_reload_done session.flush_reload_requested

-- One AirPlay multi-select group.
pub record CastGroup : Type 0 where
  pub owner : Option Text
  pub followers : List Text
  pub cast_members : List Text
  pub host_key : Option Text
  pub excluded : List Text
  pub promoting : Option Text
  pub reconcile_running : Bool
  pub reconcile_dirty : Bool

-- The shared state of `Bridge` that the modelled parts use.
pub record Bridge : Type 0 where
  pub devices : List (Text × DeviceSlot)
  pub flac_fallback : List Text
  pub groups : List (Text × CastGroup)

-- The state of a device, idle where it has no slot.
abbrev pub state_of : Option DeviceSlot → DeviceState
state_of none = idle
state_of (some slot) = slot.state

abbrev pub state_at : Text → Bridge → DeviceState
state_at device_id bridge = state_of (lookup device_id bridge.devices)

abbrev pub playing_of : DeviceState → Option (ℕ × PlayingSession)
playing_of idle = none
playing_of (starting g) = none
playing_of (playing g session) = some (g, session)
playing_of (following g follower) = none

-- The live session that a device plays, with its generation.
abbrev pub playing_at : Text → Bridge → Option (ℕ × PlayingSession)
playing_at device_id bridge = playing_of (state_at device_id bridge)

unfoldable pub session_generation : Text → Bridge → Option ℕ
session_generation device_id bridge = gen_of (state_at device_id bridge)

unfoldable pub has_session : Text → Bridge → Bool
has_session device_id bridge = is_live_state (state_at device_id bridge)
