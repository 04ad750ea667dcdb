-- ===== src/Bridge/Teardown.antt =====
-- crates/play-on-air/src/bridge/teardown.rs: the end of a session.
--
-- `teardown_playing` takes the session out of the slot's hands: what is left of it are the flags that
-- its LOADs read, which change in the order of `flag_stores`, the media server and the Cast commands.
-- The tasks that it joins, and the budgets of the joins, are outside; groups are bridge/group.rs.
pub mod Late
use play_on_air.Prelude.{
  ℕ, Bool, true, false, not, ◌&&◌, List, [], ◌∷◌, ◌++◌, ◌==◌, if◌then◌else◌, Option, none, some,
}
use play_on_air.Prelude.Text.{Text}
use play_on_air.Prelude.Maps.{modify}
use play_on_air.Media.State.{AppState, invalidate_live}
use play_on_air.Cast.{CastCommand, stop_media, ended}
use play_on_air.Bridge.State.{
  PlayingSession, FollowingSession, DeviceState, idle, starting, playing, following, DeviceSlot,
  Bridge, state_at, airplay_ring, playing_of, playing_at,
}
use play_on_air.Bridge.Gates.{SessionFlags}

pub data TeardownCastPolicy : Type 0 where
  stop_best_effort skip_stop_for_replace : TeardownCastPolicy

unfoldable pub replace_skips_cast_stop : TeardownCastPolicy → Bool
replace_skips_cast_stop stop_best_effort = false
replace_skips_cast_stop skip_stop_for_replace = true

pub data FlagStore : Type 0 where
  forbid_late_stop session_dies : FlagStore

-- The stores to the flags, in their order.
unfoldable pub flag_stores : TeardownCastPolicy → List FlagStore
unfolding replace_skips_cast_stop
flag_stores policy =
    if replace_skips_cast_stop policy
    then forbid_late_stop ∷ session_dies ∷ []
    else session_dies ∷ []

unfoldable pub store_flag : FlagStore → SessionFlags → SessionFlags
store_flag forbid_late_stop flags = record flags { late_stop_allowed = false }
store_flag session_dies flags = record flags { session_alive = false }

-- `answers` are what the worker says to the STOPs.
unfoldable pub stop_commands : Text → Bool → List CastCommand
stop_commands key first_ok =
    if first_ok then stop_media key ∷ [] else stop_media key ∷ stop_media key ∷ []

unfoldable pub end_media_and_maybe_cast_stop :
    AppState → Text → TeardownCastPolicy → Bool → AppState × List CastCommand
unfolding invalidate_live replace_skips_cast_stop stop_commands
end_media_and_maybe_cast_stop media key policy first_ok =
    if replace_skips_cast_stop policy
    then (invalidate_live media, [])
    else (invalidate_live media, stop_commands key first_ok)

-- What a teardown leaves of the media server, and the commands that it sends.
unfoldable pub teardown_playing :
    PlayingSession → TeardownCastPolicy → Bool → AppState × List CastCommand
unfolding end_media_and_maybe_cast_stop replace_skips_cast_stop
teardown_playing session policy first_ok =
    let key = session.route.media in
    let (media, stops) = end_media_and_maybe_cast_stop session.media key policy first_ok in
    (media, (if replace_skips_cast_stop policy then [] else ended key ∷ []) ++ stops)

abbrev pub set_state : Text → DeviceState → Bridge → Bridge
set_state device_id d b = record b {
  devices = modify device_id (λ slot. record slot { state = d }) b.devices;
}

-- Whatever is live goes; a session is handed to its teardown.
unfoldable pub take_live_session : Text → Bridge → Option (ℕ × PlayingSession) × Bridge
take_live_session device_id b = (playing_at device_id b, set_state device_id idle b)

unfoldable pub take_if : Text → ℕ → DeviceState → Bridge → Option PlayingSession × Bridge
take_if device_id generation idle b = (none, b)
take_if device_id generation (starting g) b = (none, b)
take_if device_id generation (following g follower) b = (none, b)
take_if device_id generation (playing g session) b =
    if g == generation then (some session, set_state device_id idle b) else (none, b)

unfoldable pub take_live_session_if_gen : Text → ℕ → Bridge → Option PlayingSession × Bridge
unfolding take_if
take_live_session_if_gen device_id generation b =
    take_if device_id generation (state_at device_id b) b

abbrev pub idled : List (Text × DeviceSlot) → List (Text × DeviceSlot)
idled [] = []
idled ((k, slot) ∷ m) = (k, record slot { state = idle }) ∷ idled m

abbrev pub with_taken : Option (ℕ × PlayingSession) → List PlayingSession → List PlayingSession
with_taken none sessions = sessions
with_taken (some (g, session)) sessions = session ∷ sessions

abbrev pub live_sessions : List (Text × DeviceSlot) → List PlayingSession
live_sessions [] = []
live_sessions ((k, slot) ∷ m) = with_taken (playing_of slot.state) (live_sessions m)

-- The sessions that a shutdown tears down, and the slots that it leaves.
unfoldable pub end_all_sessions : Bridge → List PlayingSession × Bridge
end_all_sessions b = (live_sessions b.devices, record b { devices = idled b.devices })

pub data EndedDecision : Type 0 where
  drops : EndedDecision
  ends_starting ends_following ends_playing : ℕ → EndedDecision

abbrev pub is_ring : Option ℕ → ℕ → Bool
is_ring none ring = false
is_ring (some current) ring = current == ring

-- `current` is the receiver's ring of the device now (`RingLookup::ring_for`).
unfoldable pub ended_decision : Option ℕ → DeviceState → EndedDecision
unfolding airplay_ring
ended_decision current idle = drops
ended_decision current (starting g) = ends_starting g
ended_decision current (playing g session) =
    if is_ring current (airplay_ring session) then drops else ends_playing g
ended_decision current (following g follower) =
    if is_ring current follower.source then drops else ends_following g
