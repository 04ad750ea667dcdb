-- ===== src/Bridge/Stall.antt =====
-- The stall watchdog of crates/play-on-air/src/bridge/stall.rs.
--
-- A tick is cut where the code awaits: the re-LOAD of bridge/load.rs, of which it then reads the
-- outcome. What a tick does next is a `Next`; `ends` calls `terminal_stall_end` (Stall/Terminal).
-- One reading `now` of the clock stands for the readings of one stretch.
pub mod Terminal
pub mod Watchdog
use play_on_air.Prelude.{
  ℕ, ◌-◌, ◌*◌, Bool, true, false, not, ◌&&◌, ◌||◌, List, ltb, leb, ◌==◌, if◌then◌else◌, Option,
  none, some,
}
use play_on_air.Prelude.Text.{Text, codes}
use play_on_air.Audio.PcmRing.{PcmRing, available_frames}
use play_on_air.Bridge.State.{
  EgressKind, flac_live, FlacStrikeReason, stall_watchdog_reload, PlayingSession, DeviceState, idle,
  starting, playing, following, Bridge, state_at,
}
use play_on_air.Bridge.Fallback.{
  flac_fallback_window, is_flac, with_session, reason_of, FlacStrikeDecision, record_only,
  fallback_to_wav, apply_flac_strike, remember_flac_fallback, switch_playing_to_wav,
}

abbrev pub stall_body_stale : ℕ
stall_body_stale = 5 * 1_000_000_000

abbrev pub stall_repeat_window : ℕ
stall_repeat_window = 60 * 1_000_000_000

unfoldable pub body_is_stale : Option ℕ → ℕ → Bool
body_is_stale none started_age = leb stall_body_stale started_age
body_is_stale (some age) started_age = leb stall_body_stale age

pub data StallAction : Type 0 where
  no_action early_flac_fallback terminal_end reload : StallAction

unfoldable pub stall_action : Bool → Bool → ℕ → EgressKind → Bool → Bool → StallAction
stall_action paused body_stale ring_frames egress early_flac_window repeat_within_window =
    if paused || not body_stale || ring_frames == 0
    then no_action
    else (if is_flac egress && early_flac_window
        then early_flac_fallback
        else (if repeat_within_window then terminal_end else reload))

pub record StallSnapshot : Type 0 where
  pub paused : Bool
  pub reloading : Bool
  pub last_write : Option ℕ
  pub ring_frames : ℕ
  pub started_at : ℕ
  pub egress : EgressKind
  pub last_stall : Option ℕ

-- `at.elapsed()` of an instant that may be missing.
abbrev pub age_of : ℕ → Option ℕ → Option ℕ
age_of now none = none
age_of now (some at) = some (now - at)

abbrev pub is_repeat : ℕ → Option ℕ → Bool
is_repeat now none = false
is_repeat now (some at) = ltb (now - at) stall_repeat_window

-- The decision for a snapshot; the second one, after a failed switch, ignores the early window.
unfoldable pub action_for : ℕ → Bool → StallSnapshot → StallAction
unfolding stall_action body_is_stale
action_for now heed_window snapshot =
    let started_age = now - snapshot.started_at in
    stall_action snapshot.paused (body_is_stale (age_of now snapshot.last_write) started_age)
      snapshot.ring_frames snapshot.egress (heed_window && ltb started_age flac_fallback_window)
      (is_repeat now snapshot.last_stall)

pub data Next : Type 0 where
  rests : Next
  reloads_after_switch : StallSnapshot → Next
  reloads_after_strike : Next
  reloads_media : Next
  ends : Text → Next

pub data ReloadOutcome : Type 0 where
  loaded paused failed : ReloadOutcome

module _ {A : Type 0} (rings : ℕ → PcmRing A) where
  unfoldable pub snapshot_of : PlayingSession → StallSnapshot
  unfolding available_frames
  snapshot_of session = record {
    paused = session.paused;
    reloading = session.reload_in_flight;
    last_write = session.media.last_body_write;
    ring_frames = available_frames (rings session.ring);
    started_at = session.started_at;
    egress = session.egress;
    last_stall = session.last_stall_reload_at;
  }

  unfoldable pub snapshot_state : ℕ → DeviceState → Option StallSnapshot
  unfolding snapshot_of
  snapshot_state generation idle = none
  snapshot_state generation (starting g) = none
  snapshot_state generation (following g follower) = none
  snapshot_state generation (playing g session) =
      if g == generation then some (snapshot_of session) else none

  unfoldable pub stall_snapshot : Text → ℕ → Bridge → Option StallSnapshot
  unfolding snapshot_state
  stall_snapshot device_id generation b = snapshot_state generation (state_at device_id b)

abbrev pub strike_due : FlacStrikeDecision → Option FlacStrikeReason → Option FlacStrikeReason
strike_due record_only previous = none
strike_due fallback_to_wav previous = previous

unfoldable pub note_session :
    ℕ → Text → ℕ → PlayingSession → Bridge → Option FlacStrikeReason × Bridge
note_session now device_id g session b =
    let stamped = record session { last_stall_reload_at = some now } in
    let (decision, struck) = apply_flac_strike now stall_watchdog_reload stamped in
    if is_flac session.egress
    then (strike_due decision (reason_of session.flac_strike), with_session device_id g struck b)
    else (none, with_session device_id g stamped b)

unfoldable pub note_state : ℕ → Text → ℕ → DeviceState → Bridge → Option FlacStrikeReason × Bridge
unfolding note_session
note_state now device_id generation idle b = (none, b)
note_state now device_id generation (starting g) b = (none, b)
note_state now device_id generation (following g follower) b = (none, b)
note_state now device_id generation (playing g session) b =
    if g == generation then note_session now device_id g session b else (none, b)

unfoldable pub note_stall_reload_and_flac_strike :
    ℕ → Text → ℕ → Bridge → Option FlacStrikeReason × Bridge
unfolding note_state
note_stall_reload_and_flac_strike now device_id generation b =
    note_state now device_id generation (state_at device_id b) b

-- A strike that is due remembers the device and tries the switch.
unfoldable pub struck : ℕ → Text → ℕ → Option FlacStrikeReason × Bridge → Next × Bridge
struck now device_id generation (none, b) = (reloads_media, b)
struck now device_id generation (some first_strike, b) =
    let (switched, b') =
      switch_playing_to_wav now device_id generation (remember_flac_fallback device_id b) in
    (if switched then reloads_after_strike else reloads_media, b')

unfoldable pub handle_stall_reload : ℕ → Text → ℕ → Bridge → Next × Bridge
unfolding struck
handle_stall_reload now device_id generation b =
    struck now device_id generation (note_stall_reload_and_flac_strike now device_id generation b)

-- The `match` on the action.
unfoldable pub act : ℕ → Text → ℕ → StallAction → Bridge → Next × Bridge
unfolding handle_stall_reload
act now device_id generation no_action b = (rests, b)
act now device_id generation early_flac_fallback b = (rests, b)
act now device_id generation terminal_end b = (ends (codes "media stall repeated within window"), b)
act now device_id generation reload b = handle_stall_reload now device_id generation b

unfoldable pub switched_or : ℕ → Text → ℕ → StallSnapshot → Bool × Bridge → Next × Bridge
switched_or now device_id generation snapshot (true, b) = (reloads_after_switch snapshot, b)
switched_or now device_id generation snapshot (false, b) =
    act now device_id generation (action_for now false snapshot) b

unfoldable pub first_action : ℕ → Text → ℕ → StallSnapshot → StallAction → Bridge → Next × Bridge
unfolding switched_or act
first_action now device_id generation snapshot early_flac_fallback b =
    switched_or now device_id generation snapshot
      (switch_playing_to_wav now device_id generation (remember_flac_fallback device_id b))
first_action now device_id generation snapshot no_action b = (rests, b)
first_action now device_id generation snapshot terminal_end b =
    act now device_id generation terminal_end b
first_action now device_id generation snapshot reload b = act now device_id generation reload b

unfoldable pub with_snapshot : ℕ → Text → ℕ → Option StallSnapshot → Bridge → Next × Bridge
unfolding first_action
with_snapshot now device_id generation none b = (rests, b)
with_snapshot now device_id generation (some snapshot) b =
    if snapshot.reloading
    then (rests, b)
    else first_action now device_id generation snapshot (action_for now true snapshot) b

-- A tick up to its first await.
unfoldable pub stall_watchdog_tick :
    {A : Type 0} (rings : ℕ → PcmRing A) → ℕ → Text → ℕ → Bridge → Next × Bridge
unfolding with_snapshot
stall_watchdog_tick rings now device_id generation b =
    with_snapshot now device_id generation (stall_snapshot rings device_id generation b) b

-- After the re-LOAD of a switch: on failure the stall is decided again.
unfoldable pub after_switch : ℕ → Text → ℕ → StallSnapshot → ReloadOutcome → Bridge → Next × Bridge
unfolding act
after_switch now device_id generation snapshot loaded b = (rests, b)
after_switch now device_id generation snapshot paused b =
    act now device_id generation (action_for now false snapshot) b
after_switch now device_id generation snapshot failed b =
    act now device_id generation (action_for now false snapshot) b

-- After the re-LOAD of a strike's switch: on failure the media is re-LOADed.
unfoldable pub after_strike : ReloadOutcome → Next
after_strike loaded = rests
after_strike paused = reloads_media
after_strike failed = reloads_media

-- The result tells whether a re-LOAD is spawned at once.
unfoldable pub owe_state : Text → ℕ → DeviceState → Bridge → Bool × Bridge
owe_state device_id generation idle b = (false, b)
owe_state device_id generation (starting g) b = (false, b)
owe_state device_id generation (following g follower) b = (false, b)
owe_state device_id generation (playing g session) b =
    if not (g == generation) || not session.session_alive then (false, b) else (
      not session.paused,
      with_session device_id g (record session { stall_reload_owed = true }) b,
    )

unfoldable pub owe_stall_reload : Text → ℕ → Bridge → Bool × Bridge
unfolding owe_state
owe_stall_reload device_id generation b = owe_state device_id generation (state_at device_id b) b
