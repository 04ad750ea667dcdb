-- ===== src/Bridge/Life/Superseded.antt =====
-- Work of a generation that is no longer live (crates/play-on-air/src/bridge) does nothing.
use play_on_air.Prelude.{
  ℕ, ◌<◌, ◌≡◌, ◌≢◌, refl, ap, Bool, true, false, ◌&&◌, List, [], Option, none, some, ◌==◌, ==_iff,
  inl, inr, Bool-cases, arith,
}
use play_on_air.Prelude.Text.{Text}
use play_on_air.Prelude.Words.{u64_max}
use play_on_air.Prelude.Maps.{lookup, same_text_refl}
use play_on_air.Bridge.State.{
  PlayingSession, FollowingSession, DeviceState, idle, starting, playing, following, DeviceSlot,
  Bridge, state_of, state_at, session_generation,
}
use play_on_air.Bridge.Fallback.{switch_state, switch_playing_to_wav}
use play_on_air.Bridge.Stall.{
  failed, owe_state, owe_stall_reload, note_state, note_stall_reload_and_flac_strike,
}
use play_on_air.Bridge.Playback.{detached_cast_control_allowed, pause_goes_out, play_goes_out}
use play_on_air.Bridge.Gates.{
  is_stale, gate_playing, reload_gate, abort, accept_playing, accept_reload,
}
use play_on_air.Bridge.Load.{begin_playing, begin_reload, returns}
use play_on_air.Bridge.Teardown.{take_if, take_live_session_if_gen}
use play_on_air.Bridge.Start.{
  slot_or_default, accept_start_in, accept_start, starting_still, clear_starting_if,
  install_playing,
}
use play_on_air.Bridge.Group.{end_follower, end_following}
use play_on_air.Bridge.Group.Owner.{playing_left, group_owner_left}
use play_on_air.Bridge.Life.{LifeEvent, life_run, no_devices, generation_at}
use play_on_air.Bridge.Life.Stamps.{IsValid, Stamped, Kept, AllKept, accept_start-AllKept}
use play_on_air.Bridge.Life.Generations.{life_run-Kept}

-- What the operations of one generation of a device do: none of them changes anything.
pub record Inert (device_id : Text) (h : ℕ) (b : Bridge) : Type 0 where
  pub start_is_over : starting_still device_id h b ≡ false
  pub clears : clear_starting_if device_id h b ≡ b
  pub installs : (session : PlayingSession) → (install_playing device_id h session b).1 ≡ b
  pub takes : take_live_session_if_gen device_id h b ≡ (none, b)
  pub begins : (begin_reload device_id h b).0 ≡ returns failed
  pub gates : (request : Option ℕ) → reload_gate device_id h request b ≡ abort
  pub accepts : (covers : ℕ) → accept_reload device_id h covers b ≡ (is_stale, b)
  pub unfollows : end_following device_id h b ≡ (b, [])
  pub hands_over :
      (channels_of : ℕ → ℕ) → group_owner_left channels_of device_id h b ≡ (false, b, [])
  pub switches : (now : ℕ) → switch_playing_to_wav now device_id h b ≡ (false, b)
  pub owes : owe_stall_reload device_id h b ≡ (false, b)
  pub notes : (now : ℕ) → note_stall_reload_and_flac_strike now device_id h b ≡ (none, b)
  pub pauses : (alive paused : Bool) → pause_goes_out alive paused device_id h b ≡ false
  pub plays : (alive paused : Bool) → play_goes_out alive paused device_id h b ≡ false

other_generation : (g h : ℕ) → g ≢ h → (g == h) ≡ false
other_generation g h n = elim (Bool-cases (g == h)) [
  | inl p ↦ absurd (n ((==_iff g h).0 p))
  | inr p ↦ p
]

both_false : (alive : Bool) → (alive && false) ≡ false
both_false true = refl
both_false false = refl

idle-Inert :
    (device_id : Text) (h : ℕ) (b : Bridge) → state_at device_id b ≡ idle → Inert device_id h b
unfolding starting_still clear_starting_if install_playing take_live_session_if_gen take_if
    begin_reload begin_playing reload_gate gate_playing accept_reload accept_playing
    switch_playing_to_wav switch_state owe_stall_reload owe_state note_stall_reload_and_flac_strike
    note_state end_following end_follower group_owner_left playing_left pause_goes_out play_goes_out
    detached_cast_control_allowed session_generation
idle-Inert device_id h b e = record {
  start_is_over = rw e refl;
  clears = rw e refl;
  installs = λ session. rw e refl;
  takes = rw e refl;
  begins = rw e refl;
  gates = λ request. rw e refl;
  accepts = λ covers. rw e refl;
  unfollows = rw e refl;
  hands_over = λ channels_of. rw e refl;
  switches = λ now. rw e refl;
  owes = rw e refl;
  notes = λ now. rw e refl;
  pauses = λ alive paused. rw (e, both_false alive) refl;
  plays = λ alive paused. rw (e, both_false alive) refl;
}

following-Inert :
    (device_id : Text) (h : ℕ) (b : Bridge) (g : ℕ) (follower : FollowingSession)
    → state_at device_id b ≡ following g follower
    → (g == h) ≡ false
    → Inert device_id h b
unfolding starting_still clear_starting_if install_playing take_live_session_if_gen take_if
    begin_reload begin_playing reload_gate gate_playing accept_reload accept_playing
    switch_playing_to_wav switch_state owe_stall_reload owe_state note_stall_reload_and_flac_strike
    note_state end_following end_follower group_owner_left playing_left pause_goes_out play_goes_out
    detached_cast_control_allowed session_generation
following-Inert device_id h b g follower e n = record {
  start_is_over = rw e refl;
  clears = rw e refl;
  installs = λ session. rw e refl;
  takes = rw e refl;
  begins = rw e refl;
  gates = λ request. rw e refl;
  accepts = λ covers. rw e refl;
  unfollows = rw (e, n) refl;
  hands_over = λ channels_of. rw e refl;
  switches = λ now. rw e refl;
  owes = rw e refl;
  notes = λ now. rw e refl;
  pauses = λ alive paused. rw (e, n, both_false alive) refl;
  plays = λ alive paused. rw (e, n, both_false alive) refl;
}

starting-Inert :
    (device_id : Text) (h : ℕ) (b : Bridge) (g : ℕ)
    → state_at device_id b ≡ starting g
    → (g == h) ≡ false
    → Inert device_id h b
unfolding starting_still clear_starting_if install_playing take_live_session_if_gen take_if
    begin_reload begin_playing reload_gate gate_playing accept_reload accept_playing
    switch_playing_to_wav switch_state owe_stall_reload owe_state note_stall_reload_and_flac_strike
    note_state end_following end_follower group_owner_left playing_left pause_goes_out play_goes_out
    detached_cast_control_allowed session_generation
starting-Inert device_id h b g e n = record {
  start_is_over = rw (e, n) refl;
  clears = rw (e, n) refl;
  installs = λ session. rw (e, n) refl;
  takes = rw e refl;
  begins = rw e refl;
  gates = λ request. rw e refl;
  accepts = λ covers. rw e refl;
  unfollows = rw e refl;
  hands_over = λ channels_of. rw e refl;
  switches = λ now. rw e refl;
  owes = rw e refl;
  notes = λ now. rw e refl;
  pauses = λ alive paused. rw (e, n, both_false alive) refl;
  plays = λ alive paused. rw (e, n, both_false alive) refl;
}

playing-Inert :
    (device_id : Text) (h : ℕ) (b : Bridge) (g : ℕ) (session : PlayingSession)
    → state_at device_id b ≡ playing g session
    → (g == h) ≡ false
    → Inert device_id h b
unfolding starting_still clear_starting_if install_playing take_live_session_if_gen take_if
    begin_reload begin_playing reload_gate gate_playing accept_reload accept_playing
    switch_playing_to_wav switch_state owe_stall_reload owe_state note_stall_reload_and_flac_strike
    note_state end_following end_follower group_owner_left playing_left pause_goes_out play_goes_out
    detached_cast_control_allowed session_generation
playing-Inert device_id h b g session e n = record {
  start_is_over = rw e refl;
  clears = rw e refl;
  installs = λ session. rw e refl;
  takes = rw (e, n) refl;
  begins = rw (e, n) refl;
  gates = λ request. rw (e, n) refl;
  accepts = λ covers. rw (e, n) refl;
  unfollows = rw e refl;
  hands_over = λ channels_of. rw (e, n) refl;
  switches = λ now. rw (e, n) refl;
  owes = rw (e, n) refl;
  notes = λ now. rw (e, n) refl;
  pauses = λ alive paused. rw (e, n, both_false alive) refl;
  plays = λ alive paused. rw (e, n, both_false alive) refl;
}

-- The generation of what is live is not an earlier one.
live-Inert :
    (device_id : Text) (h : ℕ) (b : Bridge) (d : DeviceState) (n : ℕ)
    → state_at device_id b ≡ d
    → Stamped d n
    → h < n
    → Inert device_id h b
live-Inert device_id h b idle n e s lt = idle-Inert device_id h b e
live-Inert device_id h b (starting g) n e s lt =
    starting-Inert device_id h b g e (other_generation g h (λ q. omega (arith, q, s, lt)))
live-Inert device_id h b (playing g session) n e s lt =
    playing-Inert device_id h b g session e (other_generation g h (λ q. omega (arith, q, s, lt)))
live-Inert device_id h b (following g follower) n e s lt =
    following-Inert device_id h b g follower e (other_generation g h (λ q. omega (arith, q, s, lt)))

slot-Inert :
    (device_id : Text) (h : ℕ) (b : Bridge) (o : Option DeviceSlot)
    → lookup device_id b.devices ≡ o
    → IsValid o
    → h < (slot_or_default o).generation
    → Inert device_id h b
slot-Inert device_id h b none e v lt = absurd (ground (arith, lt))
slot-Inert device_id h b (some slot) e v lt =
    live-Inert device_id h b slot.state slot.generation (ap state_of e) v.0 lt

-- Whatever has happened since the bridge was made, and whatever happens after a device's slot has
-- moved past a generation: the start, the install, the taking, the following, the hand-over, the
-- re-LOAD with its gates, the switch and the stall marks of that generation of the device leave every
-- slot and group as it is and do not go on, and no Cast PAUSE or PLAY of it goes out. Its STOPs, a
-- rollover, and the end of a group by a stalled session are not spoken of.
pub superseded-Inert :
    (device_id : Text) (h : ℕ) (before after : List LifeEvent)
    → h < generation_at device_id (life_run before no_devices)
    → Inert device_id h (life_run after (life_run before no_devices))
superseded-Inert device_id h before after lt =
    let b = life_run before no_devices in
    let (up0, v0) = life_run-Kept before no_devices device_id tt in
    let (up, v) = life_run-Kept after b device_id v0 in
    slot-Inert device_id h (life_run after b) (lookup device_id (life_run after b).devices) refl v
      (omega (arith, up, lt))

-- A start, at whatever point of whatever history, becomes the live session of its device; and any
-- later start of the device, whatever happened in between, gets a greater generation, as long as the
-- generation before it is below `u64::MAX`.
pub accept_start-fresh :
    (device_id : Text) (before between : List LifeEvent)
    → let first = accept_start device_id (life_run before no_devices) in
      generation_at device_id (life_run between first.1) < u64_max
      → (session_generation device_id first.1 ≡ some first.0.0)
        × (first.0.0 < (accept_start device_id (life_run between first.1)).0.0)
unfolding accept_start accept_start_in session_generation AllKept Kept
accept_start-fresh device_id before between lt =
    let b = life_run before no_devices in
    let first = (accept_start device_id b).1 in
    let (up0, v0) = life_run-Kept before no_devices device_id tt in
    let (up1, v1) = accept_start-AllKept device_id b device_id v0 in
    let (up, v) = life_run-Kept between first device_id v1 in
    let same : generation_at device_id first ≡ (accept_start device_id b).0.0 =
      rw (generation_at, same_text_refl device_id) refl in
    (rw (same_text_refl device_id) refl, omega (arith, lt, up, same))
