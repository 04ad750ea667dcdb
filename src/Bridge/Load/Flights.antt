-- ===== src/Bridge/Load/Flights.antt =====
-- The flushes, pauses, resumes and re-LOADs of one session as a run of events
-- (crates/play-on-air/src/bridge/load.rs and playback.rs).
--
-- One re-LOAD is under way at a time, as `reload_flight` has it. Its LOAD runs on a thread of its own
-- at any moment after it is spawned. The flags that a re-LOAD reads are arbitrary.
use play_on_air.Prelude.{
  ℕ, Bool, true, false, not, ◌&&◌, ◌⊎◌, List, [], ◌∷◌, if◌then◌else◌, Option, none, some,
}
use play_on_air.Prelude.Text.{Text}
use play_on_air.Error.{Error}
use play_on_air.Cast.{MediaSessionRef}
use play_on_air.Bridge.State.{PlayingSession, Bridge, playing_at}
use play_on_air.Bridge.Playback.{handle_pause, plan_resume, handle_flush}
use play_on_air.Bridge.Gates.{SessionFlags, LoadAttempt, ReloadPlan, blocking_load}
use play_on_air.Bridge.Load.{
  Reload, returns, awaits_flight, awaits_lead, awaits_load, awaits_stop, begin_reload, poll,
}

pub data LoadTask : Type 0 where
  no_load load_spawned : LoadTask
  load_finished : LoadAttempt → LoadTask

-- `loaded_through` is a ghost: how many flushes the session had when the last LOAD went out.
pub record Flight : Type 0 where
  pub bridge : Bridge
  pub reload : Reload
  pub flush_request : Option ℕ
  pub load : LoadTask
  pub loaded_through : ℕ

pub data Event : Type 0 where
  paused_by : ℕ → ℕ → Event
  resumed_by : ℕ → Event
  flushed_by : Event
  started : Option ℕ → Event
  polled : SessionFlags → Event
  load_runs : SessionFlags → SessionFlags → Error ⊎ MediaSessionRef → Event

abbrev pub is_free : Reload → Bool
is_free (returns outcome) = true
is_free awaits_flight = false
is_free awaits_lead = false
is_free (awaits_load covers_flush) = false
is_free (awaits_stop outcome) = false

abbrev pub attempt_of : LoadTask → Option LoadAttempt
attempt_of no_load = none
attempt_of load_spawned = none
attempt_of (load_finished attempt) = some attempt

-- The LOAD is spawned as the re-LOAD starts to wait for it.
abbrev pub spawned : Reload → LoadTask → LoadTask
spawned (returns outcome) load = load
spawned awaits_flight load = load
spawned awaits_lead load = load
spawned (awaits_load covers_flush) load = load_spawned
spawned (awaits_stop outcome) load = load

abbrev pub requested_of : Option (ℕ × PlayingSession) → ℕ → ℕ
requested_of none n = n
requested_of (some (g, session)) n = session.flush_reload_requested

module _ (device_id : Text) (generation : ℕ) (plan : ReloadPlan) where
  unfoldable pub start_reload : Option ℕ → Flight → Flight
  start_reload request s = record s {
    reload = (begin_reload device_id generation s.bridge).0;
    flush_request = request;
    load = no_load;
  }

  unfoldable pub poll_reload : SessionFlags → Flight → Flight
  poll_reload flags s =
      let (reload, bridge) =
        poll device_id generation s.flush_request flags (attempt_of s.load) s.reload s.bridge in
      record s { reload = reload; bridge = bridge; load = spawned reload s.load }

  unfoldable pub run_load :
      SessionFlags → SessionFlags → Error ⊎ MediaSessionRef → LoadTask → Flight → Flight
  run_load early late answer no_load s = s
  run_load early late answer (load_finished attempt) s = s
  run_load early late answer load_spawned s =
      let sends = early.session_alive && not early.playback_paused in
      let requested = requested_of (playing_at device_id s.bridge) s.loaded_through in
      record s {
        load = load_finished (blocking_load plan early late answer).0;
        loaded_through = if sends then requested else s.loaded_through;
      }

  unfoldable pub step : Event → Flight → Flight
  unfolding start_reload poll_reload run_load
  step (paused_by now rate0_at) s = record s {
    bridge = (handle_pause now rate0_at device_id s.bridge).1;
  }
  step (resumed_by now) s = record s { bridge = (plan_resume now device_id s.bridge).1 }
  step flushed_by s = record s { bridge = handle_flush device_id s.bridge }
  step (started request) s = if is_free s.reload then start_reload request s else s
  step (polled flags) s = poll_reload flags s
  step (load_runs early late answer) s = run_load early late answer s.load s

  unfoldable pub run : List Event → Flight → Flight
  unfolding step
  run [] s = s
  run (e ∷ es) s = run es (step e s)
