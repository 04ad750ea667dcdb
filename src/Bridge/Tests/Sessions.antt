-- ===== src/Bridge/Tests/Sessions.antt =====
-- The life of a session (crates/play-on-air/src/bridge) at concrete inputs.
use play_on_air.Prelude.{
  ℕ, ◌+◌, ◌<◌, ◌≡◌, refl, true, false, not, ◌&&◌, List, [], ◌∷◌, inl, inr, none, some, arith,
}
use play_on_air.Prelude.Text.{codes, same_text}
use play_on_air.Cast.{MediaSessionRef}
use play_on_air.Bridge.State.{flac_live, PlayingSession, playing_at, session_generation}
use play_on_air.Bridge.Playback.{
  plan_resume, owed_reload, handle_flush, flushed, reload, owes_nothing,
}
use play_on_air.Bridge.Gates.{playing_flags, ReloadPlan, blocking_load, accepted, attempt_done}
use play_on_air.Bridge.Load.{reload_plan, poll, begin_reload, returns}
use play_on_air.Bridge.Stall.{loaded}
use play_on_air.Bridge.Load.Flights.{
  resumed_by, flushed_by, started, polled, load_runs, run, Event, load_finished,
}
use play_on_air.Bridge.Load.Flush.{launched, flush_owed}
use play_on_air.Bridge.Load.Undisturbed.{undisturbed, resume_discharges, has_load}
use play_on_air.Bridge.Teardown.{take_live_session, skip_stop_for_replace, replace_skips_cast_stop}
use play_on_air.Bridge.Teardown.Late.{blocking_load-has_stop, has_stop, late_reads, flags_after}
use play_on_air.Bridge.Start.{initial_cast_load, accept_start, install_playing}
use play_on_air.Error.{cast}
use play_on_air.Bridge.Prebuffer.{cast_start_lead_wait, LeadPoll, wait_for_start_lead}
use play_on_air.Bridge.Prebuffer.Ends.{EndsBy, wait_for_start_lead_ends}
use play_on_air.Bridge.Start.FirstLoad.{Falls, initial_cast_load_lem}
use play_on_air.Bridge.Life.{LifeEvent, starts, installs, ends, life_run, no_devices}
use play_on_air.Bridge.Life.Superseded.{Inert, superseded-Inert, accept_start-fresh}
use play_on_air.Bridge.Tests.{session, shared}

abbrev answer : MediaSessionRef
answer = record {
  transport_id = codes "t";
  session_id = codes "s";
  media_session_id = 1;
  queue_item_id = none;
}

abbrev plan : ReloadPlan
plan = reload_plan session

-- A flush whose re-LOAD is accepted, and one after it.
abbrev flushes : List Event
flushes =
    flushed_by
    ∷ started (some 1)
    ∷ polled playing_flags
    ∷ polled playing_flags
    ∷ load_runs playing_flags playing_flags (inr answer)
    ∷ polled playing_flags
    ∷ flushed_by
    ∷ []

abbrev flushed_session : PlayingSession
flushed_session = flushed (accepted 1 (flushed session))

flush_owed_example :
    (plan_resume 9 (codes "a") (run (codes "a") 4 plan flushes (launched shared)).bridge).0
    ≡ some (reload 4 (codes "flush_resume") (some 2))
unfolding same_text run handle_flush poll begin_reload blocking_load reload_plan
flush_owed_example =
    flush_owed (codes "a") 4 plan flushes shared 4 session refl refl refl 9 4 flushed_session refl
      (omega arith)

resume_discharges_example :
    let s' =
      run
        (codes "a")
        4
        plan
        (resumed_by 9 ∷ undisturbed (some 1) answer)
        (launched (handle_flush (codes "a") shared)) in
    (has_load (blocking_load plan playing_flags playing_flags (inr answer)).1 ≡ true)
    × (s'.load ≡ load_finished (attempt_done (inr answer)))
    × (s'.reload ≡ returns loaded)
    × (s'.loaded_through ≡ (flushed session).flush_reload_requested)
    × ((after : PlayingSession) × (playing_at (codes "a") s'.bridge ≡ some (4, after))
        × (owed_reload after ≡ owes_nothing)
        × (after.paused ≡ false))
unfolding same_text handle_flush plan_resume
resume_discharges_example =
    resume_discharges (codes "a") 4 (flushed session) plan answer 9
      (launched (handle_flush (codes "a") shared)) refl refl refl (codes "flush_resume") (some 1)
      refl

blocking_load-has_stop_example :
    has_stop
      (blocking_load plan playing_flags (late_reads skip_stop_for_replace 1 2) (inr answer)).1
    ≡ (not (replace_skips_cast_stop skip_stop_for_replace)
        && not (flags_after skip_stop_for_replace 1).session_alive)
blocking_load-has_stop_example =
    blocking_load-has_stop skip_stop_for_replace 1 2 plan (inr answer) (omega arith)

abbrev restarted : List LifeEvent
restarted = starts (codes "a") ∷ installs (codes "a") 1 session ∷ starts (codes "a") ∷ []

abbrev belated : List LifeEvent
belated = installs (codes "a") 1 session ∷ ends (codes "a") ∷ []

superseded-Inert_example : Inert (codes "a") 1 (life_run belated (life_run restarted no_devices))
unfolding same_text life_run accept_start install_playing
superseded-Inert_example = superseded-Inert (codes "a") 1 restarted belated (omega arith)

accept_start-fresh_example :
    let first = accept_start (codes "a") (life_run restarted no_devices) in
    (session_generation (codes "a") first.1 ≡ some first.0.0)
    × (first.0.0 < (accept_start (codes "a") (life_run belated first.1)).0.0)
unfolding same_text life_run accept_start install_playing take_live_session
accept_start-fresh_example = accept_start-fresh (codes "a") restarted belated (omega arith)

abbrev poll_of : ℕ → ℕ → LeadPoll
poll_of at frames = record { now = at; available_frames = frames; keep_waiting = true }

wait_for_start_lead_ends_example :
    EndsBy 44100
      (5 + cast_start_lead_wait)
      (poll_of 5 10 ∷ poll_of 20_000_005 400_000 ∷ poll_of 6_000_000_005 400_000 ∷ [])
      2
      (wait_for_start_lead 44100 5
        (poll_of 5 10 ∷ poll_of 20_000_005 400_000 ∷ poll_of 6_000_000_005 400_000 ∷ []))
wait_for_start_lead_ends_example =
    wait_for_start_lead_ends 44100 5 (poll_of 5 10 ∷ poll_of 20_000_005 400_000 ∷ [])
      (poll_of 6_000_000_005 400_000) [] (omega arith)

initial_cast_load_lem_example :
    Falls session.route [] session.track 0 2 44100
      (codes "a")
      session.media
      shared
      flac_live
      (inl (cast (codes "invalid request")))
      (inr answer)
      (codes "a")
      (initial_cast_load session.route [] session.track 0 2 44100
        (codes "a")
        flac_live
        (inl (cast (codes "invalid request")))
        (inr answer)
        session.media
        shared)
initial_cast_load_lem_example =
    initial_cast_load_lem session.route [] session.track 0 2 44100 (codes "a") session.media shared
      flac_live (inl (cast (codes "invalid request"))) (inr answer) (codes "a")
