-- ===== src/Bridge/Load/Undisturbed.antt =====
-- A re-LOAD that nothing disturbs (crates/play-on-air/src/bridge/load.rs and playback.rs).
use play_on_air.Prelude.{
  ℕ, max, ◌≡◌, refl, ap, ◌∙◌, inl, inr, Bool, true, false, List, [], ◌∷◌, ltb, Option, none, some,
  Bool-cases, ==_refl, arith,
}
use play_on_air.Prelude.Text.{Text}
use play_on_air.Cast.{
  MediaSessionRef, CastCommand, load_media, set_level, pause_media, play_media, stop_media, ended,
}
use play_on_air.Bridge.Stall.{loaded}
use play_on_air.Bridge.State.{PlayingSession, Bridge, playing_at, flush_reload_owed}
use play_on_air.Bridge.Slots.{playing_at-with_session}
use play_on_air.Bridge.Fallback.{with_session}
use play_on_air.Bridge.Playback.{
  resumed, resume_playing, plan_resume, owes_nothing, owed_reload, resume_decision, action_of,
  ResumeAction, nothing, play, reload, is_long,
}
use play_on_air.Bridge.Gates.{
  playing_flags, ReloadPlan, attempt_done, blocking_load, load_ran, cast_load_media,
  late_load_should_stop, is_valid, reload_validity, validity_in, gate_of, gate_playing, reload_gate,
  proceed, is_covered, accepted, accept_valid, accept_playing, accept_reload,
}
use play_on_air.Bridge.Load.{
  planned, begin_playing, begin_reload, past_flight, past_lead, past_accept, past_load, poll,
  awaits_flight, returns,
}
use play_on_air.Bridge.Load.Flights.{
  Flight, load_finished, Event, resumed_by, started, polled, load_runs, is_free, start_reload,
  poll_reload, run_load, step, run,
}

-- A re-LOAD from its start to its end, of a session that keeps playing and a receiver that answers.
abbrev pub undisturbed : Option ℕ → MediaSessionRef → List Event
undisturbed request answer =
    started request
    ∷ polled playing_flags
    ∷ polled playing_flags
    ∷ load_runs playing_flags playing_flags (inr answer)
    ∷ polled playing_flags
    ∷ []

module _ (device_id : Text) (g : ℕ) (session : PlayingSession) (b : Bridge)
    (e : playing_at device_id b ≡ some (g, session)) (alive : session.session_alive ≡ true)
    (plays : session.paused ≡ false) where
  valid : validity_in g g session ≡ is_valid
  unfolding validity_in reload_validity
  valid = rw (==_refl g, alive, plays) refl

  begin_valid : (begin_reload device_id g b).0 ≡ awaits_flight
  unfolding begin_reload begin_playing planned
  begin_valid = rw (e, valid) refl

  gate_valid :
      (request : Option ℕ)
      → is_covered request session.flush_reload_done ≡ false
      → reload_gate device_id g request b ≡ proceed session.flush_reload_requested
  unfolding reload_gate gate_playing gate_of
  gate_valid request fresh = rw (e, valid, fresh) refl

  accept_valid_lem :
      (c : ℕ)
      → accept_reload device_id g c b ≡ (is_valid, with_session device_id g (accepted c session) b)
  unfolding accept_reload accept_playing accept_valid
  accept_valid_lem c = rw (e, valid) refl

  run-undisturbed :
      (plan : ReloadPlan) (request : Option ℕ) (answer : MediaSessionRef) (s : Flight)
      → s.bridge ≡ b
      → is_free s.reload ≡ true
      → is_covered request session.flush_reload_done ≡ false
      → ((run device_id g plan (undisturbed request answer) s).bridge
          ≡ with_session device_id g (accepted session.flush_reload_requested session) b)
        × ((run device_id g plan (undisturbed request answer) s).reload ≡ returns loaded)
        × ((run device_id g plan (undisturbed request answer) s).load
            ≡ load_finished (attempt_done (inr answer)))
        × ((run device_id g plan (undisturbed request answer) s).loaded_through
            ≡ session.flush_reload_requested)
  unfolding run step start_reload poll_reload run_load poll past_flight past_lead blocking_load
      load_ran cast_load_media late_load_should_stop past_load past_accept
  run-undisturbed plan request answer s p free fresh =
      let c = session.flush_reload_requested in
      (
        rw
            (
              free,
              p,
              begin_valid,
              gate_valid request fresh,
              gate_valid request fresh,
              accept_valid_lem c,
            )
            refl,
        rw
            (
              free,
              p,
              begin_valid,
              gate_valid request fresh,
              gate_valid request fresh,
              accept_valid_lem c,
            )
            refl,
        rw
            (
              free,
              p,
              begin_valid,
              gate_valid request fresh,
              gate_valid request fresh,
              accept_valid_lem c,
            )
            refl,
        rw (free, p, begin_valid, gate_valid request fresh, gate_valid request fresh, e) refl,
      )

action_request : ResumeAction → Option ℕ
action_request nothing = none
action_request (play g) = none
action_request (reload g reason request) = request

action_request_of : Option ResumeAction → Option ℕ
action_request_of none = none
action_request_of (some action) = action_request action

-- A resume asks only for a flush that no LOAD covers yet.
planned_request_fresh :
    (now g : ℕ) (session : PlayingSession)
    → is_covered
        (action_request (
          action_of g session.flush_reload_requested
            (resume_decision session.paused (is_long now session.paused_at) (owed_reload session))))
        session.flush_reload_done
      ≡ false
unfolding action_request action_of resume_decision owed_reload flush_reload_owed is_covered
planned_request_fresh now g session =
    elim (Bool-cases (ltb session.flush_reload_done session.flush_reload_requested)) [
      | inl p ↦ rw p (ground (arith, p))
      | inr p ↦ elim (Bool-cases session.stall_reload_owed) [
        | inl q ↦ rw (p, q) refl
        | inr q ↦ elim (Bool-cases session.paused) [
          | inr r ↦ rw (p, q, r) refl
          | inl r ↦ elim (Bool-cases (is_long now session.paused_at)) [
            | inl l ↦ rw (p, q, r, l) refl
            | inr l ↦ rw (p, q, r, l) refl
          ]
        ]
      ]
    ]

accepted_owes_nothing :
    (session : PlayingSession)
    → owed_reload (accepted session.flush_reload_requested session) ≡ owes_nothing
unfolding owed_reload flush_reload_owed accepted
accepted_owes_nothing session =
    let h : ltb (max session.flush_reload_done session.flush_reload_requested)
          session.flush_reload_requested
        ≡ false =
      ground arith in
    rw h refl

planned_bridge :
    (now : ℕ) (device_id : Text) (g : ℕ) (session : PlayingSession) (b : Bridge)
    → playing_at device_id b ≡ some (g, session)
    → (plan_resume now device_id b).1 ≡ with_session device_id g (resumed session) b
unfolding plan_resume resume_playing
planned_bridge now device_id g session b e = rw e refl

planned_fresh :
    (now : ℕ) (device_id : Text) (g : ℕ) (session : PlayingSession) (b : Bridge) (reason : Text)
    (request : Option ℕ)
    → playing_at device_id b ≡ some (g, session)
    → (plan_resume now device_id b).0 ≡ some (reload g reason request)
    → is_covered request session.flush_reload_done ≡ false
unfolding plan_resume resume_playing action_request_of action_request
planned_fresh now device_id g session b reason request e p =
    let q = ap action_request_of (rw e at p) in rw (← q) (planned_request_fresh now g session)

-- The commands hold a LOAD.
abbrev pub has_load : List CastCommand → Bool
has_load [] = false
has_load (load_media key request ∷ commands) = true
has_load (set_level key level ∷ commands) = has_load commands
has_load (pause_media key ∷ commands) = has_load commands
has_load (play_media key ∷ commands) = has_load commands
has_load (stop_media key ∷ commands) = has_load commands
has_load (ended key ∷ commands) = has_load commands

blocking_load-has_load :
    (plan : ReloadPlan) (answer : MediaSessionRef)
    → has_load (blocking_load plan playing_flags playing_flags (inr answer)).1 ≡ true
unfolding blocking_load load_ran cast_load_media late_load_should_stop
blocking_load-has_load plan answer = refl

-- If a resume decides on a re-LOAD, then that re-LOAD, when nothing disturbs it and the receiver
-- answers, sends a LOAD, ends as loaded with that answer, through every flush that the session had,
-- and after it the session plays and owes nothing, neither a flush nor a stall re-LOAD.
pub resume_discharges :
    (device_id : Text) (g : ℕ) (session : PlayingSession) (plan : ReloadPlan)
    (answer : MediaSessionRef) (now : ℕ) (s : Flight)
    → playing_at device_id s.bridge ≡ some (g, session)
    → session.session_alive ≡ true
    → is_free s.reload ≡ true
    → (reason : Text) (request : Option ℕ)
    → (plan_resume now device_id s.bridge).0 ≡ some (reload g reason request)
    → let s' = run device_id g plan (resumed_by now ∷ undisturbed request answer) s in
      (has_load (blocking_load plan playing_flags playing_flags (inr answer)).1 ≡ true)
      × (s'.load ≡ load_finished (attempt_done (inr answer)))
      × (s'.reload ≡ returns loaded)
      × (s'.loaded_through ≡ session.flush_reload_requested)
      × ((after : PlayingSession) × (playing_at device_id s'.bridge ≡ some (g, after))
          × (owed_reload after ≡ owes_nothing)
          × (after.paused ≡ false))
unfolding run step resumed accepted
resume_discharges device_id g session plan answer now s e alive free reason request p =
    let b = with_session device_id g (resumed session) s.bridge in
    let f = playing_at-with_session device_id g session (resumed session) s.bridge e in
    let last = accepted session.flush_reload_requested (resumed session) in
    let resumed_at : Flight = record s { bridge = (plan_resume now device_id s.bridge).1 } in
    let (ran, outcome, attempt, through) =
      run-undisturbed device_id g (resumed session) b f alive refl plan request answer resumed_at
        (planned_bridge now device_id g session s.bridge e) free
        (planned_fresh now device_id g session s.bridge reason request e p) in
    (
      blocking_load-has_load plan answer,
      attempt,
      outcome,
      through,
      (
        last,
        ap (playing_at device_id) ran
            ∙ playing_at-with_session device_id g (resumed session) last b f,
        accepted_owes_nothing (resumed session),
        refl,
      ),
    )
