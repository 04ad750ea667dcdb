-- ===== src/Media/Pace/Lead.antt =====
-- What pacing guarantees (media/http.rs): Cast is never more than the lead ahead of the clock, the
-- wait is not longer than that needs, and a late schedule is brought back to the clock.
use play_on_air.Prelude.{ℕ, ◌+◌, ◌≤◌, ◌<◌, ◌≡◌, ◌⊎◌, Option, none, some, arith}
use play_on_air.Media.Pace.{audio_due, pace_plan, origin_of, pace_realtime_shared, pace_late_slack}

-- How long a plan waits.
abbrev pub delay : Option ℕ → ℕ
delay none = 0
delay (some d) = d

due-origin : (f n s o : ℕ) → o ≤ audio_due f n s o
unfolding audio_due
due-origin f n s o = omega arith

-- When the chunk goes out, its last frame is due within the lead, so Cast never buffers more; and
-- where the plan waited, the frame is due exactly the lead later, or at the origin of a schedule
-- that is shorter than the lead: it never waits longer than the lead needs. A plan that waits
-- never moves the schedule.
pub pace_plan_lead :
    (frames_emitted next_frames sample_rate origin now live_lead late_slack : ℕ)
    → let plan = pace_plan frames_emitted next_frames sample_rate origin now live_lead late_slack in
      let due = audio_due frames_emitted next_frames sample_rate origin in
      let sent = now + delay plan.sleep in
      (due ≤ sent + live_lead)
      × ((plan.sleep ≡ none) ⊎ ((sent + live_lead ≡ due) ⊎ ((sent ≡ origin) × (due < live_lead))))
      × ((plan.sleep ≡ none) ⊎ (plan.rebaseline ≡ none))
unfolding pace_plan
pace_plan_lead frames_emitted next_frames sample_rate origin now live_lead late_slack =
    ground (arith, due-origin frames_emitted next_frames sample_rate origin)

-- The origin moves only when the audio is late by more than the slack and the ring holds no
-- backlog, and then so far that the audio is due now; in every other case it stays.
pub pace_realtime_shared_origin :
    (frames_emitted : ℕ) (pace_origin : Option ℕ)
    (sample_rate next_frames occupancy backlog_threshold first_now now : ℕ)
    → let origin = origin_of pace_origin first_now in
      let due = audio_due frames_emitted next_frames sample_rate origin in
      let moved =
        (pace_realtime_shared frames_emitted pace_origin sample_rate next_frames occupancy
          backlog_threshold first_now now).0 in
      ((due + pace_late_slack < now)
        × (occupancy < backlog_threshold)
        × (audio_due frames_emitted next_frames sample_rate moved ≡ now))
      ⊎ (((now ≤ due + pace_late_slack) ⊎ (backlog_threshold ≤ occupancy)) × (moved ≡ origin))
unfolding pace_realtime_shared audio_due
pace_realtime_shared_origin frames_emitted pace_origin sample_rate next_frames occupancy
      backlog_threshold first_now now =
    ground arith
