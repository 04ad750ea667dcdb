-- ===== src/Media/Pace.antt =====
-- The realtime pacing of live bodies in crates/play-on-air/src/media/http.rs.
--
-- Instants and durations are nanoseconds; the clock's readings are arguments.
pub mod Lead
use play_on_air.Prelude.{ℕ, ◌+◌, ◌-◌, ◌*◌, ◌/◌, max, ltb, leb, if◌then◌else◌, Option, none, some}
use play_on_air.Prelude.Words.{u64_max, saturating_add, saturating_mul}

abbrev pub of_millis : ℕ → ℕ
of_millis ms = ms * 1_000_000

abbrev pub cast_read_ahead : ℕ
cast_read_ahead = 8_000_000_000

abbrev pub pace_late_slack : ℕ
pace_late_slack = of_millis 50

pub record PacePlan : Type 0 where
  pub sleep : Option ℕ
  pub rebaseline : Option ℕ

-- When the last frame of the next chunk is due to be heard.
pub audio_due : ℕ → ℕ → ℕ → ℕ → ℕ
audio_due frames_emitted next_frames sample_rate origin =
    let rate = max sample_rate 1 in
    let total_after = saturating_add u64_max frames_emitted next_frames in
    origin + of_millis (saturating_mul u64_max total_after 1000 / rate)

-- `due.checked_sub(live_lead).unwrap_or(origin)`.
pub wake_at : ℕ → ℕ → ℕ → ℕ
wake_at due live_lead origin = if leb live_lead due then due - live_lead else origin

pub pace_plan : ℕ → ℕ → ℕ → ℕ → ℕ → ℕ → ℕ → PacePlan
unfolding audio_due wake_at
pace_plan frames_emitted next_frames sample_rate origin now live_lead late_slack =
    let due = audio_due frames_emitted next_frames sample_rate origin in
    let wake = wake_at due live_lead origin in
    let lateness = now - due in
    if ltb now wake then record { sleep = some (wake - now); rebaseline = none } else record {
      sleep = none;
      rebaseline = if ltb late_slack lateness then some lateness else none;
    }

-- The origin after a plan: moved by the lateness unless the ring holds a backlog.
pub rebased : ℕ → Option ℕ → ℕ → ℕ → ℕ
rebased origin none occupancy backlog_threshold = origin
rebased origin (some lateness) occupancy backlog_threshold =
    if leb backlog_threshold occupancy then origin else origin + lateness

-- `*pace_origin.get_or_insert_with(Instant::now)`.
abbrev pub origin_of : Option ℕ → ℕ → ℕ
origin_of none first_now = first_now
origin_of (some origin) first_now = origin

-- The new pace origin and how long to sleep. The clock is read twice, `first_now` before `now`.
pub pace_realtime_shared : ℕ → Option ℕ → ℕ → ℕ → ℕ → ℕ → ℕ → ℕ → ℕ × Option ℕ
unfolding pace_plan rebased
pace_realtime_shared frames_emitted pace_origin sample_rate next_frames occupancy backlog_threshold
      first_now now =
    let origin = origin_of pace_origin first_now in
    let plan =
      pace_plan frames_emitted next_frames sample_rate origin now cast_read_ahead pace_late_slack in
    (rebased origin plan.rebaseline occupancy backlog_threshold, plan.sleep)
