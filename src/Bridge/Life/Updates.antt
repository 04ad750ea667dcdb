-- ===== src/Bridge/Life/Updates.antt =====
-- The operations of crates/play-on-air/src/bridge that change a live session write it back in place.
use play_on_air.Prelude.{
  ℕ, ◌≡◌, ◌⊎◌, refl, ap, inl, inr, Bool, true, false, not, ◌||◌, ◌==◌, ltb, ◌-◌, Option, none, some,
  Bool-cases,
}
use play_on_air.Prelude.Text.{Text}
use play_on_air.Bridge.State.{
  PlayingSession, DeviceState, idle, starting, playing, following, Bridge, playing_of, state_at,
  playing_at,
}
use play_on_air.Bridge.Fallback.{
  with_session, switch_state, switched_to_wav, switch_playing_to_wav, is_flac, plan_state,
  plan_session, plan_media_recovered_flac, flac_fallback_window,
}
use play_on_air.Registry.{DeviceRegistry, get}
use play_on_air.Bridge.Remote.{
  paused_locally, pause_locally_in, pause_locally_for_cast, note_volume_in, note_cast_volume,
}
use play_on_air.Bridge.Volume.{volume_route, route_in, speaker_group}
use play_on_air.Bridge.Stall.{
  owe_state, owe_stall_reload, note_session, note_state, note_stall_reload_and_flac_strike,
}
use play_on_air.Bridge.Playback.{
  pause_at, pause_playing, handle_pause, resumed, resume_playing, plan_resume, flushed,
  flush_playing, handle_flush,
}
use play_on_air.Bridge.Gates.{
  ReloadValidity, is_valid, is_paused, is_stale, validity_in, accepted, accept_valid,
  accept_playing, accept_reload,
}

-- Nothing changed, or the live session of the device was written back under its generation.
abbrev pub Updated : Text → Bridge → Bridge → Type 0
Updated device_id b b' =
    (b' ≡ b)
    ⊎ ((g : ℕ) × (old : PlayingSession) × (session : PlayingSession) × (playing_at device_id b
          ≡ some (g, old))
        × (b' ≡ with_session device_id g session b))

pause_playing-Updated :
    (now rate0_at : ℕ) (device_id : Text) (b : Bridge) (o : Option (ℕ × PlayingSession))
    → playing_at device_id b ≡ o
    → Updated device_id b (pause_playing now rate0_at device_id o b).1
unfolding pause_playing
pause_playing-Updated now rate0_at device_id b none e = inl refl
pause_playing-Updated now rate0_at device_id b (some (g, session)) e =
    elim (Bool-cases session.paused) [
      | inl p ↦ rw p (inl refl)
      | inr p ↦ rw p (inr (g, session, pause_at now session, e, refl))
    ]

pub handle_pause-Updated :
    (now rate0_at : ℕ) (device_id : Text) (b : Bridge)
    → Updated device_id b (handle_pause now rate0_at device_id b).1
unfolding handle_pause
handle_pause-Updated now rate0_at device_id b =
    pause_playing-Updated now rate0_at device_id b (playing_at device_id b) refl

resume_playing-Updated :
    (now : ℕ) (device_id : Text) (b : Bridge) (o : Option (ℕ × PlayingSession))
    → playing_at device_id b ≡ o
    → Updated device_id b (resume_playing now device_id o b).1
unfolding resume_playing
resume_playing-Updated now device_id b none e = inl refl
resume_playing-Updated now device_id b (some (g, session)) e =
    inr (g, session, resumed session, e, refl)

pub plan_resume-Updated :
    (now : ℕ) (device_id : Text) (b : Bridge) → Updated device_id b (plan_resume now device_id b).1
unfolding plan_resume
plan_resume-Updated now device_id b =
    resume_playing-Updated now device_id b (playing_at device_id b) refl

flush_playing-Updated :
    (device_id : Text) (b : Bridge) (o : Option (ℕ × PlayingSession))
    → playing_at device_id b ≡ o
    → Updated device_id b (flush_playing device_id o b)
unfolding flush_playing
flush_playing-Updated device_id b none e = inl refl
flush_playing-Updated device_id b (some (g, session)) e = inr (g, session, flushed session, e, refl)

pub handle_flush-Updated :
    (device_id : Text) (b : Bridge) → Updated device_id b (handle_flush device_id b)
unfolding handle_flush
handle_flush-Updated device_id b = flush_playing-Updated device_id b (playing_at device_id b) refl

accept_valid-Updated :
    (device_id : Text) (g covers : ℕ) (session : PlayingSession) (v : ReloadValidity) (b : Bridge)
    → playing_at device_id b ≡ some (g, session)
    → Updated device_id b (accept_valid device_id g covers session v b).1
unfolding accept_valid
accept_valid-Updated device_id g covers session is_valid b e =
    inr (g, session, accepted covers session, e, refl)
accept_valid-Updated device_id g covers session is_paused b e = inl refl
accept_valid-Updated device_id g covers session is_stale b e = inl refl

accept_playing-Updated :
    (device_id : Text) (generation covers : ℕ) (b : Bridge) (o : Option (ℕ × PlayingSession))
    → playing_at device_id b ≡ o
    → Updated device_id b (accept_playing device_id generation covers o b).1
unfolding accept_playing
accept_playing-Updated device_id generation covers b none e = inl refl
accept_playing-Updated device_id generation covers b (some (g, session)) e =
    accept_valid-Updated device_id g covers session (validity_in g generation session) b e

pub accept_reload-Updated :
    (device_id : Text) (generation covers : ℕ) (b : Bridge)
    → Updated device_id b (accept_reload device_id generation covers b).1
unfolding accept_reload
accept_reload-Updated device_id generation covers b =
    accept_playing-Updated device_id generation covers b (playing_at device_id b) refl

switch_state-Updated :
    (now : ℕ) (device_id : Text) (generation : ℕ) (b : Bridge) (d : DeviceState)
    → state_at device_id b ≡ d
    → Updated device_id b (switch_state now device_id generation d b).1
unfolding switch_state
switch_state-Updated now device_id generation b idle e = inl refl
switch_state-Updated now device_id generation b (starting g) e = inl refl
switch_state-Updated now device_id generation b (following g follower) e = inl refl
switch_state-Updated now device_id generation b (playing g session) e =
    elim (Bool-cases (not (g == generation) || not (is_flac session.egress))) [
      | inl p ↦ rw p (inl refl)
      | inr p ↦ rw p (inr (g, session, switched_to_wav now session, ap playing_of e, refl))
    ]

pub switch_playing_to_wav-Updated :
    (now : ℕ) (device_id : Text) (generation : ℕ) (b : Bridge)
    → Updated device_id b (switch_playing_to_wav now device_id generation b).1
unfolding switch_playing_to_wav
switch_playing_to_wav-Updated now device_id generation b =
    switch_state-Updated now device_id generation b (state_at device_id b) refl

owe_state-Updated :
    (device_id : Text) (generation : ℕ) (b : Bridge) (d : DeviceState)
    → state_at device_id b ≡ d
    → Updated device_id b (owe_state device_id generation d b).1
unfolding owe_state
owe_state-Updated device_id generation b idle e = inl refl
owe_state-Updated device_id generation b (starting g) e = inl refl
owe_state-Updated device_id generation b (following g follower) e = inl refl
owe_state-Updated device_id generation b (playing g session) e =
    elim (Bool-cases (not (g == generation) || not session.session_alive)) [
      | inl p ↦ rw p (inl refl)
      | inr p ↦
          rw p
            (inr (g, session, record session { stall_reload_owed = true }, ap playing_of e, refl))
    ]

pub owe_stall_reload-Updated :
    (device_id : Text) (generation : ℕ) (b : Bridge)
    → Updated device_id b (owe_stall_reload device_id generation b).1
unfolding owe_stall_reload
owe_stall_reload-Updated device_id generation b =
    owe_state-Updated device_id generation b (state_at device_id b) refl

note_session-Updated :
    (now : ℕ) (device_id : Text) (g : ℕ) (session : PlayingSession) (b : Bridge)
    → playing_at device_id b ≡ some (g, session)
    → Updated device_id b (note_session now device_id g session b).1
unfolding note_session
note_session-Updated now device_id g session b e = elim (Bool-cases (is_flac session.egress)) [
  | inl p ↦ rw p (inr (g, session, _, e, refl))
  | inr p ↦ rw p (inr (g, session, _, e, refl))
]

note_state-Updated :
    (now : ℕ) (device_id : Text) (generation : ℕ) (b : Bridge) (d : DeviceState)
    → state_at device_id b ≡ d
    → Updated device_id b (note_state now device_id generation d b).1
unfolding note_state
note_state-Updated now device_id generation b idle e = inl refl
note_state-Updated now device_id generation b (starting g) e = inl refl
note_state-Updated now device_id generation b (following g follower) e = inl refl
note_state-Updated now device_id generation b (playing g session) e =
    elim (Bool-cases (g == generation)) [
      | inl p ↦ rw p (note_session-Updated now device_id g session b (ap playing_of e))
      | inr p ↦ rw p (inl refl)
    ]

pub note_stall-Updated :
    (now : ℕ) (device_id : Text) (generation : ℕ) (b : Bridge)
    → Updated device_id b (note_stall_reload_and_flac_strike now device_id generation b).1
unfolding note_stall_reload_and_flac_strike
note_stall-Updated now device_id generation b =
    note_state-Updated now device_id generation b (state_at device_id b) refl

plan_session-Updated :
    (now : ℕ) (device_id : Text) (g : ℕ) (session : PlayingSession) (b : Bridge)
    → playing_at device_id b ≡ some (g, session)
    → Updated device_id b (plan_session now device_id g session b).1
unfolding plan_session
plan_session-Updated now device_id g session b e = elim (Bool-cases (is_flac session.egress)) [
  | inr p ↦ rw p (inl refl)
  | inl p ↦ elim (Bool-cases (ltb (now - session.started_at) flac_fallback_window)) [
    | inl q ↦ rw (p, q) (inl refl)
    | inr q ↦ rw (p, q) (inr (g, session, _, e, refl))
  ]
]

plan_state-Updated :
    (now : ℕ) (device_id : Text) (b : Bridge) (d : DeviceState)
    → state_at device_id b ≡ d
    → Updated device_id b (plan_state now device_id d b).1
unfolding plan_state
plan_state-Updated now device_id b idle e = inl refl
plan_state-Updated now device_id b (starting g) e = inl refl
plan_state-Updated now device_id b (following g follower) e = inl refl
plan_state-Updated now device_id b (playing g session) e =
    plan_session-Updated now device_id g session b (ap playing_of e)

pub plan_media_recovered_flac-Updated :
    (now : ℕ) (device_id : Text) (b : Bridge)
    → Updated device_id b (plan_media_recovered_flac now device_id b).1
unfolding plan_media_recovered_flac
plan_media_recovered_flac-Updated now device_id b =
    plan_state-Updated now device_id b (state_at device_id b) refl

pause_locally_in-Updated :
    (now : ℕ) (device_id : Text) (b : Bridge) (o : Option (ℕ × PlayingSession))
    → playing_at device_id b ≡ o
    → Updated device_id b (pause_locally_in now device_id o b).1
pause_locally_in-Updated now device_id b none e = inl refl
pause_locally_in-Updated now device_id b (some (g, session)) e = elim (Bool-cases session.paused) [
  | inl p ↦ rw p (inl refl)
  | inr p ↦ rw p (inr (g, session, paused_locally now session, e, refl))
]

pub pause_locally-Updated :
    (now : ℕ) (device_id : Text) (b : Bridge)
    → Updated device_id b (pause_locally_for_cast now device_id b).1
unfolding pause_locally_for_cast
pause_locally-Updated now device_id b =
    pause_locally_in-Updated now device_id b (playing_at device_id b) refl

note_volume_in-Updated :
    (device_id : Text) (level : ℕ) (b : Bridge) (o : Option (ℕ × PlayingSession))
    → playing_at device_id b ≡ o
    → Updated device_id b (note_volume_in device_id level o b)
note_volume_in-Updated device_id level b none e = inl refl
note_volume_in-Updated device_id level b (some (g, session)) e = inr (g, session, _, e, refl)

pub note_cast_volume-Updated :
    (device_id : Text) (level : ℕ) (muted : Bool) (b : Bridge)
    → Updated device_id b (note_cast_volume device_id level muted b)
unfolding note_cast_volume
note_cast_volume-Updated device_id level true b = inl refl
note_cast_volume-Updated device_id level false b =
    note_volume_in-Updated device_id level b (playing_at device_id b) refl

route_in-Updated :
    (print_port : ℕ → Text) (device_id : Text) (level : ℕ) (registry : DeviceRegistry) (b : Bridge)
    (d : DeviceState)
    → state_at device_id b ≡ d
    → Updated device_id b
        (route_in print_port device_id level (speaker_group (get device_id registry)) b d).1
route_in-Updated print_port device_id level registry b idle e = inl refl
route_in-Updated print_port device_id level registry b (starting g) e = inl refl
route_in-Updated print_port device_id level registry b (following g follower) e = inl refl
route_in-Updated print_port device_id level registry b (playing g session) e =
    inr (g, session, _, ap playing_of e, refl)

pub volume_route-Updated :
    (print_port : ℕ → Text) (registry : DeviceRegistry) (device_id : Text) (level : ℕ) (b : Bridge)
    → Updated device_id b (volume_route print_port registry device_id level b).1
unfolding volume_route
volume_route-Updated print_port registry device_id level b =
    route_in-Updated print_port device_id level registry b (state_at device_id b) refl
