-- ===== src/Bridge/Life/Generations.antt =====
-- The generations of the slots over a history (crates/play-on-air/src/bridge).
use play_on_air.Prelude.{◌≤◌, refl, inl, inr, List, [], ◌∷◌, Bool-cases, arith}
use play_on_air.Prelude.Text.{Text}
use play_on_air.Prelude.Maps.{lookup}
use play_on_air.Bridge.State.{Bridge, state_at}
use play_on_air.Bridge.Teardown.{take_live_session, take_live_session_if_gen}
use play_on_air.Bridge.Fallback.{remember_flac_fallback, remembered}
use play_on_air.Bridge.Life.{
  LifeEvent, starts, ends, flushes, clears, ends_if, owes_stall, stall_ends, installs, pauses,
  resumes, recovers, cast_pauses, cast_volume, sender_volume, accepts_reload, switches, notes_stall,
  remembers, grouped, shuts_down, life_step, life_run, generation_at,
}
use play_on_air.Bridge.Life.Updates.{
  handle_pause-Updated, plan_resume-Updated, handle_flush-Updated, accept_reload-Updated,
  switch_playing_to_wav-Updated, owe_stall_reload-Updated, note_stall-Updated,
  plan_media_recovered_flac-Updated, pause_locally-Updated, note_cast_volume-Updated,
  volume_route-Updated,
}
use play_on_air.Bridge.Life.Stamps.{
  IsValid, Kept, AllKept, same-AllKept, idle-AllKept, Updated-AllKept, accept_start-AllKept,
  clear_starting_if-AllKept, take_if-AllKept, install_playing-AllKept, end_all_sessions-AllKept,
}
use play_on_air.Bridge.Life.Groups.{group_step-AllKept, stall_end-AllKept}

life_step-AllKept : (e : LifeEvent) (b : Bridge) → AllKept b (life_step e b)
unfolding life_step take_live_session take_live_session_if_gen remember_flac_fallback AllKept
life_step-AllKept (starts device_id) b = accept_start-AllKept device_id b
life_step-AllKept (ends device_id) b = idle-AllKept device_id b
life_step-AllKept (flushes device_id) b =
    Updated-AllKept device_id b _ (handle_flush-Updated device_id b)
life_step-AllKept (clears device_id g) b = clear_starting_if-AllKept device_id g b
life_step-AllKept (ends_if device_id g) b = take_if-AllKept device_id g (state_at device_id b) b
life_step-AllKept (owes_stall device_id g) b =
    Updated-AllKept device_id b _ (owe_stall_reload-Updated device_id g b)
life_step-AllKept (installs device_id g session) b = install_playing-AllKept device_id g session b
life_step-AllKept (pauses now rate0_at device_id) b =
    Updated-AllKept device_id b _ (handle_pause-Updated now rate0_at device_id b)
life_step-AllKept (resumes now device_id) b =
    Updated-AllKept device_id b _ (plan_resume-Updated now device_id b)
life_step-AllKept (recovers now device_id) b =
    Updated-AllKept device_id b _ (plan_media_recovered_flac-Updated now device_id b)
life_step-AllKept (accepts_reload device_id g covers) b =
    Updated-AllKept device_id b _ (accept_reload-Updated device_id g covers b)
life_step-AllKept (switches now device_id g) b =
    Updated-AllKept device_id b _ (switch_playing_to_wav-Updated now device_id g b)
life_step-AllKept (notes_stall now device_id g) b =
    Updated-AllKept device_id b _ (note_stall-Updated now device_id g b)
life_step-AllKept (stall_ends device_id g) b = stall_end-AllKept device_id g b
life_step-AllKept (cast_pauses now device_id) b =
    Updated-AllKept device_id b _ (pause_locally-Updated now device_id b)
life_step-AllKept (cast_volume device_id level muted) b =
    Updated-AllKept device_id b _ (note_cast_volume-Updated device_id level muted b)
life_step-AllKept (sender_volume print_port registry device_id level) b =
    Updated-AllKept device_id b _ (volume_route-Updated print_port registry device_id level b)
life_step-AllKept (remembers device_id) b =
    elim (Bool-cases (remembered device_id b.flac_fallback)) [
      | inl p ↦ rw p (same-AllKept b b refl)
      | inr p ↦ rw p (same-AllKept b b refl)
    ]
life_step-AllKept (grouped channels_of e) b = group_step-AllKept channels_of e b
life_step-AllKept shuts_down b = end_all_sessions-AllKept b

pub life_run-Kept :
    (es : List LifeEvent) (b : Bridge) (j : Text)
    → IsValid (lookup j b.devices)
    → (generation_at j b ≤ generation_at j (life_run es b))
      × IsValid (lookup j (life_run es b).devices)
unfolding life_run Kept AllKept
life_run-Kept [] b j v = (omega arith, v)
life_run-Kept (e ∷ es) b j v =
    let (up, w) = life_step-AllKept e b j v in
    let (up', w') = life_run-Kept es (life_step e b) j w in (omega (arith, up, up'), w')
