-- ===== src/Bridge/Load/Bounds.antt =====
-- What a session's flush counters say of the LOAD that went out last (crates/play-on-air/src/bridge/
-- load.rs and playback.rs), and the pauses, resumes and flushes that keep it.
use play_on_air.Prelude.{ℕ, ◌≤◌, ◌≡◌, refl, ◌⊎◌, inl, inr, Option, none, some, Bool-cases, arith}
use play_on_air.Prelude.Words.{u64_max}
use play_on_air.Prelude.Text.{Text}
use play_on_air.Bridge.State.{PlayingSession, Bridge, playing_at}
use play_on_air.Bridge.Slots.{playing_at-with_session}
use play_on_air.Bridge.Fallback.{with_session}
use play_on_air.Bridge.Playback.{
  pause_at, pause_playing, resumed, resume_playing, flushed, flush_playing,
}
use play_on_air.Bridge.Gates.{
  SessionFlags, attempt_done, attempt_paused, attempt_ended, ReloadValidity, is_valid, is_paused,
  is_stale, validity_in, ReloadGate, abort, gate_paused, already_satisfied, proceed, gate_of,
  is_covered, discard_successful_reload_should_stop,
}
use play_on_air.Bridge.Load.{
  Reload, returns, awaits_flight, awaits_lead, awaits_load, awaits_stop, planned, begin_playing,
  past_flight, past_lead, discarded,
}
use play_on_air.Bridge.Load.Flights.{
  LoadTask, no_load, load_spawned, load_finished, Flight, spawned,
}

-- The flush requests that the LOAD which is waited for covers.
abbrev pub covers_of : Reload → ℕ
covers_of (returns outcome) = 0
covers_of awaits_flight = 0
covers_of awaits_lead = 0
covers_of (awaits_load covers_flush) = covers_flush
covers_of (awaits_stop outcome) = 0

-- A LOAD that covers flushes went out after them, once it is done.
abbrev pub limit_of : LoadTask → ℕ → ℕ → ℕ
limit_of no_load n requested = requested
limit_of load_spawned n requested = requested
limit_of (load_finished (attempt_done result)) n requested = n
limit_of (load_finished attempt_paused) n requested = requested
limit_of (load_finished attempt_ended) n requested = requested

pub record InBounds (session : PlayingSession) (n : ℕ) (covers : ℕ) (load : LoadTask) : Type 0 where
  pub done_after : session.flush_reload_done ≤ n
  pub loaded_within : n ≤ session.flush_reload_requested
  pub fits : session.flush_reload_requested ≤ u64_max
  pub covered : covers ≤ limit_of load n session.flush_reload_requested

abbrev pub Bounds : Option (ℕ × PlayingSession) → ℕ → ℕ → LoadTask → Type 0
Bounds none n covers load = Unit
Bounds (some (g, session)) n covers load = InBounds session n covers load

abbrev pub Inv : Text → Flight → Type 0
Inv device_id s =
    Bounds (playing_at device_id s.bridge) s.loaded_through (covers_of s.reload) s.load

-- The limit grows with the requests.
pub limit_grows : (load : LoadTask) (n r r' : ℕ) → r ≤ r' → limit_of load n r ≤ limit_of load n r'
limit_grows no_load n r r' h = h
limit_grows load_spawned n r r' h = h
limit_grows (load_finished (attempt_done result)) n r r' h = omega arith
limit_grows (load_finished attempt_paused) n r r' h = h
limit_grows (load_finished attempt_ended) n r r' h = h

pub zero_covers :
    (session : PlayingSession) (n c : ℕ) (load load' : LoadTask)
    → InBounds session n c load
    → InBounds session n 0 load'
zero_covers session n c load load' v = record {
  done_after = v.done_after;
  loaded_within = v.loaded_within;
  fits = v.fits;
  covered = omega arith;
}

-- An update of the session that keeps what is done and forgets no request.
pub grown :
    (old session : PlayingSession) (n c : ℕ) (load : LoadTask)
    → session.flush_reload_done ≡ old.flush_reload_done
    → old.flush_reload_requested ≤ session.flush_reload_requested
    → session.flush_reload_requested ≤ u64_max
    → InBounds old n c load
    → InBounds session n c load
grown old session n c load p q f v =
    let h = limit_grows load n old.flush_reload_requested session.flush_reload_requested q in
    record {
      done_after = omega (arith, v.done_after, p);
      loaded_within = omega (arith, v.loaded_within, q);
      fits = f;
      covered = omega (arith, v.covered, h);
    }

-- Bounds carry over to the slot that an update leaves.
pub written_back :
    (device_id : Text) (g : ℕ) (old session : PlayingSession) (b : Bridge) (n c : ℕ)
    (load : LoadTask)
    → playing_at device_id b ≡ some (g, old)
    → InBounds session n c load
    → Bounds (playing_at device_id (with_session device_id g session b)) n c load
written_back device_id g old session b n c load e v =
    rw (playing_at-with_session device_id g old session b e) v

module _ (device_id : Text) (n c : ℕ) (load : LoadTask) where
  pub pause-Bounds :
      (now rate0_at : ℕ) (b : Bridge) (o : Option (ℕ × PlayingSession))
      → playing_at device_id b ≡ o
      → Bounds o n c load
      → Bounds (playing_at device_id (pause_playing now rate0_at device_id o b).1) n c load
  unfolding pause_playing pause_at
  pause-Bounds now rate0_at b none e v = rw e tt
  pause-Bounds now rate0_at b (some (g, session)) e v = elim (Bool-cases session.paused) [
    | inl p ↦ rw (p, e) v
    | inr p ↦ rw p (
        written_back device_id g session (pause_at now session) b n c load e
          (grown session (pause_at now session) n c load refl (omega arith) v.fits v))
  ]

  pub resume-Bounds :
      (now : ℕ) (b : Bridge) (o : Option (ℕ × PlayingSession))
      → playing_at device_id b ≡ o
      → Bounds o n c load
      → Bounds (playing_at device_id (resume_playing now device_id o b).1) n c load
  unfolding resume_playing resumed
  resume-Bounds now b none e v = rw e tt
  resume-Bounds now b (some (g, session)) e v =
      written_back device_id g session (resumed session) b n c load e
        (grown session (resumed session) n c load refl (omega arith) v.fits v)

  pub flush-Bounds :
      (b : Bridge) (o : Option (ℕ × PlayingSession))
      → playing_at device_id b ≡ o
      → Bounds o n c load
      → Bounds (playing_at device_id (flush_playing device_id o b)) n c load
  unfolding flush_playing flushed
  flush-Bounds b none e v = rw e tt
  flush-Bounds b (some (g, session)) e v =
      written_back device_id g session (flushed session) b n c load e
        (grown session (flushed session) n c load refl (omega (arith, v.fits)) (omega arith) v)

pub no_cover :
    (o : Option (ℕ × PlayingSession)) (n c : ℕ) (load load' : LoadTask)
    → Bounds o n c load
    → Bounds o n 0 load'
no_cover none n c load load' v = tt
no_cover (some (g, session)) n c load load' v = zero_covers session n c load load' v

pub covers-planned :
    (v : ReloadValidity) (session : PlayingSession) → covers_of (planned v session).0 ≡ 0
unfolding planned
covers-planned is_valid session = refl
covers-planned is_paused session = refl
covers-planned is_stale session = refl

pub covers-begin :
    (generation : ℕ) (o : Option (ℕ × PlayingSession))
    → covers_of (begin_playing generation o).0 ≡ 0
unfolding begin_playing
covers-begin generation none = refl
covers-begin generation (some (g, session)) =
    covers-planned (validity_in g generation session) session

pub covers-past_flight : (gate : ReloadGate) → covers_of (past_flight gate) ≡ 0
unfolding past_flight
covers-past_flight abort = refl
covers-past_flight gate_paused = refl
covers-past_flight already_satisfied = refl
covers-past_flight (proceed r) = refl

pub covers-discarded :
    (flags : SessionFlags) (v : ReloadValidity) → covers_of (discarded flags v) ≡ 0
unfolding discarded
covers-discarded flags v =
    elim (Bool-cases (
      discard_successful_reload_should_stop flags.playback_paused flags.session_alive
        flags.late_stop_allowed)) [ inl p ↦ rw p refl | inr p ↦ rw p refl ]

-- What a re-LOAD that goes on covers is what was requested then.
unfoldable pub CoveredBy : Reload → ℕ → Type 0
CoveredBy r requested = (covers_of r ≡ 0) ⊎ ((r ≡ awaits_load requested))

pub past_lead_covers :
    (flags : SessionFlags) (v : ReloadValidity) (request : Option ℕ) (session : PlayingSession)
    → CoveredBy (past_lead flags (gate_of v request session)) session.flush_reload_requested
unfolding past_lead gate_of CoveredBy
past_lead_covers flags is_stale request session = inl refl
past_lead_covers flags is_paused request session = inl refl
past_lead_covers flags is_valid request session =
    elim (Bool-cases (is_covered request session.flush_reload_done)) [
      | inl p ↦ rw p (inl refl)
      | inr p ↦ elim (Bool-cases flags.session_alive) [
        | inr q ↦ rw (p, q) (inl refl)
        | inl q ↦ elim (Bool-cases flags.playback_paused) [
          | inl r ↦ rw (p, q, r) (inl refl)
          | inr r ↦ rw (p, q, r) (inr refl)
        ]
      ]
    ]

abbrev pub After : Text → ℕ → LoadTask → Reload × Bridge → Type 0
After device_id n load (r, b) = Bounds (playing_at device_id b) n (covers_of r) (spawned r load)
