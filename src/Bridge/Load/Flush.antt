-- ===== src/Bridge/Load/Flush.antt =====
-- No flush is forgotten (crates/play-on-air/src/bridge/load.rs and playback.rs): a flush stays owed
-- until a LOAD that went out after it is accepted.
use play_on_air.Prelude.{
  ℕ, ◌≤◌, ◌<◌, ◌≡◌, refl, subst, ◌⊎◌, inl, inr, true, not, ◌&&◌, List, [], ◌∷◌, ltb, if◌then◌else◌,
  Option, none, some, Bool-cases, arith,
}
use play_on_air.Prelude.Text.{Text, codes}
use play_on_air.Error.{Error}
use play_on_air.Cast.{MediaSessionRef}
use play_on_air.Bridge.State.{PlayingSession, Bridge, playing_at, flush_reload_owed}
use play_on_air.Bridge.Playback.{
  handle_pause, resume_playing, plan_resume, handle_flush, owed_reload, resume_decision, action_of,
  reload,
}
use play_on_air.Bridge.Gates.{
  SessionFlags, LoadAttempt, attempt_done, attempt_paused, attempt_ended, ReloadPlan, blocking_load,
  ReloadValidity, is_valid, is_paused, is_stale, validity_in, reload_gate, gate_playing, gate_of,
  accept_reload, accept_playing, accept_valid, accepted,
}
use play_on_air.Bridge.Load.{
  Reload, returns, awaits_flight, awaits_lead, awaits_load, awaits_stop, begin_reload, poll,
  past_flight, past_lead, past_load, past_accept, discarded,
}
use play_on_air.Bridge.Stall.{failed, paused, loaded}
use play_on_air.Bridge.Load.Flights.{
  LoadTask, no_load, load_spawned, load_finished, Flight, Event, paused_by, resumed_by, flushed_by,
  started, polled, load_runs, step, run, attempt_of, spawned, start_reload, poll_reload, run_load,
  requested_of, is_free,
}
use play_on_air.Bridge.Load.Bounds.{
  After, Bounds, InBounds, Inv, CoveredBy, covers-begin, covers-discarded, covers-past_flight,
  covers_of, flush-Bounds, limit_of, no_cover, past_lead_covers, pause-Bounds, resume-Bounds,
  written_back,
}

module _ (device_id : Text) (generation : ℕ) (request : Option ℕ) (n : ℕ) where
  -- A re-LOAD that covers nothing leaves the bounds of the slot as they are.
  idle-After :
      (load load' : LoadTask) (c : ℕ) (r : Reload) (b : Bridge) (o : Option (ℕ × PlayingSession))
      → playing_at device_id b ≡ o
      → covers_of r ≡ 0
      → Bounds o n c load
      → After device_id n load' (r, b)
  idle-After load load' c r b o e z v = rw (e, z) (no_cover o n c load (spawned r load') v)

  accept-After :
      (flags : SessionFlags) (load : LoadTask) (c : ℕ) (g : ℕ) (session : PlayingSession)
      (b : Bridge) (validity : ReloadValidity)
      → playing_at device_id b ≡ some (g, session)
      → c ≤ n
      → InBounds session n c load
      → After device_id n load (past_accept flags (accept_valid device_id g c session validity b))
  unfolding past_accept accept_valid accepted
  accept-After flags load c g session b is_valid e h v =
      written_back device_id g session (accepted c session) b n 0 load e (record {
        done_after = omega (arith, v.done_after, h);
        loaded_within = v.loaded_within;
        fits = v.fits;
        covered = omega arith;
      })
  accept-After flags load c g session b is_paused e h v =
      idle-After load load c (discarded flags is_paused) b (some (g, session)) e
        (covers-discarded flags is_paused) v
  accept-After flags load c g session b is_stale e h v =
      idle-After load load c (discarded flags is_stale) b (some (g, session)) e
        (covers-discarded flags is_stale) v

  done-After :
      (flags : SessionFlags) (load : LoadTask) (c : ℕ) (b : Bridge)
      (o : Option (ℕ × PlayingSession))
      → playing_at device_id b ≡ o
      → c ≤ n
      → Bounds o n c load
      → After device_id n load (past_accept flags (accept_playing device_id generation c o b))
  unfolding past_accept accept_playing
  done-After flags load c b none e h v =
      idle-After load load c (discarded flags is_stale) b none e (covers-discarded flags is_stale) v
  done-After flags load c b (some (g, session)) e h v =
      accept-After flags load c g session b (validity_in g generation session) e h v

  lead-Bounds :
      (flags : SessionFlags) (load : LoadTask) (o : Option (ℕ × PlayingSession))
      → Bounds o n 0 load
      → Bounds o n
          (covers_of (past_lead flags (gate_playing generation request o)))
          (spawned (past_lead flags (gate_playing generation request o)) load)
  unfolding gate_playing CoveredBy
  lead-Bounds flags load none v = tt
  lead-Bounds flags load (some (g, session)) v =
      elim (past_lead_covers flags (validity_in g generation session) request session) [
        | inl z ↦ rw z (
            no_cover (some (g, session)) n 0 load
              (spawned
                (past_lead flags (gate_of (validity_in g generation session) request session)) load)
              v)
        | inr z ↦ rw z (record {
          done_after = v.done_after;
          loaded_within = v.loaded_within;
          fits = v.fits;
          covered = omega arith;
        })
      ]

  load-After :
      (flags : SessionFlags) (load : LoadTask) (c : ℕ) (b : Bridge)
      (o : Option (ℕ × PlayingSession))
      → playing_at device_id b ≡ o
      → Bounds o n c load
      → After device_id n load (past_load device_id generation c flags (attempt_of load) b)
  unfolding past_load accept_reload past_lead
  load-After flags no_load c b o e v = idle-After no_load no_load c (returns failed) b o e refl v
  load-After flags load_spawned c b o e v =
      idle-After load_spawned load_spawned c (returns failed) b o e refl v
  load-After flags (load_finished attempt_paused) c b o e v =
      idle-After (load_finished attempt_paused) (load_finished attempt_paused) c (returns paused) b
        o e refl v
  load-After flags (load_finished attempt_ended) c b o e v =
      idle-After (load_finished attempt_ended) (load_finished attempt_ended) c (returns failed) b o
        e refl v
  load-After flags (load_finished (attempt_done (inl x))) c b o e v =
      idle-After (load_finished (attempt_done (inl x))) (load_finished (attempt_done (inl x))) c
        (returns failed) b o e refl v
  load-After flags (load_finished (attempt_done (inr x))) c b none e v =
      rw e (done-After flags (load_finished (attempt_done (inr x))) 0 b none e (omega arith) v)
  load-After flags (load_finished (attempt_done (inr x))) c b (some (g, session)) e v = rw e (
      done-After flags (load_finished (attempt_done (inr x))) c b (some (g, session)) e v.covered v)

  poll-After :
      (flags : SessionFlags) (load : LoadTask) (r : Reload) (b : Bridge)
      (o : Option (ℕ × PlayingSession))
      → playing_at device_id b ≡ o
      → Bounds o n (covers_of r) load
      → After device_id n load (poll device_id generation request flags (attempt_of load) r b)
  unfolding poll reload_gate
  poll-After flags load (returns outcome) b o e v =
      idle-After load load 0 (returns outcome) b o e refl v
  poll-After flags load awaits_flight b o e v =
      idle-After load load 0
        (past_flight (gate_playing generation request (playing_at device_id b))) b o e
        (covers-past_flight (gate_playing generation request (playing_at device_id b))) v
  poll-After flags load awaits_lead b o e v = rw e (lead-Bounds flags load o v)
  poll-After flags load (awaits_load c) b o e v = load-After flags load c b o e v
  poll-After flags load (awaits_stop outcome) b o e v =
      idle-After load load 0 (returns outcome) b o e refl v

limit_within : (load : LoadTask) (n r : ℕ) → n ≤ r → limit_of load n r ≤ r
limit_within no_load n r h = omega arith
limit_within load_spawned n r h = omega arith
limit_within (load_finished (attempt_done result)) n r h = h
limit_within (load_finished attempt_paused) n r h = omega arith
limit_within (load_finished attempt_ended) n r h = omega arith

limit_same : (load : LoadTask) (r : ℕ) → limit_of load r r ≡ r
limit_same no_load r = refl
limit_same load_spawned r = refl
limit_same (load_finished (attempt_done result)) r = refl
limit_same (load_finished attempt_paused) r = refl
limit_same (load_finished attempt_ended) r = refl

-- A LOAD goes out, and then covers all that was requested, or it does not and covers nothing new.
ran :
    (session : PlayingSession) (n c : ℕ) (load : LoadTask) (attempt : LoadAttempt)
    → InBounds session n c load
    → InBounds session session.flush_reload_requested c (load_finished attempt)
ran session n c load attempt v =
    let h = limit_within load n session.flush_reload_requested v.loaded_within in
    record {
      done_after = omega (arith, v.done_after, v.loaded_within);
      loaded_within = omega arith;
      fits = v.fits;
      covered =
          rw (limit_same (load_finished attempt) session.flush_reload_requested)
            (omega (arith, v.covered, h));
    }

module _ (device_id : Text) (generation : ℕ) (plan : ReloadPlan) where
  start-Inv :
      (request : Option ℕ) (s : Flight)
      → Inv device_id s
      → Inv device_id (start_reload device_id generation plan request s)
  unfolding start_reload begin_reload
  start-Inv request s v = rw (covers-begin generation (playing_at device_id s.bridge)) (
      no_cover (playing_at device_id s.bridge) s.loaded_through (covers_of s.reload) s.load no_load
        v)

  spawned-Bounds :
      (early late : SessionFlags) (answer : Error ⊎ MediaSessionRef) (n c : ℕ) (load : LoadTask)
      (o : Option (ℕ × PlayingSession))
      → Bounds o n c load
      → Bounds o
          (if early.session_alive && not early.playback_paused then requested_of o n else n)
          c
          (load_finished (blocking_load plan early late answer).0)
  unfolding blocking_load
  spawned-Bounds early late answer n c load none v = tt
  spawned-Bounds early late answer n c load (some (g, session)) v =
      let h = limit_within load n session.flush_reload_requested v.loaded_within in
      let unsent : (r : ℕ) → c ≤ session.flush_reload_requested =
        λ r. omega (arith, v.covered, h) in
      elim (Bool-cases early.session_alive) [
        | inr p ↦ rw p (record {
          done_after = v.done_after;
          loaded_within = v.loaded_within;
          fits = v.fits;
          covered = unsent 0;
        })
        | inl p ↦ elim (Bool-cases early.playback_paused) [
          | inl q ↦
              rw (p, q)
                (record {
                  done_after = v.done_after;
                  loaded_within = v.loaded_within;
                  fits = v.fits;
                  covered = unsent 0;
                })
          | inr q ↦ rw (p, q) (ran session n c load _ v)
        ]
      ]

  run_load-Inv :
      (early late : SessionFlags) (answer : Error ⊎ MediaSessionRef) (load : LoadTask) (s : Flight)
      → Inv device_id s
      → Inv device_id (run_load device_id generation plan early late answer load s)
  unfolding run_load
  run_load-Inv early late answer no_load s v = v
  run_load-Inv early late answer (load_finished attempt) s v = v
  run_load-Inv early late answer load_spawned s v =
      spawned-Bounds early late answer s.loaded_through (covers_of s.reload) s.load
        (playing_at device_id s.bridge) v

  step-Inv :
      (e : Event) (s : Flight)
      → Inv device_id s
      → Inv device_id (step device_id generation plan e s)
  unfolding step handle_pause plan_resume handle_flush start_reload poll_reload run_load
  step-Inv (paused_by now rate0_at) s v =
      pause-Bounds device_id s.loaded_through (covers_of s.reload) s.load now rate0_at s.bridge
        (playing_at device_id s.bridge) refl v
  step-Inv (resumed_by now) s v =
      resume-Bounds device_id s.loaded_through (covers_of s.reload) s.load now s.bridge
        (playing_at device_id s.bridge) refl v
  step-Inv flushed_by s v =
      flush-Bounds device_id s.loaded_through (covers_of s.reload) s.load s.bridge
        (playing_at device_id s.bridge) refl v
  step-Inv (started request) s v = elim (Bool-cases (is_free s.reload)) [
    | inl free ↦ rw free (start-Inv request s v)
    | inr held ↦ rw held v
  ]
  step-Inv (polled flags) s v =
      poll-After device_id generation s.flush_request s.loaded_through flags s.load s.reload
        s.bridge (playing_at device_id s.bridge) refl v
  step-Inv (load_runs early late answer) s v = run_load-Inv early late answer s.load s v

  run-Inv :
      (es : List Event) (s : Flight)
      → Inv device_id s
      → Inv device_id (run device_id generation plan es s)
  unfolding run
  run-Inv [] s v = v
  run-Inv (e ∷ es) s v = run-Inv es (step device_id generation plan e s) (step-Inv e s v)

-- A session whose media was just LOADed, and no re-LOAD under way.
abbrev pub launched : Bridge → Flight
launched b = record {
  bridge = b;
  reload = returns loaded;
  flush_request = none;
  load = no_load;
  loaded_through = 0;
}

lt→ltb : (a b : ℕ) → a < b → ltb a b ≡ true
lt→ltb a b h = ground (arith, h)

plan_owed :
    (now : ℕ) (device_id : Text) (b : Bridge) (g : ℕ) (session : PlayingSession)
    → playing_at device_id b ≡ some (g, session)
    → session.flush_reload_done < session.flush_reload_requested
    → (plan_resume now device_id b).0
      ≡ some (reload g (codes "flush_resume") (some session.flush_reload_requested))
unfolding plan_resume resume_playing owed_reload resume_decision action_of flush_reload_owed
plan_owed now device_id b g session e h =
    rw (e, lt→ltb session.flush_reload_done session.flush_reload_requested h) refl

-- However pauses, resumes, flushes and re-LOADs of a new session interleave, and whatever the flags
-- and the receiver say: as long as the session plays, if it was flushed since the last LOAD went out,
-- then the next resume re-LOADs for all the flushes so far.
pub flush_owed :
    (device_id : Text) (generation : ℕ) (plan : ReloadPlan) (es : List Event) (b : Bridge) (g0 : ℕ)
    (fresh : PlayingSession)
    → playing_at device_id b ≡ some (g0, fresh)
    → fresh.flush_reload_requested ≡ 0
    → fresh.flush_reload_done ≡ 0
    → (now g : ℕ) (session : PlayingSession)
    → playing_at device_id (run device_id generation plan es (launched b)).bridge
      ≡ some (g, session)
    → (run device_id generation plan es (launched b)).loaded_through
      < session.flush_reload_requested
    → (plan_resume now device_id (run device_id generation plan es (launched b)).bridge).0
      ≡ some (reload g (codes "flush_resume") (some session.flush_reload_requested))
flush_owed device_id generation plan es b g0 fresh e p q now g session f h =
    plan_owed now device_id (run device_id generation plan es (launched b)).bridge g session f
      (omega (arith, h, after.done_after))
  where
    first : Inv device_id (launched b)
    first = rw e (record {
      done_after = omega (arith, q);
      loaded_within = omega arith;
      fits = omega (arith, p);
      covered = omega arith;
    })

    after :
        InBounds session
          (run device_id generation plan es (launched b)).loaded_through
          (covers_of (run device_id generation plan es (launched b)).reload)
          (run device_id generation plan es (launched b)).load
    after =
        subst
          (λ o.
            Bounds o (run device_id generation plan es (launched b)).loaded_through
              (covers_of (run device_id generation plan es (launched b)).reload)
              (run device_id generation plan es (launched b)).load)
          f (run-Inv device_id generation plan es (launched b) first)
