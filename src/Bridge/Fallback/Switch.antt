-- ===== src/Bridge/Fallback/Switch.antt =====
-- The switch of a live FLAC session to WAV (bridge/fallback.rs).
use play_on_air.Prelude.{
  ℕ, ◌≡◌, ◌⊎◌, refl, ap, ◌∙◌, inl, inr, Bool, true, false, ◌&&◌, ◌==◌, if◌then◌else◌, Option, none,
  some, Bool-cases, ==_iff, arith,
}
use play_on_air.Prelude.Text.{Text, same_text}
use play_on_air.Prelude.Maps.{lookup, when, lookup-modify, same_text_refl, same_text-cases}
use play_on_air.Media.State.{live_wav, set_content}
use play_on_air.Bridge.State.{
  EgressKind, flac_live, wav_buffered, PlayingSession, DeviceState, idle, starting, playing,
  following, DeviceSlot, Bridge, is_live_state, state_of, state_at, select_egress,
}
use play_on_air.Bridge.Fallback.{
  is_flac, with_session, switched_to_wav, switch_state, switch_playing_to_wav,
  remember_flac_fallback, remembered,
}

-- The device plays a FLAC session of this generation.
abbrev pub IsFlacSession : ℕ → DeviceState → PlayingSession → Type 0
IsFlacSession generation d session = (d ≡ playing generation session) × (session.egress ≡ flac_live)

-- The session as WAV: its ring is served as WAV, under the same generation of bodies.
abbrev pub as_wav : ℕ → PlayingSession → PlayingSession
as_wav now session = record session {
  media = record session.media {
    content = live_wav session.ring session.channels session.sample_rate;
  };
  egress = wav_buffered;
  rollover_running = true;
  last_stall_reload_at = some now;
}

-- Writing a session back changes the state of that device alone.
pub state_at-with_session :
    (id device_id : Text) (g : ℕ) (session : PlayingSession) (b : Bridge)
    → state_at id (with_session device_id g session b)
      ≡ state_of (
          when
            (same_text id device_id)
            (λ slot. record slot { state = playing g session })
            (lookup id b.devices))
state_at-with_session id device_id g session b =
    ap state_of
      (lookup-modify id device_id (λ slot. record slot { state = playing g session }) b.devices)

-- The device plays a FLAC session of this generation, as a test.
abbrev pub plays_flac : ℕ → DeviceState → Bool
plays_flac generation idle = false
plays_flac generation (starting g) = false
plays_flac generation (following g follower) = false
plays_flac generation (playing g session) = g == generation && is_flac session.egress

-- A switch that was not due did nothing and says so; one that was due left the session as WAV of the
-- same ring, with its rollover task, the time of the re-LOAD, and all else as it was.
abbrev pub Switched : ℕ → Text → ℕ → Bridge → Bool × Bridge → Type 0
Switched now device_id generation b (done, b') =
    ((plays_flac generation (state_at device_id b) ≡ false) × (done ≡ false) × (b' ≡ b))
    ⊎ ((session : PlayingSession) × IsFlacSession generation (state_at device_id b) session
        × (done ≡ true)
        × (state_at device_id b' ≡ playing generation (as_wav now session)))

written :
    (g : ℕ) (session : PlayingSession) (o : Option DeviceSlot) (d : DeviceState)
    → (is_live_state (state_of o) ≡ true)
    → state_of (when true (λ slot. record slot { state = d }) o) ≡ d
written g session none d e = absurd (ground (arith, e))
written g session (some slot) d e = refl

-- Writing a session back where one plays.
pub rewritten :
    (device_id : Text) (g : ℕ) (old session : PlayingSession) (b : Bridge)
    → state_at device_id b ≡ playing g old
    → state_at device_id (with_session device_id g session b) ≡ playing g session
rewritten device_id g old session b e =
    rw (state_at-with_session device_id device_id g session b, same_text_refl device_id)
      (written g session (lookup device_id b.devices) (playing g session) (ap is_live_state e))

flac_egress : (egress : EgressKind) → is_flac egress ≡ true → egress ≡ flac_live
flac_egress flac_live e = refl
flac_egress wav_buffered e = absurd (ground (arith, e))

switch_state-Switched :
    (now : ℕ) (device_id : Text) (generation : ℕ) (b : Bridge) (d : DeviceState)
    → state_at device_id b ≡ d
    → Switched now device_id generation b (switch_state now device_id generation d b)
unfolding switch_state switched_to_wav set_content
switch_state-Switched now device_id generation b idle e = inl (rw e refl, refl, refl)
switch_state-Switched now device_id generation b (starting g) e = inl (rw e refl, refl, refl)
switch_state-Switched now device_id generation b (following g follower) e =
    inl (rw e refl, refl, refl)
switch_state-Switched now device_id generation b (playing g session) e =
    elim (Bool-cases (g == generation)) [
      | inr other ↦ rw other (inl (rw (e, other) refl, refl, refl))
      | inl same ↦ elim (Bool-cases (is_flac session.egress)) [
        | inr wav ↦ rw (same, wav) (inl (rw (e, same, wav) refl, refl, refl))
        | inl live ↦
            let q : g ≡ generation = (==_iff _ _).0 same in
            rw (same, live)
              (inr (
                session,
                (e ∙ ap (λ k. playing k session) q, flac_egress session.egress live),
                refl,
                rewritten device_id g session (as_wav now session) b e
                    ∙ ap (λ k. playing k (as_wav now session)) q,
              ))
      ]
    ]

-- A switch does nothing and says so exactly if the device does not play a FLAC session of this very
-- generation; otherwise it says so, and that session, of the same generation, serves its ring as
-- WAV, rolls over, counts as re-LOADed now, and is unchanged in all else.
pub switch_playing_to_wav-Switched :
    (now : ℕ) (device_id : Text) (generation : ℕ) (b : Bridge)
    → Switched now device_id generation b (switch_playing_to_wav now device_id generation b)
unfolding switch_playing_to_wav
switch_playing_to_wav-Switched now device_id generation b =
    switch_state-Switched now device_id generation b (state_at device_id b) refl

-- Remembering a device makes its next session WAV, and changes the choice for no other device.
pub remember-select_egress :
    (id device_id : Text) (b : Bridge)
    → select_egress (remembered id (remember_flac_fallback device_id b).flac_fallback) ≡ (
        if same_text id device_id
        then wav_buffered
        else select_egress (remembered id b.flac_fallback))
unfolding select_egress remember_flac_fallback
remember-select_egress id device_id b = elim (Bool-cases (remembered device_id b.flac_fallback)) [
  | inl known ↦ elim (same_text-cases id device_id) [
    | inl (p, e) ↦ rw (known, e, p, known) refl
    | inr (p, e) ↦ rw (known, e) refl
  ]
  | inr fresh ↦ elim (Bool-cases (same_text id device_id)) [
    | inl e ↦ rw (fresh, e) refl
    | inr e ↦ rw (fresh, e) refl
  ]
]
