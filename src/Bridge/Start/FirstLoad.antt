-- ===== src/Bridge/Start/FirstLoad.antt =====
-- The first LOAD of a session and its fallback to WAV (crates/play-on-air/src/bridge/start.rs).
use play_on_air.Prelude.{
  ℕ, ◌≡◌, refl, ◌⊎◌, inl, inr, Bool, true, false, not, ◌&&◌, ◌||◌, if◌then◌else◌, Bool-cases,
}
use play_on_air.Prelude.Text.{Text, same_text}
use play_on_air.Prelude.Maps.{same_text-cases}
use play_on_air.Error.{Error}
use play_on_air.Media.State.{AppState, MediaContent, live_flac, live_wav, set_content}
use play_on_air.Cast.{CastTrack, MediaSessionRef}
use play_on_air.Bridge.State.{EgressKind, flac_live, wav_buffered, CastRoute, Bridge}
use play_on_air.Bridge.Fallback.{
  is_flac, is_transport_shaped_cast_error, remember_flac_fallback, remembered,
}
use play_on_air.Bridge.Gates.{cast_load_media}
use play_on_air.Bridge.Start.{InitialLoad, load_wav, after_flac, initial_cast_load}

abbrev pub content_for : ℕ → ℕ → ℕ → EgressKind → MediaContent
content_for ring channels sample_rate flac_live = live_flac ring channels sample_rate
content_for ring channels sample_rate wav_buffered = live_wav ring channels sample_rate

-- A failure that speaks against FLAC: not one of the transport.
abbrev pub is_rejection : Error ⊎ MediaSessionRef → Bool
is_rejection (inl e) = not (is_transport_shaped_cast_error e)
is_rejection (inr session) = false

abbrev pub is_ok : Error ⊎ MediaSessionRef → Bool
is_ok (inl e) = false
is_ok (inr session) = true

remembered-remember :
    (id device_id : Text) (b : Bridge)
    → remembered id (remember_flac_fallback device_id b).flac_fallback
      ≡ (same_text id device_id || remembered id b.flac_fallback)
unfolding remember_flac_fallback
remembered-remember id device_id b = elim (Bool-cases (remembered device_id b.flac_fallback)) [
  | inl known ↦ elim (same_text-cases id device_id) [
    | inl (p, e) ↦ rw (known, e, p, known) refl
    | inr (p, e) ↦ rw (known, e) refl
  ]
  | inr fresh ↦ rw fresh refl
]

module _ (route : CastRoute) (url : Text) (track : CastTrack) (ring channels sample_rate : ℕ)
    (device_id : Text) (media : AppState) (b : Bridge) where
  -- What a first LOAD does, by what the receiver answers.
  abbrev pub Falls :
      EgressKind → Error ⊎ MediaSessionRef → Error ⊎ MediaSessionRef → Text → InitialLoad → Type 0
  Falls egress flac_answer wav_answer id first =
      (is_flac first.egress ≡ (is_flac egress && is_ok flac_answer))
      × (first.result ≡ (if is_flac first.egress then flac_answer else wav_answer))
      × (first.media.content ≡ content_for ring channels sample_rate first.egress)
      × (remembered id first.bridge.flac_fallback ≡ (
          is_flac egress && (is_rejection flac_answer && same_text id device_id)
          || remembered id b.flac_fallback))

  -- The first LOAD of a session, for the egress that the device is known to need. FLAC stays exactly
  -- if it was tried and the receiver takes it; otherwise the result is the receiver's answer to WAV.
  -- Either way what the media server then serves is the content of the egress that is told. And any
  -- device is known to need WAV afterwards exactly if it was before, or if it is this one and it
  -- answered FLAC with an error that does not look like one of the transport.
  pub initial_cast_load_lem :
      (egress : EgressKind) (flac_answer wav_answer : Error ⊎ MediaSessionRef) (id : Text)
      → Falls egress flac_answer wav_answer id (
          initial_cast_load route url track ring channels sample_rate device_id egress flac_answer
            wav_answer media b)
  unfolding initial_cast_load load_wav after_flac set_content cast_load_media
  initial_cast_load_lem wav_buffered flac_answer wav_answer id = (refl, refl, refl, refl)
  initial_cast_load_lem flac_live (inr session) wav_answer id = (refl, refl, refl, refl)
  initial_cast_load_lem flac_live (inl e) wav_answer id =
      elim (Bool-cases (is_transport_shaped_cast_error e)) [
        | inl p ↦ rw p (refl, refl, refl, refl)
        | inr p ↦ rw p (refl, refl, refl, remembered-remember id device_id b)
      ]
