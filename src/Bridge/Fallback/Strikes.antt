-- ===== src/Bridge/Fallback/Strikes.antt =====
-- Strikes (bridge/fallback.rs): which of a session's failures end its FLAC stream.
use play_on_air.Prelude.{
  ℕ, ◌-◌, ◌≡◌, ◌<◌, ◌⊎◌, ◌↔◌, refl, inl, inr, Bool, true, false, ◌||◌, List, [], ◌∷◌, ltb, Option,
  none, some, arith, Bool-cases, ltb→lt,
}
use play_on_air.Bridge.State.{FlacStrikeReason, PlayingSession}
use play_on_air.Bridge.Fallback.{
  FlacStrikeDecision, record_only, fallback_to_wav, apply_flac_strike, flac_strike_pair_window,
}

abbrev pub falls_back : FlacStrikeDecision → Bool
falls_back record_only = false
falls_back fallback_to_wav = true

-- Whether one of the strikes of a session makes it fall back, and the session after them.
unfoldable pub strikes : List (ℕ × FlacStrikeReason) → PlayingSession → Bool × PlayingSession
unfolding apply_flac_strike
strikes [] session = (false, session)
strikes ((at, reason) ∷ rest) session =
    let (decision, struck) = apply_flac_strike at reason session in
    let (later, final) = strikes rest struck in (falls_back decision || later, final)

-- Two neighbours are less than the window apart.
abbrev pub HasPair : Option (ℕ × FlacStrikeReason) → List (ℕ × FlacStrikeReason) → Type 0
HasPair previous [] = ⊥
HasPair none ((at, reason) ∷ rest) = HasPair (some (at, reason)) rest
HasPair (some (before, why)) ((at, reason) ∷ rest) =
    (at - before < flac_strike_pair_window) ⊎ HasPair (some (at, reason)) rest

strikes-HasPair_from :
    (hits : List (ℕ × FlacStrikeReason)) (session : PlayingSession)
    (previous : Option (ℕ × FlacStrikeReason))
    → session.flac_strike ≡ previous
    → ((strikes hits session).0 ≡ true) ↔ HasPair previous hits
unfolding strikes
strikes-HasPair_from [] session previous e = (λ q. ground (arith, q), λ q. absurd q)
strikes-HasPair_from ((at, reason) ∷ rest) session none e = rw e (
    strikes-HasPair_from rest (record session { flac_strike = some (at, reason) })
      (some (at, reason)) refl)
strikes-HasPair_from ((at, reason) ∷ rest) session (some (before, why)) e =
    let next =
      strikes-HasPair_from rest (record session { flac_strike = some (at, reason) })
        (some (at, reason)) refl in
    elim (Bool-cases (ltb (at - before) flac_strike_pair_window)) [
      | inl near ↦ rw (e, near) (λ q. inl (ltb→lt _ _ near), λ q. refl)
      | inr far ↦
          rw (e, far)
            (
              λ q. inr (next.0 q),
              λ q. elim q [ inl close ↦ absurd (ground (arith, close, far)) | inr h ↦ next.1 h ],
            )
    ]

-- A session's strikes, in any order of time, make it fall back exactly when two in a row, the one it
-- had before included, come within the pair window.
pub strikes-HasPair :
    (hits : List (ℕ × FlacStrikeReason)) (session : PlayingSession)
    → ((strikes hits session).0 ≡ true) ↔ HasPair session.flac_strike hits
strikes-HasPair hits session = strikes-HasPair_from hits session session.flac_strike refl
