-- ===== src/Bridge/Slots.antt =====
-- What an update of one device's session does to the slots (crates/play-on-air/src/bridge/state.rs).
use play_on_air.Prelude.{ℕ, ◌≡◌, refl, ap, ◌∙◌, false, Option, none, some, arith}
use play_on_air.Prelude.Text.{Text, same_text}
use play_on_air.Prelude.Maps.{lookup, when}
use play_on_air.Bridge.State.{
  PlayingSession, DeviceState, idle, starting, playing, following, DeviceSlot, Bridge, playing_of,
  state_of, state_at, playing_at,
}
use play_on_air.Bridge.Fallback.{with_session}
use play_on_air.Bridge.Fallback.Switch.{state_at-with_session, rewritten}

pub state_at_of_playing :
    (d : DeviceState) (g : ℕ) (session : PlayingSession)
    → playing_of d ≡ some (g, session)
    → d ≡ playing g session
state_at_of_playing idle g session e = absurd (ground (arith, e))
state_at_of_playing (starting h) g session e = absurd (ground (arith, e))
state_at_of_playing (following h follower) g session e = absurd (ground (arith, e))
state_at_of_playing (playing h live) g session e = cc e

-- A session that is written back is the one that the device plays.
pub playing_at-with_session :
    (device_id : Text) (g : ℕ) (old session : PlayingSession) (b : Bridge)
    → playing_at device_id b ≡ some (g, old)
    → playing_at device_id (with_session device_id g session b) ≡ some (g, session)
playing_at-with_session device_id g old session b e =
    ap playing_of
      (rewritten device_id g old session b (state_at_of_playing (state_at device_id b) g old e))

-- The other devices keep their state.
pub state_at-with_session_other :
    (id device_id : Text) (g : ℕ) (session : PlayingSession) (b : Bridge)
    → same_text id device_id ≡ false
    → state_at id (with_session device_id g session b) ≡ state_at id b
state_at-with_session_other id device_id g session b e =
    state_at-with_session id device_id g session b ∙ rw e (kept (lookup id b.devices))
  where
    kept :
        (o : Option DeviceSlot)
        → state_of (when false (λ slot. record slot { state = playing g session }) o) ≡ state_of o
    kept none = refl
    kept (some slot) = refl
