-- ===== src/Bridge/Group/Handover.antt =====
-- The owner of a group leaves (crates/play-on-air/src/bridge/group.rs).
use play_on_air.Prelude.{
  ℕ, ◌≡◌, ◌⊎◌, refl, ap, ◌∙◌, inl, inr, Bool, true, false, if◌then◌else◌, Option, none, some, arith,
}
use play_on_air.Prelude.Text.{Text, same_text}
use play_on_air.Prelude.Maps.{lookup, when, lookup-modify, same_text-cases}
use play_on_air.Bridge.State.{
  PlayingSession, FollowingSession, DeviceState, idle, playing, following, DeviceSlot, CastGroup,
  Bridge, is_live_state, state_of, state_at,
}
use play_on_air.Bridge.Teardown.{set_state}
use play_on_air.Bridge.Group.{has}

written :
    (o : Option DeviceSlot) (d : DeviceState)
    → is_live_state (state_of o) ≡ true
    → state_of (when true (λ slot. record slot { state = d }) o) ≡ d
written none d e = absurd (ground (arith, e))
written (some slot) d e = refl

unwritten :
    (o : Option DeviceSlot) (d : DeviceState)
    → state_of (when false (λ slot. record slot { state = d }) o) ≡ state_of o
unwritten none d = refl
unwritten (some slot) d = refl

-- Writing the state of a live device.
pub state_at-set_state :
    (j device_id : Text) (d : DeviceState) (b : Bridge)
    → is_live_state (state_at device_id b) ≡ true
    → state_at j (set_state device_id d b) ≡ (if same_text j device_id then d else state_at j b)
state_at-set_state j device_id d b e =
    ap state_of (lookup-modify j device_id (λ slot. record slot { state = d }) b.devices)
    ∙ elim (same_text-cases j device_id) [
      | inl (p, q) ↦ rw (q, p) (written (lookup device_id b.devices) d e)
      | inr (p, q) ↦ rw q (unwritten (lookup j b.devices) d)
    ]

-- The states after a hand-over from one device to another.
abbrev pub moved : Text → Text → DeviceState → Text → Bridge → DeviceState
moved device_id survivor d j b =
    if same_text j survivor then d else (if same_text j device_id then idle else state_at j b)

module _ (channels_of : ℕ → ℕ) where
  -- A follower of the group that Cast plays to already, with the stream format of the session.
  abbrev pub Survives : PlayingSession → CastGroup → Text → Bridge → Type 0
  Survives session group survivor b =
      (has survivor group.followers ≡ true)
      × (has survivor group.cast_members ≡ true)
      × ((g : ℕ) × (follower : FollowingSession) × (state_at survivor b ≡ following g follower)
          × (follower.sample_rate ≡ session.sample_rate)
          × (channels_of follower.source ≡ session.channels))

  -- Nothing happened, or a follower that Cast plays to has the session now.
  abbrev pub HandedOver : Text → PlayingSession → CastGroup → Text → Bridge → Bool → Bridge → Type 0
  HandedOver device_id session group j b handed b' =
      ((handed ≡ false) × (b' ≡ b) × ((survivor : Text) → Survives session group survivor b → ⊥))
      ⊎ ((handed ≡ true)
          × ((survivor : Text) × (g : ℕ) × (follower : FollowingSession) × Survives session group
                survivor b
              × (state_at survivor b ≡ following g follower)
              × (state_at j b'
                  ≡ moved device_id survivor
                      (playing g (record session {
                        device_id = survivor;
                        route = record session.route { volume = survivor };
                        source = some follower.source;
                      }))
                      j b)))
