-- ===== src/Bridge/Life/Stamps.antt =====
-- What keeps the stamps of the slots: every live state has its slot's generation
-- (crates/play-on-air/src/bridge).

use play_on_air.Prelude.{
  ℕ, ◌≤◌, ◌≡◌, refl, sym, ap, ◌∙◌, inl, inr, Bool, true, false, List, [], ◌∷◌, Option, none, some,
  Bool-cases, subst, ◌==◌, ==_iff, arith,
}
use play_on_air.Prelude.Words.{u64_max}
use play_on_air.Prelude.Text.{Text, same_text}
use play_on_air.Prelude.Maps.{lookup, when, lookup-modify, lookup-insert, same_text-cases}
use play_on_air.Bridge.State.{
  PlayingSession, DeviceState, idle, starting, playing, following, DeviceSlot, Bridge, state_of,
  state_at,
}
use play_on_air.Bridge.Slots.{state_at_of_playing}
use play_on_air.Bridge.Teardown.{set_state, take_if, idled, end_all_sessions}
use play_on_air.Bridge.Start.{
  slot_or_default, accept_start_in, accept_start, is_starting, starting_still, clear_starting_if,
  install_playing,
}
use play_on_air.Bridge.Life.Updates.{Updated}

-- What is live has the generation of the slot.
abbrev pub Stamped : DeviceState → ℕ → Type 0
Stamped idle n = Unit
Stamped (starting g) n = g ≡ n
Stamped (playing g session) n = g ≡ n
Stamped (following g follower) n = g ≡ n

abbrev pub IsValid : Option DeviceSlot → Type 0
IsValid none = Unit
IsValid (some slot) = Stamped slot.state slot.generation × (slot.generation ≤ u64_max)

-- A valid slot stays valid and its generation does not fall.
unfoldable pub Kept : Option DeviceSlot → Option DeviceSlot → Type 0
Kept o o' =
    IsValid o → ((slot_or_default o).generation ≤ (slot_or_default o').generation) × IsValid o'

-- The same for every device.
unfoldable pub AllKept : Bridge → Bridge → Type 0
AllKept b b' = (j : Text) → Kept (lookup j b.devices) (lookup j b'.devices)

pub Kept-refl : (o : Option DeviceSlot) → Kept o o
unfolding Kept
Kept-refl o v = (omega arith, v)

pub same-AllKept : (b b' : Bridge) → b' ≡ b → AllKept b b'
unfolding AllKept
same-AllKept b b' e j = rw e (Kept-refl (lookup j b.devices))

restated :
    (d : DeviceState) (o : Option DeviceSlot) (same : Bool)
    → ((slot : DeviceSlot)
        → o ≡ some slot
        → Stamped slot.state slot.generation
        → Stamped d slot.generation)
    → Kept o (when same (λ slot. record slot { state = d }) o)
unfolding Kept
restated d none same h v = (omega arith, tt)
restated d (some slot) true h v = (omega arith, (h slot refl v.0, v.1))
restated d (some slot) false h v = (omega arith, v)

-- A state that keeps the stamp may be written to a slot.
pub set_state-AllKept :
    (device_id : Text) (d : DeviceState) (b : Bridge)
    → ((slot : DeviceSlot)
        → lookup device_id b.devices ≡ some slot
        → Stamped slot.state slot.generation
        → Stamped d slot.generation)
    → AllKept b (set_state device_id d b)
unfolding AllKept
set_state-AllKept device_id d b h j =
    rw (lookup-modify j device_id (λ slot. record slot { state = d }) b.devices)
      (elim (same_text-cases j device_id) [
        | inl (p, e) ↦
            restated d (lookup j b.devices) (same_text j device_id)
              (λ slot q. h slot (ap (λ k. lookup k b.devices) (sym p) ∙ q))
        | inr (p, e) ↦ rw e (unchanged (lookup j b.devices))
      ])
  where
    unchanged : (o : Option DeviceSlot) → Kept o (when false (λ slot. record slot { state = d }) o)
    unchanged none = Kept-refl none
    unchanged (some slot) = Kept-refl (some slot)

pub idle-AllKept : (device_id : Text) (b : Bridge) → AllKept b (set_state device_id idle b)
idle-AllKept device_id b = set_state-AllKept device_id idle b (λ slot e s. tt)

pub stamp_of : (d d' : DeviceState) (n : ℕ) → d ≡ d' → Stamped d n → Stamped d' n
stamp_of d d' n e s = subst (λ x. Stamped x n) e s

pub Updated-AllKept : (device_id : Text) (b b' : Bridge) → Updated device_id b b' → AllKept b b'
Updated-AllKept device_id b b' (inl e) = same-AllKept b b' e
Updated-AllKept device_id b b' (inr (g, old, session, e, f)) = rw f (
    set_state-AllKept device_id (playing g session) b (λ slot p s.
      stamp_of slot.state (playing g old) slot.generation
        (ap state_of (sym p) ∙ state_at_of_playing (state_at device_id b) g old e) s))

-- A start stamps its slot with a generation of its own.
started-Kept : (o : Option DeviceSlot) → Kept o (some (accept_start_in (slot_or_default o)).1)
unfolding Kept accept_start_in
started-Kept none v = (omega arith, (refl, omega arith))
started-Kept (some slot) v = (omega (arith, v.1), (refl, omega arith))

pub accept_start-AllKept : (device_id : Text) (b : Bridge) → AllKept b (accept_start device_id b).1
unfolding AllKept accept_start
accept_start-AllKept device_id b j =
    rw
      (lookup-insert j device_id (accept_start_in (slot_or_default (lookup device_id b.devices))).1
        b.devices)
      (elim (same_text-cases j device_id) [
        | inl (p, e) ↦ rw (e, p) (started-Kept (lookup device_id b.devices))
        | inr (p, e) ↦ rw e (Kept-refl (lookup j b.devices))
      ])

pub clear_starting_if-AllKept :
    (device_id : Text) (g : ℕ) (b : Bridge) → AllKept b (clear_starting_if device_id g b)
unfolding clear_starting_if
clear_starting_if-AllKept device_id g b = elim (Bool-cases (starting_still device_id g b)) [
  | inl p ↦ rw p (idle-AllKept device_id b)
  | inr p ↦ rw p (same-AllKept b b refl)
]

pub take_if-AllKept :
    (device_id : Text) (generation : ℕ) (d : DeviceState) (b : Bridge)
    → AllKept b (take_if device_id generation d b).1
unfolding take_if
take_if-AllKept device_id generation idle b = same-AllKept b b refl
take_if-AllKept device_id generation (starting g) b = same-AllKept b b refl
take_if-AllKept device_id generation (following g follower) b = same-AllKept b b refl
take_if-AllKept device_id generation (playing g session) b = elim (Bool-cases (g == generation)) [
  | inl p ↦ rw p (idle-AllKept device_id b)
  | inr p ↦ rw p (same-AllKept b b refl)
]

starting_of : (d : DeviceState) (g : ℕ) → is_starting g d ≡ true → d ≡ starting g
starting_of idle g e = absurd (ground (arith, e))
starting_of (starting h) g e = ap starting ((==_iff h g).0 e)
starting_of (playing h session) g e = absurd (ground (arith, e))
starting_of (following h follower) g e = absurd (ground (arith, e))

pub install_playing-AllKept :
    (device_id : Text) (g : ℕ) (session : PlayingSession) (b : Bridge)
    → AllKept b (install_playing device_id g session b).1
unfolding install_playing starting_still
install_playing-AllKept device_id g session b =
    elim (Bool-cases (is_starting g (state_at device_id b))) [
      | inr p ↦ rw p (same-AllKept b b refl)
      | inl p ↦ rw p (
          set_state-AllKept device_id (playing g session) b (λ slot q s.
            stamp_of slot.state (starting g) slot.generation
              (ap state_of (sym q) ∙ starting_of (state_at device_id b) g p) s))
    ]

lookup-idled :
    (j : Text) (m : List (Text × DeviceSlot))
    → lookup j (idled m) ≡ when true (λ slot. record slot { state = idle }) (lookup j m)
lookup-idled j [] = refl
lookup-idled j ((k, slot) ∷ m) = elim (Bool-cases (same_text j k)) [
  | inl p ↦ rw p refl
  | inr p ↦ rw p (lookup-idled j m)
]

pub end_all_sessions-AllKept : (b : Bridge) → AllKept b (end_all_sessions b).1
unfolding AllKept end_all_sessions
end_all_sessions-AllKept b j =
    rw (lookup-idled j b.devices) (restated idle (lookup j b.devices) true (λ slot e s. tt))
