-- ===== src/Bridge/Life/Groups.antt =====
-- The operations of a group and the end of a stalled session keep the stamps of the slots
-- (crates/play-on-air/src/bridge/group.rs and stall.rs).
use play_on_air.Prelude.{
  ℕ, ◌≡◌, refl, sym, ap, ◌∙◌, inl, inr, false, List, [], ◌∷◌, ◌==◌, Option, none, some, Bool-cases,
  arith,
}
use play_on_air.Prelude.Text.{Text, same_text}
use play_on_air.Prelude.Maps.{lookup, remove, modify, lookup-insert, same_text-cases}
use play_on_air.Bridge.State.{
  PlayingSession, FollowingSession, DeviceState, idle, starting, playing, following, DeviceSlot,
  CastGroup, Bridge, state_of, state_at, playing_at,
}
use play_on_air.Bridge.Slots.{state_at_of_playing}
use play_on_air.Bridge.Group.Handover.{state_at-set_state}
use play_on_air.Bridge.Teardown.{set_state, take_live_session_if_gen}
use play_on_air.Bridge.Start.{slot_or_default, accept_start}
use play_on_air.Bridge.Group.{
  has, is_just, owner_live, group_or_default, follows_in, with_group, others, owned, follow_slot,
  enter_following, enter_owner, enter_group, promote_if_ownerless, schedule_group_reconcile,
  leave_group, end_follower, end_following,
}
use play_on_air.Bridge.Group.Owner.{
  find_survivor, handed_to, hand_over, hand_to, owner_left, session_left, playing_left,
  group_owner_left, end_followers, end_members, end_group, session_group,
}
use play_on_air.Bridge.Stall.Terminal.{end_owned, terminal_stall_end}
use play_on_air.Bridge.Group.Events.{
  GroupEvent, enters, leaves, owner_leaves, checks, confirms, group_ends, schedules, finishes,
  plays, answers, dirties, group_step,
}
use play_on_air.Bridge.Group.Devices.{
  devices-schedule, devices-promote, devices-check, devices-group_owner_playing, devices-confirm,
  devices-answered, devices-dirties, devices-finish,
}
use play_on_air.Bridge.Life.Stamps.{
  Kept, AllKept, Kept-refl, set_state-AllKept, idle-AllKept, accept_start-AllKept, take_if-AllKept,
  stamp_of,
}

-- Only the slots matter.
moved-AllKept : (b b' b'' : Bridge) → b''.devices ≡ b'.devices → AllKept b b' → AllKept b b''
unfolding AllKept
moved-AllKept b b' b'' e k j = rw e (k j)

still-AllKept : (b b' : Bridge) → b'.devices ≡ b.devices → AllKept b b'
unfolding AllKept
still-AllKept b b' e j = rw e (Kept-refl (lookup j b.devices))

then-AllKept : (b b' b'' : Bridge) → AllKept b b' → AllKept b' b'' → AllKept b b''
unfolding AllKept Kept
then-AllKept b b' b'' k k' j v =
    let (up, w) = k j v in let (up', w') = k' j w in (omega (arith, up, up'), w')

following-Kept :
    (uuid : Text) (sample_rate ring : ℕ) (o : Option DeviceSlot)
    → Kept o (some (follow_slot uuid sample_rate ring (slot_or_default o)))
unfolding Kept follow_slot
following-Kept uuid sample_rate ring none v = (omega arith, (refl, omega arith))
following-Kept uuid sample_rate ring (some slot) v = (omega (arith, v.1), (refl, omega arith))

enter_following-AllKept :
    (device_id uuid : Text) (sample_rate ring : ℕ) (group : CastGroup) (b : Bridge)
    → AllKept b (enter_following device_id uuid sample_rate ring group b).0.1
unfolding AllKept enter_following
enter_following-AllKept device_id uuid sample_rate ring group b j =
    rw
      (lookup-insert j device_id
        (follow_slot uuid sample_rate ring (slot_or_default (lookup device_id b.devices)))
        b.devices)
      (elim (same_text-cases j device_id) [
        | inl (p, e) ↦ rw (e, p) (following-Kept uuid sample_rate ring (lookup device_id b.devices))
        | inr (p, e) ↦ rw e (Kept-refl (lookup j b.devices))
      ])

enter_owner-AllKept :
    (device_id uuid : Text) (group : CastGroup) (b : Bridge)
    → AllKept b (enter_owner device_id uuid group b).0.1
unfolding enter_owner
enter_owner-AllKept device_id uuid group b =
    let led = with_group uuid (owned device_id group) b in
    then-AllKept b led (accept_start device_id led).1 (still-AllKept b led refl)
      (accept_start-AllKept device_id led)

enter-AllKept :
    (device_id uuid : Text) (sample_rate ring : ℕ) (b : Bridge)
    → AllKept b (enter_group device_id uuid sample_rate ring b).0.1
unfolding enter_group
enter-AllKept device_id uuid sample_rate ring b =
    let group = group_or_default (lookup uuid b.groups) in
    elim (Bool-cases (has device_id group.excluded)) [
      | inl p ↦ rw p (still-AllKept b (with_group uuid group b) refl)
      | inr p ↦ elim (Bool-cases (owner_live device_id group.owner b)) [
        | inl q ↦ rw (p, q) (enter_following-AllKept device_id uuid sample_rate ring group b)
        | inr q ↦ rw (p, q) (enter_owner-AllKept device_id uuid group b)
      ]
    ]

end_follower-AllKept :
    (device_id : Text) (generation : ℕ) (d : DeviceState) (b : Bridge)
    → AllKept b (end_follower device_id generation d b).0
unfolding end_follower
end_follower-AllKept device_id generation idle b = still-AllKept b b refl
end_follower-AllKept device_id generation (starting g) b = still-AllKept b b refl
end_follower-AllKept device_id generation (playing g session) b = still-AllKept b b refl
end_follower-AllKept device_id generation (following g follower) b =
    elim (Bool-cases (g == generation)) [
      | inr p ↦ rw p (still-AllKept b b refl)
      | inl p ↦
          let b' : Bridge = record (set_state device_id idle b) {
            groups = modify follower.group (leave_group device_id) b.groups;
          } in
          let b'' = (promote_if_ownerless follower.group b').0 in
          rw p (
            moved-AllKept b (set_state device_id idle b)
              (schedule_group_reconcile follower.group b'').0
              (devices-schedule follower.group b'' ∙ devices-promote follower.group b')
              (idle-AllKept device_id b))
    ]

end_followers-AllKept :
    (uuid : Text) (ids : List Text) (b : Bridge) → AllKept b (end_followers uuid ids b).1
unfolding end_followers
end_followers-AllKept uuid [] b = still-AllKept b b refl
end_followers-AllKept uuid (id ∷ ids) b = elim (Bool-cases (follows_in uuid (state_at id b))) [
  | inl p ↦ rw p (
      then-AllKept b (set_state id idle b) (end_followers uuid ids (set_state id idle b)).1
        (idle-AllKept id b) (end_followers-AllKept uuid ids (set_state id idle b)))
  | inr p ↦ rw p (end_followers-AllKept uuid ids b)
]

end_members-AllKept :
    (uuid : Text) (o : Option CastGroup) (b : Bridge) → AllKept b (end_members uuid o b).1
unfolding end_members
end_members-AllKept uuid none b = still-AllKept b b refl
end_members-AllKept uuid (some group) b =
    let b' : Bridge = record b { groups = remove uuid b.groups } in
    then-AllKept b b' (end_followers uuid group.followers b').1 (still-AllKept b b' refl)
      (end_followers-AllKept uuid group.followers b')

end_owned-AllKept : (o : Option Text) (b : Bridge) → AllKept b (end_owned o b).1
unfolding end_group
end_owned-AllKept none b = still-AllKept b b refl
end_owned-AllKept (some uuid) b = end_members-AllKept uuid (lookup uuid b.groups) b

pub stall_end-AllKept :
    (device_id : Text) (generation : ℕ) (b : Bridge)
    → AllKept b (terminal_stall_end device_id generation b).1
unfolding terminal_stall_end take_live_session_if_gen
stall_end-AllKept device_id generation b =
    let b' = (take_live_session_if_gen device_id generation b).1 in
    let o = session_group device_id b in
    then-AllKept b b' (end_owned o b').1
      (take_if-AllKept device_id generation (state_at device_id b) b) (end_owned-AllKept o b')

-- Who follows is not the device that plays.
still_following :
    (device_id survivor : Text) (h g : ℕ) (session : PlayingSession) (follower : FollowingSession)
    (b : Bridge)
    → state_at device_id b ≡ playing h session
    → state_at survivor b ≡ following g follower
    → state_at survivor (set_state device_id idle b) ≡ following g follower
still_following device_id survivor h g session follower b e f =
    let other : same_text survivor device_id ≡ false = elim (same_text-cases survivor device_id) [
      | inl (p, q) ↦ absurd (distinct_states (sym f ∙ ap (λ k. state_at k b) p ∙ e))
      | inr (p, q) ↦ q
    ] in
    state_at-set_state survivor device_id idle b (rw e refl) ∙ rw (other, f) refl
  where
    distinct_states : following g follower ≡ playing h session → ⊥
    distinct_states p = cc p

module _ (channels_of : ℕ → ℕ) where
  hand_over-AllKept :
      (device_id uuid : Text) (group : CastGroup) (session : PlayingSession) (survivor : Text)
      (d : DeviceState) (b : Bridge) (h : ℕ)
      → state_at device_id b ≡ playing h session
      → state_at survivor b ≡ d
      → AllKept b (hand_over channels_of device_id uuid group session survivor d b).1
  unfolding hand_over
  hand_over-AllKept device_id uuid group session survivor idle b h e f = still-AllKept b b refl
  hand_over-AllKept device_id uuid group session survivor (starting g) b h e f =
      still-AllKept b b refl
  hand_over-AllKept device_id uuid group session survivor (playing g other) b h e f =
      still-AllKept b b refl
  hand_over-AllKept device_id uuid group session survivor (following g follower) b h e f =
      let new = handed_to channels_of survivor follower session in
      let freed = set_state device_id idle b in
      let fed = set_state survivor (playing g new) freed in
      let led : CastGroup = record group {
        owner = some survivor;
        followers = others survivor group.followers;
      } in
      let grouped_in = with_group uuid led fed in
      moved-AllKept b fed (schedule_group_reconcile uuid grouped_in).0
        (devices-schedule uuid grouped_in)
        (then-AllKept b freed fed (idle-AllKept device_id b) (
          set_state-AllKept survivor (playing g new) freed (λ slot p s.
            stamp_of slot.state (following g follower) slot.generation
              (ap state_of (sym p) ∙ still_following device_id survivor h g session follower b e f)
              s)))

  hand_to-AllKept :
      (device_id uuid : Text) (group : CastGroup) (session : PlayingSession) (o : Option Text)
      (b : Bridge) (h : ℕ)
      → state_at device_id b ≡ playing h session
      → AllKept b (hand_to channels_of device_id uuid group session o b).1
  unfolding hand_to
  hand_to-AllKept device_id uuid group session none b h e = still-AllKept b b refl
  hand_to-AllKept device_id uuid group session (some survivor) b h e =
      hand_over-AllKept device_id uuid group session survivor (state_at survivor b) b h e refl

  session_left-AllKept :
      (device_id : Text) (session : PlayingSession) (o : Option Text) (b : Bridge) (h : ℕ)
      → state_at device_id b ≡ playing h session
      → AllKept b (session_left channels_of device_id session o b).1
  unfolding session_left owner_left
  session_left-AllKept device_id session none b h e = still-AllKept b b refl
  session_left-AllKept device_id session (some uuid) b h e = left (lookup uuid b.groups)
    where
      left :
          (o : Option CastGroup) → AllKept b (owner_left channels_of device_id uuid session o b).1
      left none = still-AllKept b b refl
      left (some group) = elim (Bool-cases (is_just group.owner device_id)) [
        | inr p ↦ rw p (still-AllKept b b refl)
        | inl p ↦ rw p (
            hand_to-AllKept device_id uuid group session
              (find_survivor channels_of session group.cast_members group.followers b) b h e)
      ]

  playing_left-AllKept :
      (device_id : Text) (generation : ℕ) (o : Option (ℕ × PlayingSession)) (b : Bridge)
      → playing_at device_id b ≡ o
      → AllKept b (playing_left channels_of device_id generation o b).1
  unfolding playing_left
  playing_left-AllKept device_id generation none b e = still-AllKept b b refl
  playing_left-AllKept device_id generation (some (g, session)) b e =
      elim (Bool-cases (g == generation)) [
        | inr p ↦ rw p (still-AllKept b b refl)
        | inl p ↦ rw p (
            session_left-AllKept device_id session session.group b g
              (state_at_of_playing (state_at device_id b) g session e))
      ]

  pub group_step-AllKept : (e : GroupEvent) (b : Bridge) → AllKept b (group_step channels_of e b)
  unfolding group_step end_following group_owner_left end_group
  group_step-AllKept (enters device_id uuid sample_rate ring) b =
      enter-AllKept device_id uuid sample_rate ring b
  group_step-AllKept (leaves device_id g) b =
      end_follower-AllKept device_id g (state_at device_id b) b
  group_step-AllKept (owner_leaves device_id g) b =
      playing_left-AllKept device_id g (playing_at device_id b) b refl
  group_step-AllKept (checks device_id) b = still-AllKept b _ (devices-check device_id b)
  group_step-AllKept (confirms device_id) b = still-AllKept b _ (devices-confirm device_id b)
  group_step-AllKept (group_ends uuid) b = end_members-AllKept uuid (lookup uuid b.groups) b
  group_step-AllKept (schedules uuid) b = still-AllKept b _ (devices-schedule uuid b)
  group_step-AllKept (finishes uuid) b = still-AllKept b _ (devices-finish uuid b)
  group_step-AllKept (plays uuid device_id) b =
      still-AllKept b _ (devices-group_owner_playing uuid device_id b)
  group_step-AllKept (answers uuid plan answer) b =
      still-AllKept b _ (devices-answered uuid plan answer b)
  group_step-AllKept (dirties uuid dirty) b = still-AllKept b _ (devices-dirties uuid dirty b)
