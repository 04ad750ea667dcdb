-- ===== src/Bridge/Group/Roles.antt =====
-- The groups over a history of the operations of crates/play-on-air/src/bridge/group.rs.
use play_on_air.Prelude.{
  ℕ, ◌≡◌, refl, Bool, inl, inr, List, [], ◌∷◌, ◌==◌, Option, none, some, Bool-cases,
}
use play_on_air.Prelude.Text.{Text}
use play_on_air.Prelude.Maps.{lookup}
use play_on_air.Bridge.State.{
  PlayingSession, DeviceState, idle, starting, playing, following, CastGroup, Bridge, state_at,
  playing_at, has_session,
}
use play_on_air.Bridge.Teardown.{
  set_state, take_live_session, take_if, take_live_session_if_gen, end_all_sessions,
}
use play_on_air.Bridge.Fallback.{remember_flac_fallback, remembered}
use play_on_air.Bridge.Start.{
  accept_start, clear_starting_if, install_playing, starting_still, is_starting,
}
use play_on_air.Bridge.Stall.Terminal.{end_owned, terminal_stall_end}
use play_on_air.Bridge.Life.{
  LifeEvent, starts, ends, flushes, clears, ends_if, owes_stall, stall_ends, installs, pauses,
  resumes, recovers, cast_pauses, cast_volume, sender_volume, accepts_reload, switches, notes_stall,
  remembers, grouped, shuts_down, life_step, life_run, no_devices,
}
use play_on_air.Bridge.Life.Updates.{
  Updated, handle_pause-Updated, plan_resume-Updated, handle_flush-Updated, accept_reload-Updated,
  switch_playing_to_wav-Updated, owe_stall_reload-Updated, note_stall-Updated,
  plan_media_recovered_flac-Updated, pause_locally-Updated, note_cast_volume-Updated,
  volume_route-Updated,
}
use play_on_air.Bridge.Group.Events.{
  GroupEvent, enters, leaves, owner_leaves, checks, confirms, group_ends, schedules, finishes,
  plays, answers, dirties, group_step,
}
use play_on_air.Bridge.Group.{
  is_just, is_empty_group, follows_in, with_group, others, promote_if_ownerless,
}
use play_on_air.Bridge.Group.Owner.{
  confirm_members, owner_plays, group_owner_playing, confirm_in, unconfirmed, session_group,
  confirm_group_session, find_survivor, handed_to, hand_over, hand_to, owner_left, session_left,
  playing_left, group_owner_left, gone_from, sweep_groups, promote_all, group_check_owner,
  end_followers, end_members, end_group,
}
use play_on_air.Bridge.Group.Reconcile.{
  GroupPlan, keep_in, drop_in, excluded_in, exclude_failed, confirmed_in, plan_answered, dirty_in,
  set_reconcile_dirty, finish_in, finish_reconcile_pass,
}
use play_on_air.Bridge.Group.Kept.{
  IsGroup, AllGroups, AllGroups-lookup, AllGroups-remove, led-IsGroup, exclude-IsGroup,
  gone_from-IsGroup,
}
use play_on_air.Bridge.Group.Steps.{
  same_roles, enter-AllGroups, promote-AllGroups, schedule-AllGroups, then-AllGroups,
  end_following-AllGroups,
}

owner_plays-AllGroups :
    (uuid device_id : Text) (o : Option CastGroup) (b : Bridge)
    → lookup uuid b.groups ≡ o
    → AllGroups b.groups
    → AllGroups (owner_plays uuid device_id o b).0.groups
unfolding owner_plays
owner_plays-AllGroups uuid device_id none b e v = v
owner_plays-AllGroups uuid device_id (some group) b e v =
    let w = AllGroups-lookup uuid b.groups group v e in
    elim (Bool-cases (is_just group.owner device_id)) [
      | inr p ↦ rw p v
      | inl p ↦ rw p (
          schedule-AllGroups uuid
            (with_group uuid
              (record group { cast_members = confirm_members device_id group.cast_members }) b)
            (same_roles group _ refl refl refl w, AllGroups-remove uuid b.groups v))
    ]

group_owner_playing-AllGroups :
    (uuid device_id : Text) (b : Bridge)
    → AllGroups b.groups
    → AllGroups (group_owner_playing uuid device_id b).0.groups
unfolding group_owner_playing
group_owner_playing-AllGroups uuid device_id b v =
    owner_plays-AllGroups uuid device_id (lookup uuid b.groups) b refl v

confirm_in-AllGroups :
    (device_id : Text) (o : Option Text) (b : Bridge)
    → AllGroups b.groups
    → AllGroups (confirm_in device_id o b).0.groups
unfolding confirm_in
confirm_in-AllGroups device_id none b v = v
confirm_in-AllGroups device_id (some uuid) b v =
    elim (Bool-cases (unconfirmed device_id (lookup uuid b.groups))) [
      | inl p ↦ rw p (group_owner_playing-AllGroups uuid device_id b v)
      | inr p ↦ rw p v
    ]

module _ (channels_of : ℕ → ℕ) where
  hand_over-AllGroups :
      (device_id uuid : Text) (group : CastGroup) (session : PlayingSession) (survivor : Text)
      (d : DeviceState) (b : Bridge)
      → IsGroup group
      → AllGroups b.groups
      → AllGroups (hand_over channels_of device_id uuid group session survivor d b).1.groups
  unfolding hand_over
  hand_over-AllGroups device_id uuid group session survivor idle b w v = v
  hand_over-AllGroups device_id uuid group session survivor (starting g) b w v = v
  hand_over-AllGroups device_id uuid group session survivor (playing g other) b w v = v
  hand_over-AllGroups device_id uuid group session survivor (following g follower) b w v =
      let led = record group {
        owner = some survivor;
        followers = others survivor group.followers;
      } in
      let taken = set_state device_id idle b in
      let fed =
        set_state survivor (playing g (handed_to channels_of survivor follower session)) taken in
      schedule-AllGroups uuid (with_group uuid led fed)
        (led-IsGroup survivor group w, AllGroups-remove uuid b.groups v)

  hand_to-AllGroups :
      (device_id uuid : Text) (group : CastGroup) (session : PlayingSession) (o : Option Text)
      (b : Bridge)
      → IsGroup group
      → AllGroups b.groups
      → AllGroups (hand_to channels_of device_id uuid group session o b).1.groups
  unfolding hand_to
  hand_to-AllGroups device_id uuid group session none b w v = v
  hand_to-AllGroups device_id uuid group session (some survivor) b w v =
      hand_over-AllGroups device_id uuid group session survivor (state_at survivor b) b w v

  owner_left-AllGroups :
      (device_id uuid : Text) (session : PlayingSession) (o : Option CastGroup) (b : Bridge)
      → lookup uuid b.groups ≡ o
      → AllGroups b.groups
      → AllGroups (owner_left channels_of device_id uuid session o b).1.groups
  unfolding owner_left
  owner_left-AllGroups device_id uuid session none b e v = v
  owner_left-AllGroups device_id uuid session (some group) b e v =
      elim (Bool-cases (is_just group.owner device_id)) [
        | inr p ↦ rw p v
        | inl p ↦ rw p (
            hand_to-AllGroups device_id uuid group session
              (find_survivor channels_of session group.cast_members group.followers b) b
              (AllGroups-lookup uuid b.groups group v e) v)
      ]

  session_left-AllGroups :
      (device_id : Text) (session : PlayingSession) (o : Option Text) (b : Bridge)
      → AllGroups b.groups
      → AllGroups (session_left channels_of device_id session o b).1.groups
  unfolding session_left
  session_left-AllGroups device_id session none b v = v
  session_left-AllGroups device_id session (some uuid) b v =
      owner_left-AllGroups device_id uuid session (lookup uuid b.groups) b refl v

  playing_left-AllGroups :
      (device_id : Text) (generation : ℕ) (o : Option (ℕ × PlayingSession)) (b : Bridge)
      → AllGroups b.groups
      → AllGroups (playing_left channels_of device_id generation o b).1.groups
  unfolding playing_left
  playing_left-AllGroups device_id generation none b v = v
  playing_left-AllGroups device_id generation (some (g, session)) b v =
      elim (Bool-cases (g == generation)) [
        | inl p ↦ rw p (session_left-AllGroups device_id session session.group b v)
        | inr p ↦ rw p v
      ]

sweep_groups-AllGroups :
    (device_id : Text) (groups : List (Text × CastGroup))
    → AllGroups groups
    → AllGroups (sweep_groups device_id groups).1
unfolding sweep_groups
sweep_groups-AllGroups device_id [] v = tt
sweep_groups-AllGroups device_id ((uuid, group) ∷ groups) (w, v) =
    let rest = sweep_groups-AllGroups device_id groups v in
    elim (Bool-cases (is_empty_group (gone_from device_id group))) [
      | inl p ↦ rw p rest
      | inr p ↦ rw p (gone_from-IsGroup device_id group w, rest)
    ]

promote_all-AllGroups :
    (uuids : List Text) (b : Bridge) → AllGroups b.groups → AllGroups (promote_all uuids b).0.groups
unfolding promote_all
promote_all-AllGroups [] b v = v
promote_all-AllGroups (uuid ∷ uuids) b v =
    then-AllGroups (promote_if_ownerless uuid b) (promote_all uuids)
      (promote_all-AllGroups uuids _ (promote-AllGroups uuid b v))

check-AllGroups :
    (device_id : Text) (b : Bridge)
    → AllGroups b.groups
    → AllGroups (group_check_owner device_id b).0.groups
unfolding group_check_owner
check-AllGroups device_id b v = elim (Bool-cases (has_session device_id b)) [
  | inl p ↦ rw p v
  | inr p ↦ rw p (
      promote_all-AllGroups (sweep_groups device_id b.groups).0.1 _
        (sweep_groups-AllGroups device_id b.groups v))
]

groups-end_followers :
    (uuid : Text) (ids : List Text) (b : Bridge) → (end_followers uuid ids b).1.groups ≡ b.groups
unfolding end_followers
groups-end_followers uuid [] b = refl
groups-end_followers uuid (id ∷ ids) b = elim (Bool-cases (follows_in uuid (state_at id b))) [
  | inl p ↦ rw p (groups-end_followers uuid ids (set_state id idle b))
  | inr p ↦ rw p (groups-end_followers uuid ids b)
]

end_members-AllGroups :
    (uuid : Text) (o : Option CastGroup) (b : Bridge)
    → AllGroups b.groups
    → AllGroups (end_members uuid o b).1.groups
unfolding end_members
end_members-AllGroups uuid none b v = v
end_members-AllGroups uuid (some group) b v =
    rw (groups-end_followers uuid group.followers _) (AllGroups-remove uuid b.groups v)

excluded_in-AllGroups :
    (uuid : Text) (failed : List Text) (o : Option CastGroup) (b : Bridge)
    → lookup uuid b.groups ≡ o
    → AllGroups b.groups
    → AllGroups (excluded_in uuid failed o b).groups
unfolding excluded_in
excluded_in-AllGroups uuid failed none b e v = v
excluded_in-AllGroups uuid failed (some group) b e v = (
  exclude-IsGroup failed group (AllGroups-lookup uuid b.groups group v e),
  AllGroups-remove uuid b.groups v,
)

confirmed_in-AllGroups :
    (uuid : Text) (plan : GroupPlan) (failed : List Text) (o : Option CastGroup) (b : Bridge)
    → lookup uuid b.groups ≡ o
    → AllGroups b.groups
    → AllGroups (confirmed_in uuid plan failed o b).groups
confirmed_in-AllGroups uuid plan failed none b e v = v
confirmed_in-AllGroups uuid plan failed (some group) b e v = (
  same_roles group _ refl refl refl (AllGroups-lookup uuid b.groups group v e),
  AllGroups-remove uuid b.groups v,
)

answered-AllGroups :
    (uuid : Text) (plan : GroupPlan) (answer : Option (List Text)) (b : Bridge)
    → AllGroups b.groups
    → AllGroups (plan_answered uuid plan answer b).0.groups
unfolding plan_answered exclude_failed
answered-AllGroups uuid plan none b v =
    excluded_in-AllGroups uuid (drop_in (plan.owner ∷ []) plan.added) (lookup uuid b.groups) b refl
      v
answered-AllGroups uuid plan (some failed_devices) b v =
    let failed = keep_in failed_devices (drop_in (plan.owner ∷ []) plan.added) in
    let b' = confirmed_in uuid plan failed (lookup uuid b.groups) b in
    excluded_in-AllGroups uuid failed (lookup uuid b'.groups) b' refl
      (confirmed_in-AllGroups uuid plan failed (lookup uuid b.groups) b refl v)

dirty_in-AllGroups :
    (uuid : Text) (dirty : Bool) (o : Option CastGroup) (b : Bridge)
    → lookup uuid b.groups ≡ o
    → AllGroups b.groups
    → AllGroups (dirty_in uuid dirty o b).1.groups
dirty_in-AllGroups uuid dirty none b e v = v
dirty_in-AllGroups uuid dirty (some group) b e v = (
  same_roles group _ refl refl refl (AllGroups-lookup uuid b.groups group v e),
  AllGroups-remove uuid b.groups v,
)

finish_in-AllGroups :
    (uuid : Text) (o : Option CastGroup) (b : Bridge)
    → lookup uuid b.groups ≡ o
    → AllGroups b.groups
    → AllGroups (finish_in uuid o b).1.groups
finish_in-AllGroups uuid none b e v = v
finish_in-AllGroups uuid (some group) b e v = elim (Bool-cases group.reconcile_dirty) [
  | inl p ↦ rw p v
  | inr p ↦ rw p (
    same_roles group _ refl refl refl (AllGroups-lookup uuid b.groups group v e),
    AllGroups-remove uuid b.groups v,
  )
]

module _ (channels_of : ℕ → ℕ) where
  step-AllGroups :
      (e : GroupEvent) (b : Bridge)
      → AllGroups b.groups
      → AllGroups (group_step channels_of e b).groups
  unfolding group_step group_owner_left confirm_group_session end_group finish_reconcile_pass
      set_reconcile_dirty
  step-AllGroups (enters device_id uuid sample_rate ring) b v =
      enter-AllGroups device_id uuid sample_rate ring b v
  step-AllGroups (leaves device_id g) b v = end_following-AllGroups device_id g b v
  step-AllGroups (owner_leaves device_id g) b v =
      playing_left-AllGroups channels_of device_id g (playing_at device_id b) b v
  step-AllGroups (checks device_id) b v = check-AllGroups device_id b v
  step-AllGroups (confirms device_id) b v =
      confirm_in-AllGroups device_id (session_group device_id b) b v
  step-AllGroups (group_ends uuid) b v = end_members-AllGroups uuid (lookup uuid b.groups) b v
  step-AllGroups (schedules uuid) b v = schedule-AllGroups uuid b v
  step-AllGroups (finishes uuid) b v = finish_in-AllGroups uuid (lookup uuid b.groups) b refl v
  step-AllGroups (plays uuid device_id) b v = group_owner_playing-AllGroups uuid device_id b v
  step-AllGroups (answers uuid plan answer) b v = answered-AllGroups uuid plan answer b v
  step-AllGroups (dirties uuid dirty) b v =
      dirty_in-AllGroups uuid dirty (lookup uuid b.groups) b refl v

groups-Updated :
    (device_id : Text) (b b' : Bridge)
    → Updated device_id b b'
    → AllGroups b.groups
    → AllGroups b'.groups
groups-Updated device_id b b' (inl e) v = rw e v
groups-Updated device_id b b' (inr (g, old, session, e, f)) v = rw f v

groups-take_if :
    (device_id : Text) (generation : ℕ) (d : DeviceState) (b : Bridge)
    → AllGroups b.groups
    → AllGroups (take_if device_id generation d b).1.groups
unfolding take_if
groups-take_if device_id generation idle b v = v
groups-take_if device_id generation (starting g) b v = v
groups-take_if device_id generation (following g follower) b v = v
groups-take_if device_id generation (playing g session) b v = elim (Bool-cases (g == generation)) [
  | inl p ↦ rw p v
  | inr p ↦ rw p v
]

stall_ended-AllGroups :
    (o : Option Text) (b : Bridge) → AllGroups b.groups → AllGroups (end_owned o b).1.groups
unfolding end_group
stall_ended-AllGroups none b v = v
stall_ended-AllGroups (some uuid) b v = end_members-AllGroups uuid (lookup uuid b.groups) b v

groups-install :
    (device_id : Text) (g : ℕ) (session : PlayingSession) (b : Bridge)
    → AllGroups b.groups
    → AllGroups (install_playing device_id g session b).1.groups
unfolding install_playing starting_still
groups-install device_id g session b v = elim (Bool-cases (is_starting g (state_at device_id b))) [
  | inl p ↦ rw p v
  | inr p ↦ rw p v
]

life_step-AllGroups :
    (e : LifeEvent) (b : Bridge) → AllGroups b.groups → AllGroups (life_step e b).groups
unfolding life_step accept_start take_live_session clear_starting_if take_live_session_if_gen
    end_all_sessions terminal_stall_end remember_flac_fallback
life_step-AllGroups (starts device_id) b v = v
life_step-AllGroups (ends device_id) b v = v
life_step-AllGroups (flushes device_id) b v =
    groups-Updated device_id b _ (handle_flush-Updated device_id b) v
life_step-AllGroups (clears device_id g) b v = elim (Bool-cases (starting_still device_id g b)) [
  | inl p ↦ rw p v
  | inr p ↦ rw p v
]
life_step-AllGroups (ends_if device_id g) b v =
    groups-take_if device_id g (state_at device_id b) b v
life_step-AllGroups (owes_stall device_id g) b v =
    groups-Updated device_id b _ (owe_stall_reload-Updated device_id g b) v
life_step-AllGroups (stall_ends device_id g) b v =
    stall_ended-AllGroups (session_group device_id b) _
      (groups-take_if device_id g (state_at device_id b) b v)
life_step-AllGroups (installs device_id g session) b v = groups-install device_id g session b v
life_step-AllGroups (pauses now rate0_at device_id) b v =
    groups-Updated device_id b _ (handle_pause-Updated now rate0_at device_id b) v
life_step-AllGroups (resumes now device_id) b v =
    groups-Updated device_id b _ (plan_resume-Updated now device_id b) v
life_step-AllGroups (recovers now device_id) b v =
    groups-Updated device_id b _ (plan_media_recovered_flac-Updated now device_id b) v
life_step-AllGroups (cast_pauses now device_id) b v =
    groups-Updated device_id b _ (pause_locally-Updated now device_id b) v
life_step-AllGroups (cast_volume device_id level muted) b v =
    groups-Updated device_id b _ (note_cast_volume-Updated device_id level muted b) v
life_step-AllGroups (sender_volume print_port registry device_id level) b v =
    groups-Updated device_id b _ (volume_route-Updated print_port registry device_id level b) v
life_step-AllGroups (accepts_reload device_id g covers) b v =
    groups-Updated device_id b _ (accept_reload-Updated device_id g covers b) v
life_step-AllGroups (switches now device_id g) b v =
    groups-Updated device_id b _ (switch_playing_to_wav-Updated now device_id g b) v
life_step-AllGroups (notes_stall now device_id g) b v =
    groups-Updated device_id b _ (note_stall-Updated now device_id g b) v
life_step-AllGroups (remembers device_id) b v =
    elim (Bool-cases (remembered device_id b.flac_fallback)) [ inl p ↦ rw p v | inr p ↦ rw p v ]
life_step-AllGroups (grouped channels_of e) b v = step-AllGroups channels_of e b v
life_step-AllGroups shuts_down b v = v

run-AllGroups :
    (es : List LifeEvent) (b : Bridge) → AllGroups b.groups → AllGroups (life_run es b).groups
unfolding life_run
run-AllGroups [] b v = v
run-AllGroups (e ∷ es) b v = run-AllGroups es (life_step e b) (life_step-AllGroups e b v)

-- Whatever sessions start, play, end and follow, owners leave, hand over or are lost, and Cast
-- answers, in any order from no devices on: in every group nobody follows twice, the owner does not
-- follow, and no follower is excluded.
pub run-IsGroup :
    (es : List LifeEvent) (uuid : Text) (group : CastGroup)
    → lookup uuid (life_run es no_devices).groups ≡ some group
    → IsGroup group
run-IsGroup es uuid group e =
    AllGroups-lookup uuid (life_run es no_devices).groups group (run-AllGroups es no_devices tt) e
