-- ===== src/Bridge/Group/Devices.antt =====
-- Which operations of a group leave the slots as they are (crates/play-on-air/src/bridge/group.rs).
use play_on_air.Prelude.{
  ◌≡◌, refl, ◌∙◌, inl, inr, Bool, List, [], ◌∷◌, ◌||◌, Option, none, some, is_some, Bool-cases,
}
use play_on_air.Prelude.Text.{Text}
use play_on_air.Prelude.Maps.{lookup}
use play_on_air.Bridge.State.{CastGroup, Bridge, has_session}
use play_on_air.Bridge.Group.{
  is_just, is_empty_group, is_promoting, promote_first, promote_group, promote_if_ownerless,
  schedule_group, schedule_group_reconcile, with_group,
}
use play_on_air.Bridge.Group.Owner.{
  confirm_members, owner_plays, group_owner_playing, confirm_in, unconfirmed, session_group,
  confirm_group_session, sweep_groups, promote_all, group_check_owner,
}
use play_on_air.Bridge.Group.Reconcile.{
  GroupPlan, keep_in, drop_in, excluded_in, exclude_failed, confirmed_in, plan_answered, dirty_in,
  set_reconcile_dirty, finish_in, finish_reconcile_pass,
}

devices-schedule_group :
    (uuid : Text) (o : Option CastGroup) (b : Bridge)
    → (schedule_group uuid o b).0.devices ≡ b.devices
unfolding schedule_group
devices-schedule_group uuid none b = refl
devices-schedule_group uuid (some group) b = elim (Bool-cases group.reconcile_running) [
  | inl p ↦ rw p refl
  | inr p ↦ rw p refl
]

pub devices-schedule :
    (uuid : Text) (b : Bridge) → (schedule_group_reconcile uuid b).0.devices ≡ b.devices
unfolding schedule_group_reconcile
devices-schedule uuid b = devices-schedule_group uuid (lookup uuid b.groups) b

devices-promote_first :
    (uuid : Text) (group : CastGroup) (followers : List Text) (b : Bridge)
    → (promote_first uuid group followers b).0.devices ≡ b.devices
unfolding promote_first
devices-promote_first uuid group [] b = elim (Bool-cases (is_empty_group group)) [
  | inl p ↦ rw p refl
  | inr p ↦ rw p refl
]
devices-promote_first uuid group (first ∷ followers) b = refl

devices-promote_group :
    (uuid : Text) (o : Option CastGroup) (b : Bridge)
    → (promote_group uuid o b).0.devices ≡ b.devices
unfolding promote_group
devices-promote_group uuid none b = refl
devices-promote_group uuid (some group) b =
    elim (Bool-cases (is_some group.owner || is_promoting group.promoting group.followers)) [
      | inl p ↦ rw p refl
      | inr p ↦ rw p (devices-promote_first uuid group group.followers b)
    ]

pub devices-promote :
    (uuid : Text) (b : Bridge) → (promote_if_ownerless uuid b).0.devices ≡ b.devices
unfolding promote_if_ownerless
devices-promote uuid b = devices-promote_group uuid (lookup uuid b.groups) b

devices-promote_all : (uuids : List Text) (b : Bridge) → (promote_all uuids b).0.devices ≡ b.devices
unfolding promote_all
devices-promote_all [] b = refl
devices-promote_all (uuid ∷ uuids) b =
    devices-promote_all uuids (promote_if_ownerless uuid b).0 ∙ devices-promote uuid b

pub devices-check :
    (device_id : Text) (b : Bridge) → (group_check_owner device_id b).0.devices ≡ b.devices
unfolding group_check_owner
devices-check device_id b = elim (Bool-cases (has_session device_id b)) [
  | inl p ↦ rw p refl
  | inr p ↦ rw p (devices-promote_all (sweep_groups device_id b.groups).0.1 _)
]

devices-owner_plays :
    (uuid device_id : Text) (o : Option CastGroup) (b : Bridge)
    → (owner_plays uuid device_id o b).0.devices ≡ b.devices
unfolding owner_plays
devices-owner_plays uuid device_id none b = refl
devices-owner_plays uuid device_id (some group) b =
    elim (Bool-cases (is_just group.owner device_id)) [
      | inl p ↦ rw p (
          devices-schedule uuid (
            with_group uuid
              (record group { cast_members = confirm_members device_id group.cast_members }) b))
      | inr p ↦ rw p refl
    ]

pub devices-group_owner_playing :
    (uuid device_id : Text) (b : Bridge)
    → (group_owner_playing uuid device_id b).0.devices ≡ b.devices
unfolding group_owner_playing
devices-group_owner_playing uuid device_id b =
    devices-owner_plays uuid device_id (lookup uuid b.groups) b

devices-confirm_in :
    (device_id : Text) (o : Option Text) (b : Bridge)
    → (confirm_in device_id o b).0.devices ≡ b.devices
unfolding confirm_in
devices-confirm_in device_id none b = refl
devices-confirm_in device_id (some uuid) b =
    elim (Bool-cases (unconfirmed device_id (lookup uuid b.groups))) [
      | inl p ↦ rw p (devices-group_owner_playing uuid device_id b)
      | inr p ↦ rw p refl
    ]

pub devices-confirm :
    (device_id : Text) (b : Bridge) → (confirm_group_session device_id b).0.devices ≡ b.devices
unfolding confirm_group_session
devices-confirm device_id b = devices-confirm_in device_id (session_group device_id b) b

devices-excluded_in :
    (uuid : Text) (failed : List Text) (o : Option CastGroup) (b : Bridge)
    → (excluded_in uuid failed o b).devices ≡ b.devices
unfolding excluded_in
devices-excluded_in uuid failed none b = refl
devices-excluded_in uuid failed (some group) b = refl

devices-confirmed_in :
    (uuid : Text) (plan : GroupPlan) (failed : List Text) (o : Option CastGroup) (b : Bridge)
    → (confirmed_in uuid plan failed o b).devices ≡ b.devices
devices-confirmed_in uuid plan failed none b = refl
devices-confirmed_in uuid plan failed (some group) b = refl

pub devices-answered :
    (uuid : Text) (plan : GroupPlan) (answer : Option (List Text)) (b : Bridge)
    → (plan_answered uuid plan answer b).0.devices ≡ b.devices
unfolding plan_answered exclude_failed
devices-answered uuid plan none b =
    devices-excluded_in uuid (drop_in (plan.owner ∷ []) plan.added) (lookup uuid b.groups) b
devices-answered uuid plan (some failed_devices) b =
    let failed = keep_in failed_devices (drop_in (plan.owner ∷ []) plan.added) in
    let b' = confirmed_in uuid plan failed (lookup uuid b.groups) b in
    devices-excluded_in uuid failed (lookup uuid b'.groups) b'
    ∙ devices-confirmed_in uuid plan failed (lookup uuid b.groups) b

devices-dirty_in :
    (uuid : Text) (dirty : Bool) (o : Option CastGroup) (b : Bridge)
    → (dirty_in uuid dirty o b).1.devices ≡ b.devices
devices-dirty_in uuid dirty none b = refl
devices-dirty_in uuid dirty (some group) b = refl

pub devices-dirties :
    (uuid : Text) (dirty : Bool) (b : Bridge)
    → (set_reconcile_dirty uuid dirty b).1.devices ≡ b.devices
unfolding set_reconcile_dirty
devices-dirties uuid dirty b = devices-dirty_in uuid dirty (lookup uuid b.groups) b

devices-finish_in :
    (uuid : Text) (o : Option CastGroup) (b : Bridge) → (finish_in uuid o b).1.devices ≡ b.devices
devices-finish_in uuid none b = refl
devices-finish_in uuid (some group) b = elim (Bool-cases group.reconcile_dirty) [
  | inl p ↦ rw p refl
  | inr p ↦ rw p refl
]

pub devices-finish :
    (uuid : Text) (b : Bridge) → (finish_reconcile_pass uuid b).1.devices ≡ b.devices
unfolding finish_reconcile_pass
devices-finish uuid b = devices-finish_in uuid (lookup uuid b.groups) b
