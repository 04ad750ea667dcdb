-- ===== src/Bridge/Group/Events.antt =====
-- The operations of crates/play-on-air/src/bridge/group.rs as events.
use play_on_air.Prelude.{ℕ, Bool, List, Option}
use play_on_air.Prelude.Text.{Text}
use play_on_air.Bridge.State.{Bridge}
use play_on_air.Bridge.Group.{enter_group, schedule_group_reconcile, end_following}
use play_on_air.Bridge.Group.Owner.{
  group_owner_playing, confirm_group_session, group_owner_left, group_check_owner, end_group,
}
use play_on_air.Bridge.Group.Reconcile.{
  GroupPlan, plan_answered, set_reconcile_dirty, finish_reconcile_pass,
}

pub data GroupEvent : Type 0 where
  enters : Text → Text → ℕ → ℕ → GroupEvent
  leaves owner_leaves : Text → ℕ → GroupEvent
  checks confirms group_ends schedules finishes : Text → GroupEvent
  plays : Text → Text → GroupEvent
  answers : Text → GroupPlan → Option (List Text) → GroupEvent
  dirties : Text → Bool → GroupEvent

module _ (channels_of : ℕ → ℕ) where
  unfoldable pub group_step : GroupEvent → Bridge → Bridge
  group_step (enters device_id uuid sample_rate ring) b =
      (enter_group device_id uuid sample_rate ring b).0.1
  group_step (leaves device_id g) b = (end_following device_id g b).0
  group_step (owner_leaves device_id g) b = (group_owner_left channels_of device_id g b).1
  group_step (checks device_id) b = (group_check_owner device_id b).0
  group_step (confirms device_id) b = (confirm_group_session device_id b).0
  group_step (group_ends uuid) b = (end_group uuid b).1
  group_step (schedules uuid) b = (schedule_group_reconcile uuid b).0
  group_step (finishes uuid) b = (finish_reconcile_pass uuid b).1
  group_step (plays uuid device_id) b = (group_owner_playing uuid device_id b).0
  group_step (answers uuid plan answer) b = (plan_answered uuid plan answer b).0
  group_step (dirties uuid dirty) b = (set_reconcile_dirty uuid dirty b).1
