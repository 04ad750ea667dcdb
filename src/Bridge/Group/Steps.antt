-- ===== src/Bridge/Group/Steps.antt =====
-- Who enters, leaves and is promoted keeps the roles of a group (crates/play-on-air/src/bridge/group.rs).
use play_on_air.Prelude.{
  ℕ, ◌≡◌, refl, inl, inr, true, false, not, ◌||◌, List, [], ◌∷◌, ◌==◌, Option, none, some, is_some,
  Bool-cases, arith,
}
use play_on_air.Prelude.Text.{Text, same_text}
use play_on_air.Prelude.Maps.{lookup}
use play_on_air.Bridge.State.{
  DeviceState, idle, starting, playing, following, CastGroup, Bridge, state_at,
}
use play_on_air.Bridge.Start.{accept_start}
use play_on_air.Bridge.Group.{
  has, is_just, owner_live, group_or_default, is_empty_group, is_promoting, GroupEffect, owned,
  enter_following, enter_owner, enter_group, promote_first, promote_group, promote_if_ownerless,
  schedule_group, schedule_group_reconcile, then_group, leave_group, end_follower, end_following,
}
use play_on_air.Bridge.Group.Kept.{
  IsGroup, AllGroups, AllGroups-lookup, AllGroups-remove, AllGroups-modify,
  group_or_default-IsGroup, kept-IsGroup, joined-IsGroup, led-IsGroup,
}

-- A write of a group that leaves its owner, its followers and its exclusions.
pub same_roles :
    (group other : CastGroup)
    → other.owner ≡ group.owner
    → other.followers ≡ group.followers
    → other.excluded ≡ group.excluded
    → IsGroup group
    → IsGroup other
same_roles group other p q r v = record {
  distinct_followers = rw q v.distinct_followers;
  owner_leads = rw (p, q) v.owner_leads;
  included = rw (q, r) v.included;
}

owner_not_self :
    (device_id : Text) (owner : Option Text) (b : Bridge)
    → owner_live device_id owner b ≡ true
    → is_just owner device_id ≡ false
owner_not_self device_id none b e = refl
owner_not_self device_id (some owner) b e = ground (arith, e)

owned-IsGroup : (id : Text) (group : CastGroup) → IsGroup group → IsGroup (owned id group)
unfolding owned
owned-IsGroup id group v =
    let w = led-IsGroup id group v in
    record {
      distinct_followers = w.distinct_followers;
      owner_leads = w.owner_leads;
      included = w.included;
    }

pub enter-AllGroups :
    (device_id uuid : Text) (sample_rate ring : ℕ) (b : Bridge)
    → AllGroups b.groups
    → AllGroups (enter_group device_id uuid sample_rate ring b).0.1.groups
unfolding enter_group enter_following enter_owner accept_start
enter-AllGroups device_id uuid sample_rate ring b v =
    let group = group_or_default (lookup uuid b.groups) in
    let w : IsGroup group = group_or_default-IsGroup uuid b.groups v in
    elim (Bool-cases (has device_id group.excluded)) [
      | inl p ↦ rw p (w, AllGroups-remove uuid b.groups v)
      | inr p ↦ elim (Bool-cases (owner_live device_id group.owner b)) [
        | inl q ↦
            rw (p, q)
              (
                joined-IsGroup device_id group p (owner_not_self device_id group.owner b q) w,
                AllGroups-remove uuid b.groups v,
              )
        | inr q ↦ rw (p, q) (owned-IsGroup device_id group w, AllGroups-remove uuid b.groups v)
      ]
    ]

promote_first-AllGroups :
    (uuid : Text) (group : CastGroup) (followers : List Text) (b : Bridge)
    → IsGroup group
    → AllGroups b.groups
    → AllGroups (promote_first uuid group followers b).0.groups
unfolding promote_first
promote_first-AllGroups uuid group [] b w v = elim (Bool-cases (is_empty_group group)) [
  | inl p ↦ rw p (AllGroups-remove uuid b.groups v)
  | inr p ↦ rw p (same_roles group _ refl refl refl w, AllGroups-remove uuid b.groups v)
]
promote_first-AllGroups uuid group (first ∷ followers) b w v =
    (same_roles group _ refl refl refl w, AllGroups-remove uuid b.groups v)

promote_group-AllGroups :
    (uuid : Text) (o : Option CastGroup) (b : Bridge)
    → lookup uuid b.groups ≡ o
    → AllGroups b.groups
    → AllGroups (promote_group uuid o b).0.groups
unfolding promote_group
promote_group-AllGroups uuid none b e v = v
promote_group-AllGroups uuid (some group) b e v =
    elim (Bool-cases (is_some group.owner || is_promoting group.promoting group.followers)) [
      | inl p ↦ rw p v
      | inr p ↦ rw p (
          promote_first-AllGroups uuid group group.followers b
            (AllGroups-lookup uuid b.groups group v e) v)
    ]

pub promote-AllGroups :
    (uuid : Text) (b : Bridge)
    → AllGroups b.groups
    → AllGroups (promote_if_ownerless uuid b).0.groups
unfolding promote_if_ownerless
promote-AllGroups uuid b v = promote_group-AllGroups uuid (lookup uuid b.groups) b refl v

schedule_group-AllGroups :
    (uuid : Text) (o : Option CastGroup) (b : Bridge)
    → lookup uuid b.groups ≡ o
    → AllGroups b.groups
    → AllGroups (schedule_group uuid o b).0.groups
unfolding schedule_group
schedule_group-AllGroups uuid none b e v = v
schedule_group-AllGroups uuid (some group) b e v =
    let w = AllGroups-lookup uuid b.groups group v e in
    elim (Bool-cases group.reconcile_running) [
      | inl p ↦ rw p (same_roles group _ refl refl refl w, AllGroups-remove uuid b.groups v)
      | inr p ↦ rw p (same_roles group _ refl refl refl w, AllGroups-remove uuid b.groups v)
    ]

pub schedule-AllGroups :
    (uuid : Text) (b : Bridge)
    → AllGroups b.groups
    → AllGroups (schedule_group_reconcile uuid b).0.groups
unfolding schedule_group_reconcile
schedule-AllGroups uuid b v = schedule_group-AllGroups uuid (lookup uuid b.groups) b refl v

pub then-AllGroups :
    (r : Bridge × List GroupEffect) (next : Bridge → Bridge × List GroupEffect)
    → AllGroups (next r.0).0.groups
    → AllGroups (then_group r next).0.groups
then-AllGroups (b, effects) next v = v

left-IsGroup : (id : Text) (group : CastGroup) → IsGroup group → IsGroup (leave_group id group)
unfolding leave_group
left-IsGroup id group v = kept-IsGroup (λ x. not (same_text x id)) group v

end_follower-AllGroups :
    (device_id : Text) (generation : ℕ) (d : DeviceState) (b : Bridge)
    → AllGroups b.groups
    → AllGroups (end_follower device_id generation d b).0.groups
unfolding end_follower
end_follower-AllGroups device_id generation idle b v = v
end_follower-AllGroups device_id generation (starting g) b v = v
end_follower-AllGroups device_id generation (playing g session) b v = v
end_follower-AllGroups device_id generation (following g follower) b v =
    elim (Bool-cases (g == generation)) [
      | inr p ↦ rw p v
      | inl p ↦ rw p (
          then-AllGroups (promote_if_ownerless follower.group _)
            (schedule_group_reconcile follower.group)
            (schedule-AllGroups follower.group _ (
              promote-AllGroups follower.group _ (
                AllGroups-modify follower.group (leave_group device_id) b.groups
                  (left-IsGroup device_id) v))))
    ]

pub end_following-AllGroups :
    (device_id : Text) (generation : ℕ) (b : Bridge)
    → AllGroups b.groups
    → AllGroups (end_following device_id generation b).0.groups
unfolding end_following
end_following-AllGroups device_id generation b v =
    end_follower-AllGroups device_id generation (state_at device_id b) b v
