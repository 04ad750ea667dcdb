-- ===== src/Bridge/Group.antt =====
-- crates/play-on-air/src/bridge/group.rs: the members of an AirPlay multi-select as one Cast session.
--
-- What an operation does besides its writes is its list of effects, in their order. Group/Reconcile
-- has the requests to Cast.
pub mod Owner
pub mod Reconcile
pub mod Members
pub mod Events
pub mod Kept
pub mod Devices
pub mod Steps
pub mod Roles
pub mod Handover
use play_on_air.Prelude.{
  ℕ, Bool, true, false, not, ◌&&◌, ◌||◌, List, [], ◌∷◌, ◌++◌, ◌==◌, if◌then◌else◌, Option, none,
  some, is_some,
}
use play_on_air.Prelude.Words.{u64_max, saturating_add}
use play_on_air.Prelude.Text.{Text, same_text}
use play_on_air.Prelude.Maps.{lookup, insert, remove, modify}
use play_on_air.Bridge.State.{
  PlayingSession, FollowingSession, DeviceState, idle, starting, playing, following, DeviceSlot,
  CastGroup, Bridge, set_volume, state_at, has_session,
}
use play_on_air.Bridge.Teardown.{set_state}
use play_on_air.Bridge.Start.{prior_session, slot_or_default, accept_start}

abbrev pub has : Text → List Text → Bool
has id [] = false
has id (x ∷ xs) = same_text id x || has id xs

-- `retain`, and `filter` with `collect`.
abbrev pub keep_if : (Text → Bool) → List Text → List Text
keep_if p [] = []
keep_if p (x ∷ xs) = if p x then x ∷ keep_if p xs else keep_if p xs

abbrev pub others : Text → List Text → List Text
others id xs = keep_if (λ x. not (same_text x id)) xs

abbrev pub push_new : Text → List Text → List Text
push_new id xs = if has id xs then xs else xs ++ id ∷ []

abbrev pub is_just : Option Text → Text → Bool
is_just none id = false
is_just (some x) id = same_text x id

abbrev pub no_group : CastGroup
no_group = record {
  owner = none;
  followers = [];
  cast_members = [];
  host_key = none;
  excluded = [];
  promoting = none;
  reconcile_running = false;
  reconcile_dirty = false;
}

abbrev pub group_or_default : Option CastGroup → CastGroup
group_or_default none = no_group
group_or_default (some group) = group

abbrev pub none_left : List Text → Bool
none_left [] = true
none_left (x ∷ xs) = false

unfoldable pub is_empty_group : CastGroup → Bool
is_empty_group group =
    not (is_some group.owner) && none_left group.followers && none_left group.excluded

unfoldable pub media_key : CastGroup → Option Text
media_key group = key_or group.owner group.host_key
  where
    key_or : Option Text → Option Text → Option Text
    key_or owner none = owner
    key_or owner (some host) = some host

pub data GroupEffect : Type 0 where
  closes_host redispatches starts_reconcile : Text → GroupEffect

abbrev pub closes : Option Text → List GroupEffect
closes none = []
closes (some host) = closes_host host ∷ []

pub data GroupEntry : Type 0 where
  enters_owner : ℕ → Option PlayingSession → Option Text → GroupEntry
  enters_following : Option PlayingSession → GroupEntry
  standalone : GroupEntry

abbrev pub feeds : DeviceState → Bool
feeds idle = false
feeds (starting g) = true
feeds (playing g session) = true
feeds (following g follower) = false

-- Whether another member owns the group and feeds Cast, or is about to.
abbrev pub owner_live : Text → Option Text → Bridge → Bool
owner_live device_id none b = false
owner_live device_id (some owner) b = not (same_text owner device_id) && feeds (state_at owner b)

abbrev pub follows_in : Text → DeviceState → Bool
follows_in uuid idle = false
follows_in uuid (starting g) = false
follows_in uuid (playing g session) = false
follows_in uuid (following g follower) = same_text follower.group uuid

abbrev pub with_group : Text → CastGroup → Bridge → Bridge
with_group uuid group b = record b { groups = insert uuid group b.groups }

unfoldable pub follow_slot : Text → ℕ → ℕ → DeviceSlot → DeviceSlot
follow_slot uuid sample_rate ring slot =
    let generation = saturating_add u64_max slot.generation 1 in
    record {
      generation = generation;
      state =
          following generation (record { group = uuid; sample_rate = sample_rate; source = ring });
    }

unfoldable pub enter_following :
    Text → Text → ℕ → ℕ → CastGroup → Bridge → (GroupEntry × Bridge) × List GroupEffect
unfolding follow_slot
enter_following device_id uuid sample_rate ring group b =
    let slot = slot_or_default (lookup device_id b.devices) in
    let joined = record group { followers = push_new device_id group.followers } in
    let b' = record b {
      devices = insert device_id (follow_slot uuid sample_rate ring slot) b.devices;
    } in
    ((enters_following (prior_session slot.state), with_group uuid joined b'), [])

-- The group of a new owner: a fresh Cast session, unless the owner restarts.
unfoldable pub owned : Text → CastGroup → CastGroup
owned device_id group = record group {
  owner = some device_id;
  followers = others device_id group.followers;
  cast_members = if is_just group.owner device_id then group.cast_members else [];
  host_key = if is_just group.owner device_id then group.host_key else none;
  promoting = if is_just group.promoting device_id then none else group.promoting;
}

unfoldable pub enter_owner :
    Text → Text → CastGroup → Bridge → (GroupEntry × Bridge) × List GroupEffect
unfolding owned
enter_owner device_id uuid group b =
    let restarts = is_just group.owner device_id in
    let ((generation, prior), b') =
      accept_start device_id (with_group uuid (owned device_id group) b) in
    (
      (enters_owner generation prior (if restarts then group.host_key else none), b'),
      if restarts then [] else closes group.host_key,
    )

unfoldable pub enter_group : Text → Text → ℕ → ℕ → Bridge → (GroupEntry × Bridge) × List GroupEffect
unfolding enter_following enter_owner
enter_group device_id uuid sample_rate ring b =
    let group = group_or_default (lookup uuid b.groups) in
    if has device_id group.excluded
    then ((standalone, with_group uuid group b), [])
    else (if owner_live device_id group.owner b
        then enter_following device_id uuid sample_rate ring group b
        else enter_owner device_id uuid group b)

abbrev pub redispatch_state : Text → DeviceState → List GroupEffect
redispatch_state device_id idle = []
redispatch_state device_id (starting g) = []
redispatch_state device_id (playing g session) = []
redispatch_state device_id (following g follower) = redispatches device_id ∷ []

-- A `Started` is queued for a follower.
unfoldable pub redispatch_start : Text → Bridge → List GroupEffect
redispatch_start device_id b = redispatch_state device_id (state_at device_id b)

abbrev pub is_promoting : Option Text → List Text → Bool
is_promoting none followers = false
is_promoting (some promoting) followers = has promoting followers

unfoldable pub promote_first : Text → CastGroup → List Text → Bridge → Bridge × List GroupEffect
unfolding is_empty_group
promote_first uuid group [] b = (
  if is_empty_group group
      then record b { groups = remove uuid b.groups }
      else with_group uuid (record group { host_key = none }) b,
  closes group.host_key,
)
promote_first uuid group (first ∷ followers) b =
    let b' = with_group uuid (record group { promoting = some first }) b in
    (b', redispatch_start first b')

unfoldable pub promote_group : Text → Option CastGroup → Bridge → Bridge × List GroupEffect
unfolding promote_first
promote_group uuid none b = (b, [])
promote_group uuid (some group) b =
    if is_some group.owner || is_promoting group.promoting group.followers
    then (b, [])
    else promote_first uuid group group.followers b

unfoldable pub promote_if_ownerless : Text → Bridge → Bridge × List GroupEffect
unfolding promote_group
promote_if_ownerless uuid b = promote_group uuid (lookup uuid b.groups) b

unfoldable pub schedule_group : Text → Option CastGroup → Bridge → Bridge × List GroupEffect
schedule_group uuid none b = (b, [])
schedule_group uuid (some group) b =
    if group.reconcile_running
    then (with_group uuid (record group { reconcile_dirty = true }) b, [])
    else (
      with_group uuid (record group { reconcile_running = true; reconcile_dirty = false }) b,
      starts_reconcile uuid ∷ [],
    )

unfoldable pub schedule_group_reconcile : Text → Bridge → Bridge × List GroupEffect
unfolding schedule_group
schedule_group_reconcile uuid b = schedule_group uuid (lookup uuid b.groups) b

-- One operation after another, with the effects of both.
abbrev pub then_group :
    Bridge × List GroupEffect → (Bridge → Bridge × List GroupEffect) → Bridge × List GroupEffect
then_group (b, effects) next = let (b', more) = next b in (b', effects ++ more)

unfoldable pub leave_group : Text → CastGroup → CastGroup
leave_group device_id group = record group { followers = others device_id group.followers }

unfoldable pub end_follower : Text → ℕ → DeviceState → Bridge → Bridge × List GroupEffect
unfolding promote_if_ownerless schedule_group_reconcile leave_group
end_follower device_id generation idle b = (b, [])
end_follower device_id generation (starting g) b = (b, [])
end_follower device_id generation (playing g session) b = (b, [])
end_follower device_id generation (following g follower) b =
    let b' = record (set_state device_id idle b) {
      groups = modify follower.group (leave_group device_id) b.groups;
    } in
    if g == generation
    then then_group (promote_if_ownerless follower.group b')
        (schedule_group_reconcile follower.group)
    else (b, [])

unfoldable pub end_following : Text → ℕ → Bridge → Bridge × List GroupEffect
unfolding end_follower
end_following device_id generation b = end_follower device_id generation (state_at device_id b) b
