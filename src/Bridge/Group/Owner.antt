-- ===== src/Bridge/Group/Owner.antt =====
-- crates/play-on-air/src/bridge/group.rs: the owner of a group, who comes to play, leaves or is lost.
--
-- `channels_of` is the channel count of a ring, which it has from its making.
use play_on_air.Prelude.{
  ℕ, Bool, true, false, ◌&&◌, List, [], ◌∷◌, ◌++◌, ◌==◌, if◌then◌else◌, Option, none, some,
}
use play_on_air.Prelude.Text.{Text}
use play_on_air.Prelude.Maps.{lookup, remove}
use play_on_air.Bridge.State.{
  PlayingSession, FollowingSession, DeviceState, idle, starting, playing, following, CastGroup,
  Bridge, set_volume, state_at, has_session, playing_at,
}
use play_on_air.Bridge.Teardown.{set_state}
use play_on_air.Bridge.Group.{
  has, others, is_just, none_left, is_empty_group, GroupEffect, closes, with_group, follows_in,
  promote_if_ownerless, schedule_group_reconcile, then_group,
}

abbrev pub confirm_members : Text → List Text → List Text
confirm_members device_id [] = device_id ∷ []
confirm_members device_id (x ∷ xs) = x ∷ xs

unfoldable pub owner_plays : Text → Text → Option CastGroup → Bridge → Bridge × List GroupEffect
unfolding schedule_group_reconcile
owner_plays uuid device_id none b = (b, [])
owner_plays uuid device_id (some group) b =
    if is_just group.owner device_id
    then schedule_group_reconcile uuid (
        with_group uuid
          (record group { cast_members = confirm_members device_id group.cast_members }) b)
    else (b, [])

unfoldable pub group_owner_playing : Text → Text → Bridge → Bridge × List GroupEffect
unfolding owner_plays
group_owner_playing uuid device_id b = owner_plays uuid device_id (lookup uuid b.groups) b

abbrev pub group_of : Option (ℕ × PlayingSession) → Option Text
group_of none = none
group_of (some (g, session)) = session.group

-- The group of the Cast session that a device owns.
unfoldable pub session_group : Text → Bridge → Option Text
session_group device_id b = group_of (playing_at device_id b)

abbrev pub unconfirmed : Text → Option CastGroup → Bool
unconfirmed device_id none = false
unconfirmed device_id (some group) = is_just group.owner device_id && none_left group.cast_members

unfoldable pub confirm_in : Text → Option Text → Bridge → Bridge × List GroupEffect
unfolding group_owner_playing
confirm_in device_id none b = (b, [])
confirm_in device_id (some uuid) b =
    if unconfirmed device_id (lookup uuid b.groups)
    then group_owner_playing uuid device_id b
    else (b, [])

unfoldable pub confirm_group_session : Text → Bridge → Bridge × List GroupEffect
unfolding confirm_in session_group
confirm_group_session device_id b = confirm_in device_id (session_group device_id b) b

-- Where a ring is forwarded to, and from where.
module _ (channels_of : ℕ → ℕ) where
  -- A follower that Cast already plays to, with the stream format of the owner.
  abbrev pub can_take_over : PlayingSession → List Text → Text → DeviceState → Bool
  can_take_over session cast_members id idle = false
  can_take_over session cast_members id (starting g) = false
  can_take_over session cast_members id (playing g other) = false
  can_take_over session cast_members id (following g follower) =
      has id cast_members
      && (follower.sample_rate == session.sample_rate)
      && (channels_of follower.source == session.channels)

  unfoldable pub find_survivor : PlayingSession → List Text → List Text → Bridge → Option Text
  find_survivor session cast_members [] b = none
  find_survivor session cast_members (id ∷ followers) b =
      if can_take_over session cast_members id (state_at id b)
      then some id
      else find_survivor session cast_members followers b

  -- The session as its new owner has it: fed by that member's ring.
  unfoldable pub handed_to : Text → FollowingSession → PlayingSession → PlayingSession
  unfolding set_volume
  handed_to survivor follower session = record session {
    device_id = survivor;
    route = set_volume survivor session.route;
    source = some follower.source;
  }

  unfoldable pub hand_over :
      Text
      → Text
      → CastGroup
      → PlayingSession
      → Text
      → DeviceState
      → Bridge
      → Bool × Bridge × List GroupEffect
  unfolding handed_to schedule_group_reconcile
  hand_over device_id uuid group session survivor idle b = (false, b, [])
  hand_over device_id uuid group session survivor (starting g) b = (false, b, [])
  hand_over device_id uuid group session survivor (playing g other) b = (false, b, [])
  hand_over device_id uuid group session survivor (following g follower) b =
      let taken = set_state device_id idle b in
      let fed = set_state survivor (playing g (handed_to survivor follower session)) taken in
      let led = record group {
        owner = some survivor;
        followers = others survivor group.followers;
      } in
      let (b', effects) = schedule_group_reconcile uuid (with_group uuid led fed) in
      (true, b', effects)

  unfoldable pub hand_to :
      Text
      → Text
      → CastGroup
      → PlayingSession
      → Option Text
      → Bridge
      → Bool × Bridge × List GroupEffect
  unfolding hand_over
  hand_to device_id uuid group session none b = (false, b, [])
  hand_to device_id uuid group session (some survivor) b =
      hand_over device_id uuid group session survivor (state_at survivor b) b

  unfoldable pub owner_left :
      Text → Text → PlayingSession → Option CastGroup → Bridge → Bool × Bridge × List GroupEffect
  unfolding hand_to find_survivor
  owner_left device_id uuid session none b = (false, b, [])
  owner_left device_id uuid session (some group) b =
      if is_just group.owner device_id
      then hand_to device_id uuid group session
          (find_survivor session group.cast_members group.followers b) b
      else (false, b, [])

  unfoldable pub session_left :
      Text → PlayingSession → Option Text → Bridge → Bool × Bridge × List GroupEffect
  unfolding owner_left
  session_left device_id session none b = (false, b, [])
  session_left device_id session (some uuid) b =
      owner_left device_id uuid session (lookup uuid b.groups) b

  unfoldable pub playing_left :
      Text → ℕ → Option (ℕ × PlayingSession) → Bridge → Bool × Bridge × List GroupEffect
  unfolding session_left
  playing_left device_id generation none b = (false, b, [])
  playing_left device_id generation (some (g, session)) b =
      if g == generation then session_left device_id session session.group b else (false, b, [])

  -- Whether the session was handed over; otherwise the caller ends it.
  unfoldable pub group_owner_left : Text → ℕ → Bridge → Bool × Bridge × List GroupEffect
  unfolding playing_left
  group_owner_left device_id generation b =
      playing_left device_id generation (playing_at device_id b) b

-- A group that a device is gone from: its exclusion ends, and if it was the owner, its Cast session.
unfoldable pub gone_from : Text → CastGroup → CastGroup
gone_from device_id group =
    let included = record group { excluded = others device_id group.excluded } in
    if is_just group.owner device_id
    then record included { owner = none; cast_members = []; host_key = none }
    else included

-- The hosts to close (each in a task of its own, so in no order), the groups that lost their owner, and the groups that are left.
unfoldable pub sweep_groups :
    Text → List (Text × CastGroup) → (List GroupEffect × List Text) × List (Text × CastGroup)
unfolding gone_from is_empty_group
sweep_groups device_id [] = (([], []), [])
sweep_groups device_id ((uuid, group) ∷ groups) =
    let ((hosts, ownerless), kept) = sweep_groups device_id groups in
    let left = gone_from device_id group in
    let lost = is_just group.owner device_id in
    (
      (
        (if lost
              then closes group.host_key
              else (if is_empty_group left then closes left.host_key else []))
            ++ hosts,
        if lost then uuid ∷ ownerless else ownerless,
      ),
      if is_empty_group left then kept else (uuid, left) ∷ kept,
    )

unfoldable pub promote_all : List Text → Bridge → Bridge × List GroupEffect
unfolding promote_if_ownerless
promote_all [] b = (b, [])
promote_all (uuid ∷ uuids) b = then_group (promote_if_ownerless uuid b) (promote_all uuids)

unfoldable pub group_check_owner : Text → Bridge → Bridge × List GroupEffect
unfolding sweep_groups promote_all has_session
group_check_owner device_id b =
    let ((hosts, ownerless), kept) = sweep_groups device_id b.groups in
    let (b', effects) = promote_all ownerless (record b { groups = kept }) in
    if has_session device_id b then (b, []) else (b', hosts ++ effects)

unfoldable pub end_followers : Text → List Text → Bridge → List Text × Bridge
end_followers uuid [] b = ([], b)
end_followers uuid (id ∷ ids) b =
    let follows = follows_in uuid (state_at id b) in
    let (ended, b') = end_followers uuid ids (if follows then set_state id idle b else b) in
    (if follows then id ∷ ended else ended, b')

unfoldable pub end_members : Text → Option CastGroup → Bridge → (List Text × Option Text) × Bridge
unfolding end_followers
end_members uuid none b = (([], none), b)
end_members uuid (some group) b =
    let (ended, b') =
      end_followers uuid group.followers (record b { groups = remove uuid b.groups }) in
    ((ended, group.host_key), b')

-- The followers that ended, and the host to close.
unfoldable pub end_group : Text → Bridge → (List Text × Option Text) × Bridge
unfolding end_members
end_group uuid b = end_members uuid (lookup uuid b.groups) b
