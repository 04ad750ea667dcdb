-- ===== src/Bridge/Volume.antt =====
-- Where the volume of a receiver goes, and the coalesced volume of a speaker group
-- (crates/play-on-air/src/bridge/volume.rs).
--
-- A level is a number here: the conversion from decibels and the scaling of the members' levels are
-- arithmetic on `f32` and are left. `print_port` prints a port.
use play_on_air.Prelude.{
  ℕ, ◌-◌, Bool, true, false, not, ◌||◌, List, [], ◌∷◌, ◌++◌, ltb, ◌==◌, if◌then◌else◌, Option, none,
  some, ◌>>=◌,
}
use play_on_air.Prelude.Text.{Text, codes, same_text, ascii_lower}
use play_on_air.Prelude.Maps.{lookup, insert, modify}
use play_on_air.Registry.{Device, DeviceRegistry, cast_group_model, get, list, find_device}
use play_on_air.Bridge.State.{
  DeviceState, idle, starting, playing, following, CastGroup, Bridge, state_at,
}
use play_on_air.Bridge.Fallback.{with_session}
use play_on_air.Bridge.Group.{media_key}

-- 5 s in nanoseconds.
abbrev pub member_cache_ttl : ℕ
member_cache_ttl = 5000000000

pub data VolumeRoute : Type 0 where
  skip_volume own_endpoint to_members : VolumeRoute

pub record GroupMember : Type 0 where
  pub device_id : Text
  pub level : ℕ

pub record GroupVolume : Type 0 where
  pub target : Option ℕ
  pub running : Bool
  pub members : Option (ℕ × List GroupMember)

abbrev pub no_volume : GroupVolume
no_volume = record { target = none; running = false; members = none }

-- `normalize_device_id` of cast/multizone.rs.
abbrev pub normalize_device_id : Text → Text
normalize_device_id [] = []
normalize_device_id (c ∷ cs) =
    let rest = normalize_device_id cs in if c == b'-' then rest else ascii_lower c ∷ rest

-- `filter(|device| device.model == CAST_GROUP_MODEL)`.
abbrev pub speaker_group : Option Device → Option Device
speaker_group none = none
speaker_group (some device) = if same_text device.model cast_group_model then some device else none

abbrev pub group_media_key : Option CastGroup → Option Text
unfolding media_key
group_media_key none = none
group_media_key (some group) = media_key group

module _ (print_port : ℕ → Text) where
  abbrev pub session_host_key_at : Text → ℕ → Text
  session_host_key_at ip port = codes "cast-session:" ++ (ip ++ (codes ":" ++ print_port port))

  unfoldable pub hosted_on : Text → Device → Bool
  hosted_on key group =
      same_text key group.id || same_text key (session_host_key_at group.host group.port)

  abbrev pub hosted : Option Text → Device → Bool
  unfolding hosted_on
  hosted none group = false
  hosted (some key) group = hosted_on key group

  abbrev pub route_for : Option Device → Option Text → VolumeRoute
  unfolding hosted_on
  route_for none key = own_endpoint
  route_for (some group) key = if not (hosted key group) then to_members else own_endpoint

  -- The arms of the `match` on the slot's state.
  abbrev pub route_in : Text → ℕ → Option Device → Bridge → DeviceState → VolumeRoute × Bridge
  route_in device_id level group b idle = (skip_volume, b)
  route_in device_id level group b (starting generation) = (skip_volume, b)
  route_in device_id level group b (playing generation session) = (
    route_for group (some session.route.media),
    with_session device_id generation (record session { last_volume_linear = some level }) b,
  )
  route_in device_id level group b (following generation follower) =
      (route_for group (group_media_key (lookup follower.group b.groups)), b)

  unfoldable pub volume_route : DeviceRegistry → Text → ℕ → Bridge → VolumeRoute × Bridge
  unfolding get
  volume_route registry device_id level b =
      route_in device_id level (speaker_group (get device_id registry)) b (state_at device_id b)

abbrev pub volume_or_default : Option GroupVolume → GroupVolume
volume_or_default none = no_volume
volume_or_default (some entry) = entry

-- The result tells whether an apply task is started.
unfoldable pub queue_group_volume :
    Text → ℕ → List (Text × GroupVolume) → Bool × List (Text × GroupVolume)
queue_group_volume group_id level volumes =
    let entry = volume_or_default (lookup group_id volumes) in
    (
      not entry.running,
      insert group_id (record entry { target = some level; running = true }) volumes,
    )

abbrev pub fresh_members : ℕ → Option (ℕ × List GroupMember) → Option (List GroupMember)
fresh_members now none = none
fresh_members now (some (read_at, members)) =
    if ltb (now - read_at) member_cache_ttl then some members else none

abbrev pub next_of : ℕ → GroupVolume → Option (ℕ × Option (List GroupMember))
next_of now entry = do target ← entry.target; some (target, fresh_members now entry.members)

abbrev pub taken : GroupVolume → GroupVolume
taken entry = elim entry.target [
  | none ↦ record entry { running = false }
  | some target ↦ record entry { target = none }
]

-- The locked part of a turn of `apply_group_volume`: the next target, with the members that are
-- still fresh; `none` ends the task.
unfoldable pub next_target :
    ℕ
    → Text
    → List (Text × GroupVolume)
    → Option (ℕ × Option (List GroupMember)) × List (Text × GroupVolume)
next_target now group_id volumes =
    (do entry ← lookup group_id volumes; next_of now entry, modify group_id taken volumes)

unfoldable pub remember_members :
    ℕ → Text → List GroupMember → List (Text × GroupVolume) → List (Text × GroupVolume)
remember_members now group_id members volumes =
    modify group_id (λ entry. record entry { members = some (now, members) }) volumes

abbrev pub push_member : ℕ → Option Device → List GroupMember → List GroupMember
push_member level none members = members
push_member level (some speaker) members =
    record { device_id = speaker.id; level = level } ∷ members

-- The members of the status that the registry knows; the status is what `multizone_members` gives.
unfoldable pub known_members : List Device → List (Text × ℕ) → List GroupMember
known_members speakers [] = []
known_members speakers ((id, level) ∷ status) =
    push_member level
      (find_device (λ speaker. same_text (normalize_device_id speaker.id) id) speakers)
      (known_members speakers status)

unfoldable pub read_group_members :
    DeviceRegistry → Option (List (Text × ℕ)) → Option (List GroupMember)
unfolding known_members list
read_group_members registry answer = do status ← answer; some (known_members (list registry) status)
