-- ===== src/Registry.antt =====
-- The device registry of crates/play-on-air/src/registry.rs.
--
-- The locks make each method one step on the map and the queue of cancellations. Instants and
-- durations are nanoseconds; where the source reads the clock, `now` is an argument. The map's order
-- stands for the iteration order of `HashMap`. The predicate of `expire_stale_where` is pure.
pub mod Presence
pub mod Leaves
mod Tests
use play_on_air.Prelude.{
  ℕ, ◌+◌, ◌-◌, ◌*◌, Bool, true, false, not, ◌&&◌, List, [], ◌∷◌, ◌++◌, map, length, leb, ltb,
  if◌then◌else◌, Option, none, some, is_some,
}
use play_on_air.Prelude.Text.{Text, codes, same_text, is_empty}
use play_on_air.Prelude.Maps.{lookup, remove, insert, modify}
use play_on_air.Prelude.Maps.Sweep.{due_keys, remove_all}

abbrev pub of_secs : ℕ → ℕ
of_secs s = s * 1_000_000_000

abbrev pub default_pending_leave : ℕ
default_pending_leave = of_secs 20

abbrev pub session_guard_gone : ℕ
session_guard_gone = of_secs 60

abbrev pub default_stale_ttl : ℕ
default_stale_ttl = of_secs 600

unfoldable pub should_leave_linux_stale : Bool → Bool → Bool
should_leave_linux_stale ttl_expired cast_reachable = ttl_expired && not cast_reachable

unfoldable pub linux_service_removed_triggers_leave : Bool
linux_service_removed_triggers_leave = false

abbrev pub cast_group_model : Text
cast_group_model = codes "Google Cast Group"

pub record Device : Type 0 where
  pub id : Text
  pub name : Text
  pub model : Text
  pub host : Text
  pub hostname : Text
  pub port : ℕ
  pub last_seen : ℕ
  pub instance_name : Text
  pub pending_leave_deadline : Option ℕ
  pub pending_leave_since : Option ℕ

unfoldable pub new_device : ℕ → Text → Text → Text → Text → ℕ → Text → Device
new_device now id name host hostname port instance_name = record {
  id = id;
  name = name;
  model = [];
  host = host;
  hostname = hostname;
  port = port;
  last_seen = now;
  instance_name = instance_name;
  pending_leave_deadline = none;
  pending_leave_since = none;
}

unfoldable pub with_model : Text → Device → Device
with_model model d = record d { model = model }

-- `now.checked_duration_since(deadline).is_some()`.
abbrev pub pending_leave_is_due : ℕ → ℕ → Bool
pending_leave_is_due deadline now = leb deadline now

pub data WithdrawDecision : Type 0 where
  keep defer withdraw : WithdrawDecision

unfoldable pub decide_airplay_withdraw : Bool → Bool → ℕ → ℕ → WithdrawDecision
decide_airplay_withdraw is_desired has_session gone_for min_gone =
    if is_desired
    then keep
    else (if has_session then defer else (if leb min_gone gone_for then withdraw else defer))

pub data PendingLeaveMark : Type 0 where
  not_found newly_marked already_pending : PendingLeaveMark

-- `iter().find(...)`.
abbrev pub find_device : (Device → Bool) → List Device → Option Device
find_device p [] = none
find_device p (d ∷ ds) = if p d then some d else find_device p ds

abbrev pub or_else : Option Device → Option Device → Option Device
or_else none o = o
or_else (some d) o = some d

unfoldable pub match_device_for_leave : List Device → Text → Option Device
match_device_for_leave devices name =
    or_else (find_device (λ d. same_text d.id name) devices)
      (find_device (λ d. same_text d.instance_name name) devices)

pub record DeviceRegistry : Type 0 where
  pub inner : List (Text × Device)
  pub pending_leave_cancellations : List Text

unfoldable pub new : DeviceRegistry
new = record { inner = []; pending_leave_cancellations = [] }

abbrev pub is_pending : Device → Bool
is_pending d = is_some d.pending_leave_deadline

-- `is_some_and(|d| d.pending_leave_deadline.is_some())`.
abbrev pub found_pending : Option Device → Bool
found_pending none = false
found_pending (some d) = is_pending d

abbrev pub seen_now : ℕ → Device → Device
seen_now now d = record d {
  pending_leave_deadline = none;
  pending_leave_since = none;
  last_seen = now;
}

-- The result tells whether the id is new.
unfoldable pub appear : ℕ → Device → DeviceRegistry → Bool × DeviceRegistry
appear now device r =
    let found = lookup device.id r.inner in
    (
      not (is_some found),
      record r {
        inner = insert device.id (seen_now now device) r.inner;
        pending_leave_cancellations =
            if found_pending found
            then r.pending_leave_cancellations ++ (device.id ∷ [])
            else r.pending_leave_cancellations;
      },
    )

unfoldable pub drain_pending_leave_cancellations : DeviceRegistry → List Text × DeviceRegistry
drain_pending_leave_cancellations r =
    (r.pending_leave_cancellations, record r { pending_leave_cancellations = [] })

unfoldable pub leave : Text → DeviceRegistry → Option Device × DeviceRegistry
leave id r = (lookup id r.inner, record r { inner = remove id r.inner })

abbrev pub marked : ℕ → ℕ → Device → Device
marked now grace d =
    if is_pending d
    then d
    else record d { pending_leave_since = some now; pending_leave_deadline = some (now + grace) }

abbrev pub mark_of : Option Device → PendingLeaveMark
mark_of none = not_found
mark_of (some d) = if is_pending d then already_pending else newly_marked

unfoldable pub mark_pending_leave :
    Text → ℕ → ℕ → DeviceRegistry → PendingLeaveMark × DeviceRegistry
mark_pending_leave id now grace r =
    (mark_of (lookup id r.inner), record r { inner = modify id (marked now grace) r.inner })

abbrev pub values : List (Text × Device) → List Device
values m = map (λ e. e.1) m

abbrev pub mark_matched :
    Option Device → ℕ → ℕ → DeviceRegistry → Option (Text × PendingLeaveMark) × DeviceRegistry
unfolding mark_pending_leave
mark_matched none now grace r = (none, r)
mark_matched (some d) now grace r =
    let (mark, r') = mark_pending_leave d.id now grace r in (some (d.id, mark), r')

unfoldable pub mark_pending_leave_by_instance :
    Text → ℕ → ℕ → DeviceRegistry → Option (Text × PendingLeaveMark) × DeviceRegistry
mark_pending_leave_by_instance name now grace r =
    mark_matched (match_device_for_leave (values r.inner) name) now grace r

abbrev pub cancelled : Device → Device
cancelled d = record d { pending_leave_deadline = none; pending_leave_since = none }

unfoldable pub cancel_pending_leave : Text → DeviceRegistry → Bool × DeviceRegistry
cancel_pending_leave id r =
    (found_pending (lookup id r.inner), record r { inner = modify id cancelled r.inner })

unfoldable pub is_pending_leave : Text → DeviceRegistry → Bool
is_pending_leave id r = found_pending (lookup id r.inner)

-- The devices that the predicate holds of, removed in two passes.
abbrev pub sweep : (Device → Bool) → DeviceRegistry → List Device × DeviceRegistry
sweep p r =
    let (removed, inner) = remove_all (due_keys p r.inner) r.inner in
    (removed, record r { inner = inner })

abbrev pub leave_is_due : ℕ → Device → Bool
leave_is_due now d = elim d.pending_leave_deadline [
  | none ↦ false
  | some deadline ↦ pending_leave_is_due deadline now
]

unfoldable pub take_due_leaves : ℕ → DeviceRegistry → List Device × DeviceRegistry
take_due_leaves now r = sweep (leave_is_due now) r

unfoldable pub list : DeviceRegistry → List Device
list r = values r.inner

abbrev pub only_present : List Device → List Device
only_present [] = []
only_present (d ∷ ds) = if is_pending d then only_present ds else d ∷ only_present ds

unfoldable pub list_present : DeviceRegistry → List Device
list_present r = only_present (values r.inner)

unfoldable pub get : Text → DeviceRegistry → Option Device
get id r = lookup id r.inner

unfoldable pub len : DeviceRegistry → ℕ
len r = length r.inner

unfoldable pub is_empty_registry : DeviceRegistry → Bool
is_empty_registry r = is_empty r.inner

abbrev pub is_stale : ℕ → ℕ → Device → Bool
is_stale now max_age d = not (is_pending d) && ltb max_age (now - d.last_seen)

unfoldable pub prune_older_than : ℕ → ℕ → DeviceRegistry → List Device × DeviceRegistry
prune_older_than now max_age r = sweep (is_stale now max_age) r

unfoldable pub expire_stale : ℕ → ℕ → DeviceRegistry → List Device × DeviceRegistry
unfolding prune_older_than
expire_stale now ttl r = prune_older_than now ttl r

unfoldable pub expire_stale_where :
    (Device → Bool) → ℕ → ℕ → DeviceRegistry → List Device × DeviceRegistry
expire_stale_where should_expire now ttl r = sweep (λ d. is_stale now ttl d && should_expire d) r
