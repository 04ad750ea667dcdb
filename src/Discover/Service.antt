-- ===== src/Discover/Service.antt =====
-- The device that a resolved service becomes, and what it does to the registry
-- (crates/play-on-air/src/discover.rs).
--
-- `resolve_host` stands for `net::resolve_host_ip`, which asks the name service of the system. The set
-- of ignored groups only keeps the log quiet, and is left.
use play_on_air.Prelude.{
  ℕ, ◌/◌, ◌%◌, Bool, List, ◌==◌, map, if◌then◌else◌, Option, none, some, ◌>>=◌,
}
use play_on_air.Prelude.Text.{Text, codes, is_empty, trim}
use play_on_air.Prelude.Words.{u64_max}
use play_on_air.Prelude.Maps.{lookup}
use play_on_air.Config.{non_empty, unwrap_or}
use play_on_air.Registry.{
  Device, DeviceRegistry, new_device, with_model, appear, leave, default_pending_leave,
  mark_pending_leave_by_instance,
}
use play_on_air.Discover.Parse.{trim_end_matches, parse_word}
use play_on_air.Discover.Txt.{parse_txt_blob}
use play_on_air.Discover.Browse.{BrowseKind, add, remove}
use play_on_air.Discover.Reachable.{ResolveInfo}

abbrev pub cast_capability_dynamic_group : ℕ
cast_capability_dynamic_group = 64

-- `capabilities & CAST_CAPABILITY_DYNAMIC_GROUP != 0`, for the one bit that the constant has.
abbrev pub is_dynamic_cast_group : ℕ → Bool
is_dynamic_cast_group capabilities = capabilities / cast_capability_dynamic_group % 2 == 1

unfoldable pub parse_cast_capabilities : Option Text → Option ℕ
unfolding parse_word trim
parse_cast_capabilities ca = do s ← ca; parse_word u64_max (trim s)

pub data CastService : Type 0 where
  device_service : Device → CastService
  dynamic_group : Device → ℕ → CastService

abbrev pub classified : Device → Option ℕ → CastService
classified device none = device_service device
classified device (some capabilities) =
    if is_dynamic_cast_group capabilities
    then dynamic_group device capabilities
    else device_service device

unfoldable pub classify_cast_service : Device → Option Text → CastService
unfolding parse_cast_capabilities
classify_cast_service device ca = classified device (parse_cast_capabilities ca)

-- `replace('-', " ")`.
abbrev pub without_dashes : Text → Text
without_dashes name = map (λ c. if c == b'-' then b' ' else c) name

abbrev pub or_localhost : Text → Text
or_localhost host = if is_empty host then codes "127.0.0.1" else host

unfoldable pub trimmed_address : Option Text → Option Text
unfolding trim
trimmed_address address = do a ← address; some (trim a)

abbrev pub or_host : Text → Option Text → Text
or_host host none = host
or_host host (some a) = a

abbrev pub port_of : ℕ → ℕ
port_of port = if port == 0 then 8009 else port

module _ (resolve_host : Text → Option Text) where
  unfoldable pub resolve_cast_host : Text → Text
  unfolding trim_end_matches
  resolve_cast_host hostname =
      or_host (or_localhost (trim_end_matches b'.' hostname)) (resolve_host hostname)

  unfoldable pub device_of : ℕ → Text → ResolveInfo → List (Text × Text) → Device
  unfolding trim_end_matches resolve_cast_host new_device with_model trimmed_address
  device_of now name info txt =
      let id = unwrap_or name (non_empty (lookup (codes "id") txt)) in
      let friendly = unwrap_or (without_dashes name) (non_empty (lookup (codes "fn") txt)) in
      let hostname = trim_end_matches b'.' info.hostname in
      let host =
        unwrap_or (resolve_cast_host hostname) (non_empty (trimmed_address info.address)) in
      with_model (unwrap_or (codes "") (lookup (codes "md") txt))
        (new_device now id friendly host hostname (port_of info.port) name)

  unfoldable pub cast_service_from_resolve : ℕ → Text → ResolveInfo → CastService
  unfolding parse_txt_blob classify_cast_service device_of
  cast_service_from_resolve now name info =
      let txt = parse_txt_blob info.txt in
      classify_cast_service (device_of now name info txt) (lookup (codes "ca") txt)

-- `registry.leave`; the rest logs.
unfoldable pub ignore_dynamic_group : Device → DeviceRegistry → DeviceRegistry
unfolding leave
ignore_dynamic_group device r = (leave device.id r).1

unfoldable pub leave_by_instance : ℕ → Text → DeviceRegistry → DeviceRegistry
unfolding mark_pending_leave_by_instance
leave_by_instance now name r = (mark_pending_leave_by_instance name now default_pending_leave r).1

-- The arms for a service that was resolved.
unfoldable pub service_seen : ℕ → CastService → DeviceRegistry → DeviceRegistry
unfolding ignore_dynamic_group appear
service_seen now (dynamic_group device capabilities) r = ignore_dynamic_group device r
service_seen now (device_service device) r = (appear now device r).1

-- An event of the browser; `resolved` is what its lookup gives, `none` where it failed.
unfoldable pub browse_event :
    ℕ → BrowseKind → Text → Option CastService → DeviceRegistry → DeviceRegistry
unfolding service_seen leave_by_instance
browse_event now add name none r = r
browse_event now add name (some service) r = service_seen now service r
browse_event now remove name resolved r = leave_by_instance now name r
