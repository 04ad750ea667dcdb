-- ===== src/Config.antt =====
-- crates/play-on-air/src/config.rs: cosmetic overrides of devices, and where files are looked for.
--
-- A path is its text, and `join` the library's join of a path. Reading the file and its TOML are
-- outside.
use play_on_air.Prelude.{
  Bool, false, ◌||◌, List, [], ◌∷◌, map, if◌then◌else◌, Option, none, some, is_some,
}
use play_on_air.Prelude.Text.{Text, codes, contains, ascii_lower, is_empty, trim}

abbrev pub default_config_path : Text
default_config_path = codes "play-on-air.toml"

abbrev state_subdir : Text
state_subdir = codes "play-on-air"

pub record DeviceConfig : Type 0 where
  pub id : Text
  pub name : Option Text
  pub hide : Bool

pub record Config : Type 0 where
  pub devices : List DeviceConfig

pub record DeviceOverride : Type 0 where
  pub display_name : Text
  pub renamed : Bool
  pub hidden : Bool

unfoldable pub matches_device : Text → Text → Text → Bool
matches_device pattern cast_name cast_id =
    let pat = map ascii_lower pattern in
    contains (map ascii_lower cast_name) pat || contains (map ascii_lower cast_id) pat

-- `filter(|n| !n.is_empty())`.
abbrev pub non_empty : Option Text → Option Text
non_empty none = none
non_empty (some n) = if is_empty n then none else some n

abbrev pub unwrap_or : Text → Option Text → Text
unwrap_or t none = t
unwrap_or t (some n) = n

abbrev overridden : DeviceConfig → Text → DeviceOverride
overridden entry cast_name = record {
  display_name = unwrap_or cast_name (non_empty entry.name);
  renamed = is_some (non_empty entry.name);
  hidden = entry.hide;
}

device_override_in : List DeviceConfig → Text → Text → DeviceOverride
unfolding matches_device
device_override_in [] cast_name cast_id = record {
  display_name = cast_name;
  renamed = false;
  hidden = false;
}
device_override_in (entry ∷ entries) cast_name cast_id =
    if is_empty entry.id
    then device_override_in entries cast_name cast_id
    else (if matches_device entry.id cast_name cast_id
        then overridden entry cast_name
        else device_override_in entries cast_name cast_id)

unfoldable pub device_override : Config → Text → Text → DeviceOverride
unfolding device_override_in
device_override config cast_name cast_id = device_override_in config.devices cast_name cast_id

abbrev trimmed : Option Text → Option Text
trimmed none = none
trimmed (some t) = non_empty (some (trim t))

unfoldable pub resolve_config_path : Option Text → Option Text → Text
resolve_config_path (some cli_path) env = cli_path
resolve_config_path none env = unwrap_or default_config_path (trimmed env)

module _ (join : Text → Text → Text) where
  platform_dir : Option Text → Option Text → Option Text
  platform_dir (some path) platform = some path
  platform_dir none none = none
  platform_dir none (some dir) = some (join dir state_subdir)

  unfoldable pub state_dir_from : Option Text → Option Text → Option Text → Option Text
  unfolding platform_dir
  state_dir_from (some cli_path) env_value platform = some cli_path
  state_dir_from none env_value platform = platform_dir (trimmed env_value) platform
