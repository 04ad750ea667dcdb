-- ===== src/Names.antt =====
-- crates/play-on-air/src/names.rs: the AirPlay names of the Cast devices.
--
-- `to_lowercase` is the Unicode mapping of the standard library. A group keeps its members where the
-- source keeps their indices; the order of `HashMap`s is that of their lists.
pub mod Suffixes
pub mod Fixed
mod Tests
use play_on_air.Prelude.{
  ℕ, zero, suc, ◌-◌, min, Bool, true, false, not, ◌&&◌, ◌||◌, List, [], ◌∷◌, ◌++◌, map, length,
  take, ltb, leb, ◌==◌, if◌then◌else◌, Option, none, some, is_some,
}
use play_on_air.Prelude.Text.{Text, codes, same_text, is_empty, trim, starts_with, ascii_lower}
use play_on_air.Prelude.Maps.{lookup, insert, modify}
use play_on_air.Registry.{Device}
use play_on_air.Config.{Config, device_override, unwrap_or}

abbrev pub min_id_suffix_len : ℕ
min_id_suffix_len = 4

pub record Candidate : Type 0 where
  pub id : Text
  pub model : Text
  pub name : Text
  pub fixed : Bool

-- `char::is_ascii_alphanumeric`.
abbrev is_alphanumeric : ℕ → Bool
is_alphanumeric c = leb b'0' c && leb c b'9' || leb b'A' c && leb c b'Z' || leb b'a' c && leb c b'z'

unfoldable pub id_chars : Text → Text
id_chars [] = []
id_chars (c ∷ cs) = if is_alphanumeric c then ascii_lower c ∷ id_chars cs else id_chars cs

-- `iter().any(|other| other.starts_with(&prefix))`.
abbrev pub clashes : List Text → Text → Bool
clashes [] prefix = false
clashes (other ∷ others) prefix = starts_with other prefix || clashes others prefix

-- The loop of `id_suffix`; `left` is what `len` lacks to the whole id.
unfoldable pub suffix_loop : ℕ → ℕ → Text → List Text → Text
suffix_loop zero len mine others = take len mine
suffix_loop (suc left) len mine others =
    let longer = suffix_loop left (suc len) mine others in
    if clashes others (take len mine) then longer else take len mine

-- The other ids of a group, reduced to their characters.
unfoldable pub other_chars : Text → List Text → List Text
unfolding id_chars
other_chars id [] = []
other_chars id (other ∷ others) =
    if same_text other id then other_chars id others else id_chars other ∷ other_chars id others

unfoldable pub id_suffix : Text → List Text → Text
unfolding suffix_loop other_chars
id_suffix id group =
    let mine = id_chars id in
    let len = min min_id_suffix_len (length mine) in
    suffix_loop (length mine - len) len mine (other_chars id group)

-- `sort_unstable_by_key(|cand| cand.id)`.
abbrev text_le : Text → Text → Bool
text_le [] t = true
text_le (c ∷ cs) [] = false
text_le (c ∷ cs) (d ∷ ds) = ltb c d || c == d && text_le cs ds

abbrev insert_by_id : Candidate → List Candidate → List Candidate
insert_by_id c [] = c ∷ []
insert_by_id c (d ∷ ds) = if text_le c.id d.id then c ∷ d ∷ ds else d ∷ insert_by_id c ds

abbrev pub sort_by_id : List Candidate → List Candidate
sort_by_id [] = []
sort_by_id (c ∷ cs) = insert_by_id c (sort_by_id cs)

-- `format!("{} ({})", name, suffix)`.
abbrev pub with_suffix : Text → Text → Text
with_suffix name suffix = name ++ (codes " (" ++ (suffix ++ codes ")"))

module _ (to_lowercase : Text → Text) where
  unfoldable pub name_key : Text → Text
  name_key name = to_lowercase (trim name)

  abbrev pub count_models : Text → List Candidate → ℕ
  unfolding name_key
  count_models key [] = 0
  count_models key (c ∷ cs) =
      if same_text (name_key c.model) key then suc (count_models key cs) else count_models key cs

  unfoldable pub model_unique : Candidate → List Candidate → Bool
  model_unique cand auto =
      not (is_empty cand.model)
      && not (same_text (name_key cand.model) (name_key cand.name))
      && count_models (name_key cand.model) auto == 1

  unfoldable pub suffixed : List Candidate → Candidate → Text × Text
  unfolding model_unique id_suffix
  suffixed auto cand = (
    cand.id,
    with_suffix cand.name
        (if model_unique cand auto then cand.model else id_suffix cand.id (map (λ c. c.id) auto)),
  )

  unfoldable pub disambiguate : List Candidate → List (Text × Text)
  unfolding suffixed
  disambiguate auto = map (suffixed auto) auto

  abbrev pub candidate : Config → List (Text × Text) → Device → Candidate
  candidate config home_names device =
      let over = device_override config device.name device.id in
      let home = lookup device.id home_names in
      record {
        id = device.id;
        model = trim device.model;
        name = unwrap_or over.display_name home;
        fixed = over.renamed || is_some home;
      }

  unfoldable pub visible_of : Config → List (Text × Text) → List Device → List Candidate
  visible_of config home_names [] = []
  visible_of config home_names (d ∷ ds) =
      if (device_override config d.name d.id).hidden
      then visible_of config home_names ds
      else candidate config home_names d ∷ visible_of config home_names ds

  -- `groups.entry(key).or_default().push(cand)`.
  abbrev pub push_group :
      Text
      → Candidate
      → Option (List Candidate)
      → List (Text × List Candidate)
      → List (Text × List Candidate)
  push_group key c none groups = insert key (c ∷ []) groups
  push_group key c (some members) groups = modify key (λ ms. ms ++ (c ∷ [])) groups

  unfoldable pub groups_of :
      List Candidate → List (Text × List Candidate) → List (Text × List Candidate)
  groups_of [] groups = groups
  groups_of (c ∷ cs) groups =
      let key = name_key c.name in groups_of cs (push_group key c (lookup key groups) groups)

  abbrev pub auto_of : List Candidate → List Candidate
  auto_of [] = []
  auto_of (c ∷ cs) = if c.fixed then auto_of cs else c ∷ auto_of cs

  abbrev pub insert_all : List (Text × Text) → List (Text × Text) → List (Text × Text)
  insert_all [] names = names
  insert_all ((id, name) ∷ rest) names = insert_all rest (insert id name names)

  unfoldable pub group_names : List Candidate → List (Text × Text)
  unfolding disambiguate
  group_names members =
      let auto = auto_of members in
      if ltb (length members) 2 then map (λ c. (c.id, c.name)) auto else disambiguate auto

  unfoldable pub all_group_names :
      List (Text × List Candidate) → List (Text × Text) → List (Text × Text)
  unfolding group_names
  all_group_names [] names = names
  all_group_names ((key, members) ∷ groups) names =
      all_group_names groups (insert_all (group_names members) names)

  unfoldable pub fixed_names : List Candidate → List (Text × Text) → List (Text × Text)
  fixed_names [] names = names
  fixed_names (c ∷ cs) names = fixed_names cs (if c.fixed then insert c.id c.name names else names)

  -- How many of the names have this key.
  abbrev pub count_names : Text → List (Text × Text) → ℕ
  count_names key [] = 0
  count_names key ((id, name) ∷ names) =
      if same_text (name_key name) key then suc (count_names key names) else count_names key names

  -- One candidate against the names as they were counted.
  unfoldable pub resolve_one :
      List (Text × Text)
      → List Text
      → Candidate
      → Option Text
      → List (Text × Text)
      → List (Text × Text)
  unfolding id_suffix
  resolve_one counted all_ids cand none names = names
  resolve_one counted all_ids cand (some current) names =
      let generated = not cand.fixed && not (same_text current cand.name) in
      if not generated || ltb (count_names (name_key current) counted) 2
      then names
      else insert cand.id (with_suffix cand.name (id_suffix cand.id all_ids)) names

  unfoldable pub resolve_clashes :
      List (Text × Text) → List Text → List Candidate → List (Text × Text) → List (Text × Text)
  unfolding resolve_one
  resolve_clashes counted all_ids [] names = names
  resolve_clashes counted all_ids (c ∷ cs) names =
      resolve_clashes counted all_ids cs (resolve_one counted all_ids c (lookup c.id names) names)

  unfoldable pub resolve_suffix_clashes : List Candidate → List (Text × Text) → List (Text × Text)
  unfolding resolve_clashes
  resolve_suffix_clashes visible names =
      resolve_clashes names (map (λ c. c.id) visible) visible names

  unfoldable pub airplay_names : List Device → Config → List (Text × Text) → List (Text × Text)
  unfolding visible_of groups_of all_group_names fixed_names resolve_suffix_clashes
  airplay_names devices config home_names =
      let visible = sort_by_id (visible_of config home_names devices) in
      let grouped = all_group_names (groups_of visible []) [] in
      resolve_suffix_clashes visible (fixed_names visible grouped)
