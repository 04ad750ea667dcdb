-- ===== src/Discover/Txt.antt =====
-- The TXT record of a service (crates/play-on-air/src/discover.rs).
pub mod RoundTrip
use play_on_air.Prelude.{
  ℕ, Bool, true, false, not, ◌&&◌, List, [], ◌∷◌, ◌++◌, ◌==◌, if◌then◌else◌, Option, none, some,
}
use play_on_air.Prelude.Text.{Text, is_empty, is_whitespace}
use play_on_air.Prelude.Maps.{insert}

-- `if !cur.is_empty() { parts.push(cur) }`, before the parts that follow.
abbrev pub pushed : Text → List Text → List Text
pushed cur rest = if is_empty cur then rest else cur ∷ rest

-- The loop of `split_txt_parts`; `taken` says that the next character is the one that
-- `chars.next()` takes after a `\`.
unfoldable pub split_loop : Bool → Text → Text → List Text
split_loop taken cur [] = pushed cur []
split_loop taken cur (c ∷ cs) =
    let ends = not taken && (not (c == b'\\') && is_whitespace c) in
    let rest = split_loop (not taken && c == b'\\') (if ends then [] else cur ++ (c ∷ [])) cs in
    if ends then pushed cur rest else rest

unfoldable pub split_txt_parts : Text → List Text
unfolding split_loop
split_txt_parts s = split_loop false [] s

unfoldable pub unescape_loop : Bool → Text → Text
unescape_loop taken [] = []
unescape_loop taken (c ∷ cs) =
    let opens = not taken && c == b'\\' in
    let rest = unescape_loop opens cs in if opens then rest else c ∷ rest

unfoldable pub unescape_dns_sd : Text → Text
unfolding unescape_loop
unescape_dns_sd s = unescape_loop false s

abbrev pub longer_key : ℕ → Option (Text × Text) → Option (Text × Text)
longer_key c none = none
longer_key c (some (k, v)) = some (c ∷ k, v)

-- `str::split_once` at a character.
unfoldable pub split_once : ℕ → Text → Option (Text × Text)
split_once sep [] = none
split_once sep (c ∷ cs) =
    let rest = split_once sep cs in if c == sep then some ([], cs) else longer_key c rest

unfoldable pub insert_part : Option (Text × Text) → List (Text × Text) → List (Text × Text)
unfolding unescape_dns_sd
insert_part none m = m
insert_part (some (k, v)) m = insert k (unescape_dns_sd v) m

unfoldable pub insert_parts : List Text → List (Text × Text) → List (Text × Text)
unfolding split_once insert_part
insert_parts [] m = m
insert_parts (part ∷ parts) m = insert_parts parts (insert_part (split_once b'=' part) m)

unfoldable pub parse_txt_blob : Text → List (Text × Text)
unfolding split_txt_parts insert_parts
parse_txt_blob txt = insert_parts (split_txt_parts txt) []
