-- ===== src/Discover/Browse.antt =====
-- The lines of `dns-sd -B` (crates/play-on-air/src/discover.rs).
use play_on_air.Prelude.{Bool, ◌||◌, if◌then◌else◌, Option, none, some}
use play_on_air.Prelude.Text.{Text, codes, is_empty, starts_with, trim}
use play_on_air.Discover.Parse.{after_first}

pub data BrowseKind : Type 0 where
  add remove : BrowseKind

pub record BrowseEvent : Type 0 where
  pub kind : BrowseKind
  pub service_instance : Text

unfoldable pub find_token_after : Text → Text → Option Text
unfolding after_first
find_token_after line token = after_first token line

abbrev pub of_kind : BrowseKind → Option Text → Option (BrowseKind × Text)
of_kind kind none = none
of_kind kind (some rest) = some (kind, rest)

abbrev pub or_kind :
    Option (BrowseKind × Text) → Option (BrowseKind × Text) → Option (BrowseKind × Text)
or_kind none o = o
or_kind (some found) o = some found

abbrev pub event_of : BrowseKind → Option Text → Option BrowseEvent
event_of kind none = none
event_of kind (some after) =
    let name = trim after in
    if is_empty name then none else some (record { kind = kind; service_instance = name })

unfoldable pub event_after : Option (BrowseKind × Text) → Option BrowseEvent
unfolding after_first
event_after none = none
event_after (some (kind, rest)) = event_of kind (after_first (codes "_googlecast._tcp.") rest)

unfoldable pub is_heading : Text → Bool
unfolding starts_with
is_heading line =
    is_empty line
    || starts_with line (codes "Browsing")
    || starts_with line (codes "DATE:")
    || starts_with line (codes "Timestamp")

unfoldable pub parse_browse_line : Text → Option BrowseEvent
unfolding find_token_after event_after is_heading
parse_browse_line line =
    let trimmed = trim line in
    if is_heading trimmed
    then none
    else event_after (
        or_kind (of_kind add (find_token_after trimmed (codes " Add "))) (
          or_kind (of_kind remove (find_token_after trimmed (codes " Rmv ")))
            (of_kind remove (find_token_after trimmed (codes " Remove ")))))
