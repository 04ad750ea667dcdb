-- ===== src/Discover/Tests.antt =====
-- Runs of the parsing (crates/play-on-air/src/discover.rs), and the concrete input of its theorem.
use play_on_air.Prelude.{◌≡◌, refl, true, List, [], ◌∷◌, none, some}
use play_on_air.Prelude.Text.{
  Text, codes, same_text, is_whitespace, starts_with, trim_start, trim, contains,
}
use play_on_air.Prelude.Maps.{lookup, Unique}
use play_on_air.Discover.Parse.{parse_word}
use play_on_air.Discover.Txt.{split_txt_parts, parse_txt_blob}
use play_on_air.Discover.Txt.RoundTrip.{printed, plain_keys, parse-printed}
use play_on_air.Discover.Browse.{add, parse_browse_line}
use play_on_air.Discover.Reachable.{ipv4_slash24_key, parse_lookup_output_with_preferred}
use play_on_air.Discover.Service.{is_dynamic_cast_group}

split_run :
    split_txt_parts (codes " id=ab  fn=Den\\ speaker ")
    ≡ codes "id=ab" ∷ codes "fn=Den\\ speaker" ∷ []
unfolding split_txt_parts is_whitespace
split_run = refl

abbrev record_entries : List (Text × Text)
record_entries =
    (codes "id", codes "56cb") ∷ (codes "fn", codes "Den \\ speaker") ∷ (codes "md", []) ∷ []

record_plain : plain_keys record_entries ≡ true
unfolding is_whitespace
record_plain = refl

record_Unique : Unique record_entries
unfolding same_text
record_Unique = (refl, (refl, (refl, tt)))

parse-printed_example :
    lookup (codes "fn") (parse_txt_blob (printed record_entries))
    ≡ lookup (codes "fn") record_entries
parse-printed_example = parse-printed record_entries (codes "fn") record_plain record_Unique

slash24_run : ipv4_slash24_key (codes "192.168.1.50") ≡ some (192, 168, 1)
unfolding ipv4_slash24_key parse_word
slash24_run = refl

no_slash24_run : ipv4_slash24_key (codes "192.168.1.500") ≡ none
unfolding ipv4_slash24_key parse_word
no_slash24_run = refl

browse_run :
    parse_browse_line (codes "21:42  Add        3  15 local.    _googlecast._tcp.    Nest-Audio-56")
    ≡ some (record { kind = add; service_instance = codes "Nest-Audio-56" })
unfolding parse_browse_line starts_with trim is_whitespace trim_start
browse_run = refl

lookup_run :
    parse_lookup_output_with_preferred
      (λ s. none)
      (codes "Nest can be reached at n.local.:8010 (interface 15)" ∷ codes " id=ab fn=Den" ∷ [])
      []
    ≡ some (record {
      hostname = codes "n.local";
      port = 8010;
      txt = codes "id=ab fn=Den";
      address = none;
    })
unfolding parse_lookup_output_with_preferred trim is_whitespace trim_start contains
lookup_run = refl

dynamic_run : is_dynamic_cast_group 198756 ≡ true
dynamic_run = refl
