-- ===== src/Discover/Reachable.antt =====
-- The output of `dns-sd -L` (crates/play-on-air/src/discover.rs).
--
-- `ip_literal` stands for `net::parse_ip_host` and `net::format_ip_host`, which rest on the
-- addresses of the standard library.
use play_on_air.Prelude.{
  ℕ, suc, Bool, true, false, not, ◌&&◌, ◌||◌, List, [], ◌∷◌, ◌++◌, ltb, length, ◌==◌, if◌then◌else◌,
  Option, none, some, ◌>>=◌,
}
use play_on_air.Prelude.Text.{Text, codes, is_empty, same_text, contains, trim}
use play_on_air.Prelude.Words.{u16_max, u32_max}
use play_on_air.Config.{unwrap_or}
use play_on_air.Discover.Parse.{
  after_first, split, rsplit_once, trim_end_matches, first_word, is_ascii_digit, leading_digits,
  parse_word,
}

pub record ResolveInfo : Type 0 where
  pub hostname : Text
  pub port : ℕ
  pub txt : Text
  pub address : Option Text

pub record LookupReachable : Type 0 where
  pub hostname : Text
  pub port : ℕ
  pub address : Option Text
  pub on_interface : Option ℕ

abbrev pub all_digits : Text → Bool
all_digits [] = true
all_digits (c ∷ cs) = is_ascii_digit c && all_digits cs

abbrev pub octet_value : Option ℕ → Bool
octet_value none = false
octet_value (some v) = not (ltb 255 v)

-- The guards of the loop of `is_ipv4_literal`. A part that is not ASCII fails the digits.
unfoldable pub is_octet : Text → Bool
unfolding parse_word
is_octet part =
    not (is_empty part || ltb 3 (length part))
    && (all_digits part && octet_value (parse_word u16_max part))

unfoldable pub literal_loop : ℕ → List Text → Bool
unfolding is_octet
literal_loop n [] = n == 4
literal_loop n (part ∷ parts) =
    let rest = literal_loop (suc n) parts in
    if is_octet part then (if ltb 4 (suc n) then false else rest) else false

unfoldable pub is_ipv4_literal : Text → Bool
unfolding split literal_loop
is_ipv4_literal s = literal_loop 0 (split b'.' s)

unfoldable pub key_of : List Text → Option (ℕ × ℕ × ℕ)
unfolding parse_word
key_of [] = none
key_of (a ∷ []) = none
key_of (a ∷ b ∷ []) = none
key_of (a ∷ b ∷ c ∷ parts) = do
  x ← parse_word 255 a
  y ← parse_word 255 b
  z ← parse_word 255 c
  some (x, y, z)

unfoldable pub ipv4_slash24_key : Text → Option (ℕ × ℕ × ℕ)
unfolding is_ipv4_literal split key_of
ipv4_slash24_key s = if is_ipv4_literal s then key_of (split b'.' s) else none

abbrev pub same_key : Option (ℕ × ℕ × ℕ) → ℕ × ℕ × ℕ → Bool
same_key none k = false
same_key (some (a, b, c)) (x, y, z) = a == x && (b == y && c == z)

abbrev pub is_address : Text → Option Text → Bool
is_address pref none = false
is_address pref (some a) = same_text a pref

abbrev pub is_preferred : Text → LookupReachable → Bool
is_preferred pref r = is_address pref r.address || same_text r.hostname pref

unfoldable pub on_net : ℕ × ℕ × ℕ → LookupReachable → Bool
unfolding ipv4_slash24_key
on_net net r = same_key (ipv4_slash24_key (unwrap_or r.hostname r.address)) net

abbrev pub no_ipv6 : Option Text → Bool
no_ipv6 none = true
no_ipv6 (some a) = not (contains a (codes ":"))

abbrev pub find_line : (LookupReachable → Bool) → List LookupReachable → Option LookupReachable
find_line p [] = none
find_line p (r ∷ rs) = if p r then some r else find_line p rs

abbrev pub or_line : Option LookupReachable → Option LookupReachable → Option LookupReachable
or_line none o = o
or_line (some r) o = some r

abbrev pub exact_line : List LookupReachable → List Text → Option LookupReachable
exact_line rs [] = none
exact_line rs (pref ∷ prefs) = or_line (find_line (is_preferred pref) rs) (exact_line rs prefs)

unfoldable pub net_line_of : List LookupReachable → Option (ℕ × ℕ × ℕ) → Option LookupReachable
unfolding on_net
net_line_of rs none = none
net_line_of rs (some net) = find_line (on_net net) rs

unfoldable pub net_line : List LookupReachable → List Text → Option LookupReachable
unfolding ipv4_slash24_key net_line_of
net_line rs [] = none
net_line rs (pref ∷ prefs) = or_line (net_line_of rs (ipv4_slash24_key pref)) (net_line rs prefs)

abbrev pub first_line : List LookupReachable → Option LookupReachable
first_line [] = none
first_line (r ∷ rs) = some r

unfoldable pub choose_reachable : List LookupReachable → List Text → Option LookupReachable
unfolding net_line
choose_reachable rs prefs =
    or_line (exact_line rs prefs) (
      or_line (net_line rs prefs) (or_line (find_line (λ r. no_ipv6 r.address) rs) (first_line rs)))

abbrev pub port_or : Option ℕ → ℕ
port_or none = 8009
port_or (some p) = p

unfoldable pub interface_of : Text → Option ℕ
unfolding after_first parse_word
interface_of trimmed = do
  after ← after_first (codes "(interface ") trimmed
  parse_word u32_max (leading_digits after)

module _ (ip_literal : Text → Option Text) where
  -- `rest` is the text after `can be reached at `.
  unfoldable pub parse_reachable_line : Text → Text → Option LookupReachable
  unfolding first_word rsplit_once trim_end_matches parse_word interface_of
  parse_reachable_line trimmed rest = do
    hostport ← first_word rest
    parts ← rsplit_once b':' hostport
    some (record {
      hostname = trim_end_matches b'.' parts.0;
      port = port_or (parse_word u16_max parts.1);
      address = ip_literal (trim_end_matches b'.' parts.0);
      on_interface = interface_of trimmed;
    })

  unfoldable pub reached : Text → Option LookupReachable
  unfolding after_first parse_reachable_line
  reached trimmed = do
    rest ← after_first (codes "can be reached at ") trimmed
    parse_reachable_line trimmed rest

  abbrev pub push_line : Option LookupReachable → List LookupReachable → List LookupReachable
  push_line none rs = rs
  push_line (some r) rs = rs ++ (r ∷ [])

  abbrev pub with_blank : Text → Text
  with_blank txt = if is_empty txt then txt else txt ++ codes " "

  abbrev pub push_txt : Text → Text → Text
  push_txt trimmed txt =
      if contains trimmed (codes "id=") || contains trimmed (codes "fn=")
      then with_blank txt ++ trimmed
      else txt

  -- The loop over the lines of the output.
  unfoldable pub lookup_loop : List Text → List LookupReachable → Text → List LookupReachable × Text
  unfolding reached
  lookup_loop [] rs txt = (rs, txt)
  lookup_loop (raw ∷ lines) rs txt =
      lookup_loop lines (push_line (reached (trim raw)) rs) (push_txt (trim raw) txt)

  -- The lines that `output.lines()` gives.
  unfoldable pub parse_lookup_output_with_preferred : List Text → List Text → Option ResolveInfo
  unfolding lookup_loop choose_reachable
  parse_lookup_output_with_preferred lines preferred_ipv4 =
      let (rs, txt) = lookup_loop lines [] [] in
      do
        chosen ← choose_reachable rs preferred_ipv4
        some (record {
          hostname = chosen.hostname;
          port = chosen.port;
          txt = txt;
          address = chosen.address;
        })
