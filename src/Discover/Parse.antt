-- ===== src/Discover/Parse.antt =====
-- Operations of `str` that the parsing uses (crates/play-on-air/src/discover.rs).
use play_on_air.Prelude.{
  ℕ, ◌+◌, ◌-◌, ◌*◌, Bool, ◌&&◌, List, [], ◌∷◌, leb, ◌==◌, length, drop, if◌then◌else◌, Option, none,
  some,
}
use play_on_air.Prelude.Text.{Text, is_empty, is_whitespace, starts_with, trim_start}
use mathlib.Core.List.{reverse}

-- `find(p)`, with the text after the match in place of its index.
unfoldable pub after_first : Text → Text → Option Text
unfolding starts_with
after_first p [] = if is_empty p then some [] else none
after_first p (c ∷ cs) =
    let later = after_first p cs in
    if starts_with (c ∷ cs) p then some (drop (length p) (c ∷ cs)) else later

abbrev pub add_to_first : ℕ → List Text → List Text
add_to_first c [] = (c ∷ []) ∷ []
add_to_first c (part ∷ parts) = (c ∷ part) ∷ parts

-- `split(sep)` at a character.
unfoldable pub split : ℕ → Text → List Text
split sep [] = [] ∷ []
split sep (c ∷ cs) = let rest = split sep cs in if c == sep then [] ∷ rest else add_to_first c rest

abbrev pub longer_before : ℕ → Option (Text × Text) → Option (Text × Text)
longer_before c none = none
longer_before c (some (before, after)) = some (c ∷ before, after)

abbrev pub last_or : ℕ → ℕ → Text → Option (Text × Text) → Option (Text × Text)
last_or sep c cs (some p) = longer_before c (some p)
last_or sep c cs none = if c == sep then some ([], cs) else none

-- `rsplit_once` at a character.
unfoldable pub rsplit_once : ℕ → Text → Option (Text × Text)
rsplit_once sep [] = none
rsplit_once sep (c ∷ cs) = last_or sep c cs (rsplit_once sep cs)

abbrev pub skip : ℕ → Text → Text
skip d [] = []
skip d (c ∷ cs) = if c == d then skip d cs else c ∷ cs

-- `trim_end_matches` of a character.
unfoldable pub trim_end_matches : ℕ → Text → Text
trim_end_matches d s = reverse (skip d (reverse s))

unfoldable pub until_blank : Text → Text
unfolding is_whitespace
until_blank [] = []
until_blank (c ∷ cs) = if is_whitespace c then [] else c ∷ until_blank cs

-- `split_whitespace().next()`.
unfoldable pub first_word : Text → Option Text
unfolding trim_start until_blank
first_word s = let word = until_blank (trim_start s) in if is_empty word then none else some word

abbrev pub is_ascii_digit : ℕ → Bool
is_ascii_digit c = leb b'0' c && leb c b'9'

abbrev pub leading_digits : Text → Text
leading_digits [] = []
leading_digits (c ∷ cs) = if is_ascii_digit c then c ∷ leading_digits cs else []

abbrev pub digits_from : ℕ → Text → Option ℕ
digits_from n [] = some n
digits_from n (c ∷ cs) =
    let rest = digits_from (n * 10 + (c - b'0')) cs in if is_ascii_digit c then rest else none

abbrev pub within : ℕ → Option ℕ → Option ℕ
within greatest none = none
within greatest (some n) = if leb n greatest then some n else none

abbrev pub some_digits : Text → Option ℕ
some_digits s = if is_empty s then none else digits_from 0 s

-- `parse` of an unsigned word whose greatest value is given: decimal digits, maybe after a `+`.
unfoldable pub parse_word : ℕ → Text → Option ℕ
parse_word greatest [] = none
parse_word greatest (c ∷ cs) =
    within greatest (if c == b'+' then some_digits cs else digits_from 0 (c ∷ cs))
