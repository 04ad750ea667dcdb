-- ===== src/Prelude/Text.antt =====
-- Text as a list of code points, with the operations of `str` that the source uses.
use play_on_air.Prelude.Tests.{leb, ◌==◌, if◌then◌else◌}
use Prim.Native.Char.{code}
use Prim.Native.String.{String}
use Prim.Native.Nat.{ℕ, ◌+◌}
use mathlib.Core.Path.{◌≡◌}
use mathlib.Core.Logic.{◌↔◌}
use mathlib.Core.Bool.{Bool, true, false, ◌&&◌, ◌||◌}
use mathlib.Core.List.{List, [], ◌∷◌, reverse}
use native.Mathlib.Omega.{arith}

abbrev pub Text : Type 0
Text = List ℕ

-- The code points of a literal.
abbrev pub codes : String → Text
codes String.[] = []
codes (String.◌∷◌ c s) = code c ∷ codes s

-- `==` on texts.
unfoldable pub same_text : Text → Text → Bool
same_text [] [] = true
same_text [] (d ∷ ds) = false
same_text (c ∷ cs) [] = false
same_text (c ∷ cs) (d ∷ ds) = c == d && same_text cs ds

pub same_text_iff : (s t : Text) → (same_text s t ≡ true) ↔ (s ≡ t)
unfolding same_text
same_text_iff [] [] = ground arith
same_text_iff [] (d ∷ ds) = ground arith
same_text_iff (c ∷ cs) [] = ground arith
same_text_iff (c ∷ cs) (d ∷ ds) = ground (arith, same_text_iff cs ds)

-- `str::is_empty`.
abbrev pub is_empty {ℓ} : {A : Type ℓ} → List A → Bool
is_empty [] = true
is_empty (x ∷ xs) = false

-- `char::is_whitespace`: Unicode's White_Space.
unfoldable pub is_whitespace : ℕ → Bool
is_whitespace c =
    leb 9 c && leb c 13
    || c == 32
    || c == 0x85
    || c == 0xa0
    || c == 0x1680
    || leb 0x2000 c && leb c 0x200a
    || leb 0x2028 c && leb c 0x2029
    || c == 0x202f
    || c == 0x205f
    || c == 0x3000

-- `char::to_ascii_lowercase`.
abbrev pub ascii_lower : ℕ → ℕ
ascii_lower c = if leb b'A' c && leb c b'Z' then c + 32 else c

-- `str::starts_with` of a text.
unfoldable pub starts_with : Text → Text → Bool
starts_with s [] = true
starts_with [] (p ∷ ps) = false
starts_with (c ∷ cs) (p ∷ ps) = c == p && starts_with cs ps

-- `str::contains` of a text.
unfoldable pub contains : Text → Text → Bool
unfolding starts_with
contains [] p = starts_with [] p
contains (c ∷ cs) p = starts_with (c ∷ cs) p || contains cs p

-- `trim_start`, `trim_end` and `trim`.
unfoldable pub trim_start : Text → Text
trim_start [] = []
trim_start (c ∷ cs) = if is_whitespace c then trim_start cs else c ∷ cs

unfoldable pub trim : Text → Text
unfolding trim_start is_whitespace
trim s = reverse (trim_start (reverse (trim_start s)))
