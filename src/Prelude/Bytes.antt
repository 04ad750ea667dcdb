-- ===== src/Prelude/Bytes.antt =====
-- Little-endian bytes, as `to_le_bytes` and `put_i16_le` write them.
use play_on_air.Prelude.Tests.{leb, if◌then◌else◌}
use play_on_air.Prelude.Lists.{length, take, drop}
use Prim.Native.Nat.{ℕ, ◌+◌, ◌*◌, ◌/◌, ◌%◌, ◌^◌, ◌<◌}
use mathlib.Core.Path.{◌≡◌}
use mathlib.Core.List.{List, [], ◌∷◌, ◌++◌}
use native.Mathlib.Omega.{arith}

-- `u16::to_le_bytes` and `u32::to_le_bytes`.
abbrev pub u16_le_bytes : ℕ → List ℕ
u16_le_bytes v = (v % 256) ∷ (v / 256 % 256) ∷ []

abbrev pub u32_le_bytes : ℕ → List ℕ
u32_le_bytes v =
    (v % 256) ∷ (v / 256 % 256) ∷ (v / 256 / 256 % 256) ∷ (v / 256 / 256 / 256 % 256) ∷ []

-- The number that little-endian bytes stand for.
abbrev pub of_le_bytes : List ℕ → ℕ
of_le_bytes [] = 0
of_le_bytes (b ∷ bs) = b + 256 * of_le_bytes bs

pub of_le_bytes-u16 : (v : ℕ) → v < 2 ^ 16 → of_le_bytes (u16_le_bytes v) ≡ v
of_le_bytes-u16 v h = omega arith

pub of_le_bytes-u32 : (v : ℕ) → v < 2 ^ 32 → of_le_bytes (u32_le_bytes v) ≡ v
of_le_bytes-u32 v h = omega arith

-- `buf.get_mut(at..at + n)` followed by `copy_from_slice`: nothing is written out of range.
abbrev pub copy_at : List ℕ → ℕ → List ℕ → List ℕ
copy_at buf at bytes =
    if leb (at + length bytes) (length buf)
    then take at buf ++ bytes ++ drop (at + length bytes) buf
    else buf

-- The bytes `at..at + n`.
abbrev pub slice : List ℕ → ℕ → ℕ → List ℕ
slice buf at n = take n (drop at buf)
