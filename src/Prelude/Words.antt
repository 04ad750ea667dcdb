-- ===== src/Prelude/Words.antt =====
-- Unsigned machine words of the source: `u16`, `u32`, `u64` and `usize` (64 bits), with the
-- saturating and the wrapping operations that it uses.
use Prim.Native.Nat.{ℕ, ◌+◌, ◌*◌, ◌-◌, ◌/◌, ◌%◌, ◌^◌, min}

abbrev pub u16_max : ℕ
u16_max = 2 ^ 16 - 1

abbrev pub u32_max : ℕ
u32_max = 2 ^ 32 - 1

-- Also `usize::MAX` on the 64-bit targets that are built.
abbrev pub u64_max : ℕ
u64_max = 2 ^ 64 - 1

-- `a.saturating_add(b)` and `a.saturating_mul(b)` of a word whose greatest value is `m`.
abbrev pub saturating_add : ℕ → ℕ → ℕ → ℕ
saturating_add m a b = min (a + b) m

abbrev pub saturating_mul : ℕ → ℕ → ℕ → ℕ
saturating_mul m a b = min (a * b) m

-- `AtomicU64::fetch_add` wraps; the value is the one after the addition.
abbrev pub wrapping_add64 : ℕ → ℕ → ℕ
wrapping_add64 a b = (a + b) % 2 ^ 64

-- `a.div_ceil(b)`.
abbrev pub div_ceil : ℕ → ℕ → ℕ
div_ceil a b = (a + (b - 1)) / b
