-- ===== src/Error.antt =====
-- crates/play-on-air/src/error.rs: the error type that every fallible operation returns.
--
-- The messages stay; paths and the errors of the file system and of the TOML parser are `Text` too.
use play_on_air.Prelude.Text.{Text}

pub data ConfigError : Type 0 where
  io : Text → ConfigError
  parse : Text → ConfigError

pub data Error : Type 0 where
  config : Text → ConfigError → Error
  discovery media cast air_play audio bridge io : Text → Error

pub data Result {ℓ} (A : Type ℓ) : Type ℓ where
  ok : A → Result A
  err : Error → Result A

infixl 5 ◌>>=◌
abbrev pub ◌>>=◌ {ℓ κ} : {A : Type ℓ} {B : Type κ} → Result A → (A → Result B) → Result B
ok a >>= f = f a
err e >>= f = err e
