-- ===== src/Asr/Json.antt =====
-- What asr.rs uses of the package serde_json, which the repository does not hold: an interface that
-- the model takes as a parameter.
use fcitx5_anytalk.Prelude.{Bool, List, Option}
use fcitx5_anytalk.Prelude.Int.{ℤ}
use fcitx5_anytalk.Text.{Text}

-- `serde_json::from_str` with `none` for an error, `Value::get` by a key, and the accessors, with
-- `none` for a value of another type. `as_i64` is `none` for a number that does not fit an i64.
pub record JsonLib : Type 1 where
  pub Value : Type 0
  pub from_str : Text → Option Value
  pub get : Value → Text → Option Value
  pub as_array : Value → Option (List Value)
  pub as_bool : Value → Option Bool
  pub as_i64 : Value → Option ℤ
  pub as_str : Value → Option Text
