-- ===== src/Asr/Sample.antt =====
-- JSON values as a data type, with a parser of a few responses by name: an instance of the
-- interface at which the theorems are applied.
use fcitx5_anytalk.Prelude.{Bool, true, false, List, [], ◌∷◌, Option, none, some, if◌then◌else◌}
use fcitx5_anytalk.Prelude.Int.{ℤ, pos}
use fcitx5_anytalk.Text.{Text, text, text_eq}
use fcitx5_anytalk.Asr.Json.{JsonLib}

mutual
  pub data Value : Type 0 where
    boolean : Bool → Value
    integer : ℤ → Value
    string : Text → Value
    array : Items → Value
    object : Fields → Value

  pub data Items : Type 0 where
    nil : Items
    cons : Value → Items → Items

  pub data Fields : Type 0 where
    end : Fields
    field : Text → Value → Fields → Fields

abbrev pub items : Items → List Value
items nil = []
items (cons v vs) = v ∷ items vs

abbrev pub find : Fields → Text → Option Value
unfolding text_eq
find end k = none
find (field j v fs) k = if text_eq j k then some v else find fs k

abbrev pub get : Value → Text → Option Value
get (object fs) k = find fs k
get v k = none

abbrev pub as_array : Value → Option (List Value)
as_array (array vs) = some (items vs)
as_array v = none

abbrev pub as_bool : Value → Option Bool
as_bool (boolean b) = some b
as_bool v = none

abbrev pub as_i64 : Value → Option ℤ
as_i64 (integer n) = some n
as_i64 v = none

abbrev pub as_str : Value → Option Text
as_str (string s) = some s
as_str v = none

abbrev pub utterance : Bool → ℤ → Text → Value
utterance definite end_time txt = object (
    field (text "definite") (boolean definite)
      (field (text "end_time") (integer end_time) (field (text "text") (string txt) end)))

abbrev pub with_result : Text → Value → Value
with_result key v = object (field (text "result") (object (field key v end)) end)

abbrev pub hello : Value
hello = utterance true (pos 900) (text "hello")

abbrev pub world : Value
world = utterance true (pos 1700) (text " world ")

-- What is first taken for `world`.
abbrev pub guess : Value
guess = utterance false (pos 1600) (text "word")

abbrev pub draft : Value
draft = utterance false (pos 2000) (text "and")

-- The responses "1", "2", "3", "t" and "u"; any other text is no JSON.
abbrev pub from_str : Text → Option Value
unfolding text_eq
from_str t =
    if text_eq t (text "1")
    then some (with_result (text "utterances") (array (cons hello nil)))
    else if text_eq t (text "2")
    then some (with_result (text "utterances") (array (cons hello (cons world (cons draft nil)))))
    else if text_eq t (text "3")
    then some (with_result (text "utterances") (array (cons hello (cons guess nil))))
    else if text_eq t (text "t")
    then some (with_result (text "text") (string (text "hello")))
    else if text_eq t (text "u")
    then some (with_result (text "text") (string (text "hello world")))
    else none

abbrev pub sample : JsonLib
sample = record {
  Value = Value;
  from_str = from_str;
  get = get;
  as_array = as_array;
  as_bool = as_bool;
  as_i64 = as_i64;
  as_str = as_str;
}
