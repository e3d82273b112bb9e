-- ===== src/Plugin/Messages.antt =====
-- handleJsonMessage of src/ipc_client.cpp, and the requests that the client sends. json-c is a
-- parameter. The callbacks that a line calls are listed in order; `none` is the exception of a
-- std::string made from a null pointer.
pub mod Wire
pub mod Fixed
mod Tests
use fcitx5_anytalk.Prelude.{
  ℕ, zero, suc, Bool, Option, none, some, ◌>>=◌, List, [], ◌∷◌, ◌++◌, ◌==◌, if◌then◌else◌,
}
use fcitx5_anytalk.Text.{Text, text, text_eq, is_empty}

-- `json_tokener_parse`, `json_object_object_get_ex` and `json_object_get_string`, with `none` for a
-- null pointer or false.
pub record JsonC : Type 1 where
  pub Object : Type 0
  pub parse : List ℕ → Option Object
  pub get_ex : Object → List ℕ → Option Object
  pub get_string : Object → Option (List ℕ)

pub data Callback : Type 0 where
  on_partial : List ℕ → Callback
  on_final : List ℕ → Callback
  on_status : List ℕ → Callback

-- The bytes of a C string: up to the first null byte.
unfoldable pub c_str : List ℕ → List ℕ
c_str [] = []
c_str (b ∷ bytes) = if b == 0 then [] else b ∷ c_str bytes

module _ (json : JsonC) where
  open json use {Object, parse, get_ex, get_string}

  -- A callback with the string under a key, where there is one.
  unfoldable pub deliver : Object → List ℕ → (List ℕ → Callback) → Option (List Callback)
  deliver obj key callback = elim (get_ex obj key) [
    | none ↦ some []
    | some value ↦ elim (get_string value) [ none ↦ none | some t ↦ some (callback (c_str t) ∷ []) ]
  ]

  -- The branches on the type, by `strcmp`.
  unfoldable pub dispatch : Object → List ℕ → Option (List Callback)
  dispatch obj type =
      if text_eq (c_str type) (text "partial")
      then deliver obj (text "text") on_partial
      else if text_eq (c_str type) (text "final")
      then deliver obj (text "text") on_final
      else if text_eq (c_str type) (text "status")
      then deliver obj (text "state") on_status
      else some []

  unfoldable pub handle_json_message : List ℕ → Option (List Callback)
  handle_json_message line = if is_empty line then some [] else elim (parse (c_str line)) [
    | none ↦ some []
    | some obj ↦ elim (get_ex obj (text "type")) [
      | none ↦ some []
      | some type_obj ↦ elim (get_string type_obj) [
        | none ↦ some []
        | some type ↦ dispatch obj type
      ]
    ]
  ]

  -- The lines of `processMessages`, in order.
  unfoldable pub handle_lines : List (List ℕ) → Option (List Callback)
  handle_lines [] = some []
  handle_lines (line ∷ lines) =
      handle_json_message line >>= λ now. handle_lines lines >>= λ later. some (now ++ later)

-- `sendStart`, `sendStop` and `sendCancel`: the text given to `sendJson`, which adds a newline.
unfoldable pub send_start : Text
send_start = text "{\"type\":\"start\",\"mode\":\"toggle\"}"

unfoldable pub send_stop : Text
send_stop = text "{\"type\":\"stop\"}"

unfoldable pub send_cancel : Text
send_cancel = text "{\"type\":\"cancel\"}"
