-- ===== src/Ipc/Msg.antt =====
-- The two message types of anytalk-daemon/src/ipc.rs, and the line that a server message becomes.
use fcitx5_anytalk.Prelude.{Option, none, some, [], ◌∷◌, ◌++◌}
use fcitx5_anytalk.Text.{Text, text}

pub data ClientMsg : Type 0 where
  start : Option Text → ClientMsg
  stop : ClientMsg
  cancel : ClientMsg
  other : ClientMsg

pub data ServerMsg : Type 0 where
  status : Text → ServerMsg
  partial : Text → ServerMsg
  final : Text → ServerMsg
  error : Text → ServerMsg

-- `serde_json::to_string` is a parameter, with `none` for its error.
unfoldable pub serialize_msg : (ServerMsg → Option Text) → ServerMsg → Text
serialize_msg to_string msg =
    (elim (to_string msg) [ some line ↦ line | none ↦ text "{}" ]) ++ (0x0a ∷ [])
