-- ===== src/Plugin/Messages/Tests.antt =====
-- Messages of the daemon that come in pieces.
use fcitx5_anytalk.Prelude.{ℕ, ◌≡◌, refl, some, List, [], ◌∷◌, concat}
use fcitx5_anytalk.Text.Utf8.{as_bytes, encode_char}
use fcitx5_anytalk.Ipc.Msg.{ServerMsg, partial, final, error, serialize_msg}
use fcitx5_anytalk.Plugin.Lines.{receive_all}
use fcitx5_anytalk.Plugin.Messages.{on_partial, on_final, c_str, handle_lines}
use fcitx5_anytalk.Plugin.Messages.Wire.{wire_bytes, receive-callbacks}
use fcitx5_anytalk.Plugin.Messages.Fixed.{agreed, agreed-Wire, to_line}

-- Three messages of the daemon, with texts of few letters, in two pieces that cut the second.
abbrev three : List ServerMsg
three = partial (2 ∷ []) ∷ error (1 ∷ []) ∷ final (3 ∷ 0 ∷ []) ∷ []

abbrev pieces : List (List ℕ)
pieces =
    (112 ∷ 97 ∷ 97 ∷ 98 ∷ 0x0a ∷ 101 ∷ 97 ∷ [])
    ∷ (98 ∷ 0x0a ∷ 102 ∷ 97 ∷ 97 ∷ 97 ∷ 98 ∷ 98 ∷ 0x0a ∷ [])
    ∷ []

pieces-three : concat pieces ≡ wire_bytes to_line three
unfolding serialize_msg as_bytes encode_char
pieces-three = refl

-- The text of the last message has a null byte, and its callback gets what stands before it.
receive-callbacks_example :
    let received = receive_all [] pieces in
    (handle_lines agreed (received.0) ≡ some (on_partial (2 ∷ []) ∷ on_final (3 ∷ []) ∷ []))
    × (received.1 ≡ [])
unfolding as_bytes encode_char c_str
receive-callbacks_example = receive-callbacks agreed to_line agreed-Wire three pieces pieces-three
