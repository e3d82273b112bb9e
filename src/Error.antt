-- ===== src/Error.antt =====
-- anytalk-daemon/src/error.rs: the error type, and its messages as the derive of thiserror writes them.
-- Nothing of the daemon uses it. std::io::Error is a parameter, with its text.
use fcitx5_anytalk.Prelude.{◌++◌}
use fcitx5_anytalk.Prelude.Results.{Result}
use fcitx5_anytalk.Text.{Text, text}

pub data DaemonError (IoError : Type 0) : Type 0 where
  audio : Text → DaemonError IoError
  config : Text → DaemonError IoError
  web_socket : Text → DaemonError IoError
  protocol : Text → DaemonError IoError
  io : IoError → DaemonError IoError

-- `#[from]`.
unfoldable pub from_io : {IoError : Type 0} → IoError → DaemonError IoError
from_io e = io e

unfoldable pub display : {IoError : Type 0} → (IoError → Text) → DaemonError IoError → Text
display io_text (audio m) = text "Audio device error: " ++ m
display io_text (config m) = text "Configuration error: " ++ m
display io_text (web_socket m) = text "WebSocket error: " ++ m
display io_text (protocol m) = text "Protocol error: " ++ m
display io_text (io e) = text "IO error: " ++ io_text e

abbrev pub DaemonResult : Type 0 → Type 0 → Type 0
DaemonResult IoError A = Result (DaemonError IoError) A
