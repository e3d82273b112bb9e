-- ===== src/Plugin/Manager/Tests.antt =====
-- The environment of a desktop session.
use fcitx5_anytalk.Prelude.{if◌then◌else◌, ◌≡◌, refl, none, some}
use fcitx5_anytalk.Text.{text, text_eq, trim, trim_start, trim_end, is_whitespace}
use fcitx5_anytalk.Daemon.{ends_with_slash, socket_path}
use fcitx5_anytalk.Plugin.Manager.{Env, anytalk_socket_path}
use fcitx5_anytalk.Plugin.Manager.Startup.{Plain, Relative, anytalk_socket_path-eq-socket_path}

abbrev session : Env
session name =
    if text_eq name (text "XDG_RUNTIME_DIR")
    then some (text "/run/user/1000")
    else if text_eq name (text "ANYTALK_MODE")
    then some (text " nostream ")
    else none

session-Plain : Plain (session (text "XDG_RUNTIME_DIR"))
unfolding text_eq trim trim_start trim_end is_whitespace ends_with_slash
session-Plain = (refl, refl)

session-Relative : Relative (session (text "UID"))
unfolding text_eq
session-Relative = tt

sockets_example : anytalk_socket_path session ≡ socket_path session
sockets_example = anytalk_socket_path-eq-socket_path session session-Plain session-Relative
