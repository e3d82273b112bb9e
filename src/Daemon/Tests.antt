-- ===== src/Daemon/Tests.antt =====
-- Concrete starts of the daemon.
use fcitx5_anytalk.Prelude.{
  true, ◌≡◌, refl, Option, none, some, [], ◌∷◌, ◌++◌, map, replicate, if◌then◌else◌, ltb, arith,
}
use fcitx5_anytalk.Prelude.Results.{ok}
use fcitx5_anytalk.Text.{
  Text, text, text_eq, trim, trim_end, trim_start, is_whitespace, is_empty, starts_with,
}
use fcitx5_anytalk.Config.{AsrConfig, load_config}
use fcitx5_anytalk.Daemon.{
  ends_with_slash, join, socket_path, spawn_maintainer, sleep, remove_file, bind, set_permissions,
  spawn_client, accepted, terminated, returned_ok, Surroundings, main,
}
use fcitx5_anytalk.Daemon.Takeover.{Answers, main-alive, main-stale}

abbrev env : Text → Option Text
env name =
    if text_eq name (text "ANYTALK_APP_ID")
    then some (text "app")
    else if text_eq name (text "ANYTALK_ACCESS_TOKEN")
    then some (text "token")
    else if text_eq name (text "XDG_RUNTIME_DIR")
    then some (text "/run/user/1000")
    else none

abbrev config : AsrConfig
config = record {
  app_id = trim (text "app");
  access_token = trim (text "token");
  resource_id = text "volc.seedasr.sauc.duration";
  mode = text "bidi_async";
}

loaded : load_config env ≡ ok config
unfolding load_config text_eq
loaded = refl

runtime_socket : socket_path env ≡ text "/run/user/1000/anytalk.sock"
unfolding socket_path text_eq join ends_with_slash starts_with is_empty trim trim_end trim_start
    is_whitespace
runtime_socket = refl

-- The other daemon answers twice.
abbrev stale_start : Surroundings
stale_start = record {
  env = env;
  audio_starts = true;
  exists_before = true;
  connects = λ attempt. ltb attempt 2;
  binds = true;
  signal_installs = true;
  events = accepted 1 ∷ accepted 2 ∷ terminated ∷ accepted 3 ∷ [];
  exists_after = true;
}

abbrev alive_start : Surroundings
alive_start = record stale_start { connects = λ attempt. true }

main-alive_example :
    main alive_start ≡ (spawn_maintainer config ∷ replicate 5 (sleep 200), returned_ok)
main-alive_example = main-alive alive_start config loaded refl refl (λ j less. refl)

twice : Answers (λ attempt. ltb attempt 2) 0 2
twice j less = ground arith

main-stale_example : main stale_start ≡ (
  spawn_maintainer config
      ∷ ((replicate 2 (sleep 200) ++ (remove_file (socket_path env) ∷ []))
          ++ (bind (socket_path env)
              ∷ set_permissions (socket_path env) 384
              ∷ (map spawn_client (1 ∷ 2 ∷ []) ++ (remove_file (socket_path env) ∷ [])))),
  returned_ok,
)
main-stale_example =
    main-stale stale_start config 2 (1 ∷ 2 ∷ []) terminated (accepted 3 ∷ []) loaded refl refl
      (omega arith) twice refl refl refl refl refl
