-- ===== src/Plugin/Manager.antt =====
-- DaemonManager of src/daemon_manager.cpp, and anytalk_socket_path of src/ipc_client.cpp. The calls of
-- the system are parameters, and what is done to processes is listed in order.
pub mod Startup
pub mod Stopping
mod Tests
use fcitx5_anytalk.Prelude.{
  ℕ, zero, suc, ◌+◌, Bool, true, false, Option, none, some, List, [], ◌∷◌, ◌++◌, if◌then◌else◌,
}
use fcitx5_anytalk.Text.{Text, text, text_eq, is_empty}

-- An environment, and `setenv` with its flag for overwriting.
abbrev pub Env : Type 0
Env = Text → Option Text

unfoldable pub setenv : Text → Text → Bool → Env → Env
setenv name value overwrite env other =
    if text_eq name other
    then (if overwrite
        then some value
        else elim (env other) [ none ↦ some value | some v ↦ some v ])
    else env other

-- The environment of the child process.
unfoldable pub child_env : Text → Text → Env → Env
child_env app_id access_token env = setenv (text "RUST_LOG") (text "info") false (
    setenv (text "ANYTALK_RESOURCE_ID") (text "volc.seedasr.sauc.duration") false (
      setenv (text "ANYTALK_ACCESS_TOKEN") access_token true
        (setenv (text "ANYTALK_APP_ID") app_id true env)))

-- What is done to processes; a signal is a number, and 0 asks whether the process exists.
pub data ProcessAction : Type 0 where
  exec : Text → Env → ProcessAction
  kill : ℕ → ℕ → ProcessAction
  wait_no_hang : ℕ → ProcessAction
  wait : ℕ → ProcessAction
  sleep : ℕ → ProcessAction

abbrev pub sigterm : ℕ
sigterm = 15

abbrev pub sigkill : ℕ
sigkill = 9

-- `startDaemon` of the engine and `start`: `daemon_pid_` is `none` for -1, `exists` says whether the
-- process known so far exists, and `fork` gives the child's number, or `none` for an error.
unfoldable pub start :
    Text → Text → Text → Bool → Env → Bool → Option ℕ → Option ℕ → Option ℕ × List ProcessAction
start daemon_path app_id access_token developer_mode env exists fork pid =
    let path = if is_empty daemon_path then text "anytalk-daemon" else daemon_path in
    let forked : Option ℕ × List ProcessAction = elim fork [
      | none ↦ (pid, [])
      | some child ↦ (some child, exec path (child_env app_id access_token env) ∷ [])
    ] in
    if developer_mode then (pid, []) else elim pid [
      | none ↦ forked
      | some p ↦
          if exists
          then (some p, kill p 0 ∷ [])
          else (let (next, actions) = forked in (next, kill p 0 ∷ actions))
    ]

-- The loop of `stop`, over whether the n-th waitpid finds the process ended, with the rounds left.
unfoldable pub await_end : ℕ → (ℕ → Bool) → ℕ → ℕ → List ProcessAction
await_end pid ended zero attempt = []
await_end pid ended (suc rounds) attempt =
    let later = await_end pid ended rounds (attempt + 1) in
    if ended attempt then wait_no_hang pid ∷ [] else wait_no_hang pid ∷ sleep 100 ∷ later

-- `stop`, over what the two questions find.
unfoldable pub stop : Bool → (ℕ → Bool) → Bool → Option ℕ → Option ℕ × List ProcessAction
stop exists ended still pid = elim pid [
  | none ↦ (none, [])
  | some p ↦
      let waiting = await_end p ended 10 0 in
      let last : List ProcessAction = if still then kill p sigkill ∷ wait p ∷ [] else [] in
      if exists
      then (none, kill p 0 ∷ kill p sigterm ∷ (waiting ++ (kill p 0 ∷ last)))
      else (none, kill p 0 ∷ [])
]

-- `anytalk_socket_path`; an empty variable counts as unset.
unfoldable pub anytalk_socket_path : Env → Text
anytalk_socket_path env =
    let from_uid : Text = elim (env (text "UID")) [
      | none ↦ text "/tmp/anytalk.sock"
      | some uid ↦
          if is_empty uid
          then text "/tmp/anytalk.sock"
          else text "/run/user/" ++ (uid ++ text "/anytalk.sock")
    ] in
    elim (env (text "XDG_RUNTIME_DIR")) [
      | none ↦ from_uid
      | some dir ↦ if is_empty dir then from_uid else dir ++ text "/anytalk.sock"
    ]
