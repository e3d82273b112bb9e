-- ===== src/Daemon.antt =====
-- anytalk-daemon/src/main.rs: the socket of the daemon, and its life from the start to the end, as the
-- list of what it does to its surroundings, which are parameters.
pub mod Takeover
mod Tests
use fcitx5_anytalk.Prelude.{
  Bool, true, false, not, ◌&&◌, ℕ, zero, suc, ◌+◌, Option, none, some, List, [], ◌∷◌, ◌++◌,
  if◌then◌else◌, ◌==◌,
}
use fcitx5_anytalk.Prelude.Results.{Result, ok, err}
use fcitx5_anytalk.Text.{Text, text, is_empty, trim, starts_with}
use fcitx5_anytalk.Config.{AsrConfig, load_config}

-- `Path::join`: an absolute path replaces, else one separator is put between.
unfoldable pub ends_with_slash : Text → Bool
ends_with_slash [] = false
ends_with_slash (c ∷ []) = c == 0x2f
ends_with_slash (c ∷ d ∷ rest) = ends_with_slash (d ∷ rest)

unfoldable pub join : Text → Text → Text
join a b =
    if starts_with b (text "/")
    then b
    else if is_empty a
    then b
    else if ends_with_slash a
    then a ++ b
    else a ++ (text "/" ++ b)

-- `env::var` is a parameter, with `none` for its error.
unfoldable pub socket_path : (Text → Option Text) → Text
socket_path env =
    let from_uid : Text = elim (env (text "UID")) [
      | none ↦ text "/tmp/anytalk.sock"
      | some uid ↦
          if is_empty (trim uid)
          then text "/tmp/anytalk.sock"
          else join (join (text "/run/user") uid) (text "anytalk.sock")
    ] in
    elim (env (text "XDG_RUNTIME_DIR")) [
      | none ↦ from_uid
      | some dir ↦ if is_empty (trim dir) then from_uid else join dir (text "anytalk.sock")
    ]

-- What the daemon does; a sleep is in milliseconds, a client is a number.
pub data Action : Type 0 where
  spawn_maintainer : AsrConfig → Action
  sleep : ℕ → Action
  remove_file : Text → Action
  bind : Text → Action
  set_permissions : Text → ℕ → Action
  spawn_client : ℕ → Action

-- `for attempt in 0..5`, over whether the connect of an attempt succeeds, with the rounds left:
-- whether the socket was stale, and what was done.
unfoldable pub take_over : Text → (ℕ → Bool) → ℕ → ℕ → Bool × List Action
take_over path connects zero attempt = (false, [])
take_over path connects (suc rounds) attempt =
    let (stale, later) = take_over path connects rounds (attempt + 1) in
    if connects attempt then (stale, sleep 200 ∷ later) else (true, remove_file path ∷ [])

-- What `select!` of the accept loop gives.
pub data LoopEvent : Type 0 where
  accepted : ℕ → LoopEvent
  accept_error : LoopEvent
  interrupted : LoopEvent
  terminated : LoopEvent

-- How the process ends, or that it still runs after the events given.
pub data Ending : Type 0 where
  exit_code : ℕ → Ending
  returned_ok : Ending
  returned_error : Ending
  running : Ending

-- The loop with the clean-up after it; the last argument says whether the socket file exists then.
unfoldable pub accept_loop : Text → List LoopEvent → Bool → List Action × Ending
accept_loop path [] exists_after = ([], running)
accept_loop path (accepted client ∷ events) exists_after =
    let (later, ending) = accept_loop path events exists_after in
    (spawn_client client ∷ later, ending)
accept_loop path (event ∷ events) exists_after =
    ((if exists_after then remove_file path ∷ [] else []), returned_ok)

-- The surroundings of a start.
pub record Surroundings : Type 0 where
  pub env : Text → Option Text
  pub audio_starts : Bool
  pub exists_before : Bool
  pub connects : ℕ → Bool
  pub binds : Bool
  pub signal_installs : Bool
  pub events : List LoopEvent
  pub exists_after : Bool

-- From `bind` on; 0o600 is 384.
unfoldable pub serve : Surroundings → List Action × Ending
serve w =
    let path = socket_path w.env in
    let (later, ending) = accept_loop path w.events w.exists_after in
    if not w.binds
    then (bind path ∷ [], returned_error)
    else if not w.signal_installs
    then (bind path ∷ set_permissions path 0o600 ∷ [], returned_error)
    else (bind path ∷ set_permissions path 0o600 ∷ later, ending)

unfoldable pub main : Surroundings → List Action × Ending
main w = elim (load_config w.env) [
  | err e ↦ ([], exit_code 1)
  | ok config ↦
      let (stale, taking) = take_over (socket_path w.env) w.connects 5 0 in
      let (serving, ending) = serve w in
      if not w.audio_starts
      then (spawn_maintainer config ∷ [], exit_code 1)
      else if not w.exists_before
      then (spawn_maintainer config ∷ serving, ending)
      else if not stale
      then (spawn_maintainer config ∷ taking, returned_ok)
      else (spawn_maintainer config ∷ (taking ++ serving), ending)
]
