-- ===== src/Daemon/Takeover.antt =====
-- When the daemon takes the socket, and what it does with it.
use fcitx5_anytalk.Prelude.{
  Bool, true, false, ℕ, zero, suc, ◌+◌, ◌<◌, ◌≡◌, refl, ◌∙◌, ap, List, [], ◌∷◌, ◌++◌, map,
  replicate, if◌then◌else◌, arith,
}
use fcitx5_anytalk.Prelude.Results.{ok}
use fcitx5_anytalk.Text.{Text}
use fcitx5_anytalk.Config.{AsrConfig, load_config}
use fcitx5_anytalk.Daemon.{
  socket_path, spawn_maintainer, sleep, remove_file, bind, set_permissions, spawn_client, take_over,
  LoopEvent, accepted, accept_error, interrupted, terminated, returned_ok, accept_loop,
  Surroundings, serve, main,
}

-- Another daemon answers in the first `k` attempts.
abbrev pub Answers : (ℕ → Bool) → ℕ → ℕ → Type 0
Answers connects attempt k = (j : ℕ) → j < k → connects (attempt + j) ≡ true

later-Answers :
    (connects : ℕ → Bool) (attempt k : ℕ)
    → Answers connects attempt (suc k)
    → Answers connects (attempt + 1) k
later-Answers connects attempt k h j less =
    let same : attempt + 1 + j ≡ attempt + suc j = omega arith in
    ap connects same ∙ h (suc j) (omega arith)

take_over_alive :
    (path : Text) (connects : ℕ → Bool) (rounds attempt : ℕ)
    → Answers connects attempt rounds
    → take_over path connects rounds attempt ≡ (false, replicate rounds (sleep 200))
unfolding take_over
take_over_alive path connects zero attempt h = refl
take_over_alive path connects (suc rounds) attempt h =
    let now : connects attempt ≡ true = ap connects (omega arith) ∙ h 0 (omega arith) in
    ground (
      arith,
      now,
      take_over_alive path connects rounds (attempt + 1) (later-Answers connects attempt rounds h),
    )

take_over_stale :
    (path : Text) (connects : ℕ → Bool) (k rounds attempt : ℕ)
    → k < rounds
    → Answers connects attempt k
    → connects (attempt + k) ≡ false
    → take_over path connects rounds attempt
      ≡ (true, replicate k (sleep 200) ++ (remove_file path ∷ []))
unfolding take_over
take_over_stale path connects k zero attempt less h gone = absurd (omega arith)
take_over_stale path connects zero (suc rounds) attempt less h gone =
    let now : connects attempt ≡ false = ap connects (omega arith) ∙ gone in ground (arith, now)
take_over_stale path connects (suc k) (suc rounds) attempt less h gone =
    let now : connects attempt ≡ true = ap connects (omega arith) ∙ h 0 (omega arith) in
    let same : attempt + 1 + k ≡ attempt + suc k = omega arith in
    ground (
      arith,
      now,
      take_over_stale path connects k rounds (attempt + 1) (omega arith)
          (later-Answers connects attempt k h) (ap connects same ∙ gone),
    )

-- An event that ends the loop.
abbrev pub stops : LoopEvent → Bool
stops (accepted client) = false
stops accept_error = true
stops interrupted = true
stops terminated = true

accept_loop-stops :
    (path : Text) (clients : List ℕ) (event : LoopEvent) (rest : List LoopEvent)
    (exists_after : Bool)
    → stops event ≡ true
    → accept_loop path (map accepted clients ++ (event ∷ rest)) exists_after ≡ (
      map spawn_client clients ++ (if exists_after then remove_file path ∷ [] else []),
      returned_ok,
    )
unfolding accept_loop
accept_loop-stops path [] (accepted client) rest exists_after h = absurd (ground (arith, h))
accept_loop-stops path [] accept_error rest exists_after h = refl
accept_loop-stops path [] interrupted rest exists_after h = refl
accept_loop-stops path [] terminated rest exists_after h = refl
accept_loop-stops path (client ∷ clients) event rest exists_after h =
    ground (arith, accept_loop-stops path clients event rest exists_after h)

-- With a configuration and audio, and a socket file on which another daemon answers all five
-- attempts, the daemon waits a second in all and returns: it neither removes the file nor binds.
pub main-alive :
    (w : Surroundings) (config : AsrConfig)
    → load_config w.env ≡ ok config
    → w.audio_starts ≡ true
    → w.exists_before ≡ true
    → Answers w.connects 0 5
    → main w ≡ (spawn_maintainer config ∷ replicate 5 (sleep 200), returned_ok)
unfolding main
main-alive w config loaded sound exists h =
    ground (arith, loaded, sound, exists, take_over_alive (socket_path w.env) w.connects 5 0 h)

-- With a configuration and audio, and a socket file on which the first failed connect is one of the
-- five attempts, the daemon removes the file once, after 200 ms for each attempt before, binds it,
-- sets its permissions, starts a handler for each client in order, and at an accept error or a signal
-- removes the file if it is there and returns.
pub main-stale :
    (w : Surroundings) (config : AsrConfig) (k : ℕ) (clients : List ℕ) (event : LoopEvent)
    (rest : List LoopEvent)
    → load_config w.env ≡ ok config
    → w.audio_starts ≡ true
    → w.exists_before ≡ true
    → k < 5
    → Answers w.connects 0 k
    → w.connects k ≡ false
    → w.binds ≡ true
    → w.signal_installs ≡ true
    → w.events ≡ map accepted clients ++ (event ∷ rest)
    → stops event ≡ true
    → main w ≡ (
      spawn_maintainer config
          ∷ ((replicate k (sleep 200) ++ (remove_file (socket_path w.env) ∷ []))
              ++ (bind (socket_path w.env)
                  ∷ set_permissions (socket_path w.env) 384
                  ∷ (map spawn_client clients
                      ++ (if w.exists_after then remove_file (socket_path w.env) ∷ [] else [])))),
      returned_ok,
    )
unfolding main serve
main-stale w config k clients event rest loaded sound exists less h gone binds installs events
      stop =
    ground (
      arith,
      loaded,
      sound,
      exists,
      binds,
      installs,
      events,
      take_over_stale (socket_path w.env) w.connects k 5 0 less h
          (ap w.connects (omega arith) ∙ gone),
      accept_loop-stops (socket_path w.env) clients event rest w.exists_after stop,
    )
