-- ===== src/Ipc/Task.antt =====
-- The task that a start of anytalk-daemon/src/ipc.rs spawns: run_session, then the message that the
-- session is over.
pub mod Idle
use fcitx5_anytalk.Prelude.{◌⊎◌, inl, inr, Option, none, some, List, [], ◌∷◌, ◌++◌}
use fcitx5_anytalk.Text.{Text, text}
use fcitx5_anytalk.Ipc.Msg.{ServerMsg}
use fcitx5_anytalk.Asr.Session.{Outcome, goes_on, ended, panicked}

-- All that a task sends to its client so far, from the result of `run_session` on the events so far;
-- `none` for a task that has panicked.
unfoldable pub task_messages : Text ⊎ Outcome → Option (List ServerMsg)
task_messages (inl e) = some (ServerMsg.error e ∷ ServerMsg.status (text "idle") ∷ [])
task_messages (inr (goes_on s)) = some s.lines
task_messages (inr (ended s)) = some (s.lines ++ (ServerMsg.status (text "idle") ∷ []))
task_messages (inr panicked) = none
