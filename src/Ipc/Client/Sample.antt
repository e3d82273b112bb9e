-- ===== src/Ipc/Client/Sample.antt =====
-- A pool without a connection and clients that write two kinds of lines: values at which the theorems
-- on the handlers are applied.
use fcitx5_anytalk.Prelude.{Bool, true, false, ℕ, refl, Option, none, some, [], if◌then◌else◌}
use fcitx5_anytalk.Text.{Text, text, text_eq}
use fcitx5_anytalk.Ipc.Msg.{ClientMsg, ServerMsg, start, stop}
use fcitx5_anytalk.Asr.Pool.{Notify, new}
use fcitx5_anytalk.Audio.Capture.{new_controller}
use fcitx5_anytalk.Ipc.Client.{Shared}
use fcitx5_anytalk.Ipc.Client.Reach.{IsIdle}

abbrev permit : Bool → Option Bool
permit true = some false
permit false = none

abbrev pub one_permit : Notify
one_permit = record { State = Bool; fresh = false; notify_one = λ n. true; notified = permit }

abbrev pub to_string : ServerMsg → Option Text
to_string (ServerMsg.status state) = some state
to_string msg = none

abbrev pub from_str : Text → Option ClientMsg
from_str l =
    if text_eq l (text "start")
    then some (start none)
    else if text_eq l (text "stop")
    then some stop
    else none

abbrev pub idle : Shared one_permit ℕ
idle = record {
  audio = new_controller;
  pool = new one_permit ℕ;
  tasks = 0;
  aborted = [];
  detached = [];
  streams = [];
}

pub idle-Idle : IsIdle one_permit ℕ idle
unfolding new_controller
idle-Idle = record { silent = refl; unspawned = refl; unaborted = refl; attached = refl }
