-- ===== src/Ipc/Client/Tests.antt =====
-- Concrete runs of the handler.
use fcitx5_anytalk.Prelude.{false, ℕ, ◌≡◌, refl, none, some, List, [], ◌∷◌, ◌++◌}
use fcitx5_anytalk.Prelude.Results.{ok}
use fcitx5_anytalk.Text.{Text, text, text_eq}
use fcitx5_anytalk.Ipc.Msg.{start, serialize_msg}
use fcitx5_anytalk.Asr.Pool.{new, take_spare}
use fcitx5_anytalk.Audio.Capture.{new_controller, set_target, clear_target}
use fcitx5_anytalk.Ipc.Client.{
  selecting, line, Event, read, taken, dialed, opened, Shared, Client, abort, write, connect,
  on_start, on_taken, on_dialed, on_opened, on_stop, on_msg, on_read, step, run,
}
use fcitx5_anytalk.Ipc.Client.Sample.{one_permit, to_string, from_str, idle, idle-Idle}
use fcitx5_anytalk.Ipc.Client.Reach.{Reaches, connected, run-Reaches}
use fcitx5_anytalk.Ipc.Client.Target.{Follows, Reaches-Follows}
use fcitx5_anytalk.Ipc.Client.Every.{
  EveryReaches, begun, accepted, run-EveryReaches, EveryOwned, EveryReaches-Owned,
}
use fcitx5_anytalk.Ipc.Client.Start.{Recording, status_line}
use fcitx5_anytalk.Ipc.Client.Replies.{with_spare, start-Recording}

abbrev fresh : Client one_permit ℕ
fresh = connect one_permit ℕ to_string from_str idle

abbrev Reached : Shared one_permit ℕ → Client one_permit ℕ → Type 0
Reached = Reaches one_permit ℕ to_string from_str

abbrev two_starts : List (Event ℕ)
two_starts =
    read (line (text "start"))
    ∷ taken
    ∷ dialed (ok 5)
    ∷ opened
    ∷ read (line (text "stop"))
    ∷ read (line (text "start"))
    ∷ taken
    ∷ dialed (ok 6)
    ∷ opened
    ∷ []

abbrev last_shared : Shared one_permit ℕ
last_shared = record {
  audio = record { target = some 1 };
  pool = record { spare = none; notify_consumed = false };
  tasks = 2;
  aborted = 0 ∷ [];
  detached = [];
  streams = (1, 6) ∷ (0, 5) ∷ [];
}

abbrev status_text : Text → Text
status_text state = state ++ (0x0a ∷ [])

abbrev last_client : Client one_permit ℕ
last_client = record {
  phase = selecting;
  session = some 1;
  draining_task = none;
  written =
      status_text (text "connecting")
      ∷ status_text (text "recording")
      ∷ status_text (text "connecting")
      ∷ status_text (text "recording")
      ∷ [];
}

last-Reached : Reached last_shared last_client
unfolding run step connect new new_controller on_read on_msg on_start on_taken on_dialed on_opened
    on_stop take_spare set_target clear_target abort write text_eq serialize_msg
last-Reached =
    run-Reaches one_permit ℕ to_string from_str two_starts idle fresh (connected idle idle-Idle)

Reaches-Follows_example : Follows one_permit ℕ to_string from_str last_shared last_client
Reaches-Follows_example =
    Reaches-Follows one_permit ℕ to_string from_str last_shared last_client last-Reached

-- A second client connects, and both start: the first still has its session, and the audio goes to
-- that of the second.
abbrev second_client : Client one_permit ℕ
second_client = record {
  phase = selecting;
  session = some 2;
  draining_task = none;
  written = status_text (text "connecting") ∷ status_text (text "recording") ∷ [];
}

abbrev both_shared : Shared one_permit ℕ
both_shared = record {
  audio = record { target = some 2 };
  pool = record { spare = none; notify_consumed = false };
  tasks = 3;
  aborted = 0 ∷ [];
  detached = [];
  streams = (2, 8) ∷ (1, 6) ∷ (0, 5) ∷ [];
}

both-EveryReached :
    EveryReaches one_permit ℕ to_string from_str both_shared (second_client ∷ last_client ∷ [])
unfolding run step connect new new_controller on_read on_msg on_start on_taken on_dialed on_opened
    on_stop take_spare set_target clear_target abort write text_eq serialize_msg
both-EveryReached =
    let first : EveryReaches one_permit ℕ to_string from_str last_shared (last_client ∷ []) =
      run-EveryReaches one_permit ℕ to_string from_str two_starts idle last_shared [] [] fresh
        last_client (accepted idle [] (begun idle idle-Idle)) refl in
    run-EveryReaches one_permit ℕ to_string from_str
      (read (line (text "start")) ∷ taken ∷ dialed (ok 8) ∷ opened ∷ []) last_shared both_shared []
      (last_client ∷ []) (connect one_permit ℕ to_string from_str last_shared) second_client
      (accepted last_shared (last_client ∷ []) first) refl

EveryReaches-Owned_example :
    EveryOwned one_permit ℕ to_string from_str both_shared (second_client ∷ last_client ∷ [])
EveryReaches-Owned_example =
    EveryReaches-Owned one_permit ℕ to_string from_str both_shared
      (second_client ∷ last_client ∷ []) both-EveryReached

reads_start : from_str (text "start") ≡ some (start none)
unfolding text_eq
reads_start = refl

start-Recording_example :
    Recording one_permit ℕ to_string from_str
      (with_spare one_permit ℕ to_string from_str (some 9) last_shared)
      last_client
      9
      (status_line one_permit ℕ to_string from_str (text "recording") ∷ [])
      (run one_permit ℕ to_string from_str
        (read (line (text "start")) ∷ taken ∷ opened ∷ [])
        (with_spare one_permit ℕ to_string from_str (some 9) last_shared)
        last_client)
    × Recording one_permit ℕ to_string from_str
        (with_spare one_permit ℕ to_string from_str none last_shared)
        last_client
        9
        (status_line one_permit ℕ to_string from_str (text "connecting")
          ∷ status_line one_permit ℕ to_string from_str (text "recording")
          ∷ [])
        (run one_permit ℕ to_string from_str
          (read (line (text "start")) ∷ taken ∷ dialed (ok 9) ∷ opened ∷ [])
          (with_spare one_permit ℕ to_string from_str none last_shared)
          last_client)
start-Recording_example =
    start-Recording one_permit ℕ to_string from_str (text "start") none 9 last_shared last_client
      refl reads_start
