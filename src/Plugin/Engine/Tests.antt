-- ===== src/Plugin/Engine/Tests.antt =====
-- Concrete runs of the engine, alone and with the daemon's handler.
use fcitx5_anytalk.Prelude.{
  ℕ, Bool, true, false, ◌≡◌, refl, Option, none, some, List, [], ◌∷◌, map, append-nil,
  if◌then◌else◌, All,
}
use fcitx5_anytalk.Prelude.Results.{ok, err}
use fcitx5_anytalk.Text.{Text, text, text_eq}
use fcitx5_anytalk.Ipc.Msg.{ClientMsg, start, ServerMsg, serialize_msg}
use fcitx5_anytalk.Asr.Pool.{Notify}
use fcitx5_anytalk.Ipc.Client.{Shared, Client, connect, line, read, taken, dialed, opened, run}
use fcitx5_anytalk.Ipc.Client.Start.{Recording, Refused}
use fcitx5_anytalk.Plugin.Lines.{receive_all}
use fcitx5_anytalk.Plugin.Messages.{on_partial, on_final, on_status, send_start, handle_lines}
use fcitx5_anytalk.Plugin.Messages.Wire.{wire_bytes}
use fcitx5_anytalk.Plugin.Messages.Fixed.{agreed, agreed-Wire, to_line}
use fcitx5_anytalk.Plugin.Engine.{
  Engine, initial, EngineEvent, called, activated, deactivated, engine_run, get_status_label,
}
use fcitx5_anytalk.Plugin.Engine.Commits.{TextFor, Spares, engine_run-TextFor}
use fcitx5_anytalk.Ipc.Client.{response}
use fcitx5_anytalk.Plugin.Engine.Late.{idle, late, late-label}
use fcitx5_anytalk.Plugin.Engine.Recording.{
  told, press_then, connecting, recording, failed-label, dialed-label,
}

-- Recording for the context 3.
abbrev recorder : Engine
recorder = record {
  recording = true;
  ignore_next_commit = false;
  last_text = [];
  current_state = text "recording";
  active_ic = some 3;
}

-- Texts while 3 is focused, and one while the focus is on 4.
abbrev texts : List EngineEvent
texts =
    called (some 3) (on_partial (text "a"))
    ∷ deactivated 4
    ∷ activated (some 4)
    ∷ called (some 4) (on_partial (text "ab"))
    ∷ called (some 3) (on_final (text "ab"))
    ∷ called (some 3) (on_status (text "connected"))
    ∷ []

texts-Spares : All (Spares 3) texts
unfolding text_eq
texts-Spares = (tt, (refl, (tt, (tt, (tt, (refl, tt))))))

engine_run-TextFor_example :
    let last = engine_run texts recorder in All (TextFor 3) (last.1) × ((last.0).active_ic ≡ some 3)
engine_run-TextFor_example = engine_run-TextFor texts recorder 3 refl texts-Spares

abbrev one_permit : Notify
one_permit = record {
  State = Bool;
  fresh = false;
  notify_one = λ n. true;
  notified = λ n. if n then some false else none;
}

abbrev from_str : Text → Option ClientMsg
from_str l = if text_eq l send_start then some (start (some (text "toggle"))) else none

reads_start : from_str send_start ≡ some (start (some (text "toggle")))
unfolding text_eq send_start
reads_start = refl

abbrev shared : Shared one_permit ℕ
shared = record {
  audio = record { target = none };
  pool = record { spare = none; notify_consumed = false };
  tasks = 0;
  aborted = [];
  detached = [];
  streams = [];
}

abbrev client : Client one_permit ℕ
client = connect one_permit ℕ to_line from_str shared

abbrev failed : List ServerMsg
failed = told one_permit ℕ to_line from_str agreed agreed-Wire (ServerMsg.error (text "no"))

abbrev succeeded : List ServerMsg
succeeded =
    told one_permit ℕ to_line from_str agreed agreed-Wire (ServerMsg.status (text "recording"))

failed-label_example :
    let last = (engine_run (press_then (some 3) 3 (connecting ∷ [])) initial).0 in
    Refused one_permit ℕ to_line from_str shared client (map (serialize_msg to_line) failed) (
      run one_permit ℕ to_line from_str
        (read (line send_start) ∷ taken ∷ dialed (err (text "no")) ∷ [])
        shared
        client)
    × (handle_lines agreed ((receive_all [] (wire_bytes to_line failed ∷ [])).0)
        ≡ some (connecting ∷ []))
    × (get_status_label last ≡ text "...")
    × (last.recording ≡ false)
unfolding connect initial
failed-label_example =
    failed-label one_permit ℕ to_line from_str agreed agreed-Wire (some (text "toggle")) (text "no")
      shared client (wire_bytes to_line failed ∷ []) (some 3) 3 initial refl reads_start refl refl
      (append-nil (wire_bytes to_line failed)) refl

dialed-label_example :
    let last = (engine_run (press_then (some 3) 3 (connecting ∷ recording ∷ [])) initial).0 in
    Recording one_permit ℕ to_line from_str shared client 5
      (map (serialize_msg to_line) succeeded)
      (run one_permit ℕ to_line from_str
        (read (line send_start) ∷ taken ∷ dialed (ok 5) ∷ opened ∷ [])
        shared
        client)
    × (handle_lines agreed ((receive_all [] (wire_bytes to_line succeeded ∷ [])).0)
        ≡ some (connecting ∷ recording ∷ []))
    × (get_status_label last ≡ text "REC")
    × (last.recording ≡ true)
    × (last.active_ic ≡ some 3)
unfolding connect initial
dialed-label_example =
    dialed-label one_permit ℕ to_line from_str agreed agreed-Wire (some (text "toggle")) 5 shared
      client (wire_bytes to_line succeeded ∷ []) (some 3) 3 initial refl reads_start refl
      (append-nil (wire_bytes to_line succeeded)) refl

late-label_example :
    let last =
      (engine_run (press_then (some 3) 3 (connecting ∷ recording ∷ idle ∷ [])) initial).0 in
    Recording one_permit ℕ to_line from_str shared client 5 (map (serialize_msg to_line) late) (
      run one_permit ℕ to_line from_str
        (read (line send_start)
          ∷ taken
          ∷ dialed (ok 5)
          ∷ opened
          ∷ response (some (serialize_msg to_line (ServerMsg.status (text "idle"))))
          ∷ [])
        shared
        client)
    × (handle_lines agreed ((receive_all [] (wire_bytes to_line late ∷ [])).0)
        ≡ some (connecting ∷ recording ∷ idle ∷ []))
    × (get_status_label last ≡ text "AT")
    × (last.recording ≡ false)
    × (last.active_ic ≡ none)
unfolding connect initial
late-label_example =
    late-label one_permit ℕ to_line from_str agreed agreed-Wire (some (text "toggle")) 5 shared
      client (wire_bytes to_line late ∷ []) (some 3) 3 initial refl reads_start refl
      (append-nil (wire_bytes to_line late)) refl
