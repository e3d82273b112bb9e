-- ===== src/Plugin/Engine/Late.antt =====
-- A press of the toggle key while the task of the session before is still to end: its status `idle`
-- comes after the status `recording` of the new session.
use fcitx5_anytalk.Prelude.{ℕ, false, ◌≡◌, Option, none, some, List, [], ◌∷◌, map, concat, arith}
use fcitx5_anytalk.Prelude.Results.{ok}
use fcitx5_anytalk.Text.{Text, text, text_eq}
use fcitx5_anytalk.Text.Utf8.{as_bytes, encode_char}
use fcitx5_anytalk.Ipc.Msg.{ClientMsg, start, ServerMsg, serialize_msg}
use fcitx5_anytalk.Ipc.Client.{
  Shared, Client, selecting, line, read, response, taken, dialed, opened, run,
}
use fcitx5_anytalk.Ipc.Client.Start.{Recording, start-dialed}
use fcitx5_anytalk.Ipc.Client.Replies.{late-Recording}
use fcitx5_anytalk.Asr.Pool.{Notify}
use fcitx5_anytalk.Plugin.Lines.{receive_all}
use fcitx5_anytalk.Plugin.Messages.{JsonC, Callback, on_status, c_str, handle_lines, send_start}
use fcitx5_anytalk.Plugin.Messages.Wire.{IsWire, wire_bytes, receive-callbacks}
use fcitx5_anytalk.Plugin.Engine.{
  Engine, set_status, key_event, on_callback, engine_step, engine_run, get_status_label,
}
use fcitx5_anytalk.Plugin.Engine.Recording.{press_then, connecting, recording, start_recording_lem}

abbrev pub idle : Callback
idle = on_status (c_str (as_bytes (text "idle")))

-- The messages for the client.
abbrev pub late : List ServerMsg
late =
    ServerMsg.status (text "connecting")
    ∷ ServerMsg.status (text "recording")
    ∷ ServerMsg.status (text "idle")
    ∷ []

press-idle :
    (focused : Option ℕ) (ic : ℕ) (e : Engine)
    → e.recording ≡ false
    → let last = (engine_run (press_then focused ic (connecting ∷ recording ∷ idle ∷ [])) e).0 in
      (get_status_label last ≡ text "AT") × (last.recording ≡ false) × (last.active_ic ≡ none)
unfolding engine_run engine_step key_event set_status on_callback get_status_label text_eq c_str
    as_bytes encode_char
press-idle focused ic e h = ground (arith, h, start_recording_lem focused ic e)

module _ (nt : Notify) (Ws : Type 0) (to_string : ServerMsg → Option Text)
    (from_str : Text → Option ClientMsg) (json : JsonC) (wire : IsWire json to_string) where
  -- With no spare connection and a dial that succeeds, while the plugin's engine is not recording, and
  -- with a status `idle` of the task before that is passed on after the start: under the hypotheses
  -- of the two sides, the handler has a session, to which the audio goes, and yet the plugin's engine
  -- ends with the label "AT", not recording, and without a context of the recording.
  pub late-label :
      (mode : Option Text) (stream : Ws) (sh : Shared nt Ws) (c : Client nt Ws)
      (chunks : List (List ℕ)) (focused : Option ℕ) (ic : ℕ) (engine : Engine)
      → c.phase ≡ selecting
      → from_str send_start ≡ some (start mode)
      → sh.pool.spare ≡ none
      → concat chunks ≡ wire_bytes to_string late
      → engine.recording ≡ false
      → let last =
          (engine_run (press_then focused ic (connecting ∷ recording ∷ idle ∷ [])) engine).0 in
        Recording nt Ws to_string from_str sh c stream (map (serialize_msg to_string) late) (
          run nt Ws to_string from_str
            (read (line send_start)
              ∷ taken
              ∷ dialed (ok stream)
              ∷ opened
              ∷ response (some (serialize_msg to_string (ServerMsg.status (text "idle"))))
              ∷ [])
            sh
            c)
        × (handle_lines json ((receive_all [] chunks).0)
            ≡ some (connecting ∷ recording ∷ idle ∷ []))
        × (get_status_label last ≡ text "AT")
        × (last.recording ≡ false)
        × (last.active_ic ≡ none)
  late-label mode stream sh c chunks focused ic engine at parsed empty same silent =
      let (label, off, nowhere) = press-idle focused ic engine silent in
      (
        late-Recording nt Ws to_string from_str
            (read (line send_start) ∷ taken ∷ dialed (ok stream) ∷ opened ∷ []) _
            (serialize_msg to_string (ServerMsg.status (text "idle"))) sh c stream
            (start-dialed nt Ws to_string from_str send_start mode stream sh c at parsed empty),
        (receive-callbacks json to_string wire late chunks same).0,
        label,
        off,
        nowhere,
      )
