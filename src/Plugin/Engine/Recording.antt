-- ===== src/Plugin/Engine/Recording.antt =====
-- A press of the toggle key through the plugin, the daemon and back: the plugin's request, the
-- handler's answers, and what the status label shows then.
use fcitx5_anytalk.Prelude.{
  ℕ, true, false, ◌≡◌, Option, none, some, List, [], ◌∷◌, map, concat, arith,
}
use fcitx5_anytalk.Prelude.Results.{ok, err}
use fcitx5_anytalk.Text.{Text, text, text_eq}
use fcitx5_anytalk.Text.Utf8.{as_bytes, encode_char}
use fcitx5_anytalk.Ipc.Msg.{ClientMsg, start, ServerMsg, serialize_msg}
use fcitx5_anytalk.Ipc.Client.{Shared, Client, selecting, line, read, taken, dialed, opened, run}
use fcitx5_anytalk.Ipc.Client.Start.{Recording, Refused, start-dialed, start-Refused}
use fcitx5_anytalk.Asr.Pool.{Notify}
use fcitx5_anytalk.Plugin.Lines.{receive_all}
use fcitx5_anytalk.Plugin.Messages.{JsonC, Callback, on_status, c_str, handle_lines, send_start}
use fcitx5_anytalk.Plugin.Messages.Wire.{IsWire, wire_bytes, receive-callbacks}
use fcitx5_anytalk.Plugin.Engine.{
  Engine, set_status, toggle, start_recording, key_event, on_callback, EngineEvent, pressed, called,
  engine_step, engine_run, get_status_label,
}

-- A press of the toggle key, and then the callbacks.
abbrev pub press_then : Option ℕ → ℕ → List Callback → List EngineEvent
press_then focused ic callbacks = pressed false toggle focused ic ∷ map (called focused) callbacks

abbrev pub connecting : Callback
connecting = on_status (c_str (as_bytes (text "connecting")))

abbrev pub recording : Callback
recording = on_status (c_str (as_bytes (text "recording")))

pub start_recording_lem :
    (focused : Option ℕ) (ic : ℕ) (e : Engine)
    → let next = (start_recording focused ic e).0 in
      (next.recording ≡ e.recording) × (next.active_ic ≡ some ic)
unfolding start_recording set_status text_eq
start_recording_lem focused ic e = ground arith

press-connecting :
    (focused : Option ℕ) (ic : ℕ) (e : Engine)
    → e.recording ≡ false
    → let last = (engine_run (press_then focused ic (connecting ∷ [])) e).0 in
      (get_status_label last ≡ text "...") × (last.recording ≡ false)
unfolding engine_run engine_step key_event set_status on_callback get_status_label text_eq c_str
    as_bytes encode_char
press-connecting focused ic e h = ground (arith, h, start_recording_lem focused ic e)

press-recording :
    (focused : Option ℕ) (ic : ℕ) (e : Engine)
    → e.recording ≡ false
    → let last = (engine_run (press_then focused ic (connecting ∷ recording ∷ [])) e).0 in
      (get_status_label last ≡ text "REC") × (last.recording ≡ true) × (last.active_ic ≡ some ic)
unfolding engine_run engine_step key_event set_status on_callback get_status_label text_eq c_str
    as_bytes encode_char
press-recording focused ic e h = ground (arith, h, start_recording_lem focused ic e)

module _ (nt : Notify) (Ws : Type 0) (to_string : ServerMsg → Option Text)
    (from_str : Text → Option ClientMsg) (json : JsonC) (wire : IsWire json to_string) where
  -- A start that the daemon answers with `connecting` and then with an outcome.
  abbrev pub told : ServerMsg → List ServerMsg
  told outcome = ServerMsg.status (text "connecting") ∷ outcome ∷ []

  -- The handler has no spare connection and the dial fails, while the plugin's engine is not
  -- recording: under the hypotheses of the two sides (the request is read as a start, the JSON
  -- libraries read each other's lines), the handler ends without a session, target or task, and the
  -- callbacks that its answers call, in whatever chunks they come, leave the label at "...": the
  -- error shows nowhere, and the engine is not told that the daemon is idle.
  pub failed-label :
      (mode : Option Text) (e : Text) (sh : Shared nt Ws) (c : Client nt Ws)
      (chunks : List (List ℕ)) (focused : Option ℕ) (ic : ℕ) (engine : Engine)
      → c.phase ≡ selecting
      → from_str send_start ≡ some (start mode)
      → sh.pool.spare ≡ none
      → sh.audio.target ≡ c.session
      → concat chunks ≡ wire_bytes to_string (told (ServerMsg.error e))
      → engine.recording ≡ false
      → let last = (engine_run (press_then focused ic (connecting ∷ [])) engine).0 in
        Refused nt Ws to_string from_str sh c
          (map (serialize_msg to_string) (told (ServerMsg.error e)))
          (run nt Ws to_string from_str (read (line send_start) ∷ taken ∷ dialed (err e) ∷ []) sh c)
        × (handle_lines json ((receive_all [] chunks).0) ≡ some (connecting ∷ []))
        × (get_status_label last ≡ text "...")
        × (last.recording ≡ false)
  failed-label mode e sh c chunks focused ic engine at parsed empty follows same silent =
      let (label, still) = press-connecting focused ic engine silent in
      (
        start-Refused nt Ws to_string from_str send_start mode e sh c at parsed empty follows,
        (receive-callbacks json to_string wire (told (ServerMsg.error e)) chunks same).0,
        label,
        still,
      )

  -- The same start with a dial that succeeds: the handler has a session and the audio goes to it, and
  -- its answers leave the engine recording for the context of the key, with the label "REC".
  pub dialed-label :
      (mode : Option Text) (stream : Ws) (sh : Shared nt Ws) (c : Client nt Ws)
      (chunks : List (List ℕ)) (focused : Option ℕ) (ic : ℕ) (engine : Engine)
      → c.phase ≡ selecting
      → from_str send_start ≡ some (start mode)
      → sh.pool.spare ≡ none
      → concat chunks ≡ wire_bytes to_string (told (ServerMsg.status (text "recording")))
      → engine.recording ≡ false
      → let last = (engine_run (press_then focused ic (connecting ∷ recording ∷ [])) engine).0 in
        Recording nt Ws to_string from_str sh c stream
          (map (serialize_msg to_string) (told (ServerMsg.status (text "recording"))))
          (run nt Ws to_string from_str
            (read (line send_start) ∷ taken ∷ dialed (ok stream) ∷ opened ∷ [])
            sh
            c)
        × (handle_lines json ((receive_all [] chunks).0) ≡ some (connecting ∷ recording ∷ []))
        × (get_status_label last ≡ text "REC")
        × (last.recording ≡ true)
        × (last.active_ic ≡ some ic)
  dialed-label mode stream sh c chunks focused ic engine at parsed empty same silent =
      let (label, on, context) = press-recording focused ic engine silent in
      (
        start-dialed nt Ws to_string from_str send_start mode stream sh c at parsed empty,
        (receive-callbacks json to_string wire (told (ServerMsg.status (text "recording"))) chunks
            same).0,
        label,
        on,
        context,
      )
