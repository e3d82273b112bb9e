-- ===== src/Asr/Session/Ends.antt =====
-- How a session ends, and what it tells the client.
use fcitx5_anytalk.Prelude.{
  some_of_ne, ℕ, ◌≡◌, ◌≢◌, ◌⊎◌, refl, ap, ◌∙◌, inl, inr, List, [], ◌∷◌, ◌++◌, Option, none, some,
  arith, if◌then◌else◌, All, Option-cases, Bool-cases, ◌==◌,
}
use fcitx5_anytalk.Text.{Text}
use fcitx5_anytalk.Text.Utf8.{IsByte, from_utf8_lossy}
use fcitx5_anytalk.Protocol.{ParsedServerMessage, parse_server_message}
use fcitx5_anytalk.Protocol.{msg_full_server_response, msg_error_response, unknown_message}
use fcitx5_anytalk.Protocol.Format.{
  ServerFrame, frame_bytes, IsFrame, parse-response_frame, parse-error_frame,
}
use fcitx5_anytalk.Protocol.Sound.{Reading, other, responds, fails, parse-Reading}
use fcitx5_anytalk.Ipc.Msg.{ServerMsg}
use fcitx5_anytalk.Asr.Json.{JsonLib}
use fcitx5_anytalk.Asr.Texts.{AsrTexts, parse_asr_texts}
use fcitx5_anytalk.Asr.Texts.FullText.{parse_asr_texts_total}
use fcitx5_anytalk.Asr.Session.Runs.{session_of, run_total}
use fcitx5_anytalk.Asr.Session.{
  WsItem, binary, Event, audio, message, Session, Outcome, goes_on, ended, on_audio, on_response,
  on_parsed, on_message, step, run, response_lines,
}

-- The frames of the service are bytes.
abbrev pub IsEvent : Event → Type 0
IsEvent (audio msg sent) = Unit {0}
IsEvent (message none) = Unit {0}
IsEvent (message (some WsItem.close)) = Unit {0}
IsEvent (message (some WsItem.other)) = Unit {0}
IsEvent (message (some WsItem.failure)) = Unit {0}
IsEvent (message (some (binary bytes))) = All IsByte bytes

module _ (json : JsonLib) (mode : Text) where
  on_response_total :
      (s : Session) (json_text : Text) (flags : ℕ)
      → (t : Session) × (session_of (on_response json mode s json_text flags) ≡ some t)
  unfolding on_response
  on_response_total s json_text flags =
      let (r, found, clean) = parse_asr_texts_total json json_text s.asr mode in
      (record s { asr = r.state; lines = s.lines ++ response_lines r }, ground (arith, found))

  on_parsed_total :
      (s : Session) (m : ParsedServerMessage)
      → (t : Session) × (session_of (on_parsed json mode s m) ≡ some t)
  on_parsed_total s m = elim (Option-cases m.json_text) [
    | inl e ↦ some_of_ne _ (unfold on_parsed in ground (arith, e))
    | inr (json_text, e) ↦
        some_of_ne _ (unfold on_parsed in ground (arith, e, on_response_total s json_text m.flags))
  ]

  on_message_total :
      (s : Session) (item : Option WsItem)
      → IsEvent (message item)
      → (t : Session) × (session_of (on_message json mode s item) ≡ some t)
  unfolding on_message
  on_message_total s none h = (s, refl)
  on_message_total s (some WsItem.close) h = (s, refl)
  on_message_total s (some WsItem.other) h = (s, refl)
  on_message_total s (some WsItem.failure) h = (s, refl)
  on_message_total s (some (binary bytes)) h =
      let (m, parsed, reading) = parse-Reading bytes h in
      let (t, found) = on_parsed_total s m in (t, ground (arith, parsed, found))

  step_total :
      (s : Session) (e : Event)
      → IsEvent e
      → (t : Session) × (session_of (step json mode s e) ≡ some t)
  unfolding step
  step_total s (message item) h = on_message_total s item h
  step_total s (audio msg sent) h = elim (Bool-cases s.audio_active) [
    | inl on ↦ (on_audio s msg sent, ground (arith, on))
    | inr off ↦ (s, ground (arith, off))
  ]

  -- No session panics: whatever the service sends as bytes, each event has an outcome that is a
  -- session.
  pub run-no_panic :
      (s : Session) (es : List Event)
      → All IsEvent es
      → (u : Session) × (session_of (run json mode s es) ≡ some u)
  run-no_panic s es h = run_total json mode IsEvent step_total s es h

  -- No frame of the service: neither a full server response nor an error, as they are drawn.
  abbrev pub NoFrame : List ℕ → Type 0
  NoFrame bytes =
      (f : ServerFrame)
      → IsFrame f
      → (f.message_type ≡ msg_full_server_response) ⊎ (f.message_type ≡ msg_error_response)
      → bytes ≢ frame_bytes f

  -- What a binary message does to a session: the message is no frame of the service and nothing
  -- happens; or it is a full server response, its texts are sent to the client, and the session ends
  -- exactly if its flags are 0b0011; or it is an error, its text is sent, and the session ends.
  pub data Effect (s : Session) (bytes : List ℕ) (o : Outcome) : Type 0 where
    ignored : NoFrame bytes → o ≡ goes_on s → Effect s bytes o
    answered :
        (f : ServerFrame) (r : AsrTexts)
        → IsFrame f
        → f.message_type ≡ msg_full_server_response
        → bytes ≡ frame_bytes f
        → parse_asr_texts json (from_utf8_lossy f.payload) s.asr mode ≡ some r
        → (let t = record s { asr = r.state; lines = s.lines ++ response_lines r } in
            o ≡ (if f.flags == 3 then ended t else goes_on t))
        → Effect s bytes o
    failed :
        (f : ServerFrame)
        → IsFrame f
        → f.message_type ≡ msg_error_response
        → bytes ≡ frame_bytes f
        → o
          ≡ ended
              (record s { lines = s.lines ++ (ServerMsg.error (from_utf8_lossy f.payload) ∷ []) })
        → Effect s bytes o

  unknown-NoFrame :
      (bytes : List ℕ) (flags : ℕ)
      → parse_server_message bytes ≡ some (unknown_message flags)
      → NoFrame bytes
  unfolding unknown_message
  unknown-NoFrame bytes flags e f fits (inl type_eq) same =
      absurd (ground (arith, e, ap parse_server_message same, parse-response_frame f fits type_eq))
  unknown-NoFrame bytes flags e f fits (inr type_eq) same =
      absurd (ground (arith, e, ap parse_server_message same, parse-error_frame f fits type_eq))

  parsed-Effect :
      (s : Session) (bytes : List ℕ) (m : ParsedServerMessage)
      → parse_server_message bytes ≡ some m
      → Reading bytes m
      → Effect s bytes (on_message json mode s (some (binary bytes)))
  unfolding on_message on_parsed
  parsed-Effect s bytes m e (other flags known) =
      ignored (unknown-NoFrame bytes flags (e ∙ ap some known))
        (unfold unknown_message in ground (arith, e, known))
  parsed-Effect s bytes m e (responds f fits type_eq framed known) =
      let (r, found, clean) = parse_asr_texts_total json (from_utf8_lossy f.payload) s.asr mode in
      answered f r fits type_eq framed found (unfold on_response in ground (arith, e, known, found))
  parsed-Effect s bytes m e (fails f fits type_eq framed known) =
      failed f fits type_eq framed (ground (arith, e, known))

  -- A binary message from the service leaves a session as it is only if it is neither a full server
  -- response nor an error as the documentation draws them. Of a full server response the texts that
  -- the parser of the text finds, the provisional one and then the final ones, are sent to the client
  -- and the state of the parser is kept; the session ends with it exactly if its flags are 0b0011.
  -- Of an error the text is sent to the client, and the session ends.
  pub on_message-Effect :
      (s : Session) (bytes : List ℕ)
      → All IsByte bytes
      → Effect s bytes (on_message json mode s (some (binary bytes)))
  on_message-Effect s bytes h =
      let (m, parsed, reading) = parse-Reading bytes h in parsed-Effect s bytes m parsed reading
