-- ===== src/Asr/Session/Grows.antt =====
-- A round of run_session (anytalk-daemon/src/asr.rs) adds to the lines of the session.
use fcitx5_anytalk.Prelude.{
  ℕ, Bool, true, Bool-cases, Option-cases, inl, inr, ◌≡◌, refl, sym, ◌∙◌, append-nil, Option, none,
  some, List, [], ◌++◌, ◌==◌,
}
use fcitx5_anytalk.Text.{Text}
use fcitx5_anytalk.Audio.Msg.{AudioMsg, chunk}
use fcitx5_anytalk.Ipc.Msg.{ServerMsg}
use fcitx5_anytalk.Protocol.{ParsedServerMessage, Kind, parse_server_message}
use fcitx5_anytalk.Asr.Json.{JsonLib}
use fcitx5_anytalk.Asr.Texts.{parse_asr_texts}
use fcitx5_anytalk.Asr.Session.{
  binary, close, other, failure, Event, audio, message, Session, Outcome, goes_on, ended, panicked,
  response_lines, on_audio, on_response, on_parsed, on_message, step,
}

-- An outcome whose lines are some lines and more.
abbrev pub Grows : List ServerMsg → Outcome → Type 0
Grows lines (goes_on s) = (more : List ServerMsg) × (s.lines ≡ lines ++ more)
Grows lines (ended s) = (more : List ServerMsg) × (s.lines ≡ lines ++ more)
Grows lines panicked = Unit {0}

module _ (json : JsonLib) (mode : Text) where
  response-Grows :
      (s : Session) (json_text : Text) (flags : ℕ)
      → Grows s.lines (on_response json mode s json_text flags)
  unfolding on_response
  response-Grows s json_text flags =
      elim (Option-cases (parse_asr_texts json json_text s.asr mode)) [
        | inl panic ↦ rw (panic, Grows, on_response) tt
        | inr (r, parsed) ↦ elim (Bool-cases (flags == 3)) [
          | inl last ↦ rw (parsed, last, Grows, on_response) (response_lines r, refl)
          | inr not_last ↦ rw (parsed, not_last, Grows, on_response) (response_lines r, refl)
        ]
      ]

  parsed-Grows :
      (s : Session) (parsed : ParsedServerMessage) (kind : Kind) (text? : Option Text)
      → parsed.kind ≡ kind
      → parsed.json_text ≡ text?
      → Grows s.lines (on_parsed json mode s parsed)
  unfolding on_parsed
  parsed-Grows s parsed Kind.error text? e at = rw (e, Grows, on_parsed) (_, refl)
  parsed-Grows s parsed Kind.unknown text? e at =
      rw (e, Grows, on_parsed) ([], sym (append-nil s.lines))
  parsed-Grows s parsed Kind.response none e at =
      rw (e, at, Grows, on_parsed) ([], sym (append-nil s.lines))
  parsed-Grows s parsed Kind.response (some json_text) e at =
      rw (e, at, Grows, on_parsed) (response-Grows s json_text parsed.flags)

  audio-Grows :
      (s : Session) (msg : Option AudioMsg) (sent : Bool) → (on_audio s msg sent).lines ≡ s.lines
  unfolding on_audio
  audio-Grows s none sent = refl
  audio-Grows s (some (chunk bytes)) sent = refl

  pub step-Grows : (s : Session) (event : Event) → Grows s.lines (step json mode s event)
  unfolding step on_message
  step-Grows s (message (some (binary bytes))) = elim (Option-cases (parse_server_message bytes)) [
    | inl panic ↦ rw (panic, Grows, step, on_message) tt
    | inr (parsed, at) ↦
        rw (at, Grows, step, on_message)
          (parsed-Grows s parsed parsed.kind parsed.json_text refl refl)
  ]
  step-Grows s (message (some close)) = ([], sym (append-nil s.lines))
  step-Grows s (message (some other)) = ([], sym (append-nil s.lines))
  step-Grows s (message (some failure)) = ([], sym (append-nil s.lines))
  step-Grows s (message none) = ([], sym (append-nil s.lines))
  step-Grows s (audio msg sent) = elim (Bool-cases s.audio_active) [
    | inl active ↦
        rw (active, Grows, step)
          ([], audio-Grows (record s { audio_active = true }) msg sent ∙ sym (append-nil s.lines))
    | inr over ↦ rw (over, Grows, step) ([], sym (append-nil s.lines))
  ]
