-- ===== src/Ipc/Task/Idle.antt =====
-- A session says that it is idle once, at its end.
use fcitx5_anytalk.Prelude.{
  Bool, true, ◌≡◌, ◌≢◌, refl, sym, ap, subst, append-nil, ◌⊎◌, inl, inr, Option, none, some,
  Option-cases, Bool-cases, List, [], ◌∷◌, ◌++◌, map, All, All-append, ◌==◌, ℕ,
}
use fcitx5_anytalk.Text.{Text, text}
use fcitx5_anytalk.Audio.Msg.{AudioMsg, chunk}
use fcitx5_anytalk.Ipc.Msg.{ServerMsg}
use fcitx5_anytalk.Protocol.{ParsedServerMessage, Kind, parse_server_message}
use fcitx5_anytalk.Asr.Json.{JsonLib}
use fcitx5_anytalk.Asr.Texts.{AsrTexts, parse_asr_texts}
use fcitx5_anytalk.Asr.Session.{
  binary, close, other, failure, Event, audio, message, Session, Outcome, goes_on, ended, panicked,
  response_lines, on_audio, on_response, on_parsed, on_message, step, run, opened, run_session,
}
use fcitx5_anytalk.Asr.Request.{Json, default_request_json}
use fcitx5_anytalk.Ipc.Task.{task_messages}

-- A message that is no status.
abbrev pub IsAnswer : ServerMsg → Type 0
IsAnswer (ServerMsg.status state) = ⊥
IsAnswer (ServerMsg.partial t) = Unit
IsAnswer (ServerMsg.final t) = Unit
IsAnswer (ServerMsg.error t) = Unit

finals-Answers : (ts : List Text) → All IsAnswer (map ServerMsg.final ts)
finals-Answers [] = tt
finals-Answers (t ∷ ts) = (tt, finals-Answers ts)

response_lines-Answers :
    (partial : Option Text) (finals : List Text) (r : AsrTexts)
    → r.partial ≡ partial
    → All IsAnswer (response_lines r)
unfolding response_lines
response_lines-Answers none finals r e = rw (e, response_lines) (finals-Answers r.finals)
response_lines-Answers (some p) finals r e = rw (e, response_lines) (tt, finals-Answers r.finals)

-- The lines of an outcome are no status messages.
abbrev pub Answers : Outcome → Type 0
Answers (goes_on s) = All IsAnswer s.lines
Answers (ended s) = All IsAnswer s.lines
Answers panicked = Unit

on_audio-lines :
    (s : Session) (msg : Option AudioMsg) (sent : Bool) → (on_audio s msg sent).lines ≡ s.lines
unfolding on_audio
on_audio-lines s none sent = refl
on_audio-lines s (some (chunk bytes)) sent = refl

module _ (json : JsonLib) (mode : Text) where
  on_response-Answers :
      (s : Session) (json_text : Text) (flags : ℕ)
      → All IsAnswer s.lines
      → Answers (on_response json mode s json_text flags)
  unfolding on_response
  on_response-Answers s json_text flags h =
      elim (Option-cases (parse_asr_texts json json_text s.asr mode)) [
        | inl panic ↦ rw (panic, Answers, on_response) tt
        | inr (r, parsed) ↦
            let more =
              All-append IsAnswer s.lines (response_lines r) h
                (response_lines-Answers r.partial r.finals r refl) in
            elim (Bool-cases (flags == 3)) [
              | inl last ↦ rw (parsed, last, Answers, on_response) more
              | inr not_last ↦ rw (parsed, not_last, Answers, on_response) more
            ]
      ]

  on_parsed-Answers :
      (s : Session) (parsed : ParsedServerMessage) (kind : Kind) (text? : Option Text)
      → parsed.kind ≡ kind
      → parsed.json_text ≡ text?
      → All IsAnswer s.lines
      → Answers (on_parsed json mode s parsed)
  unfolding on_parsed
  on_parsed-Answers s parsed Kind.error text? e at h =
      rw (e, Answers, on_parsed) (All-append IsAnswer s.lines _ h (tt, tt))
  on_parsed-Answers s parsed Kind.unknown text? e at h = rw (e, Answers, on_parsed) h
  on_parsed-Answers s parsed Kind.response none e at h = rw (e, at, Answers, on_parsed) h
  on_parsed-Answers s parsed Kind.response (some json_text) e at h =
      rw (e, at, Answers, on_parsed) (on_response-Answers s json_text parsed.flags h)

  pub step-Answers :
      (s : Session) (event : Event) → All IsAnswer s.lines → Answers (step json mode s event)
  unfolding step on_message
  step-Answers s (message (some (binary bytes))) h =
      elim (Option-cases (parse_server_message bytes)) [
        | inl panic ↦ rw (panic, Answers, step, on_message) tt
        | inr (parsed, at) ↦
            rw (at, Answers, step, on_message)
              (on_parsed-Answers s parsed parsed.kind parsed.json_text refl refl h)
      ]
  step-Answers s (message (some close)) h = h
  step-Answers s (message (some other)) h = h
  step-Answers s (message (some failure)) h = h
  step-Answers s (message none) h = h
  step-Answers s (audio msg sent) h = elim (Bool-cases s.audio_active) [
    | inl active ↦
        rw (active, Answers, step)
          (subst (All IsAnswer) (sym (on_audio-lines (record s { audio_active = true }) msg sent))
            h)
    | inr over ↦ rw (over, Answers, step) h
  ]

  next-Answers :
      (s : Session) (event : Event) (events : List Event) (o : Outcome)
      → step json mode s event ≡ o
      → Answers o
      → ((s' : Session) → All IsAnswer s'.lines → Answers (run json mode s' events))
      → Answers (run json mode s (event ∷ events))
  unfolding run
  next-Answers s event events (goes_on s') e at later = rw (e, Answers, run) (later s' at)
  next-Answers s event events (ended s') e at later = rw (e, Answers, run) at
  next-Answers s event events panicked e at later = rw (e, Answers, run) tt

  run-Answers :
      (s : Session) (events : List Event) → All IsAnswer s.lines → Answers (run json mode s events)
  unfolding run
  run-Answers s [] h = h
  run-Answers s (event ∷ events) h =
      next-Answers s event events (step json mode s event) refl (step-Answers s event h)
        (λ s' at. run-Answers s' events at)

-- What follows the answers of a task: the idle status, once the session is over.
abbrev pub ending_of : Text ⊎ Outcome → List ServerMsg
ending_of (inl e) = ServerMsg.status (text "idle") ∷ []
ending_of (inr (ended s)) = ServerMsg.status (text "idle") ∷ []
ending_of (inr (goes_on s)) = []
ending_of (inr panicked) = []

outcome-idle :
    (o : Outcome)
    → Answers o
    → o ≢ panicked
    → (front : List ServerMsg) × (task_messages (inr o) ≡ some (front ++ ending_of (inr o)))
      × All IsAnswer front
unfolding task_messages
outcome-idle (goes_on s) at h = (s.lines, ap some (sym (append-nil s.lines)), at)
outcome-idle (ended s) at h = (s.lines, refl, at)
outcome-idle panicked at h = absurd (h refl)

-- A task that has not panicked sends answers, none of them a status, and when its session is over,
-- also where the first frame could not be sent, then `idle` once as its last message; before that
-- it sends no status.
pub task_messages-idle :
    (json : JsonLib) (to_string : Json → Text) (mode : Text) (sent : Option Text)
    (events : List Event)
    → let r = run_session json to_string mode sent events in
      r ≢ inr panicked
      → (front : List ServerMsg) × (task_messages r ≡ some (front ++ ending_of r))
        × All IsAnswer front
unfolding run_session
task_messages-idle json to_string mode (some e) events h =
    (ServerMsg.error (text "ws send error: " ++ e) ∷ [], unfold task_messages in refl, (tt, tt))
task_messages-idle json to_string mode none events h =
    let first = opened (default_request_json to_string mode) in
    outcome-idle (run json mode first events)
      (run-Answers json mode first events (unfold opened in tt)) (λ e. h (ap inr e))
