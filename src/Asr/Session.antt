-- ===== src/Asr/Session.antt =====
-- run_session of anytalk-daemon/src/asr.rs. One round of the `select!` loop is a step on an event: a
-- receive from the audio channel, with whether the send that it causes succeeds, or an item of the
-- WebSocket stream. What is sent is logged in order: binary frames, and messages to the client.
pub mod Runs
pub mod Frames
pub mod Told
pub mod Grows
pub mod Ends
pub mod Finals
pub mod Commits
pub mod Sample
mod Tests
use fcitx5_anytalk.Prelude.{
  ◌⊎◌, inl, inr, ℕ, ◌+◌, ◌%◌, ◌^◌, Bool, true, false, List, [], ◌∷◌, ◌++◌, map, Option, none, some,
  if◌then◌else◌, ◌==◌,
}
use fcitx5_anytalk.Text.{Text, text}
use fcitx5_anytalk.Protocol.{
  ParsedServerMessage, Kind, build_full_client_request, build_audio_only_request,
  parse_server_message,
}
use fcitx5_anytalk.Audio.Msg.{AudioMsg, chunk}
use fcitx5_anytalk.Ipc.Msg.{ServerMsg}
use fcitx5_anytalk.Asr.Json.{JsonLib}
use fcitx5_anytalk.Asr.Request.{Json, default_request_json}
use fcitx5_anytalk.Asr.Texts.{AsrState, AsrTexts, initial, parse_asr_texts, unwrap_or}

-- What `ws_read.next()` gives within `Some`; `other` is a text, ping, pong or raw frame.
pub data WsItem : Type 0 where
  binary : List ℕ → WsItem
  close : WsItem
  other : WsItem
  failure : WsItem

-- The Boolean says whether `ws_write.send` succeeds.
pub data Event : Type 0 where
  audio : Option AudioMsg → Bool → Event
  message : Option WsItem → Event

pub record Session : Type 0 where
  pub audio_active : Bool
  pub chunk_count : ℕ  -- i32, as a bit pattern
  pub asr : AsrState
  pub frames : List (List ℕ)
  pub lines : List ServerMsg

-- The loop goes on, it has been left by `break`, or the task has panicked.
pub data Outcome : Type 0 where
  goes_on : Session → Outcome
  ended : Session → Outcome
  panicked : Outcome

-- The messages of one response: the provisional text, then the final ones.
unfoldable pub response_lines : AsrTexts → List ServerMsg
response_lines r =
    (elim r.partial [ none ↦ [] | some p ↦ ServerMsg.partial p ∷ [] ])
    ++ map ServerMsg.final r.finals

-- `chunk_count` is an i32, here as its 32 bits, which wrap around as in a release build; it feeds a log
-- line only. A debug build panics after 2^31 - 1 chunks, thirteen years of audio.
unfoldable pub on_audio : Session → Option AudioMsg → Bool → Session
on_audio s (some (chunk bytes)) sent = record s {
  chunk_count = (s.chunk_count + 1) % 2 ^ 32;
  frames = s.frames ++ (build_audio_only_request bytes false ∷ []);
  audio_active = if sent then s.audio_active else false;
}
on_audio s none sent = record s {
  frames = s.frames ++ (build_audio_only_request [] true ∷ []);
  audio_active = false;
}

module _ (json : JsonLib) (mode : Text) where
  -- A response with its text: the flags 0b0011 mark the last one.
  unfoldable pub on_response : Session → Text → ℕ → Outcome
  unfolding response_lines
  on_response s json_text flags = elim (parse_asr_texts json json_text s.asr mode) [
    | none ↦ panicked
    | some r ↦
        let s' = record s { asr = r.state; lines = s.lines ++ response_lines r } in
        if flags == 0b0011 then ended s' else goes_on s'
  ]

  unfoldable pub on_parsed : Session → ParsedServerMessage → Outcome
  on_parsed s parsed = elim parsed.kind [
    | Kind.error ↦
        let msg = unwrap_or parsed.error_msg (text "server error") in
        ended (record s { lines = s.lines ++ (ServerMsg.error msg ∷ []) })
    | Kind.unknown ↦ goes_on s
    | Kind.response ↦ elim parsed.json_text [
      | none ↦ goes_on s
      | some json_text ↦ on_response s json_text parsed.flags
    ]
  ]

  unfoldable pub on_message : Session → Option WsItem → Outcome
  on_message s (some (binary bytes)) = elim (parse_server_message bytes) [
    | none ↦ panicked
    | some parsed ↦ on_parsed s parsed
  ]
  on_message s (some close) = ended s
  on_message s (some other) = goes_on s
  on_message s (some failure) = ended s
  on_message s none = ended s

  -- The audio branch is not polled once `audio_active` is false, and it stays false.
  unfoldable pub step : Session → Event → Outcome
  step s (audio msg sent) = if s.audio_active then goes_on (on_audio s msg sent) else goes_on s
  step s (message item) = on_message s item

  -- The loop over the events of a session, up to the one that ends it.
  unfoldable pub run : Session → List Event → Outcome
  run s [] = goes_on s
  run s (e ∷ es) = elim (step s e) [
    | goes_on s' ↦ run s' es
    | ended s' ↦ ended s'
    | panicked ↦ panicked
  ]

-- The values before the loop, after the first frame has been sent.
unfoldable pub opened : Text → Session
opened req_json = record {
  audio_active = true;
  chunk_count = 0;
  asr = initial;
  frames = build_full_client_request req_json ∷ [];
  lines = [];
}

-- The whole function: an error if the first send fails, else the loop.
unfoldable pub run_session :
    JsonLib → (Json → Text) → Text → Option Text → List Event → Text ⊎ Outcome
run_session json to_string mode (some e) events = inl (text "ws send error: " ++ e)
run_session json to_string mode none events =
    inr (run json mode (opened (default_request_json to_string mode)) events)
