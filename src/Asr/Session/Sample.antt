-- ===== src/Asr/Session/Sample.antt =====
-- A session of two responses, at which the theorems are applied.
use fcitx5_anytalk.Prelude.{◌≡◌, refl, true, false, List, [], ◌∷◌, none, some, arith}
use fcitx5_anytalk.Text.{Text, text}
use fcitx5_anytalk.Protocol.{
  build_full_client_request, build_audio_only_request, u32be, parse_server_message, parse_response,
  u32_at, slice,
}
use fcitx5_anytalk.Protocol.Format.{ServerFrame, frame_bytes}
use fcitx5_anytalk.Asr.Sample.{sample, hello, guess, world, draft}
use fcitx5_anytalk.Prelude.Int.{pos}
use fcitx5_anytalk.Text.{text_eq, trim, trim_start, trim_end, is_whitespace}
use fcitx5_anytalk.Ipc.Msg.{ServerMsg}
use fcitx5_anytalk.Asr.Texts.{
  parse_asr_texts, response_texts, utterance_texts, commit_utterances, commit_utterance,
  find_partial, is_definite, end_time, utterance_text,
}
use fcitx5_anytalk.Text.Utf8.{from_utf8_lossy, decode, decode_byte, lead_byte}
use fcitx5_anytalk.Asr.Texts.Commits.{definites}
use fcitx5_anytalk.Asr.Texts.Utterances.{HasUtterances}
use fcitx5_anytalk.Asr.Session.Commits.{Narrates, heard, answered, concluded}
use fcitx5_anytalk.Asr.Session.{
  binary, Event, audio, message, Session, goes_on, step, run, on_audio, on_message, on_parsed,
  on_response, response_lines, opened,
}
use fcitx5_anytalk.Asr.Session.Runs.{session_of}

abbrev pub nostream : Text
nostream = text "nostream"

-- The last response, with the text "1".
abbrev pub answer : ServerFrame
answer = record {
  message_type = 9;
  flags = 3;
  b2 = 0x10;
  b3 = 0;
  w0 = 0xff;
  w1 = 0xff;
  w2 = 0xff;
  w3 = 0xfe;
  payload = text "1";
  rest = [];
}

-- A response that lists one definite utterance, one with a provisional one behind it, and the last
-- one, which lists another definite one in its place, and a provisional one.
abbrev pub first : ServerFrame
first = record answer { flags = 1 }

abbrev pub guessed : ServerFrame
guessed = record first { payload = text "3" }

abbrev pub second : ServerFrame
second = record answer { payload = text "2" }

pub one : HasUtterances sample (from_utf8_lossy (text "1")) (hello ∷ [])
unfolding text_eq from_utf8_lossy decode decode_byte lead_byte
one = record { obj = _; result = _; parsed = refl; has_result = refl; listed = refl }

pub one_guess : HasUtterances sample (from_utf8_lossy (text "3")) (hello ∷ guess ∷ [])
unfolding text_eq from_utf8_lossy decode decode_byte lead_byte
one_guess = record { obj = _; result = _; parsed = refl; has_result = refl; listed = refl }

pub three : HasUtterances sample (from_utf8_lossy (text "2")) (hello ∷ world ∷ draft ∷ [])
unfolding text_eq from_utf8_lossy decode decode_byte lead_byte
three = record { obj = _; result = _; parsed = refl; has_result = refl; listed = refl }

abbrev pub dictated : List Event
dictated =
    message (some (binary (frame_bytes first)))
    ∷ message (some (binary (frame_bytes guessed)))
    ∷ audio none true
    ∷ message (some (binary (frame_bytes second)))
    ∷ []

pub dictated-Narrates : Narrates sample [] dictated (hello ∷ world ∷ [])
unfolding definites is_definite text_eq
dictated-Narrates =
    answered [] (hello ∷ []) _ (hello ∷ []) first _ (omega arith) refl refl one refl (
      answered (hello ∷ []) [] _ (hello ∷ guess ∷ []) guessed _ (omega arith) refl refl one_guess
        refl
        (heard _ _ none true _ (
          concluded (hello ∷ []) (world ∷ []) (hello ∷ world ∷ draft ∷ []) second [] (omega arith)
            refl refl three refl)))

abbrev pub dictated_end : Session
dictated_end = record (opened []) {
  audio_active = false;
  asr = record { last_committed_end_time = pos 1700; last_full_text = [] };
  frames = build_full_client_request [] ∷ build_audio_only_request [] true ∷ [];
  lines =
      ServerMsg.final (text "hello")
      ∷ ServerMsg.partial (text "word")
      ∷ ServerMsg.partial (text "and")
      ∷ ServerMsg.final (text "world")
      ∷ [];
}

pub dictated-end : session_of (run sample nostream (opened []) dictated) ≡ some dictated_end
unfolding run step on_audio on_message on_parsed on_response response_lines opened
    parse_server_message parse_response u32be parse_asr_texts response_texts utterance_texts
    commit_utterances commit_utterance find_partial is_definite end_time utterance_text text_eq trim
    trim_start trim_end is_whitespace from_utf8_lossy decode decode_byte lead_byte u32_at slice
dictated-end = refl

-- The state after the first response.
abbrev pub one_heard : Session
one_heard = record (opened []) {
  asr = record { last_committed_end_time = pos 900; last_full_text = [] };
  lines = ServerMsg.final (text "hello") ∷ [];
}

pub first-heard :
    step sample nostream (opened []) (message (some (binary (frame_bytes first))))
    ≡ goes_on one_heard
unfolding step on_message on_parsed on_response response_lines opened parse_server_message
    parse_response u32be parse_asr_texts response_texts utterance_texts commit_utterances
    commit_utterance find_partial is_definite end_time utterance_text text_eq trim trim_start
    trim_end is_whitespace from_utf8_lossy decode decode_byte lead_byte u32_at slice
first-heard = refl
