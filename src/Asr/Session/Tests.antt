-- ===== src/Asr/Session/Tests.antt =====
-- A short session, and the theorems there.
use fcitx5_anytalk.Prelude.{
  ◌≡◌, refl, Bool, true, false, List, [], ◌∷◌, ◌++◌, ℕ, none, some, arith, concat,
}
use fcitx5_anytalk.Text.{text}
use fcitx5_anytalk.Protocol.{build_full_client_request, build_audio_only_request, u32be}
use fcitx5_anytalk.Protocol.Format.{frame_bytes}
use fcitx5_anytalk.Audio.Msg.{chunk}
use fcitx5_anytalk.Asr.Sample.{sample, hello, world}
use fcitx5_anytalk.Prelude.{All}
use fcitx5_anytalk.Prelude.Int.{negsuc}
use fcitx5_anytalk.Asr.Texts.Commits.{texts_of, IsIncreasing, IsClean}
use fcitx5_anytalk.Asr.Session.Finals.{finals_of}
use fcitx5_anytalk.Asr.Session.Sample.{nostream, answer, dictated, dictated-Narrates}
use fcitx5_anytalk.Asr.Session.Commits.{all_commits, run-commits}
use fcitx5_anytalk.Asr.Session.{
  WsItem, binary, Event, audio, message, Session, goes_on, step, run, on_audio, on_message, opened,
}
use fcitx5_anytalk.Asr.Session.Runs.{session_of}
use fcitx5_anytalk.Protocol.Format.{ServerFrame}
use fcitx5_anytalk.Text.{Text, text_eq, trim, trim_start, trim_end, is_whitespace}
use fcitx5_anytalk.Text.Utf8.{from_utf8_lossy, decode, decode_byte, lead_byte}
use fcitx5_anytalk.Asr.Texts.FullText.{HasText}
use fcitx5_anytalk.Asr.Texts.Told.{strip, not_blank, Extends, latest}
use fcitx5_anytalk.Asr.Session.Told.{Tells, answered, concluded, run-latest, run-repeats}
use fcitx5_anytalk.Asr.Session.Frames.{received, audio_frames, run-frames}
use fcitx5_anytalk.Asr.Session.Ends.{run-no_panic, Effect, on_message-Effect}

abbrev answer_bytes : List ℕ
answer_bytes = 0x11 ∷ 0x93 ∷ 0x10 ∷ 0 ∷ 0xff ∷ 0xff ∷ 0xff ∷ 0xfe ∷ 0 ∷ 0 ∷ 0 ∷ 1 ∷ text "1"

answer_test : answer_bytes ≡ frame_bytes answer
unfolding u32be
answer_test = refl

abbrev spoken : List Event
spoken =
    audio (some (chunk (1 ∷ 2 ∷ []))) true
    ∷ message (some WsItem.other)
    ∷ audio none true
    ∷ audio (some (chunk (3 ∷ 4 ∷ []))) true
    ∷ []

abbrev spoken_end : Session
spoken_end = record (opened []) {
  audio_active = false;
  chunk_count = 1;
  frames =
      build_full_client_request []
      ∷ build_audio_only_request (1 ∷ 2 ∷ []) false
      ∷ build_audio_only_request [] true
      ∷ [];
}

spoken_test : run sample nostream (opened []) spoken ≡ goes_on spoken_end
unfolding run step on_audio on_message opened
spoken_test = refl

run-frames_example :
    (chunks dropped : List (List ℕ)) × (closed : Bool) × (received spoken ≡ chunks ++ dropped)
    × (spoken_end.frames ≡ build_full_client_request [] ∷ audio_frames chunks closed)
unfolding run step on_audio on_message opened
run-frames_example = run-frames sample nostream [] spoken_end spoken refl

run-no_panic_example :
    (u : Session) × (session_of
        (run sample nostream (opened []) (message (some (binary answer_bytes)) ∷ []))
      ≡ some u)
run-no_panic_example =
    run-no_panic sample nostream (opened []) (message (some (binary answer_bytes)) ∷ [])
      (omega arith)

on_message-Effect_example :
    Effect sample nostream
      (opened [])
      answer_bytes
      (on_message sample nostream (opened []) (some (binary answer_bytes)))
on_message-Effect_example = on_message-Effect sample nostream (opened []) answer_bytes (omega arith)

run-commits_example :
    (u : Session) × (session_of (run sample nostream (opened []) dictated) ≡ some u)
    × (finals_of u.lines ≡ texts_of (all_commits sample (hello ∷ world ∷ [])))
    × IsIncreasing (negsuc 0) (all_commits sample (hello ∷ world ∷ []))
    × All IsClean (finals_of u.lines)
run-commits_example = run-commits sample nostream [] (hello ∷ world ∷ []) dictated dictated-Narrates

-- The whole text so far, twice: "hello" and, with the last response, "hello world".
abbrev said : ServerFrame
said = record answer { flags = 1; payload = text "t" }

abbrev said_more : ServerFrame
said_more = record answer { payload = text "u" }

said-HasText : HasText sample (from_utf8_lossy (text "t")) (text "hello")
unfolding text_eq from_utf8_lossy decode decode_byte lead_byte
said-HasText = record {
  obj = _;
  result = _;
  parsed = refl;
  has_result = refl;
  unlisted = refl;
  has_text = refl;
}

said_more-HasText : HasText sample (from_utf8_lossy (text "u")) (text "hello world")
unfolding text_eq from_utf8_lossy decode decode_byte lead_byte
said_more-HasText = record {
  obj = _;
  result = _;
  parsed = refl;
  has_result = refl;
  unlisted = refl;
  has_text = refl;
}

abbrev growing : List Event
growing =
    message (some (binary (frame_bytes said)))
    ∷ message (some (binary (frame_bytes said_more)))
    ∷ []

abbrev grown : List Text
grown = text "hello" ∷ text "hello world" ∷ []

growing-Tells : Tells sample growing grown
growing-Tells =
    answered said (text "hello") _ (text "hello world" ∷ []) (omega arith) refl refl said-HasText
      (concluded said_more (text "hello world") [] (omega arith) refl refl said_more-HasText)

grown-Extends : Extends [] grown
unfolding trim trim_start trim_end is_whitespace
grown-Extends = (text "hello", refl, (text " world", refl, _))

run-latest_example :
    (u : Session) × (session_of (run sample nostream (opened []) growing) ≡ some u)
    × (strip (concat (finals_of u.lines)) ≡ strip (latest [] grown))
unfolding text_eq
run-latest_example = run-latest sample nostream [] growing grown refl growing-Tells grown-Extends

run-repeats_example :
    (u : Session) × (session_of (run sample (text "bidi_async") (opened []) growing) ≡ some u)
    × (finals_of u.lines ≡ not_blank grown)
run-repeats_example = run-repeats sample [] growing grown growing-Tells

not_blank_test : not_blank grown ≡ grown
unfolding not_blank trim trim_start trim_end is_whitespace
not_blank_test = refl
