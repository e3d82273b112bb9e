-- ===== src/Asr/Texts/Tests.antt =====
-- parse_asr_texts on concrete responses, and its theorems there.
use fcitx5_anytalk.Prelude.{◌≡◌, refl, [], ◌∷◌, ◌++◌, some, if◌then◌else◌}
use fcitx5_anytalk.Prelude.Int.{pos}
use fcitx5_anytalk.Text.{Text, text, text_eq, is_empty, trim, trim_start, trim_end, is_whitespace}
use fcitx5_anytalk.Asr.Sample.{sample, hello, world, draft}
use fcitx5_anytalk.Asr.Texts.{
  AsrTexts, initial, parse_asr_texts, response_texts, utterance_texts, commit_utterances,
  commit_utterance, find_partial, is_definite, end_time, utterance_text,
}
use fcitx5_anytalk.Asr.Texts.Utterances.{HasUtterances, parse-partial, last_provisional}
use fcitx5_anytalk.Asr.Texts.FullText.{HasText, parse-extends}

one : HasUtterances sample (text "1") (hello ∷ [])
unfolding text_eq
one = record { obj = _; result = _; parsed = refl; has_result = refl; listed = refl }

two : HasUtterances sample (text "2") ((hello ∷ []) ++ (world ∷ draft ∷ []))
unfolding text_eq
two = record { obj = _; result = _; parsed = refl; has_result = refl; listed = refl }

first : HasText sample (text "t") (text "hello")
unfolding text_eq
first = record {
  obj = _;
  result = _;
  parsed = refl;
  has_result = refl;
  unlisted = refl;
  has_text = refl;
}

longer : HasText sample (text "u") (text "hello world")
unfolding text_eq
longer = record {
  obj = _;
  result = _;
  parsed = refl;
  has_result = refl;
  unlisted = refl;
  has_text = refl;
}

abbrev nostream : Text
nostream = text "nostream"

two_test :
    parse_asr_texts sample (text "2") initial nostream
    ≡ some (record {
      partial = some (text "and");
      finals = text "hello" ∷ text "world" ∷ [];
      state = record { last_committed_end_time = pos 1700; last_full_text = [] };
    })
unfolding parse_asr_texts response_texts utterance_texts commit_utterances commit_utterance
    find_partial is_definite end_time utterance_text text_eq trim trim_start trim_end is_whitespace
two_test = refl

parse-partial_example :
    (r : AsrTexts) × (parse_asr_texts sample (text "2") initial nostream ≡ some r)
    × (r.partial ≡ last_provisional sample (hello ∷ world ∷ draft ∷ []))
parse-partial_example =
    parse-partial sample (text "2") (hello ∷ world ∷ draft ∷ []) initial nostream two

parse-extends_example :
    (r r' : AsrTexts) × (parse_asr_texts sample (text "t") initial nostream ≡ some r)
    × (parse_asr_texts sample (text "u") r.state nostream ≡ some r')
    × (r'.finals ≡ (if is_empty (trim (text " world")) then [] else trim (text " world") ∷ []))
unfolding trim trim_start trim_end is_whitespace text_eq
parse-extends_example =
    parse-extends sample (text "t") (text "u") (text "hello") (text "hello world") (text " world")
      nostream initial first longer refl refl refl
