-- ===== src/Plugin/Engine/Dictation/Tests.antt =====
-- Two words said, and where they arrive.
use fcitx5_anytalk.Prelude.{true, false, ◌≡◌, refl, inr, some, List, [], ◌∷◌, ◌++◌, map, append-nil}
use fcitx5_anytalk.Text.{text}
use fcitx5_anytalk.Ipc.Msg.{ServerMsg}
use fcitx5_anytalk.Asr.Sample.{sample, hello, world}
use fcitx5_anytalk.Asr.Texts.Commits.{texts_of}
use fcitx5_anytalk.Asr.Session.Commits.{all_commits}
use fcitx5_anytalk.Asr.Session.Sample.{
  nostream, dictated, dictated_end, dictated-Narrates, dictated-end,
}
use fcitx5_anytalk.Plugin.Lines.{receive_all}
use fcitx5_anytalk.Plugin.Messages.{Callback, handle_lines}
use fcitx5_anytalk.Plugin.Messages.Wire.{wire_bytes}
use fcitx5_anytalk.Plugin.Messages.Fixed.{agreed, agreed-Wire, to_line}
use fcitx5_anytalk.Plugin.Engine.{Engine, called, engine_run}
use fcitx5_anytalk.Plugin.Engine.Dictation.{commits_of, placed, dictation-commits}

abbrev recorder : Engine
recorder = record {
  recording = true;
  ignore_next_commit = false;
  last_text = [];
  current_state = text "recording";
  active_ic = some 3;
}

abbrev begin : List ServerMsg
begin = ServerMsg.status (text "recording") ∷ []

abbrev finish : List ServerMsg
finish = ServerMsg.status (text "idle") ∷ []

dictation-commits_example :
    (callbacks : List Callback) × (handle_lines agreed
        ((receive_all [] (wire_bytes to_line (begin ++ (dictated_end.lines ++ finish)) ∷ [])).0)
      ≡ some callbacks)
    × (commits_of ((engine_run (map (called (some 3)) callbacks) recorder).1)
        ≡ map (placed 3) (texts_of (all_commits sample (hello ∷ world ∷ []))))
dictation-commits_example =
    dictation-commits sample nostream agreed to_line agreed-Wire [] (hello ∷ world ∷ []) dictated
      dictated_end begin finish (wire_bytes to_line (begin ++ (dictated_end.lines ++ finish)) ∷ [])
      3 recorder dictated-Narrates dictated-end refl refl
      (append-nil (wire_bytes to_line (begin ++ (dictated_end.lines ++ finish)))) (inr refl, refl)
