-- ===== src/Asr/Session/Finals.antt =====
-- The committed texts among the lines for the client.
use fcitx5_anytalk.Prelude.{Option-cases, ◌≡◌, refl, ap, inl, inr, List, [], ◌∷◌, ◌++◌, map}
use fcitx5_anytalk.Text.{Text}
use fcitx5_anytalk.Ipc.Msg.{ServerMsg}
use fcitx5_anytalk.Asr.Texts.{AsrTexts}
use fcitx5_anytalk.Asr.Session.{response_lines}

-- The committed texts among some lines.
abbrev pub finals_of : List ServerMsg → List Text
finals_of [] = []
finals_of (ServerMsg.status s ∷ lines) = finals_of lines
finals_of (ServerMsg.partial t ∷ lines) = finals_of lines
finals_of (ServerMsg.final t ∷ lines) = t ∷ finals_of lines
finals_of (ServerMsg.error m ∷ lines) = finals_of lines

pub finals_of-append :
    (ls ms : List ServerMsg) → finals_of (ls ++ ms) ≡ finals_of ls ++ finals_of ms
finals_of-append [] ms = refl
finals_of-append (ServerMsg.status s ∷ ls) ms = finals_of-append ls ms
finals_of-append (ServerMsg.partial t ∷ ls) ms = finals_of-append ls ms
finals_of-append (ServerMsg.final t ∷ ls) ms =
    ap (λ (r : List Text). t ∷ r) (finals_of-append ls ms)
finals_of-append (ServerMsg.error m ∷ ls) ms = finals_of-append ls ms

pub finals_of-map : (ts : List Text) → finals_of (map ServerMsg.final ts) ≡ ts
finals_of-map [] = refl
finals_of-map (t ∷ ts) = ap (λ (r : List Text). t ∷ r) (finals_of-map ts)

pub finals_of-response_lines : (r : AsrTexts) → finals_of (response_lines r) ≡ r.finals
unfolding response_lines
finals_of-response_lines r = elim (Option-cases r.partial) [
  | inl e ↦ rw (e, response_lines) (finals_of-map r.finals)
  | inr (t, e) ↦ rw (e, response_lines) (finals_of-map r.finals)
]
