-- ===== src/Asr/Texts.antt =====
-- parse_asr_texts of anytalk-daemon/src/asr.rs: what of one response of the service is shown as
-- provisional text and what is committed.
pub mod Commits
pub mod Utterances
pub mod FullText
pub mod Told
mod Tests
use fcitx5_anytalk.Prelude.{
  ◌≡◌, Bool, true, false, ◌&&◌, not, List, [], ◌∷◌, ◌++◌, reverse, Option, none, some, ◌>>=◌,
  if◌then◌else◌,
}
use fcitx5_anytalk.Prelude.Int.{ℤ, negsuc, leb_ℤ}
use fcitx5_anytalk.Text.{Text, text, text_eq, is_empty, starts_with, trim, byte_len, slice_from}
use fcitx5_anytalk.Asr.Json.{JsonLib}

-- The two values that the function updates through `&mut`.
pub record AsrState : Type 0 where
  pub last_committed_end_time : ℤ
  pub last_full_text : Text

-- The values that a session begins with: -1 and the empty string.
abbrev pub initial : AsrState
initial = record { last_committed_end_time = negsuc 0; last_full_text = [] }

-- The returned pair (partial, finals) and the updated state.
pub record AsrTexts : Type 0 where
  pub partial : Option Text
  pub finals : List Text
  pub state : AsrState

abbrev pub unwrap_or {ℓ} : {A : Type ℓ} → Option A → A → A
unwrap_or none d = d
unwrap_or (some a) d = a

-- The second half of the function, where the result has no list of utterances.
unfoldable pub full_text : Text → Text → AsrState → Option AsrTexts
full_text txt mode st =
    let full = trim txt in
    let last = st.last_full_text in
    let st' = record st { last_full_text = full } in
    if is_empty full
    then some (record { partial = none; finals = []; state = st })
    else if text_eq mode (text "bidi_async")
    then some (record { partial = some full; finals = full ∷ []; state = st' })
    else if not (is_empty last) && starts_with full last
    then (slice_from full (byte_len last) >>= λ rest.
        let suffix = trim rest in
        some (record {
          partial = none;
          finals = if is_empty suffix then [] else suffix ∷ [];
          state = st';
        }))
    else if not (text_eq full last)
    then some (record { partial = none; finals = full ∷ []; state = st' })
    else some (record { partial = none; finals = []; state = st' })

module _ (json : JsonLib) where
  open json use {Value, from_str, get, as_array, as_bool, as_i64, as_str}

  unfoldable pub is_definite : Value → Bool
  is_definite u = unwrap_or (get u (text "definite") >>= as_bool) false

  unfoldable pub end_time : Value → ℤ
  end_time u = unwrap_or (get u (text "end_time") >>= as_i64) (negsuc 0)

  unfoldable pub utterance_text : Value → Option Text
  utterance_text u = get u (text "text") >>= as_str

  -- One round of the first loop, over the time of the last commit and the texts committed so far.
  unfoldable pub commit_utterance : Value → ℤ → List Text → ℤ × List Text
  commit_utterance u last finals =
      if not (is_definite u)
      then (last, finals)
      else if leb_ℤ (end_time u) last
      then (last, finals)
      else elim (utterance_text u) [
        | none ↦ (last, finals)
        | some txt ↦
            if is_empty (trim txt) then (last, finals) else (end_time u, finals ++ (trim txt ∷ []))
      ]

  unfoldable pub commit_utterances : List Value → ℤ → List Text → ℤ × List Text
  commit_utterances [] last finals = (last, finals)
  commit_utterances (u ∷ us) last finals =
      let (last', finals') = commit_utterance u last finals in commit_utterances us last' finals'

  -- The second loop, over the utterances in reverse.
  unfoldable pub find_partial : List Value → Option Text
  find_partial [] = none
  find_partial (u ∷ us) =
      let rest = find_partial us in
      if is_definite u then rest else elim (utterance_text u) [
        | none ↦ rest
        | some txt ↦ if is_empty (trim txt) then rest else some (trim txt)
      ]

  unfoldable pub utterance_texts : List Value → AsrState → AsrTexts
  utterance_texts us st =
      let (last, finals) = commit_utterances us st.last_committed_end_time [] in
      record {
        partial = find_partial (reverse us);
        finals = finals;
        state = record st { last_committed_end_time = last };
      }

  -- The function on a parsed response, and on its text; `none` is a panic.
  unfoldable pub response_texts : Value → AsrState → Text → Option AsrTexts
  response_texts obj st mode = elim (get obj (text "result")) [
    | none ↦ some (record { partial = none; finals = []; state = st })
    | some result ↦ elim (get result (text "utterances") >>= as_array) [
      | some us ↦ some (utterance_texts us st)
      | none ↦ elim (get result (text "text") >>= as_str) [
        | some txt ↦ full_text txt mode st
        | none ↦ some (record { partial = none; finals = []; state = st })
      ]
    ]
  ]

  unfoldable pub parse_asr_texts : Text → AsrState → Text → Option AsrTexts
  parse_asr_texts json_text st mode = elim (from_str json_text) [
    | none ↦ some (record { partial = none; finals = []; state = st })
    | some obj ↦ response_texts obj st mode
  ]
