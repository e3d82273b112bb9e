-- ===== src/Asr/Texts/FullText.antt =====
-- parse_asr_texts on responses with one text for the whole session, and on every response.
use fcitx5_anytalk.Prelude.{
  ◌≡◌, refl, ◌∙◌, ◌≢◌, inl, inr, true, false, [], ◌∷◌, ◌++◌, none, some, ◌>>=◌, arith, All,
  if◌then◌else◌, Option-cases, Bool-cases,
}
use fcitx5_anytalk.Text.{Text, text, is_empty, trim, text_eq, starts_with, slice_from, byte_len}
use fcitx5_anytalk.Text.Trim.{trim_idem}
use fcitx5_anytalk.Text.Slice.{
  text_eq_refl, starts_with→append, starts_with-append, slice_from-append,
}
use fcitx5_anytalk.Asr.Json.{JsonLib}
use fcitx5_anytalk.Asr.Texts.{
  AsrState, AsrTexts, full_text, utterance_texts, response_texts, parse_asr_texts,
}
use fcitx5_anytalk.Asr.Texts.Commits.{IsClean}
use fcitx5_anytalk.Asr.Texts.Utterances.{utterance_texts-IsClean}

-- The slice of the source stands at a character boundary, since it is made behind a prefix.
slice_from-starts_with :
    (full last : Text)
    → starts_with full last ≡ true
    → (s : Text) × (full ≡ last ++ s) × (slice_from full (byte_len last) ≡ some s)
slice_from-starts_with full last h =
    let (s, e) = starts_with→append full last h in (s, e, rw e (slice_from-append last s))

-- On a text for the whole session the function does not panic.
full_text-ne-none : (txt mode : Text) (st : AsrState) → full_text txt mode st ≢ none
unfolding full_text
full_text-ne-none txt mode st =
    let last = st.last_full_text in
    elim (Bool-cases (starts_with (trim txt) last)) [
      | inl h ↦
          let (s, e, sliced) = slice_from-starts_with (trim txt) last h in ground (arith, sliced)
      | inr h ↦ ground arith
    ]

full_text-IsClean :
    (txt mode : Text) (st : AsrState) {r : AsrTexts}
    → full_text txt mode st ≡ some r
    → All IsClean r.finals
unfolding full_text
full_text-IsClean txt mode st h =
    elim (Option-cases (slice_from (trim txt) (byte_len st.last_full_text))) [
      | inl e ↦ ground (arith, trim_idem txt)
      | inr (s, e) ↦ ground (arith, trim_idem txt, trim_idem s)
    ]

is_empty-append : (s t : Text) → is_empty s ≡ false → is_empty (s ++ t) ≡ false
is_empty-append [] t h = cc
is_empty-append (c ∷ s) t h = refl

-- What a response adds to the text of the session, where the text of the session so far is not
-- empty: nothing if that is all of it, else what follows it.
pub full_text-append :
    (txt mode s : Text) (st : AsrState)
    → text_eq mode (text "bidi_async") ≡ false
    → is_empty st.last_full_text ≡ false
    → trim txt ≡ st.last_full_text ++ s
    → full_text txt mode st
      ≡ some (record {
        partial = none;
        finals = if is_empty (trim s) then [] else trim s ∷ [];
        state = record st { last_full_text = trim txt };
      })
unfolding full_text
full_text-append txt mode s st m n e =
    let last = st.last_full_text in
    let prefix : starts_with (trim txt) last ≡ true = rw e (starts_with-append last s) in
    let sliced : slice_from (trim txt) (byte_len last) ≡ some s = rw e (slice_from-append last s) in
    let filled : is_empty (trim txt) ≡ false = rw e (is_empty-append last s n) in
    ground (arith, m, n, prefix, sliced, filled)

full_text-state :
    (txt mode : Text) (st : AsrState) {r : AsrTexts}
    → is_empty (trim txt) ≡ false
    → full_text txt mode st ≡ some r
    → r.state ≡ record st { last_full_text = trim txt }
unfolding full_text
full_text-state txt mode st n h =
    elim (Option-cases (slice_from (trim txt) (byte_len st.last_full_text))) [
      | inl e ↦ ground arith
      | inr (s, e) ↦ ground arith
    ]

pub full_text-bidi_async :
    (txt : Text) (st : AsrState)
    → is_empty (trim txt) ≡ false
    → full_text txt (text "bidi_async") st
      ≡ some (record {
        partial = some (trim txt);
        finals = trim txt ∷ [];
        state = record st { last_full_text = trim txt };
      })
unfolding full_text
full_text-bidi_async txt st n = ground (arith, n, text_eq_refl (text "bidi_async"))

module _ (json : JsonLib) where
  open json use {Value, from_str, get, as_array, as_str}

  -- The text of a response parses, and its result lists no utterances and has this text.
  pub record HasText (json_text txt : Text) : Type 0 where
    pub obj : Value
    pub result : Value
    pub parsed : from_str json_text ≡ some obj
    pub has_result : get obj (text "result") ≡ some result
    pub unlisted : (get result (text "utterances") >>= as_array) ≡ none
    pub has_text : (get result (text "text") >>= as_str) ≡ some txt

  pub parse-full_text :
      (json_text txt : Text) (st : AsrState) (mode : Text)
      → HasText json_text txt
      → parse_asr_texts json json_text st mode ≡ full_text txt mode st
  unfolding parse_asr_texts response_texts
  parse-full_text json_text txt st mode h =
      ground (arith, h.parsed, h.has_result, h.unlisted, h.has_text)

  pub full_text-some :
      (txt mode : Text) (st : AsrState) → (r : AsrTexts) × (full_text txt mode st ≡ some r)
  full_text-some txt mode st = elim (Option-cases (full_text txt mode st)) [
    | inl e ↦ absurd (full_text-ne-none txt mode st e)
    | inr found ↦ found
  ]

  -- Two responses of a session in a mode other than "bidi_async", with no utterances: the first has
  -- a text that is not blank, and the second continues it. The second commits what follows, trimmed,
  -- and nothing if that is blank, as where it repeats the first.
  pub parse-extends :
      (j j' txt txt' s mode : Text) (st : AsrState)
      → HasText j txt
      → HasText j' txt'
      → text_eq mode (text "bidi_async") ≡ false
      → is_empty (trim txt) ≡ false
      → trim txt' ≡ trim txt ++ s
      → (r r' : AsrTexts) × (parse_asr_texts json j st mode ≡ some r)
        × (parse_asr_texts json j' r.state mode ≡ some r')
        × (r'.finals ≡ (if is_empty (trim s) then [] else trim s ∷ []))
  parse-extends j j' txt txt' s mode st h h' m n e =
      let (r, first) = full_text-some txt mode st in
      let st' = record st { last_full_text = trim txt } in
      let second = full_text-append txt' mode s st' m n e in
      (
        r,
        record {
          partial = none;
          finals = if is_empty (trim s) then [] else trim s ∷ [];
          state = record st' { last_full_text = trim txt' };
        },
        parse-full_text j txt st mode h ∙ first,
        rw (full_text-state txt mode st n first) (parse-full_text j' txt' st' mode h' ∙ second),
        refl,
      )

  response_texts_total :
      (obj : Value) (st : AsrState) (mode : Text)
      → (r : AsrTexts) × (response_texts json obj st mode ≡ some r) × All IsClean r.finals
  unfolding response_texts
  response_texts_total obj st mode = elim (Option-cases (get obj (text "result"))) [
    | inl e ↦ (unchanged, ground (arith, e), tt)
    | inr (result, e) ↦ elim (Option-cases (get result (text "utterances") >>= as_array)) [
      | inr (us, listed) ↦ (
        utterance_texts json us st,
        ground (arith, e, listed),
        utterance_texts-IsClean json us st,
      )
      | inl unlisted ↦ elim (Option-cases (get result (text "text") >>= as_str)) [
        | inl no_text ↦ (unchanged, ground (arith, e, unlisted, no_text), tt)
        | inr (txt, has_text) ↦
            let (r, found) = full_text-some txt mode st in
            (r, ground (arith, e, unlisted, has_text, found), full_text-IsClean txt mode st found)
      ]
    ]
  ]
    where
      unchanged : AsrTexts
      unchanged = record { partial = none; finals = []; state = st }

  -- On every response, of any shape, the function returns and does not panic, and each text that it
  -- commits is trimmed and not empty.
  pub parse_asr_texts_total :
      (json_text : Text) (st : AsrState) (mode : Text)
      → (r : AsrTexts) × (parse_asr_texts json json_text st mode ≡ some r) × All IsClean r.finals
  unfolding parse_asr_texts
  parse_asr_texts_total json_text st mode = elim (Option-cases (from_str json_text)) [
    | inl e ↦ (record { partial = none; finals = []; state = st }, rw (e, parse_asr_texts), tt)
    | inr (obj, e) ↦
        let (r, found, clean) = response_texts_total obj st mode in
        (r, ground (arith, e, found), clean)
  ]
