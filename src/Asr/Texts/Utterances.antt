-- ===== src/Asr/Texts/Utterances.antt =====
-- parse_asr_texts on responses that list utterances.
use fcitx5_anytalk.Prelude.{
  ◌≡◌, refl, sym, ◌∙◌, List, [], ◌∷◌, ◌++◌, reverse, Option, none, some, ◌>>=◌, arith, All,
  if◌then◌else◌,
}
use mathlib.Core.List.{reverse-cons}
use fcitx5_anytalk.Prelude.Int.{ℤ}
use fcitx5_anytalk.Text.{Text, text, is_empty, trim}
use fcitx5_anytalk.Asr.Json.{JsonLib}
use fcitx5_anytalk.Asr.Texts.{
  AsrState, AsrTexts, is_definite, utterance_text, utterance_texts, find_partial, response_texts,
  parse_asr_texts,
}
use fcitx5_anytalk.Asr.Texts.Commits.{
  Commit, IsIncreasing, IsClean, last_time, texts_of, texts_of-append, last_time-append, commits,
  commit_utterances-commits, commits-IsIncreasing, commits-IsClean, commits-append, commits_again,
}

module _ (json : JsonLib) where
  open json use {Value, from_str, get, as_array}

  -- The text of a response parses and its result lists these utterances.
  pub record HasUtterances (json_text : Text) (us : List Value) : Type 0 where
    pub obj : Value
    pub result : Value
    pub parsed : from_str json_text ≡ some obj
    pub has_result : get obj (text "result") ≡ some result
    pub listed : (get result (text "utterances") >>= as_array) ≡ some us

  pub parse-utterances :
      (json_text : Text) (us : List Value) (st : AsrState) (mode : Text)
      → HasUtterances json_text us
      → parse_asr_texts json json_text st mode ≡ some (utterance_texts json us st)
  unfolding parse_asr_texts response_texts
  parse-utterances json_text us st mode h = ground (arith, h.parsed, h.has_result, h.listed)

  -- What is committed is given by the commits, and the other string is left alone.
  pub utterance_texts-commits :
      (us : List Value) (st : AsrState)
      → let cs = commits json us st.last_committed_end_time in
        ((utterance_texts json us st).finals ≡ texts_of cs)
        × ((utterance_texts json us st).state
            ≡ record st { last_committed_end_time = last_time st.last_committed_end_time cs })
  unfolding utterance_texts
  utterance_texts-commits us st =
      rw (commit_utterances-commits json us st.last_committed_end_time []) (refl, refl)

  pub utterance_texts-IsClean :
      (us : List Value) (st : AsrState) → All IsClean (utterance_texts json us st).finals
  utterance_texts-IsClean us st =
      rw (utterance_texts-commits us st).0 (commits-IsClean json us st.last_committed_end_time)

  -- The commits of one response, in order: each has an end time after the commits before it, the
  -- state keeps the time of the last, and each text is trimmed and not empty.
  parse-IsIncreasing :
      (json_text : Text) (us : List Value) (st : AsrState) (mode : Text)
      → HasUtterances json_text us
      → (r : AsrTexts) × (cs : List Commit) × (parse_asr_texts json json_text st mode ≡ some r)
        × (r.finals ≡ texts_of cs)
        × IsIncreasing st.last_committed_end_time cs
        × (r.state
            ≡ record st { last_committed_end_time = last_time st.last_committed_end_time cs })
        × All IsClean r.finals
  parse-IsIncreasing json_text us st mode h =
      let last = st.last_committed_end_time in
      let (finals_eq, state_eq) = utterance_texts-commits us st in
      (
        utterance_texts json us st,
        commits json us last,
        parse-utterances json_text us st mode h,
        finals_eq,
        commits-IsIncreasing json us last,
        state_eq,
        rw finals_eq (commits-IsClean json us last),
      )

  -- After the commits of some utterances, a longer list of them commits only what is new.
  pub commits_grown :
      (us vs : List Value) (last : ℤ)
      → let now = last_time last (commits json us last) in
        commits json (us ++ vs) now ≡ commits json vs now
  commits_grown us vs last =
      let now = last_time last (commits json us last) in
      let done : commits json us now ≡ [] = commits_again json us last now (omega arith) in
      commits-append json us vs now ∙ rw done

  texts_again :
      (us vs : List Value) (st : AsrState)
      → let now = (utterance_texts json us st).state in
        ((utterance_texts json us st).finals ++ (utterance_texts json (us ++ vs) now).finals
          ≡ (utterance_texts json (us ++ vs) st).finals)
        × ((utterance_texts json (us ++ vs) now).state ≡ (utterance_texts json (us ++ vs) st).state)
  texts_again us vs st =
      let last = st.last_committed_end_time in
      let (finals_eq, state_eq) = utterance_texts-commits us st in
      let (whole_finals, whole_state) = utterance_texts-commits (us ++ vs) st in
      let now = record st { last_committed_end_time = last_time last (commits json us last) } in
      let (new_finals, new_state) = utterance_texts-commits (us ++ vs) now in
      rw (state_eq, finals_eq, whole_finals, whole_state, new_finals, new_state)
        (rw (commits_grown us vs last, commits-append json us vs last)
          (sym (texts_of-append _ _), rw last_time-append))

  -- The service sends the utterances so far again with each response. Two such responses, the
  -- second with more utterances or none more, together commit what the second alone would have
  -- committed: nothing is committed twice and nothing is lost.
  pub parse-cumulative :
      (j j' : Text) (us vs : List Value) (st : AsrState) (mode : Text)
      → HasUtterances j us
      → HasUtterances j' (us ++ vs)
      → (r r' q : AsrTexts) × (parse_asr_texts json j st mode ≡ some r)
        × (parse_asr_texts json j' r.state mode ≡ some r')
        × (parse_asr_texts json j' st mode ≡ some q)
        × (r.finals ++ r'.finals ≡ q.finals)
        × (r'.state ≡ q.state)
  parse-cumulative j j' us vs st mode h h' =
      let r = utterance_texts json us st in
      let (finals_eq, state_eq) = texts_again us vs st in
      (
        r,
        utterance_texts json (us ++ vs) r.state,
        utterance_texts json (us ++ vs) st,
        parse-utterances j us st mode h,
        parse-utterances j' (us ++ vs) r.state mode h',
        parse-utterances j' (us ++ vs) st mode h',
        finals_eq,
        state_eq,
      )

  -- The trimmed text of an utterance that is not definite and not blank.
  unfoldable pub provisional : Value → Option Text
  provisional u = elim (utterance_text json u) [
    | none ↦ none
    | some txt ↦
        if is_definite json u then none else if is_empty (trim txt) then none else some (trim txt)
  ]

  unfoldable pub last_provisional : List Value → Option Text
  last_provisional [] = none
  last_provisional (u ∷ us) = elim (last_provisional us) [ some s ↦ some s | none ↦ provisional u ]

  find_partial-append :
      (xs : List Value) (u : Value)
      → find_partial json (xs ++ (u ∷ []))
        ≡ (elim (find_partial json xs) [ some s ↦ some s | none ↦ provisional u ])
  unfolding find_partial provisional
  find_partial-append [] u = ground arith
  find_partial-append (x ∷ xs) u = ground (arith, find_partial-append xs u)

  find_partial-reverse : (us : List Value) → find_partial json (reverse us) ≡ last_provisional us
  unfolding last_provisional
  find_partial-reverse [] = unfold find_partial in refl
  find_partial-reverse (u ∷ us) =
      rw reverse-cons (ground (arith, find_partial-append (reverse us) u, find_partial-reverse us))

  -- The provisional text shown is that of the last utterance that is not definite and not blank.
  pub parse-partial :
      (json_text : Text) (us : List Value) (st : AsrState) (mode : Text)
      → HasUtterances json_text us
      → (r : AsrTexts) × (parse_asr_texts json json_text st mode ≡ some r)
        × (r.partial ≡ last_provisional us)
  unfolding utterance_texts
  parse-partial json_text us st mode h =
      (utterance_texts json us st, parse-utterances json_text us st mode h, find_partial-reverse us)
