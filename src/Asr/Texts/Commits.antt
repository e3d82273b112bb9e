-- ===== src/Asr/Texts/Commits.antt =====
-- The commits of a list of utterances: an independent description of the first loop of
-- parse_asr_texts, and what follows from it.
use fcitx5_anytalk.Prelude.{
  Bool-cases, sym, ◌≡◌, refl, ap, ◌∙◌, inl, inr, false, List, [], ◌∷◌, ◌++◌, Option, none, some,
  arith, All, if◌then◌else◌, append_assoc, append-nil, Option-cases,
}
use fcitx5_anytalk.Prelude.Int.{ℤ, ◌<ℤ◌, ◌≤ℤ◌, leb_ℤ}
use fcitx5_anytalk.Text.{Text, is_empty, trim}
use fcitx5_anytalk.Text.Trim.{trim_idem}
use fcitx5_anytalk.Asr.Json.{JsonLib}
use fcitx5_anytalk.Asr.Texts.{
  is_definite, end_time, utterance_text, commit_utterance, commit_utterances,
}

-- A commit: the end time of an utterance and its trimmed text.
abbrev pub Commit : Type 0
Commit = ℤ × Text

abbrev pub texts_of : List Commit → List Text
texts_of [] = []
texts_of ((t, s) ∷ cs) = s ∷ texts_of cs

-- The time of the last of some commits.
abbrev pub last_time : ℤ → List Commit → ℤ
last_time last [] = last
last_time last ((t, s) ∷ cs) = last_time t cs

-- Each commit is later than the one before.
abbrev pub IsIncreasing : ℤ → List Commit → Type 0
IsIncreasing last [] = Unit {0}
IsIncreasing last ((t, s) ∷ cs) = (last <ℤ t) × IsIncreasing t cs

-- Trimmed and not empty.
abbrev pub IsClean : Text → Type 0
IsClean t = (trim t ≡ t) × (is_empty t ≡ false)

pub texts_of-append : (cs ds : List Commit) → texts_of (cs ++ ds) ≡ texts_of cs ++ texts_of ds
texts_of-append [] ds = refl
texts_of-append ((t, s) ∷ cs) ds = ap (λ r. s ∷ r) (texts_of-append cs ds)

pub last_time-append :
    (last : ℤ) (cs ds : List Commit) → last_time last (cs ++ ds) ≡ last_time (last_time last cs) ds
last_time-append last [] ds = refl
last_time-append last ((t, s) ∷ cs) ds = last_time-append t cs ds

last_time-le : (last : ℤ) (cs : List Commit) → IsIncreasing last cs → last ≤ℤ last_time last cs
last_time-le last [] h = omega arith
last_time-le last ((t, s) ∷ cs) h = omega (arith, last_time-le t cs h.1)

module _ (json : JsonLib) where
  open json use {Value}

  -- What an utterance adds after commits up to a time: nothing unless it is definite, ends later
  -- and has a text that is not blank.
  unfoldable pub commit_of : Value → ℤ → Option Commit
  commit_of u last = elim (utterance_text json u) [
    | none ↦ none
    | some txt ↦
        if is_definite json u
        then (if leb_ℤ (end_time json u) last
            then none
            else if is_empty (trim txt)
            then none
            else some (end_time json u, trim txt))
        else none
  ]

  unfoldable pub commits : List Value → ℤ → List Commit
  commits [] last = []
  commits (u ∷ us) last = elim (commit_of u last) [
    | none ↦ commits us last
    | some (t, s) ↦ (t, s) ∷ commits us t
  ]

  commit_utterance-none :
      (u : Value) (last : ℤ) (finals : List Text)
      → commit_of u last ≡ none
      → commit_utterance json u last finals ≡ (last, finals)
  unfolding commit_of commit_utterance
  commit_utterance-none u last finals h = ground arith

  commit_utterance-some :
      (u : Value) (last t : ℤ) (s : Text) (finals : List Text)
      → commit_of u last ≡ some (t, s)
      → commit_utterance json u last finals ≡ (t, finals ++ (s ∷ []))
  unfolding commit_of commit_utterance
  commit_utterance-some u last t s finals h = ground arith

  commit_of_facts :
      (u : Value) (last t : ℤ) (s : Text)
      → commit_of u last ≡ some (t, s)
      → (last <ℤ t) × (t ≡ end_time json u) × (is_empty s ≡ false) × (trim s ≡ s)
  unfolding commit_of
  commit_of_facts u last t s h = elim (Option-cases (utterance_text json u)) [
    | inl e ↦ ground arith
    | inr (txt, e) ↦ ground (arith, trim_idem txt)
  ]

  commits-skip :
      (u : Value) (us : List Value) (last : ℤ)
      → commit_of u last ≡ none
      → commits (u ∷ us) last ≡ commits us last
  unfolding commits
  commits-skip u us last e = rw (e, commits)

  commits-take :
      (u : Value) (us : List Value) (last t : ℤ) (s : Text)
      → commit_of u last ≡ some (t, s)
      → commits (u ∷ us) last ≡ (t, s) ∷ commits us t
  unfolding commits
  commits-take u us last t s e = rw (e, commits)

  -- The loop adds the commits, and ends at the time of the last.
  pub commit_utterances-commits :
      (us : List Value) (last : ℤ) (finals : List Text)
      → commit_utterances json us last finals
        ≡ (last_time last (commits us last), finals ++ texts_of (commits us last))
  unfolding commit_utterances
  commit_utterances-commits [] last finals = unfold commits in rw append-nil
  commit_utterances-commits (u ∷ us) last finals = elim (Option-cases (commit_of u last)) [
    | inl e ↦
        rw (commits-skip u us last e, commit_utterance-none u last finals e)
          (commit_utterances-commits us last finals)
    | inr ((t, s), e) ↦
        rw (commits-take u us last t s e, commit_utterance-some u last t s finals e)
          (commit_utterances-commits us t (finals ++ (s ∷ [])) ∙ rw append_assoc)
  ]

  pub commits-IsIncreasing : (us : List Value) (last : ℤ) → IsIncreasing last (commits us last)
  commits-IsIncreasing [] last = unfold commits in tt
  commits-IsIncreasing (u ∷ us) last = elim (Option-cases (commit_of u last)) [
    | inl e ↦ rw (commits-skip u us last e) (commits-IsIncreasing us last)
    | inr ((t, s), e) ↦
        rw (commits-take u us last t s e)
          ((commit_of_facts u last t s e).0, commits-IsIncreasing us t)
  ]

  pub commits-IsClean : (us : List Value) (last : ℤ) → All IsClean (texts_of (commits us last))
  commits-IsClean [] last = unfold commits in tt
  commits-IsClean (u ∷ us) last = elim (Option-cases (commit_of u last)) [
    | inl e ↦ rw (commits-skip u us last e) (commits-IsClean us last)
    | inr ((t, s), e) ↦
        let facts = commit_of_facts u last t s e in
        rw (commits-take u us last t s e) ((facts.3, facts.2), commits-IsClean us t)
  ]

  pub commits-append :
      (us vs : List Value) (last : ℤ)
      → commits (us ++ vs) last ≡ commits us last ++ commits vs (last_time last (commits us last))
  commits-append [] vs last = unfold commits in refl
  commits-append (u ∷ us) vs last = elim (Option-cases (commit_of u last)) [
    | inl e ↦
        commits-skip u (us ++ vs) last e ∙ rw (commits-skip u us last e) (commits-append us vs last)
    | inr ((t, s), e) ↦
        commits-take u (us ++ vs) last t s e
        ∙ rw (commits-take u us last t s e) (ap (λ cs. (t, s) ∷ cs) (commits-append us vs t))
  ]

  commit_of_later :
      (u : Value) (last now : ℤ) → commit_of u last ≡ none → last ≤ℤ now → commit_of u now ≡ none
  unfolding commit_of
  commit_of_later u last now h le = ground arith

  commit_of_passed :
      (u : Value) (last now t : ℤ) (s : Text)
      → commit_of u last ≡ some (t, s)
      → t ≤ℤ now
      → commit_of u now ≡ none
  unfolding commit_of
  commit_of_passed u last now t s h le = ground arith

  le_last_time : (us : List Value) (last : ℤ) → last ≤ℤ last_time last (commits us last)
  le_last_time us last = last_time-le last (commits us last) (commits-IsIncreasing us last)

  -- What has been committed is not committed again.
  pub commits_again :
      (us : List Value) (last now : ℤ)
      → last_time last (commits us last) ≤ℤ now
      → commits us now ≡ []
  commits_again [] last now h = unfold commits in refl
  commits_again (u ∷ us) last now h = elim (Option-cases (commit_of u last)) [
    | inl e ↦
        let h' = rw (commits-skip u us last e) at h in
        commits-skip u us now
          (commit_of_later u last now e (omega (arith, h', le_last_time us last)))
        ∙ commits_again us last now h'
    | inr ((t, s), e) ↦
        let h' = rw (commits-take u us last t s e) at h in
        commits-skip u us now
          (commit_of_passed u last now t s e (omega (arith, h', le_last_time us t)))
        ∙ commits_again us t now h'
  ]

  -- The definite utterances among some.
  unfoldable pub definites : List Value → List Value
  definites [] = []
  definites (u ∷ us) = let rest = definites us in if is_definite json u then u ∷ rest else rest

  not_definite : (u : Value) (last : ℤ) → is_definite json u ≡ false → commit_of u last ≡ none
  unfolding commit_of
  not_definite u last h = ground (arith, h)

  -- The others are not committed.
  pub commits-definites :
      (us : List Value) (last : ℤ) → commits us last ≡ commits (definites us) last
  unfolding definites
  commits-definites [] last = refl
  commits-definites (u ∷ us) last = elim (Bool-cases (is_definite json u)) [
    | inr provisional ↦
        rw (provisional, definites)
          (commits-skip u us last (not_definite u last provisional) ∙ commits-definites us last)
    | inl definite ↦
        rw (definite, definites)
          (elim (Option-cases (commit_of u last)) [
            | inl e ↦
                commits-skip u us last e
                ∙ commits-definites us last
                ∙ sym (commits-skip u (definites us) last e)
            | inr ((t, s), e) ↦
                commits-take u us last t s e
                ∙ ap (λ cs. (t, s) ∷ cs) (commits-definites us t)
                ∙ sym (commits-take u (definites us) last t s e)
          ])
  ]
