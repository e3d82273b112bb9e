-- ===== src/Asr/Session/Commits.antt =====
-- What a whole session commits, from the bytes of the service to the lines for the client, where the
-- service lists utterances.
use fcitx5_anytalk.Prelude.{
  Bool, true, false, Bool-cases, ◌≡◌, refl, sym, ◌∙◌, ap, inl, inr, List, [], ◌∷◌, ◌++◌, Option,
  none, some, arith, if◌then◌else◌, ◌==◌, All,
}
use fcitx5_anytalk.Prelude.Int.{ℤ, negsuc}
use fcitx5_anytalk.Text.{Text}
use fcitx5_anytalk.Text.Utf8.{from_utf8_lossy}
use fcitx5_anytalk.Protocol.{msg_full_server_response}
use fcitx5_anytalk.Protocol.Format.{ServerFrame, frame_bytes, IsFrame, parse-response_frame}
use fcitx5_anytalk.Audio.Msg.{AudioMsg, chunk}
use fcitx5_anytalk.Asr.Json.{JsonLib}
use fcitx5_anytalk.Asr.Texts.{AsrState, utterance_texts}
use fcitx5_anytalk.Asr.Texts.Commits.{
  Commit, texts_of, texts_of-append, last_time, last_time-append, IsIncreasing, IsClean, commits,
  commits-append, definites, commits-definites, commits-IsIncreasing, commits-IsClean,
}
use fcitx5_anytalk.Asr.Texts.Utterances.{
  HasUtterances, parse-utterances, utterance_texts-commits, commits_grown,
}
use fcitx5_anytalk.Asr.Session.{
  WsItem, binary, Event, audio, message, Session, goes_on, ended, response_lines, on_audio,
  on_response, on_parsed, on_message, step, run, opened,
}
use fcitx5_anytalk.Asr.Session.Runs.{session_of, run-goes_on, run-ended}
use fcitx5_anytalk.Asr.Session.Finals.{finals_of, finals_of-append, finals_of-response_lines}

-- A message after which the loop is left without a line.
abbrev pub Leaves : Option WsItem → Type 0
Leaves none = Unit
Leaves (some WsItem.close) = Unit
Leaves (some WsItem.failure) = Unit
Leaves (some WsItem.other) = ⊥
Leaves (some (binary bytes)) = ⊥

module _ (json : JsonLib) where
  open json use {Value}

  -- The events of a session that begins with the definite utterances `ds` known and ends with others.
  -- Each response lists utterances; the definite ones among them are those known, in order, and maybe
  -- more behind them. The provisional ones are any: they may be changed, be dropped, or be listed as
  -- definite, with another text and time, by a later response.
  pub data Narrates : List Value → List Event → List Value → Type 0 where
    silent : (ds : List Value) → Narrates ds [] ds
    heard :
        (ds ds' : List Value) (msg : Option AudioMsg) (sent : Bool) (es : List Event)
        → Narrates ds es ds'
        → Narrates ds (audio msg sent ∷ es) ds'
    skipped :
        (ds ds' : List Value) (es : List Event)
        → Narrates ds es ds'
        → Narrates ds (message (some WsItem.other) ∷ es) ds'
    left :
        (ds : List Value) (item : Option WsItem) (es : List Event)
        → Leaves item
        → Narrates ds (message item ∷ es) ds
    answered :
        (ds vs ds' us : List Value) (f : ServerFrame) (es : List Event)
        → IsFrame f
        → f.message_type ≡ msg_full_server_response
        → (f.flags == 0b0011) ≡ false
        → HasUtterances json (from_utf8_lossy f.payload) us
        → definites json us ≡ ds ++ vs
        → Narrates (ds ++ vs) es ds'
        → Narrates ds (message (some (binary (frame_bytes f))) ∷ es) ds'
    concluded :
        (ds vs us : List Value) (f : ServerFrame) (es : List Event)
        → IsFrame f
        → f.message_type ≡ msg_full_server_response
        → (f.flags == 0b0011) ≡ true
        → HasUtterances json (from_utf8_lossy f.payload) us
        → definites json us ≡ ds ++ vs
        → Narrates ds (message (some (binary (frame_bytes f))) ∷ es) (ds ++ vs)

  -- The commits of utterances from the start of a session.
  abbrev pub all_commits : List Value → List Commit
  all_commits us = commits json us (negsuc 0)

  -- A session has committed exactly these.
  pub record HasCommitted (us : List Value) (s : Session) : Type 0 where
    pub texts : finals_of s.lines ≡ texts_of (all_commits us)
    pub time : s.asr.last_committed_end_time ≡ last_time (negsuc 0) (all_commits us)

  -- The session after a response.
  abbrev after : Session → List Value → Session
  after s us =
      let r = utterance_texts json us s.asr in
      record s { asr = r.state; lines = s.lines ++ response_lines r }

  after-Committed :
      (ds vs us : List Value) (s : Session)
      → definites json us ≡ ds ++ vs
      → HasCommitted ds s
      → HasCommitted (ds ++ vs) (after s us)
  after-Committed ds vs us s known h =
      let last = last_time (negsuc 0) (all_commits ds) in
      let (finals, state) = utterance_texts-commits json us s.asr in
      let grown = commits_grown json ds vs (negsuc 0) in
      let whole = commits-append json ds vs (negsuc 0) in
      let listed : commits json us last ≡ commits json vs last =
        commits-definites json us last
        ∙ ap (λ (ws : List Value). commits json ws last) known
        ∙ grown in
      let new = ap (commits json us) h.time ∙ listed in
      record {
        texts =
            finals_of-append s.lines (response_lines (utterance_texts json us s.asr))
            ∙ ap (λ (r : List Text). finals_of s.lines ++ r)
                (finals_of-response_lines (utterance_texts json us s.asr)
                  ∙ finals
                  ∙ ap texts_of new)
            ∙ ap (λ (r : List Text). r ++ texts_of (commits json vs last)) h.texts
            ∙ sym (texts_of-append (all_commits ds) (commits json vs last))
            ∙ sym (ap texts_of whole);
        time =
            ap (λ (st : AsrState). st.last_committed_end_time) state
            ∙ ap (λ (t : ℤ). last_time t (commits json us t)) h.time
            ∙ ap (last_time last) listed
            ∙ sym (last_time-append (negsuc 0) (all_commits ds) (commits json vs last))
            ∙ sym (ap (last_time (negsuc 0)) whole);
      }

  module _ (mode : Text) where
    -- A response that lists utterances.
    on_message-utterances :
        (s : Session) (us : List Value) (f : ServerFrame)
        → IsFrame f
        → f.message_type ≡ msg_full_server_response
        → HasUtterances json (from_utf8_lossy f.payload) us
        → on_message json mode s (some (binary (frame_bytes f)))
          ≡ (if f.flags == 0b0011 then ended (after s us) else goes_on (after s us))
    unfolding on_message on_parsed on_response
    on_message-utterances s us f frame type_eq lists = ground (
      arith,
      parse-response_frame f frame type_eq,
      parse-utterances json (from_utf8_lossy f.payload) us s.asr mode lists,
    )

    pub Leaves-ended :
        (s : Session) (item : Option WsItem) → Leaves item → on_message json mode s item ≡ ended s
    unfolding on_message
    Leaves-ended s none h = refl
    Leaves-ended s (some WsItem.close) h = refl
    Leaves-ended s (some WsItem.failure) h = refl
    Leaves-ended s (some WsItem.other) h = absurd h
    Leaves-ended s (some (binary bytes)) h = absurd h

    on_audio-Committed :
        (us : List Value) (s : Session) (msg : Option AudioMsg) (sent : Bool)
        → HasCommitted us s
        → HasCommitted us (on_audio s msg sent)
    unfolding on_audio
    on_audio-Committed us s (some (chunk bytes)) sent h = record { texts = h.texts; time = h.time }
    on_audio-Committed us s none sent h = record { texts = h.texts; time = h.time }

    heard-Committed :
        (us : List Value) (s : Session) (msg : Option AudioMsg) (sent : Bool)
        → HasCommitted us s
        → (t : Session) × (step json mode s (audio msg sent) ≡ goes_on t) × HasCommitted us t
    unfolding step
    heard-Committed us s msg sent h = elim (Bool-cases s.audio_active) [
      | inl on ↦ (on_audio s msg sent, rw (on, step) refl, on_audio-Committed us s msg sent h)
      | inr off ↦ (s, rw (off, step) refl, h)
    ]

    -- A run ends, or is at its end, in a session that has committed what is known then.
    run-HasCommitted :
        (us us' : List Value) (es : List Event) (s : Session)
        → Narrates us es us'
        → HasCommitted us s
        → (u : Session) × (session_of (run json mode s es) ≡ some u) × HasCommitted us' u
    run-HasCommitted us us' _ s (silent _) h = (s, unfold run in refl, h)
    run-HasCommitted us us' _ s (heard _ _ msg sent es rest) h =
        let (t, went, now) = heard-Committed us s msg sent h in
        let (u, ran, last) = run-HasCommitted us us' es t rest now in
        (u, ap session_of (run-goes_on json mode s t (audio msg sent) es went) ∙ ran, last)
    run-HasCommitted us us' _ s (skipped _ _ es rest) h =
        let (u, ran, last) = run-HasCommitted us us' es s rest h in
        (
          u,
          ap session_of (
                run-goes_on json mode s s (message (some WsItem.other)) es
                  (unfold step on_message in refl))
              ∙ ran,
          last,
        )
    run-HasCommitted us _ _ s (left _ item es leaves) h = (
      s,
      ap session_of
          (run-ended json mode s s (message item) es (unfold step in Leaves-ended s item leaves)),
      h,
    )
    run-HasCommitted us us' _ s (answered _ vs _ ws f es frame type_eq flags lists known rest) h =
        let t = after s ws in
        let went : step json mode s (message (some (binary (frame_bytes f)))) ≡ goes_on t =
          unfold step in (on_message-utterances s ws f frame type_eq lists ∙ rw flags refl) in
        let (u, ran, last) =
          run-HasCommitted (us ++ vs) us' es t rest (after-Committed us vs ws s known h) in
        (
          u,
          ap session_of
                (run-goes_on json mode s t (message (some (binary (frame_bytes f)))) es went)
              ∙ ran,
          last,
        )
    run-HasCommitted us _ _ s (concluded _ vs ws f es frame type_eq flags lists known) h =
        let t = after s ws in
        let went : step json mode s (message (some (binary (frame_bytes f)))) ≡ ended t =
          unfold step in (on_message-utterances s ws f frame type_eq lists ∙ rw flags refl) in
        (
          t,
          ap session_of (run-ended json mode s t (message (some (binary (frame_bytes f)))) es went),
          after-Committed us vs ws s known h,
        )

    opened-Committed : (req_json : Text) → HasCommitted [] (opened req_json)
    unfolding opened commits
    opened-Committed req_json = record { texts = refl; time = refl }

    -- A session with a service that lists utterances, as with show_utterances, and lists each definite
    -- one again in every later response, while the provisional ones may change: the session does not
    -- panic, and the texts that it commits, from its first response to its last, are in order those
    -- that the definite utterances of the last response alone call for: each that is not blank and
    -- ends later than the commits before it, once. Their end times increase, and each text is trimmed
    -- and not empty.
    pub run-commits :
        (req_json : Text) (us : List Value) (es : List Event)
        → Narrates [] es us
        → (u : Session) × (session_of (run json mode (opened req_json) es) ≡ some u)
          × (finals_of u.lines ≡ texts_of (all_commits us))
          × IsIncreasing (negsuc 0) (all_commits us)
          × All IsClean (finals_of u.lines)
    run-commits req_json us es narrates =
        let (u, ran, h) =
          run-HasCommitted [] us es (opened req_json) narrates (opened-Committed req_json) in
        (
          u,
          ran,
          h.texts,
          commits-IsIncreasing json us (negsuc 0),
          rw h.texts (commits-IsClean json us (negsuc 0)),
        )
