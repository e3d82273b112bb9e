-- ===== src/Asr/Session/Told.antt =====
-- What a whole session commits, from the bytes of the service to the lines for the client, where each
-- response has one text for the session and lists no utterances, as the request asks
-- (run_session and parse_asr_texts of anytalk-daemon/src/asr.rs).
use fcitx5_anytalk.Prelude.{
  Bool, true, false, Bool-cases, ◌≡◌, refl, sym, ◌∙◌, ap, inl, inr, List, [], ◌∷◌, ◌++◌, append-nil,
  append_assoc, concat, Option, none, some, arith, if◌then◌else◌, ◌==◌,
}
use fcitx5_anytalk.Text.{Text, text, text_eq}
use fcitx5_anytalk.Text.Utf8.{from_utf8_lossy}
use fcitx5_anytalk.Protocol.{msg_full_server_response}
use fcitx5_anytalk.Protocol.Format.{ServerFrame, frame_bytes, IsFrame, parse-response_frame}
use fcitx5_anytalk.Audio.Msg.{AudioMsg, chunk}
use fcitx5_anytalk.Asr.Json.{JsonLib}
use fcitx5_anytalk.Asr.Texts.{AsrState, AsrTexts, full_text}
use fcitx5_anytalk.Asr.Texts.FullText.{HasText, parse-full_text, full_text-some}
use fcitx5_anytalk.Asr.Texts.Told.{
  strip, told, not_blank, told-bidi_async, Extends, latest, told-latest,
}
use fcitx5_anytalk.Asr.Session.{
  WsItem, binary, Event, audio, message, Session, goes_on, ended, response_lines, on_audio,
  on_response, on_parsed, on_message, step, run, opened,
}
use fcitx5_anytalk.Asr.Session.Runs.{session_of, run-goes_on, run-ended}
use fcitx5_anytalk.Asr.Session.Finals.{finals_of, finals_of-append, finals_of-response_lines}
use fcitx5_anytalk.Asr.Session.Commits.{Leaves, Leaves-ended}

module _ (json : JsonLib) where
  -- The events of a session whose responses have these texts, in order.
  pub data Tells : List Event → List Text → Type 0 where
    silent : Tells [] []
    heard :
        (msg : Option AudioMsg) (sent : Bool) (es : List Event) (txts : List Text)
        → Tells es txts
        → Tells (audio msg sent ∷ es) txts
    skipped :
        (es : List Event) (txts : List Text)
        → Tells es txts
        → Tells (message (some WsItem.other) ∷ es) txts
    left : (item : Option WsItem) (es : List Event) → Leaves item → Tells (message item ∷ es) []
    answered :
        (f : ServerFrame) (txt : Text) (es : List Event) (txts : List Text)
        → IsFrame f
        → f.message_type ≡ msg_full_server_response
        → (f.flags == 0b0011) ≡ false
        → HasText json (from_utf8_lossy f.payload) txt
        → Tells es txts
        → Tells (message (some (binary (frame_bytes f))) ∷ es) (txt ∷ txts)
    concluded :
        (f : ServerFrame) (txt : Text) (es : List Event)
        → IsFrame f
        → f.message_type ≡ msg_full_server_response
        → (f.flags == 0b0011) ≡ true
        → HasText json (from_utf8_lossy f.payload) txt
        → Tells (message (some (binary (frame_bytes f))) ∷ es) (txt ∷ [])

  module _ (mode : Text) where
    abbrev after : Session → AsrTexts → Session
    after s r = record s { asr = r.state; lines = s.lines ++ response_lines r }

    on_message-text :
        (s : Session) (txt : Text) (f : ServerFrame) (r : AsrTexts)
        → IsFrame f
        → f.message_type ≡ msg_full_server_response
        → HasText json (from_utf8_lossy f.payload) txt
        → full_text txt mode s.asr ≡ some r
        → on_message json mode s (some (binary (frame_bytes f)))
          ≡ (if f.flags == 0b0011 then ended (after s r) else goes_on (after s r))
    unfolding on_message on_parsed on_response
    on_message-text s txt f r frame type_eq has found = ground (
      arith,
      parse-response_frame f frame type_eq,
      parse-full_text json (from_utf8_lossy f.payload) txt s.asr mode has,
      found,
    )

    -- The session at the end of a run has committed what the texts call for.
    abbrev Ran : Session → List Event → List Text → Type 0
    Ran s es txts =
        (u : Session) × (session_of (run json mode s es) ≡ some u)
        × (finals_of u.lines ≡ finals_of s.lines ++ told mode s.asr txts)

    audio_kept :
        (s : Session) (msg : Option AudioMsg) (sent : Bool)
        → (t : Session) × (step json mode s (audio msg sent) ≡ goes_on t)
          × (t.lines ≡ s.lines)
          × (t.asr ≡ s.asr)
    unfolding step on_audio
    audio_kept s none sent = elim (Bool-cases s.audio_active) [
      | inl on ↦ (on_audio s none sent, ground (arith, on), refl, refl)
      | inr off ↦ (s, ground (arith, off), refl, refl)
    ]
    audio_kept s (some (chunk bytes)) sent = elim (Bool-cases s.audio_active) [
      | inl on ↦ (on_audio s (some (chunk bytes)) sent, ground (arith, on), refl, refl)
      | inr off ↦ (s, ground (arith, off), refl, refl)
    ]

    after-finals :
        (s : Session) (r : AsrTexts) → finals_of (after s r).lines ≡ finals_of s.lines ++ r.finals
    after-finals s r =
        finals_of-append s.lines (response_lines r)
        ∙ ap (λ (x : List Text). finals_of s.lines ++ x) (finals_of-response_lines r)

    told-nil : (st : AsrState) → told mode st [] ≡ []
    unfolding told
    told-nil st = refl

    told-cons :
        (st : AsrState) (txt : Text) (txts : List Text) (r : AsrTexts)
        → full_text txt mode st ≡ some r
        → told mode st (txt ∷ txts) ≡ r.finals ++ told mode r.state txts
    unfolding told
    told-cons st txt txts r found = ground (arith, found)

    run-told : (es : List Event) (txts : List Text) (s : Session) → Tells es txts → Ran s es txts
    run-told _ _ s silent =
        (s, unfold run in refl, unfold told in sym (append-nil (finals_of s.lines)))
    run-told _ txts s (heard msg sent es _ rest) =
        let (t, went, lines, asr) = audio_kept s msg sent in
        let (u, ran, finals) = run-told es txts t rest in
        (
          u,
          ap session_of (run-goes_on json mode s t (audio msg sent) es went) ∙ ran,
          finals
              ∙ ap (λ ls. finals_of ls ++ told mode t.asr txts) lines
              ∙ ap (λ st. finals_of s.lines ++ told mode st txts) asr,
        )
    run-told _ txts s (skipped es _ rest) =
        let (u, ran, finals) = run-told es txts s rest in
        (
          u,
          ap session_of (
                run-goes_on json mode s s (message (some WsItem.other)) es
                  (unfold step on_message in refl))
              ∙ ran,
          finals,
        )
    run-told _ _ s (left item es leaves) = (
      s,
      ap session_of (
          run-ended json mode s s (message item) es
            (unfold step in Leaves-ended json mode s item leaves)),
      unfold told in sym (append-nil (finals_of s.lines)),
    )
    run-told _ _ s (answered f txt es txts frame type_eq flags has rest) =
        let (r, found) = full_text-some json txt mode s.asr in
        let t = after s r in
        let went : step json mode s (message (some (binary (frame_bytes f)))) ≡ goes_on t =
          unfold step in (on_message-text s txt f r frame type_eq has found ∙ rw flags refl) in
        let (u, ran, finals) = run-told es txts t rest in
        (
          u,
          ap session_of
                (run-goes_on json mode s t (message (some (binary (frame_bytes f)))) es went)
              ∙ ran,
          finals
              ∙ ap (λ (x : List Text). x ++ told mode r.state txts) (after-finals s r)
              ∙ append_assoc (finals_of s.lines) r.finals (told mode r.state txts)
              ∙ ap (λ (x : List Text). finals_of s.lines ++ x)
                  (sym (told-cons s.asr txt txts r found)),
        )
    run-told _ _ s (concluded f txt es frame type_eq flags has) =
        let (r, found) = full_text-some json txt mode s.asr in
        let t = after s r in
        let went : step json mode s (message (some (binary (frame_bytes f)))) ≡ ended t =
          unfold step in (on_message-text s txt f r frame type_eq has found ∙ rw flags refl) in
        (
          t,
          ap session_of (run-ended json mode s t (message (some (binary (frame_bytes f)))) es went),
          after-finals s r
              ∙ ap (λ (x : List Text). finals_of s.lines ++ x)
                  (sym (append-nil r.finals)
                    ∙ ap (λ (x : List Text). r.finals ++ x) (sym (told-nil r.state))
                    ∙ sym (told-cons s.asr txt [] r found)),
        )

  -- In a mode other than "bidi_async", a session whose responses list no utterances and each have a
  -- text, trimmed, that goes on where that of the response before ended, does not panic, and all that
  -- it commits, put together, is the text of the last response, apart from white space: nothing is
  -- committed twice and nothing is lost.
  pub run-latest :
      (mode req_json : Text) (es : List Event) (txts : List Text)
      → text_eq mode (text "bidi_async") ≡ false
      → Tells es txts
      → Extends [] txts
      → (u : Session) × (session_of (run json mode (opened req_json) es) ≡ some u)
        × (strip (concat (finals_of u.lines)) ≡ strip (latest [] txts))
  unfolding opened
  run-latest mode req_json es txts m tells extends =
      let (u, ran, finals) = run-told mode es txts (opened req_json) tells in
      (
        u,
        ran,
        ap (λ (x : List Text). strip (concat x)) finals
            ∙ (unfold strip in told-latest mode [] ((opened req_json).asr) txts m refl extends),
      )

  -- In the mode "bidi_async", the default, a session whose responses list no utterances and each have
  -- a text commits the whole text of each response that is not blank, in order: where the service
  -- sends the full text so far with each response, what was committed is committed again.
  pub run-repeats :
      (req_json : Text) (es : List Event) (txts : List Text)
      → Tells es txts
      → (u : Session) × (session_of (run json (text "bidi_async") (opened req_json) es) ≡ some u)
        × (finals_of u.lines ≡ not_blank txts)
  unfolding opened
  run-repeats req_json es txts tells =
      let (u, ran, finals) = run-told (text "bidi_async") es txts (opened req_json) tells in
      (u, ran, finals ∙ told-bidi_async ((opened req_json).asr) txts)
