-- ===== src/Plugin/Engine/Dictation.antt =====
-- From the responses of the service to the text in the input context: the session, the lines for the
-- client, the bytes on the socket, the callbacks and the engine.
mod Tests
use fcitx5_anytalk.Prelude.{
  ℕ, Bool, true, false, Bool-cases, Option-cases, ◌≡◌, ◌⊎◌, inl, inr, refl, sym, ◌∙◌, ap, Option,
  none, some, List, [], ◌∷◌, ◌++◌, map, concat, arith, append-nil, map-append,
}
use fcitx5_anytalk.Text.{Text, text, text_eq}
use fcitx5_anytalk.Text.Utf8.{as_bytes}
use fcitx5_anytalk.Ipc.Msg.{ServerMsg}
use fcitx5_anytalk.Asr.Json.{JsonLib}
use fcitx5_anytalk.Asr.Texts.Commits.{texts_of}
use fcitx5_anytalk.Asr.Session.{Event, Session, run, opened}
use fcitx5_anytalk.Asr.Session.Runs.{session_of}
use fcitx5_anytalk.Asr.Session.Finals.{finals_of, finals_of-append}
use fcitx5_anytalk.Asr.Session.Commits.{Narrates, all_commits, run-commits}
use fcitx5_anytalk.Plugin.Lines.{receive_all}
use fcitx5_anytalk.Plugin.Messages.{
  JsonC, Callback, on_partial, on_final, on_status, c_str, handle_lines,
}
use fcitx5_anytalk.Plugin.Messages.Wire.{IsWire, callbacks_of, wire_bytes, receive-callbacks}
use fcitx5_anytalk.Plugin.Engine.{
  Action, adds_action, sends_start, sends_stop, updates_action, updates_area, sets_preedit, commits,
  accepts_key, Engine, set_status, target_ic, update_preedit, commit_text, on_callback, EngineEvent,
  called, engine_step, engine_run,
}

-- The texts put into contexts for good.
abbrev pub commits_of : List Action → List (ℕ × List ℕ)
commits_of [] = []
commits_of (sends_start ∷ actions) = commits_of actions
commits_of (sends_stop ∷ actions) = commits_of actions
commits_of (adds_action ic ∷ actions) = commits_of actions
commits_of (updates_action ic ∷ actions) = commits_of actions
commits_of (updates_area ic ∷ actions) = commits_of actions
commits_of (sets_preedit ic t ∷ actions) = commits_of actions
commits_of (commits ic t ∷ actions) = (ic, t) ∷ commits_of actions
commits_of (accepts_key ∷ actions) = commits_of actions

commits_of-append : (xs ys : List Action) → commits_of (xs ++ ys) ≡ commits_of xs ++ commits_of ys
commits_of-append [] ys = refl
commits_of-append (sends_start ∷ xs) ys = commits_of-append xs ys
commits_of-append (sends_stop ∷ xs) ys = commits_of-append xs ys
commits_of-append (adds_action ic ∷ xs) ys = commits_of-append xs ys
commits_of-append (updates_action ic ∷ xs) ys = commits_of-append xs ys
commits_of-append (updates_area ic ∷ xs) ys = commits_of-append xs ys
commits_of-append (sets_preedit ic t ∷ xs) ys = commits_of-append xs ys
commits_of-append (commits ic t ∷ xs) ys =
    ap (λ (r : List (ℕ × List ℕ)). (ic, t) ∷ r) (commits_of-append xs ys)
commits_of-append (accepts_key ∷ xs) ys = commits_of-append xs ys

-- The final texts among callbacks, for a context.
abbrev pub finals_for : ℕ → List Callback → List (ℕ × List ℕ)
finals_for ic [] = []
finals_for ic (on_partial t ∷ callbacks) = finals_for ic callbacks
finals_for ic (on_final t ∷ callbacks) = (ic, t) ∷ finals_for ic callbacks
finals_for ic (on_status s ∷ callbacks) = finals_for ic callbacks

-- The engine puts text into this context, if it is focused, and commits it.
abbrev pub Serves : ℕ → Engine → Type 0
Serves ic e = ((e.active_ic ≡ none) ⊎ (e.active_ic ≡ some ic)) × (e.ignore_next_commit ≡ false)

target_ic-Serves : (ic : ℕ) (e : Engine) → Serves ic e → target_ic (some ic) e ≡ some ic
unfolding target_ic
target_ic-Serves ic e (inl none_active, off) = ground (arith, none_active)
target_ic-Serves ic e (inr active, off) = ground (arith, active)

set_status_kept :
    (ic : ℕ) (s : List ℕ) (e : Engine)
    → let next = (set_status (some ic) s e).0 in
      ((next.active_ic ≡ none) ⊎ (next.active_ic ≡ e.active_ic))
      × (next.ignore_next_commit ≡ e.ignore_next_commit)
unfolding set_status
set_status_kept ic s e = elim (Bool-cases (text_eq s (text "idle"))) [
  | inl over ↦ rw (over, set_status) (inl refl, refl)
  | inr on ↦ (inr (ground (arith, on)), ground (arith, on))
]

set_status-Serves :
    (ic : ℕ) (s : List ℕ) (e : Engine)
    → Serves ic e
    → (commits_of ((set_status (some ic) s e).1) ≡ []) × Serves ic ((set_status (some ic) s e).0)
set_status-Serves ic s e (target, off) =
    let (active, ignored) = set_status_kept ic s e in
    (
      (unfold set_status in refl),
      (
        elim active [
          | inl nowhere ↦ inl nowhere
          | inr same ↦ elim target [
            | inl nowhere ↦ inl (same ∙ nowhere)
            | inr here ↦ inr (same ∙ here)
          ]
        ],
        ignored ∙ off,
      ),
    )

commit_text-Serves :
    (ic : ℕ) (t : List ℕ) (e : Engine)
    → Serves ic e
    → commit_text (some ic) t e
      ≡ (record e { last_text = [] }, commits ic t ∷ sets_preedit ic [] ∷ [])
unfolding commit_text
commit_text-Serves ic t e h = ground (arith, h.1, target_ic-Serves ic e h)

callback-Serves :
    (ic : ℕ) (callback : Callback) (e : Engine)
    → Serves ic e
    → let next = on_callback (some ic) callback e in
      (commits_of (next.1) ≡ finals_for ic (callback ∷ [])) × Serves ic (next.0)
unfolding on_callback
callback-Serves ic (on_partial t) e h =
    unfold update_preedit in (ground (arith, target_ic-Serves ic e h), h)
callback-Serves ic (on_final t) e h = rw (commit_text-Serves ic t e h) (refl, h)
callback-Serves ic (on_status s) e h = set_status-Serves ic s e h

finals_for-cons :
    (ic : ℕ) (callback : Callback) (callbacks : List Callback)
    → finals_for ic (callback ∷ callbacks)
      ≡ finals_for ic (callback ∷ []) ++ finals_for ic callbacks
finals_for-cons ic (on_partial t) callbacks = refl
finals_for-cons ic (on_final t) callbacks = refl
finals_for-cons ic (on_status s) callbacks = refl

engine_run-finals :
    (ic : ℕ) (callbacks : List Callback) (e : Engine)
    → Serves ic e
    → commits_of ((engine_run (map (called (some ic)) callbacks) e).1) ≡ finals_for ic callbacks
unfolding engine_run engine_step
engine_run-finals ic [] e h = refl
engine_run-finals ic (callback ∷ callbacks) e h =
    let next = on_callback (some ic) callback e in
    let (now, serves) = callback-Serves ic callback e h in
    commits_of-append (next.1) ((engine_run (map (called (some ic)) callbacks) (next.0)).1)
    ∙ ap
        (λ (r : List (ℕ × List ℕ)).
          r ++ commits_of ((engine_run (map (called (some ic)) callbacks) (next.0)).1))
        now
    ∙ ap (λ (r : List (ℕ × List ℕ)). finals_for ic (callback ∷ []) ++ r)
        (engine_run-finals ic callbacks (next.0) serves)
    ∙ sym (finals_for-cons ic callback callbacks)

-- A text as it stands in a context.
abbrev pub placed : ℕ → Text → ℕ × List ℕ
placed ic t = (ic, c_str (as_bytes t))

finals_for-callbacks_of :
    (ic : ℕ) (lines : List ServerMsg)
    → finals_for ic (concat (map callbacks_of lines)) ≡ map (placed ic) (finals_of lines)
finals_for-callbacks_of ic [] = refl
finals_for-callbacks_of ic (ServerMsg.status s ∷ lines) = finals_for-callbacks_of ic lines
finals_for-callbacks_of ic (ServerMsg.partial t ∷ lines) = finals_for-callbacks_of ic lines
finals_for-callbacks_of ic (ServerMsg.final t ∷ lines) =
    ap (λ (r : List (ℕ × List ℕ)). placed ic t ∷ r) (finals_for-callbacks_of ic lines)
finals_for-callbacks_of ic (ServerMsg.error m ∷ lines) = finals_for-callbacks_of ic lines

module _ (serde : JsonLib) (mode : Text) (json : JsonC) (to_string : ServerMsg → Option Text)
    (wire : IsWire json to_string) where
  -- Where the service lists utterances, as with show_utterances, and lists each definite one again in
  -- every later response, while the provisional ones may change, the two JSON libraries read what each
  -- other writes, and the engine serves one focused context, the texts that the session commits arrive
  -- in that context: whatever chunks the bytes of its lines come in, and with lines without a final
  -- text before and behind them, the commits of the engine are in order the texts that the definite
  -- utterances of the last response call for, each up to its first null byte, and nothing else.
  pub dictation-commits :
      (req_json : Text) (us : List (serde.Value)) (es : List Event) (u : Session)
      (before after : List ServerMsg) (chunks : List (List ℕ)) (ic : ℕ) (e : Engine)
      → Narrates serde [] es us
      → session_of (run serde mode (opened req_json) es) ≡ some u
      → finals_of before ≡ []
      → finals_of after ≡ []
      → concat chunks ≡ wire_bytes to_string (before ++ (u.lines ++ after))
      → Serves ic e
      → (callbacks : List Callback) × (handle_lines json ((receive_all [] chunks).0)
          ≡ some callbacks)
        × (commits_of ((engine_run (map (called (some ic)) callbacks) e).1)
            ≡ map (placed ic) (texts_of (all_commits serde us)))
  dictation-commits req_json us es u before after chunks ic e narrates ran none_before none_after
        same serves =
      let lines = before ++ (u.lines ++ after) in
      let (u', ran', finals, increasing, clean) = run-commits serde mode req_json us es narrates in
      let is_u : u' ≡ u = ground (arith, ran, ran') in
      let only : finals_of lines ≡ finals_of u.lines =
        finals_of-append before (u.lines ++ after)
        ∙ ap (λ (r : List Text). r ++ finals_of (u.lines ++ after)) none_before
        ∙ finals_of-append u.lines after
        ∙ ap (λ (r : List Text). finals_of u.lines ++ r) none_after
        ∙ append-nil (finals_of u.lines) in
      (
        concat (map callbacks_of lines),
        (receive-callbacks json to_string wire lines chunks same).0,
        engine_run-finals ic (concat (map callbacks_of lines)) e serves
            ∙ finals_for-callbacks_of ic lines
            ∙ ap (map (placed ic))
                (only ∙ sym (ap (λ (v : Session). finals_of v.lines) is_u) ∙ finals),
      )
