-- ===== src/Plugin/Engine.antt =====
-- AnyTalkEngine of src/addon.cpp. An input context is a number, and `lastFocusedInputContext()` a
-- parameter of the operations that call it. What the engine does to its surroundings is listed in
-- order; `sets_preedit` is the new preedit and its refresh. `instance_` is not null; `state_mutex_`
-- makes each operation on the state one step.
pub mod Commits
pub mod Recording
pub mod Late
pub mod Dictation
mod Tests
use fcitx5_anytalk.Prelude.{
  ℕ, Bool, true, false, not, ◌&&◌, ◌||◌, Option, none, some, List, [], ◌∷◌, ◌++◌, ◌==◌,
  if◌then◌else◌,
}
use fcitx5_anytalk.Text.{Text, text, text_eq}
use fcitx5_anytalk.Plugin.Messages.{Callback, on_partial, on_final, on_status}

pub data Action : Type 0 where
  sends_start : Action
  sends_stop : Action
  adds_action : ℕ → Action
  updates_action : ℕ → Action
  updates_area : ℕ → Action
  sets_preedit : ℕ → List ℕ → Action
  commits : ℕ → List ℕ → Action
  accepts_key : Action

pub record Engine : Type 0 where
  pub recording : Bool
  pub ignore_next_commit : Bool
  pub last_text : List ℕ
  pub current_state : List ℕ
  pub active_ic : Option ℕ

unfoldable pub initial : Engine
initial = record {
  recording = false;
  ignore_next_commit = false;
  last_text = [];
  current_state = text "idle";
  active_ic = none;
}

unfoldable pub get_status_label : Engine → Text
get_status_label e =
    if e.recording
    then text "REC"
    else if text_eq e.current_state (text "connecting")
    then text "..."
    else if text_eq e.current_state (text "connected")
    then text "RDY"
    else text "AT"

unfoldable pub get_status_icon : Engine → Text
get_status_icon e = if e.recording then text "media-record" else text "anytalk"

unfoldable pub set_status : Option ℕ → List ℕ → Engine → Engine × List Action
set_status focused state e =
    let e = record e { current_state = state } in
    let e : Engine =
      if text_eq state (text "idle")
      then record e { recording = false; active_ic = none }
      else if text_eq state (text "connected")
      then record e { recording = false }
      else if text_eq state (text "recording")
      then record e { recording = true }
      else e in
    (e, elim focused [ none ↦ [] | some ic ↦ updates_action ic ∷ updates_area ic ∷ [] ])

unfoldable pub activate : Option ℕ → Engine → Engine × List Action
activate none e = (e, [])
activate (some ic) e = (e, adds_action ic ∷ updates_action ic ∷ [])

unfoldable pub deactivate : ℕ → Engine → Engine
deactivate ic e = elim e.active_ic [
  | none ↦ e
  | some active ↦ if ic == active then record e { active_ic = none } else e
]

-- The keys that `keyEvent` tells apart.
pub data Key : Type 0 where
  enter : Key
  toggle : Key  -- F2 or the media key
  other : Key

-- A press of Enter while recording, and of the toggle key.
unfoldable pub stop_recording : Option ℕ → Engine → Engine × List Action
stop_recording focused e =
    let (e', actions) = set_status focused (text "idle") e in
    (e', sends_stop ∷ (actions ++ (accepts_key ∷ [])))

unfoldable pub start_recording : Option ℕ → ℕ → Engine → Engine × List Action
start_recording focused ic e =
    let state = e.current_state in
    let e = record e { active_ic = some ic; ignore_next_commit = false } in
    let (e', actions) = set_status focused (text "connecting") e in
    if text_eq state (text "connected")
    then (e, sends_start ∷ accepts_key ∷ [])
    else (e', sends_start ∷ (actions ++ (accepts_key ∷ [])))

unfoldable pub key_event : Bool → Key → Option ℕ → ℕ → Engine → Engine × List Action
key_event true key focused ic e = (e, [])
key_event false enter focused ic e = if e.recording then stop_recording focused e else (e, [])
key_event false toggle focused ic e =
    if not e.recording then start_recording focused ic e else stop_recording focused e
key_event false other focused ic e = (e, [])

-- The input context that text goes to.
unfoldable pub target_ic : Option ℕ → Engine → Option ℕ
target_ic focused e = elim e.active_ic [
  | none ↦ focused
  | some active ↦ elim focused [
    | none ↦ none
    | some ic ↦ if active == ic then some active else none
  ]
]

unfoldable pub update_preedit : Option ℕ → List ℕ → Engine → Engine × List Action
update_preedit focused txt e = (
  record e { last_text = txt },
  elim (target_ic focused e) [ none ↦ [] | some ic ↦ sets_preedit ic txt ∷ [] ],
)

unfoldable pub commit_text : Option ℕ → List ℕ → Engine → Engine × List Action
commit_text focused txt e = if e.ignore_next_commit then (e, []) else (
  record e { last_text = [] },
  elim (target_ic focused e) [ none ↦ [] | some ic ↦ commits ic txt ∷ sets_preedit ic [] ∷ [] ],
)

-- The callbacks that the constructor sets, run by the event dispatcher.
unfoldable pub on_callback : Option ℕ → Callback → Engine → Engine × List Action
on_callback focused (on_partial t) e = update_preedit focused t e
on_callback focused (on_final t) e = commit_text focused t e
on_callback focused (on_status s) e = set_status focused s e

-- What happens to the engine, each with the context that is focused then.
pub data EngineEvent : Type 0 where
  pressed : Bool → Key → Option ℕ → ℕ → EngineEvent
  called : Option ℕ → Callback → EngineEvent
  activated : Option ℕ → EngineEvent
  deactivated : ℕ → EngineEvent

unfoldable pub engine_step : EngineEvent → Engine → Engine × List Action
engine_step (pressed release key focused ic) e = key_event release key focused ic e
engine_step (called focused callback) e = on_callback focused callback e
engine_step (activated ic) e = activate ic e
engine_step (deactivated ic) e = (deactivate ic e, [])

unfoldable pub engine_run : List EngineEvent → Engine → Engine × List Action
engine_run [] e = (e, [])
engine_run (event ∷ events) e =
    let (e', actions) = engine_step event e in
    let (last, later) = engine_run events e' in (last, actions ++ later)
