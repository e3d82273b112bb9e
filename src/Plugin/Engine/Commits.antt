-- ===== src/Plugin/Engine/Commits.antt =====
-- Where the engine puts text.
use fcitx5_anytalk.Prelude.{
  ℕ, Bool, true, false, Option-cases, inl, inr, ◌≡◌, ◌∙◌, Option, none, some, List, [], ◌∷◌, ◌==◌,
  if◌then◌else◌, All, All-append, arith,
}
use fcitx5_anytalk.Text.{text, text_eq}
use fcitx5_anytalk.Plugin.Messages.{Callback, on_partial, on_final, on_status}
use fcitx5_anytalk.Plugin.Engine.{
  Action, adds_action, sends_start, sends_stop, updates_action, updates_area, sets_preedit, commits,
  accepts_key, Engine, set_status, activate, deactivate, target_ic, update_preedit, commit_text,
  on_callback, EngineEvent, pressed, called, activated, deactivated, engine_step, engine_run,
}

-- An action that puts text into a context puts it into this one.
abbrev pub TextFor : ℕ → Action → Type 0
TextFor ic sends_start = Unit
TextFor ic sends_stop = Unit
TextFor ic (adds_action j) = Unit
TextFor ic (updates_action j) = Unit
TextFor ic (updates_area j) = Unit
TextFor ic (sets_preedit j t) = j ≡ ic
TextFor ic (commits j t) = j ≡ ic
TextFor ic accepts_key = Unit

-- An event that leaves the context of a recording alone: no key, no status `idle`, and no
-- deactivation of it.
abbrev pub Spares : ℕ → EngineEvent → Type 0
Spares ic (pressed release key focused j) = ⊥
Spares ic (called focused (on_partial t)) = Unit
Spares ic (called focused (on_final t)) = Unit
Spares ic (called focused (on_status s)) = text_eq s (text "idle") ≡ false
Spares ic (activated j) = Unit
Spares ic (deactivated j) = (j == ic) ≡ false

target_ic-active :
    (focused : Option ℕ) (e : Engine) (ic j : ℕ)
    → e.active_ic ≡ some ic
    → target_ic focused e ≡ some j
    → j ≡ ic
unfolding target_ic
target_ic-active none e ic j at h = ground (arith, at, h)
target_ic-active (some f) e ic j at h = ground (arith, at, h)

target_ic-focused :
    (focused : Option ℕ) (e : Engine) (ic j : ℕ)
    → focused ≡ some ic
    → target_ic focused e ≡ some j
    → j ≡ ic
unfolding target_ic
target_ic-focused none e ic j at h = absurd (ground (arith, at))
target_ic-focused (some f) e ic j at h = ground (arith, at, h)

set_status-TextFor :
    (ic : ℕ) (focused : Option ℕ) (s : List ℕ) (e : Engine)
    → All (TextFor ic) ((set_status focused s e).1)
unfolding set_status
set_status-TextFor ic none s e = tt
set_status-TextFor ic (some f) s e = (tt, (tt, tt))

set_status-active :
    (ic : ℕ) (focused : Option ℕ) (s : List ℕ) (e : Engine)
    → text_eq s (text "idle") ≡ false
    → (set_status focused s e).0.active_ic ≡ e.active_ic
unfolding set_status
set_status-active ic focused s e h = ground (arith, h)

-- Text goes to the target, so where the target can only be one context it goes there.
update_preedit-TextFor :
    (ic : ℕ) (focused : Option ℕ) (t : List ℕ) (e : Engine)
    → ((j : ℕ) → target_ic focused e ≡ some j → j ≡ ic)
    → All (TextFor ic) ((update_preedit focused t e).1)
unfolding update_preedit
update_preedit-TextFor ic focused t e h = elim (Option-cases (target_ic focused e)) [
  | inl away ↦ rw (away, update_preedit) tt
  | inr (j, here) ↦ rw (here, update_preedit) (h j here, tt)
]

if-TextFor :
    (ic : ℕ) (ignored : Bool) (e e' : Engine) (actions : List Action)
    → All (TextFor ic) actions
    → let r : Engine × List Action = if ignored then (e, []) else (e', actions) in
      All (TextFor ic) (r.1)
if-TextFor ic true e e' actions h = tt
if-TextFor ic false e e' actions h = h

commit_text-TextFor :
    (ic : ℕ) (focused : Option ℕ) (t : List ℕ) (e : Engine)
    → ((j : ℕ) → target_ic focused e ≡ some j → j ≡ ic)
    → All (TextFor ic) ((commit_text focused t e).1)
unfolding commit_text
commit_text-TextFor ic focused t e h = elim (Option-cases (target_ic focused e)) [
  | inl away ↦ rw (away, commit_text) (if-TextFor ic e.ignore_next_commit e _ [] tt)
  | inr (j, here) ↦
      rw (here, commit_text)
        (if-TextFor ic e.ignore_next_commit e _ (commits j t ∷ sets_preedit j [] ∷ [])
          (h j here, (h j here, tt)))
]

commit_text-active :
    (focused : Option ℕ) (t : List ℕ) (e : Engine)
    → (commit_text focused t e).0.active_ic ≡ e.active_ic
unfolding commit_text
commit_text-active focused t e = ground arith

-- One event: the text goes to the context, and the context stays.
step-TextFor :
    (event : EngineEvent) (e : Engine) (ic : ℕ)
    → e.active_ic ≡ some ic
    → Spares ic event
    → let next = engine_step event e in All (TextFor ic) (next.1) × ((next.0).active_ic ≡ some ic)
unfolding engine_step
step-TextFor (pressed release key focused j) e ic at h = absurd h
step-TextFor (called focused (on_partial t)) e ic at h =
    unfold on_callback in
    (
      update_preedit-TextFor ic focused t e (λ j. target_ic-active focused e ic j at),
      (unfold update_preedit in at),
    )
step-TextFor (called focused (on_final t)) e ic at h =
    unfold on_callback in
    (
      commit_text-TextFor ic focused t e (λ j. target_ic-active focused e ic j at),
      commit_text-active focused t e ∙ at,
    )
step-TextFor (called focused (on_status s)) e ic at h =
    unfold on_callback in
    (set_status-TextFor ic focused s e, set_status-active ic focused s e h ∙ at)
step-TextFor (activated none) e ic at h = unfold activate in (tt, at)
step-TextFor (activated (some j)) e ic at h = unfold activate in ((tt, (tt, tt)), at)
step-TextFor (deactivated j) e ic at h = unfold deactivate in (tt, ground (arith, at, h))

-- While a context is the one of a recording, and until a key is pressed, the status becomes `idle` or
-- that context is deactivated, text is put into it and into no other context, whatever is focused
-- and whatever messages come.
pub engine_run-TextFor :
    (events : List EngineEvent) (e : Engine) (ic : ℕ)
    → e.active_ic ≡ some ic
    → All (Spares ic) events
    → let last = engine_run events e in All (TextFor ic) (last.1) × ((last.0).active_ic ≡ some ic)
unfolding engine_run
engine_run-TextFor [] e ic at h = (tt, at)
engine_run-TextFor (event ∷ events) e ic at (now, later) =
    let next = engine_step event e in
    let (text_now, at_next) = step-TextFor event e ic at now in
    let (text_later, at_last) = engine_run-TextFor events (next.0) ic at_next later in
    (All-append (TextFor ic) (next.1) ((engine_run events (next.0)).1) text_now text_later, at_last)

-- Text goes to the focused context only.
on_callback-focused :
    (focused : Option ℕ) (ic : ℕ) (callback : Callback) (e : Engine)
    → focused ≡ some ic
    → All (TextFor ic) ((on_callback focused callback e).1)
unfolding on_callback
on_callback-focused focused ic (on_partial t) e h =
    update_preedit-TextFor ic focused t e (λ j. target_ic-focused focused e ic j h)
on_callback-focused focused ic (on_final t) e h =
    commit_text-TextFor ic focused t e (λ j. target_ic-focused focused e ic j h)
on_callback-focused focused ic (on_status s) e h = set_status-TextFor ic focused s e
