-- ===== src/Ipc/Client/Retarget.antt =====
-- What a step of a handler does to the audio target and to the number of tasks.
use fcitx5_anytalk.Prelude.{
  ℕ, ◌+◌, ◌≡◌, refl, sym, ◌∙◌, ap, subst, Option, none, some, Option-cases, inl, inr, arith,
}
use fcitx5_anytalk.Prelude.Results.{Result, ok, err}
use fcitx5_anytalk.Text.{Text}
use fcitx5_anytalk.Ipc.Msg.{ClientMsg, ServerMsg, start, stop, cancel}
use fcitx5_anytalk.Audio.Capture.{set_target, clear_target}
use fcitx5_anytalk.Asr.Pool.{Notify}
use fcitx5_anytalk.Ipc.Client.{
  Phase, selecting, taking, dialing, opening, left, failed, LineRead, line, end_of_file, read_error,
  Event, read, response, taken, dialed, opened, Shared, Client, abort, returns, on_start, on_taken,
  on_dialed, on_opened, on_stop, on_cancel, on_other, on_msg, on_read, on_response, step,
}

module _ (nt : Notify) (Ws : Type 0) (to_string : ServerMsg → Option Text)
    (from_str : Text → Option ClientMsg) where
  -- Both stay; or the target is cleared; or a new task is the target.
  pub data Retargets (sh sh' : Shared nt Ws) : Type 0 where
    kept : sh'.audio.target ≡ sh.audio.target → sh'.tasks ≡ sh.tasks → Retargets sh sh'
    cleared : sh'.audio.target ≡ none → sh'.tasks ≡ sh.tasks → Retargets sh sh'
    aimed : sh'.audio.target ≡ some sh.tasks → sh'.tasks ≡ sh.tasks + 1 → Retargets sh sh'

  abort_shared :
      (task : Option ℕ) (sh : Shared nt Ws)
      → ((abort nt Ws task sh).audio ≡ sh.audio) × ((abort nt Ws task sh).tasks ≡ sh.tasks)
  unfolding abort
  abort_shared none sh = (refl, refl)
  abort_shared (some task) sh = (refl, refl)

  module _ (sh : Shared nt Ws) (c : Client nt Ws) where
    on_start-Retargets : Retargets sh ((on_start nt Ws to_string from_str sh c).0)
    unfolding on_start
    on_start-Retargets =
        let first = abort nt Ws c.draining_task sh in
        let (audio, tasks) = abort_shared c.draining_task sh in
        elim (Option-cases c.session) [
          | inl idle ↦ rw (idle, on_start) (kept (ap (λ a. a.target) audio) tasks)
          | inr (task, active) ↦
              rw (active, on_start)
                (cleared (unfold abort clear_target in refl) (unfold abort in tasks))
        ]

    on_stop-Retargets : Retargets sh ((on_stop nt Ws to_string from_str sh c).0)
    unfolding on_stop
    on_stop-Retargets =
        let silent : Shared nt Ws = record sh { audio = clear_target sh.audio } in
        let (audio, tasks) = abort_shared c.draining_task silent in
        elim (Option-cases c.session) [
          | inl idle ↦ rw (idle, on_stop) (cleared (unfold clear_target in refl) refl)
          | inr (task, active) ↦
              rw (active, on_stop)
                (cleared (ap (λ a. a.target) audio ∙ (unfold clear_target in refl)) tasks)
        ]

    on_cancel-Retargets : Retargets sh ((on_cancel nt Ws to_string from_str sh c).0)
    unfolding on_cancel
    on_cancel-Retargets =
        let silent : Shared nt Ws = record sh { audio = clear_target sh.audio } in
        let (audio, tasks) = abort_shared c.session silent in
        let (audio', tasks') = abort_shared c.draining_task (abort nt Ws c.session silent) in
        cleared (ap (λ a. a.target) (audio' ∙ audio) ∙ (unfold clear_target in refl))
          (tasks' ∙ tasks)

    on_msg-Retargets :
        (msg : ClientMsg) → Retargets sh ((on_msg nt Ws to_string from_str msg sh c).0)
    unfolding on_msg
    on_msg-Retargets (start mode) = on_start-Retargets
    on_msg-Retargets stop = on_stop-Retargets
    on_msg-Retargets cancel = on_cancel-Retargets
    on_msg-Retargets ClientMsg.other = unfold on_other in kept refl refl

    on_read-Retargets : (r : LineRead) → Retargets sh ((on_read nt Ws to_string from_str r sh c).0)
    unfolding on_read
    on_read-Retargets (line l) = elim (Option-cases (from_str l)) [
      | inl unknown ↦ rw (unknown, on_read) (unfold on_other in kept refl refl)
      | inr (msg, parsed) ↦ rw (parsed, on_read) (on_msg-Retargets msg)
    ]
    on_read-Retargets end_of_file = unfold returns in (cleared (unfold clear_target in refl) refl)
    on_read-Retargets read_error = unfold returns in (kept refl refl)

    on_response-Retargets :
        (r : Option Text) → Retargets sh ((on_response nt Ws to_string from_str r sh c).0)
    unfolding on_response
    on_response-Retargets none = kept refl refl
    on_response-Retargets (some l) = kept refl refl

    on_dialed-Retargets :
        (r : Result Text Ws) → Retargets sh ((on_dialed nt Ws to_string from_str r sh c).0)
    unfolding on_dialed
    on_dialed-Retargets (ok stream) = kept refl refl
    on_dialed-Retargets (err e) = kept refl refl

    -- Of the result of a step, where there is one.
    abbrev Leads : Option (Shared nt Ws × Client nt Ws) → Type 0
    Leads none = Unit
    Leads (some (sh', c')) = Retargets sh sh'

    step-Leads :
        (event : Event Ws) (phase : Phase Ws)
        → c.phase ≡ phase
        → Leads (step nt Ws to_string from_str event sh c)
    unfolding step
    step-Leads (read r) selecting e = rw (e, Leads, step) (on_read-Retargets r)
    step-Leads (response r) selecting e = rw (e, Leads, step) (on_response-Retargets r)
    step-Leads taken selecting e = rw (e, Leads, step) tt
    step-Leads (dialed r) selecting e = rw (e, Leads, step) tt
    step-Leads opened selecting e = rw (e, Leads, step) tt
    step-Leads (read r) taking e = rw (e, Leads, step) tt
    step-Leads (response r) taking e = rw (e, Leads, step) tt
    step-Leads taken taking e = rw (e, Leads, step) (unfold on_taken in kept refl refl)
    step-Leads (dialed r) taking e = rw (e, Leads, step) tt
    step-Leads opened taking e = rw (e, Leads, step) tt
    step-Leads (read r) dialing e = rw (e, Leads, step) tt
    step-Leads (response r) dialing e = rw (e, Leads, step) tt
    step-Leads taken dialing e = rw (e, Leads, step) tt
    step-Leads (dialed r) dialing e = rw (e, Leads, step) (on_dialed-Retargets r)
    step-Leads opened dialing e = rw (e, Leads, step) tt
    step-Leads (read r) (opening stream) e = rw (e, Leads, step) tt
    step-Leads (response r) (opening stream) e = rw (e, Leads, step) tt
    step-Leads taken (opening stream) e = rw (e, Leads, step) tt
    step-Leads (dialed r) (opening stream) e = rw (e, Leads, step) tt
    step-Leads opened (opening stream) e =
        rw (e, Leads, step) (unfold on_opened set_target in aimed refl refl)
    step-Leads event left e = rw (e, Leads, step) tt
    step-Leads event failed e = rw (e, Leads, step) tt

    pub step-Retargets :
        (event : Event Ws) (sh' : Shared nt Ws) (c' : Client nt Ws)
        → step nt Ws to_string from_str event sh c ≡ some (sh', c')
        → Retargets sh sh'
    step-Retargets event sh' c' e = subst Leads e (step-Leads event c.phase refl)

  -- The target is the task spawned last, or none.
  abbrev pub Newest : Shared nt Ws → Type 0
  Newest sh = (t : ℕ) → sh.audio.target ≡ some t → t + 1 ≡ sh.tasks

  pub Retargets-Newest : (sh sh' : Shared nt Ws) → Retargets sh sh' → Newest sh → Newest sh'
  Retargets-Newest sh sh' (kept target tasks) h t at = h t (sym target ∙ at) ∙ sym tasks
  Retargets-Newest sh sh' (cleared target tasks) h t at = absurd (ground (arith, target, at))
  Retargets-Newest sh sh' (aimed target tasks) h t at = ground (arith, target, tasks, at)
