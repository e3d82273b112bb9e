-- ===== src/Ipc/Client/Written.antt =====
-- A step of a handler adds to what it has written.
use fcitx5_anytalk.Prelude.{
  ◌≡◌, refl, sym, subst, append-nil, Option, none, some, Option-cases, inl, inr, List, [], ◌∷◌,
  ◌++◌,
}
use fcitx5_anytalk.Prelude.Results.{Result, ok, err}
use fcitx5_anytalk.Text.{Text}
use fcitx5_anytalk.Ipc.Msg.{ClientMsg, ServerMsg, start, stop, cancel}
use fcitx5_anytalk.Asr.Pool.{Notify, take_spare}
use fcitx5_anytalk.Ipc.Client.{
  Phase, selecting, taking, dialing, opening, left, failed, LineRead, line, end_of_file, read_error,
  Event, read, response, taken, dialed, opened, Shared, Client, write, returns, on_start, on_taken,
  on_dialed, on_opened, on_stop, on_cancel, on_other, on_msg, on_read, on_response, step,
}

module _ (nt : Notify) (Ws : Type 0) (to_string : ServerMsg → Option Text)
    (from_str : Text → Option ClientMsg) where
  abbrev pub Adds : Client nt Ws → Client nt Ws → Type 0
  Adds c c' = (new : List Text) × (c'.written ≡ c.written ++ new)

  module _ (sh : Shared nt Ws) (c : Client nt Ws) where
    nothing : Adds c c
    nothing = ([], sym (append-nil c.written))

    on_stop-Adds : Adds c ((on_stop nt Ws to_string from_str sh c).1)
    unfolding on_stop
    on_stop-Adds = elim (Option-cases c.session) [
      | inl idle ↦ rw (idle, on_stop) (unfold write in (_, refl))
      | inr (task, active) ↦ rw (active, on_stop) nothing
    ]

    on_msg-Adds : (msg : ClientMsg) → Adds c ((on_msg nt Ws to_string from_str msg sh c).1)
    unfolding on_msg
    on_msg-Adds (start mode) = unfold on_start in nothing
    on_msg-Adds stop = on_stop-Adds
    on_msg-Adds cancel = unfold on_cancel write in (_, refl)
    on_msg-Adds ClientMsg.other = unfold on_other write in (_, refl)

    on_read-Adds : (r : LineRead) → Adds c ((on_read nt Ws to_string from_str r sh c).1)
    unfolding on_read
    on_read-Adds (line l) = elim (Option-cases (from_str l)) [
      | inl unknown ↦ rw (unknown, on_read) (unfold on_other write in (_, refl))
      | inr (msg, parsed) ↦ rw (parsed, on_read) (on_msg-Adds msg)
    ]
    on_read-Adds end_of_file = unfold returns in nothing
    on_read-Adds read_error = unfold returns in nothing

    on_response-Adds : (r : Option Text) → Adds c ((on_response nt Ws to_string from_str r sh c).1)
    unfolding on_response
    on_response-Adds none = nothing
    on_response-Adds (some l) = (l ∷ [], refl)

    on_taken-Adds : Adds c ((on_taken nt Ws to_string from_str sh c).1)
    unfolding on_taken
    on_taken-Adds = elim (Option-cases ((take_spare nt Ws sh.pool).0)) [
      | inl empty ↦ rw (empty, on_taken) (unfold write in (_, refl))
      | inr (stream, full) ↦ rw (full, on_taken) nothing
    ]

    on_dialed-Adds : (r : Result Text Ws) → Adds c ((on_dialed nt Ws to_string from_str r sh c).1)
    unfolding on_dialed
    on_dialed-Adds (ok stream) = nothing
    on_dialed-Adds (err e) = unfold write in (_, refl)

    -- Of the result of a step, where there is one.
    abbrev AddsOf : Option (Shared nt Ws × Client nt Ws) → Type 0
    AddsOf none = Unit
    AddsOf (some (sh', c')) = Adds c c'

    step-AddsOf :
        (event : Event Ws) (phase : Phase Ws)
        → c.phase ≡ phase
        → AddsOf (step nt Ws to_string from_str event sh c)
    unfolding step
    step-AddsOf (read r) selecting e = rw (e, AddsOf, step) (on_read-Adds r)
    step-AddsOf (response r) selecting e = rw (e, AddsOf, step) (on_response-Adds r)
    step-AddsOf taken selecting e = rw (e, AddsOf, step) tt
    step-AddsOf (dialed r) selecting e = rw (e, AddsOf, step) tt
    step-AddsOf opened selecting e = rw (e, AddsOf, step) tt
    step-AddsOf (read r) taking e = rw (e, AddsOf, step) tt
    step-AddsOf (response r) taking e = rw (e, AddsOf, step) tt
    step-AddsOf taken taking e = rw (e, AddsOf, step) on_taken-Adds
    step-AddsOf (dialed r) taking e = rw (e, AddsOf, step) tt
    step-AddsOf opened taking e = rw (e, AddsOf, step) tt
    step-AddsOf (read r) dialing e = rw (e, AddsOf, step) tt
    step-AddsOf (response r) dialing e = rw (e, AddsOf, step) tt
    step-AddsOf taken dialing e = rw (e, AddsOf, step) tt
    step-AddsOf (dialed r) dialing e = rw (e, AddsOf, step) (on_dialed-Adds r)
    step-AddsOf opened dialing e = rw (e, AddsOf, step) tt
    step-AddsOf (read r) (opening stream) e = rw (e, AddsOf, step) tt
    step-AddsOf (response r) (opening stream) e = rw (e, AddsOf, step) tt
    step-AddsOf taken (opening stream) e = rw (e, AddsOf, step) tt
    step-AddsOf (dialed r) (opening stream) e = rw (e, AddsOf, step) tt
    step-AddsOf opened (opening stream) e =
        rw (e, AddsOf, step) (unfold on_opened write in (_, refl))
    step-AddsOf event left e = rw (e, AddsOf, step) tt
    step-AddsOf event failed e = rw (e, AddsOf, step) tt

    pub step-Adds :
        (event : Event Ws) (sh' : Shared nt Ws) (c' : Client nt Ws)
        → step nt Ws to_string from_str event sh c ≡ some (sh', c')
        → Adds c c'
    step-Adds event sh' c' e = subst AddsOf e (step-AddsOf event c.phase refl)

    -- A response is written where the handler takes it.
    abbrev pub Writes : Option Text → Option (Shared nt Ws × Client nt Ws) → Type 0
    Writes r none = Unit
    Writes none (some (sh', c')) = (sh' ≡ sh) × (c'.written ≡ c.written)
    Writes (some l) (some (sh', c')) = (sh' ≡ sh) × (c'.written ≡ c.written ++ (l ∷ []))

    response-Writes :
        (r : Option Text) (phase : Phase Ws)
        → c.phase ≡ phase
        → Writes r (step nt Ws to_string from_str (response r) sh c)
    unfolding step on_response
    response-Writes none selecting e = rw (e, Writes, step) (refl, refl)
    response-Writes (some l) selecting e = rw (e, Writes, step) (refl, refl)
    response-Writes r taking e = rw (e, Writes, step) tt
    response-Writes r dialing e = rw (e, Writes, step) tt
    response-Writes r (opening stream) e = rw (e, Writes, step) tt
    response-Writes r left e = rw (e, Writes, step) tt
    response-Writes r failed e = rw (e, Writes, step) tt

    pub step-Writes :
        (r : Option Text) (sh' : Shared nt Ws) (c' : Client nt Ws)
        → step nt Ws to_string from_str (response r) sh c ≡ some (sh', c')
        → Writes r (some (sh', c'))
    step-Writes r sh' c' e = subst (Writes r) e (response-Writes r c.phase refl)
