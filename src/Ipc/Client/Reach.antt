-- ===== src/Ipc/Client/Reach.antt =====
-- The states that a handler reaches while it is the only one: its own steps, and any change of the
-- pool between them.
use fcitx5_anytalk.Prelude.{
  ◌≡◌, refl, inl, inr, List, ◌∷◌, Option-cases, subst, Option, none, some, [],
}
use fcitx5_anytalk.Prelude.Results.{Result}
use fcitx5_anytalk.Text.{Text}
use fcitx5_anytalk.Ipc.Msg.{ClientMsg, ServerMsg}
use fcitx5_anytalk.Asr.Pool.{Notify, ConnectionPool}
use fcitx5_anytalk.Ipc.Client.{
  Phase, selecting, taking, dialing, opening, left, failed, LineRead, Event, read, response, taken,
  dialed, opened, Shared, Client, connect, on_read, on_response, on_taken, on_dialed, on_opened,
  step, run,
}

-- A daemon with no target and no task yet.
pub record IsIdle (nt : Notify) (Ws : Type 0) (sh : Shared nt Ws) : Type 0 where
  pub silent : sh.audio.target ≡ none
  pub unspawned : sh.tasks ≡ 0
  pub unaborted : sh.aborted ≡ []
  pub attached : sh.detached ≡ []

pub data Reaches (nt : Notify) (Ws : Type 0) (to_string : ServerMsg → Option Text)
    (from_str : Text → Option ClientMsg) : Shared nt Ws → Client nt Ws → Type 0 where
  connected :
      (sh : Shared nt Ws)
      → IsIdle nt Ws sh
      → Reaches nt Ws to_string from_str sh (connect nt Ws to_string from_str sh)
  steps :
      (sh sh' : Shared nt Ws) (c c' : Client nt Ws) (event : Event Ws)
      → Reaches nt Ws to_string from_str sh c
      → step nt Ws to_string from_str event sh c ≡ some (sh', c')
      → Reaches nt Ws to_string from_str sh' c'
  pool_changes :
      (sh : Shared nt Ws) (c : Client nt Ws) (pool : ConnectionPool nt Ws)
      → Reaches nt Ws to_string from_str sh c
      → Reaches nt Ws to_string from_str (record sh { pool = pool }) c

module _ (nt : Notify) (Ws : Type 0) (to_string : ServerMsg → Option Text)
    (from_str : Text → Option ClientMsg) (P : Shared nt Ws → Client nt Ws → Type 0) where
  -- A property that each handler keeps in the phase in which it runs.
  pub record IsKept : Type 0 where
    pub reads :
        (r : LineRead) (sh : Shared nt Ws) (c : Client nt Ws)
        → c.phase ≡ selecting
        → P sh c
        → let next = on_read nt Ws to_string from_str r sh c in P (next.0) (next.1)
    pub responds :
        (r : Option Text) (sh : Shared nt Ws) (c : Client nt Ws)
        → c.phase ≡ selecting
        → P sh c
        → let next = on_response nt Ws to_string from_str r sh c in P (next.0) (next.1)
    pub takes :
        (sh : Shared nt Ws) (c : Client nt Ws)
        → c.phase ≡ taking
        → P sh c
        → let next = on_taken nt Ws to_string from_str sh c in P (next.0) (next.1)
    pub dials :
        (r : Result Text Ws) (sh : Shared nt Ws) (c : Client nt Ws)
        → c.phase ≡ dialing
        → P sh c
        → let next = on_dialed nt Ws to_string from_str r sh c in P (next.0) (next.1)
    pub opens :
        (stream : Ws) (sh : Shared nt Ws) (c : Client nt Ws)
        → c.phase ≡ opening stream
        → P sh c
        → let next = on_opened nt Ws to_string from_str stream sh c in P (next.0) (next.1)
    pub ignores_pool :
        (sh : Shared nt Ws) (c : Client nt Ws) (pool : ConnectionPool nt Ws)
        → P sh c
        → P (record sh { pool = pool }) c

  -- Of the result of a step, where there is one.
  abbrev pub Holds : Option (Shared nt Ws × Client nt Ws) → Type 0
  Holds none = Unit
  Holds (some (sh, c)) = P sh c

  pub step-Holds :
      (kept : IsKept) (event : Event Ws) (sh : Shared nt Ws) (c : Client nt Ws) (phase : Phase Ws)
      → c.phase ≡ phase
      → P sh c
      → Holds (step nt Ws to_string from_str event sh c)
  unfolding step
  step-Holds kept (read r) sh c selecting e h = rw (e, Holds, step) (kept.reads r sh c e h)
  step-Holds kept (response r) sh c selecting e h = rw (e, Holds, step) (kept.responds r sh c e h)
  step-Holds kept taken sh c selecting e h = rw (e, Holds, step) tt
  step-Holds kept (dialed r) sh c selecting e h = rw (e, Holds, step) tt
  step-Holds kept opened sh c selecting e h = rw (e, Holds, step) tt
  step-Holds kept (read r) sh c taking e h = rw (e, Holds, step) tt
  step-Holds kept (response r) sh c taking e h = rw (e, Holds, step) tt
  step-Holds kept taken sh c taking e h = rw (e, Holds, step) (kept.takes sh c e h)
  step-Holds kept (dialed r) sh c taking e h = rw (e, Holds, step) tt
  step-Holds kept opened sh c taking e h = rw (e, Holds, step) tt
  step-Holds kept (read r) sh c dialing e h = rw (e, Holds, step) tt
  step-Holds kept (response r) sh c dialing e h = rw (e, Holds, step) tt
  step-Holds kept taken sh c dialing e h = rw (e, Holds, step) tt
  step-Holds kept (dialed r) sh c dialing e h = rw (e, Holds, step) (kept.dials r sh c e h)
  step-Holds kept opened sh c dialing e h = rw (e, Holds, step) tt
  step-Holds kept (read r) sh c (opening stream) e h = rw (e, Holds, step) tt
  step-Holds kept (response r) sh c (opening stream) e h = rw (e, Holds, step) tt
  step-Holds kept taken sh c (opening stream) e h = rw (e, Holds, step) tt
  step-Holds kept (dialed r) sh c (opening stream) e h = rw (e, Holds, step) tt
  step-Holds kept opened sh c (opening stream) e h =
      rw (e, Holds, step) (kept.opens stream sh c e h)
  step-Holds kept event sh c left e h = rw (e, Holds, step) tt
  step-Holds kept event sh c failed e h = rw (e, Holds, step) tt

  -- So it holds of all that is reached, where it holds in the beginning.
  pub Reaches-invariant :
      IsKept
      → ((sh : Shared nt Ws) → IsIdle nt Ws sh → P sh (connect nt Ws to_string from_str sh))
      → (sh : Shared nt Ws) (c : Client nt Ws) → Reaches nt Ws to_string from_str sh c
      → P sh c
  Reaches-invariant kept begins _ _ (connected sh idle) = begins sh idle
  Reaches-invariant kept begins _ _ (steps sh sh' c c' event r e) =
      subst Holds e (step-Holds kept event sh c c.phase refl (Reaches-invariant kept begins sh c r))
  Reaches-invariant kept begins _ _ (pool_changes sh c pool r) =
      kept.ignores_pool sh c pool (Reaches-invariant kept begins sh c r)

module _ (nt : Notify) (Ws : Type 0) (to_string : ServerMsg → Option Text)
    (from_str : Text → Option ClientMsg) where
  -- Of the result of a run, where there is one.
  abbrev pub Reached : Option (Shared nt Ws × Client nt Ws) → Type 0
  Reached none = Unit
  Reached (some (sh, c)) = Reaches nt Ws to_string from_str sh c

  pub run-Reaches :
      (events : List (Event Ws)) (sh : Shared nt Ws) (c : Client nt Ws)
      → Reaches nt Ws to_string from_str sh c
      → Reached (run nt Ws to_string from_str events sh c)
  unfolding run
  run-Reaches [] sh c r = r
  run-Reaches (event ∷ events) sh c r =
      elim (Option-cases (step nt Ws to_string from_str event sh c)) [
        | inl refused ↦ rw (refused, Reached, run) tt
        | inr ((sh', c'), went) ↦
            rw (went, Reached, run) (run-Reaches events sh' c' (steps sh sh' c c' event r went))
      ]
