-- ===== src/Ipc/Client/Target.antt =====
-- The audio goes to the session of the handler, where that is the only one.
use fcitx5_anytalk.Prelude.{
  ℕ, List, [], ◌∷◌, ◌≡◌, refl, ◌∙◌, ap, Option, none, some, Option-cases, inl, inr, arith,
}
use fcitx5_anytalk.Prelude.Results.{Result, ok, err}
use fcitx5_anytalk.Text.{Text}
use fcitx5_anytalk.Ipc.Msg.{ClientMsg, ServerMsg, start, stop, cancel}
use fcitx5_anytalk.Audio.Capture.{set_target, clear_target}
use fcitx5_anytalk.Asr.Pool.{Notify, take_spare}
use fcitx5_anytalk.Ipc.Client.{
  Phase, selecting, taking, dialing, left, failed, LineRead, line, end_of_file, read_error, Shared,
  Client, abort, write, returns, connect, on_start, on_taken, on_dialed, on_opened, on_stop,
  on_cancel, on_other, on_msg, on_read, on_response,
}
use fcitx5_anytalk.Ipc.Client.Reach.{Reaches, IsIdle, IsKept, Reaches-invariant}

module _ (nt : Notify) (Ws : Type 0) (to_string : ServerMsg → Option Text)
    (from_str : Text → Option ClientMsg) where
  -- The session that the last handler to return had.
  abbrev pub session_left : List (Option ℕ × Option ℕ) → Option ℕ
  session_left [] = none
  session_left ((session, draining) ∷ detached) = session

  -- Where the audio is to go: to the session, after a return without an error nowhere, and after one
  -- with an error to the session that the handler had.
  abbrev pub aim : Phase Ws → Option ℕ → List (Option ℕ × Option ℕ) → Option ℕ
  aim left session detached = none
  aim failed session detached = session_left detached
  aim phase session detached = session

  abbrev pub Follows : Shared nt Ws → Client nt Ws → Type 0
  Follows sh c = sh.audio.target ≡ aim c.phase c.session sh.detached

  abort-audio : (task : Option _) (sh : Shared nt Ws) → (abort nt Ws task sh).audio ≡ sh.audio
  unfolding abort
  abort-audio none sh = refl
  abort-audio (some task) sh = refl

  pub on_start-target :
      (sh : Shared nt Ws) (c : Client nt Ws)
      → sh.audio.target ≡ c.session
      → let next = on_start nt Ws to_string from_str sh c in
        (next.0.audio.target ≡ none) × (next.1.session ≡ none) × (next.1.phase ≡ taking)
  unfolding on_start
  on_start-target sh c h = elim (Option-cases c.session) [
    | inl idle ↦ ground (arith, idle, h, abort-audio c.draining_task sh)
    | inr (task, active) ↦ unfold clear_target abort in ground (arith, active)
  ]

  on_stop-target :
      (sh : Shared nt Ws) (c : Client nt Ws)
      → let next = on_stop nt Ws to_string from_str sh c in
        (next.0.audio.target ≡ none) × (next.1.session ≡ none) × (next.1.phase ≡ c.phase)
  unfolding on_stop write clear_target
  on_stop-target sh c = elim (Option-cases c.session) [
    | inl idle ↦ ground (arith, idle)
    | inr (task, active) ↦
        ground
          (arith, active, abort-audio c.draining_task (record sh { audio = clear_target sh.audio }))
  ]

  on_cancel-target :
      (sh : Shared nt Ws) (c : Client nt Ws)
      → let next = on_cancel nt Ws to_string from_str sh c in
        (next.0.audio.target ≡ none) × (next.1.session ≡ none) × (next.1.phase ≡ c.phase)
  unfolding on_cancel write
  on_cancel-target sh c =
      let cleared : Shared nt Ws = record sh { audio = clear_target sh.audio } in
      (
        ap (λ a. a.target)
              (abort-audio c.draining_task (abort nt Ws c.session cleared)
                ∙ abort-audio c.session cleared)
            ∙ (unfold clear_target in refl),
        refl,
        refl,
      )

  on_msg-Follows :
      (msg : ClientMsg) (sh : Shared nt Ws) (c : Client nt Ws)
      → c.phase ≡ selecting
      → Follows sh c
      → let next = on_msg nt Ws to_string from_str msg sh c in Follows (next.0) (next.1)
  unfolding on_msg
  on_msg-Follows (start mode) sh c e h =
      let at : sh.audio.target ≡ c.session = rw e at h in ground (arith, on_start-target sh c at)
  on_msg-Follows stop sh c e h = ground (arith, on_stop-target sh c, e)
  on_msg-Follows cancel sh c e h = ground (arith, on_cancel-target sh c, e)
  on_msg-Follows ClientMsg.other sh c e h = unfold on_other write in h

  on_read-Follows :
      (r : LineRead) (sh : Shared nt Ws) (c : Client nt Ws)
      → c.phase ≡ selecting
      → Follows sh c
      → let next = on_read nt Ws to_string from_str r sh c in Follows (next.0) (next.1)
  unfolding on_read
  on_read-Follows (line l) sh c e h = elim (Option-cases (from_str l)) [
    | inl unknown ↦ rw (unknown, on_read) (unfold on_other write in h)
    | inr (msg, parsed) ↦ rw (parsed, on_read) (on_msg-Follows msg sh c e h)
  ]
  on_read-Follows end_of_file sh c e h = unfold returns clear_target in refl
  on_read-Follows read_error sh c e h = unfold returns in (rw e at h)

  on_response-Follows :
      (r : Option Text) (sh : Shared nt Ws) (c : Client nt Ws)
      → c.phase ≡ selecting
      → Follows sh c
      → let next = on_response nt Ws to_string from_str r sh c in Follows (next.0) (next.1)
  unfolding on_response
  on_response-Follows none sh c e h = h
  on_response-Follows (some l) sh c e h = h

  on_taken-Follows :
      (sh : Shared nt Ws) (c : Client nt Ws)
      → c.phase ≡ taking
      → Follows sh c
      → let next = on_taken nt Ws to_string from_str sh c in Follows (next.0) (next.1)
  unfolding on_taken take_spare write
  on_taken-Follows sh c e h =
      let at : sh.audio.target ≡ c.session = rw e at h in
      elim (Option-cases sh.pool.spare) [
        | inl empty ↦ ground (arith, empty, at)
        | inr (stream, full) ↦ ground (arith, full, at)
      ]

  on_dialed-Follows :
      (r : Result Text Ws) (sh : Shared nt Ws) (c : Client nt Ws)
      → c.phase ≡ dialing
      → Follows sh c
      → let next = on_dialed nt Ws to_string from_str r sh c in Follows (next.0) (next.1)
  unfolding on_dialed write
  on_dialed-Follows (ok stream) sh c e h = rw e at h
  on_dialed-Follows (err message) sh c e h = rw e at h

  connect-Follows :
      (sh : Shared nt Ws) → IsIdle nt Ws sh → Follows sh (connect nt Ws to_string from_str sh)
  unfolding connect write
  connect-Follows sh idle = elim (Option-cases sh.pool.spare) [
    | inl empty ↦ ground (arith, empty, idle.silent)
    | inr (stream, full) ↦ ground (arith, full, idle.silent)
  ]

  follows : IsKept nt Ws to_string from_str Follows
  follows = record {
    reads = on_read-Follows;
    responds = on_response-Follows;
    takes = on_taken-Follows;
    dials = on_dialed-Follows;
    opens = λ stream sh c e h. unfold on_opened write set_target in refl;
    ignores_pool = λ sh c pool h. h;
  }

  -- In every state that the handler of a single client reaches from an idle daemon, whatever the pool
  -- does, the audio goes to the handler's session and to nothing else if there is no session; when
  -- the handler has returned at the end of the input the audio goes nowhere. After a read error it
  -- still goes to the session that the handler had, whose task it leaves behind.
  pub Reaches-Follows :
      (sh : Shared nt Ws) (c : Client nt Ws) → Reaches nt Ws to_string from_str sh c → Follows sh c
  Reaches-Follows = Reaches-invariant nt Ws to_string from_str Follows follows connect-Follows
