-- ===== src/Ipc/Client/Tasks.antt =====
-- No task of a session is lost: each is the session or the draining task of a handler, left behind by
-- a handler that has returned, or aborted, and only one of these.
use fcitx5_anytalk.Prelude.{
  Bool, true, false, ℕ, ◌+◌, ◌≡◌, refl, Option, none, some, Option-cases, inl, inr, List, [], ◌∷◌,
  arith, ltb, ◌==◌, if◌then◌else◌,
}
use fcitx5_anytalk.Prelude.Results.{Result, ok, err}
use fcitx5_anytalk.Text.{Text}
use fcitx5_anytalk.Ipc.Msg.{ClientMsg, ServerMsg, start, stop, cancel}
use fcitx5_anytalk.Audio.Capture.{clear_target}
use fcitx5_anytalk.Asr.Pool.{Notify, take_spare}
use fcitx5_anytalk.Ipc.Client.{
  Phase, selecting, taking, dialing, opening, left, failed, LineRead, line, end_of_file, read_error,
  Shared, Client, abort, write, returns, connect, on_start, on_taken, on_dialed, on_opened, on_stop,
  on_cancel, on_other, on_msg, on_read, on_response,
}
use fcitx5_anytalk.Ipc.Client.Reach.{Reaches, IsIdle, IsKept, Reaches-invariant}

-- How often a task is in an option, and in a list.
abbrev pub occurs : ℕ → Option ℕ → ℕ
occurs t none = 0
occurs t (some s) = if t == s then 1 else 0

abbrev pub count : ℕ → List ℕ → ℕ
count t [] = 0
count t (s ∷ tasks) = (if t == s then 1 else 0) + count t tasks

-- How often a task is among those that handlers have left behind.
abbrev pub left_behind : ℕ → List (Option ℕ × Option ℕ) → ℕ
left_behind t [] = 0
left_behind t ((session, draining) ∷ detached) =
    occurs t session + occurs t draining + left_behind t detached

module _ (nt : Notify) (Ws : Type 0) (to_string : ServerMsg → Option Text)
    (from_str : Text → Option ClientMsg) where
  -- Between a start and the session that it opens, and after the return of the handler.
  abbrev pub is_bare : Phase Ws → Bool
  is_bare selecting = false
  is_bare taking = true
  is_bare dialing = true
  is_bare (opening stream) = true
  is_bare left = true
  is_bare failed = true

  -- Each task spawned is once among the session, the draining task, the tasks of other handlers, those
  -- left behind and the aborted ones, and no other number is; between a start and the session that it
  -- opens there is neither a session nor a draining task, and none once the handler has returned.
  pub record Shares (others : ℕ → ℕ) (sh : Shared nt Ws) (c : Client nt Ws) : Type 0 where
    pub once :
        (t : ℕ)
        → occurs t c.session
            + occurs t c.draining_task
            + others t
            + left_behind t sh.detached
            + count t sh.aborted
          ≡ (if ltb t sh.tasks then 1 else 0)
    pub bare : is_bare c.phase ≡ true → (c.session ≡ none) × (c.draining_task ≡ none)

  count-abort :
      (t : ℕ) (task : Option ℕ) (sh : Shared nt Ws)
      → (count t (abort nt Ws task sh).aborted ≡ occurs t task + count t sh.aborted)
        × ((abort nt Ws task sh).tasks ≡ sh.tasks)
        × ((abort nt Ws task sh).detached ≡ sh.detached)
  unfolding abort
  count-abort t none sh = (omega arith, refl, refl)
  count-abort t (some task) sh = (refl, refl, refl)

  module _ (others : ℕ → ℕ) where
    on_start-Shares :
        (sh : Shared nt Ws) (c : Client nt Ws)
        → Shares others sh c
        → let next = on_start nt Ws to_string from_str sh c in Shares others (next.0) (next.1)
    unfolding on_start
    on_start-Shares sh c h = record {
      once = λ t. elim (Option-cases c.session) [
        | inl idle ↦ ground (arith, idle, h.once t, count-abort t c.draining_task sh)
        | inr (task, active) ↦
            unfold clear_target in
            ground (
              arith,
              active,
              h.once t,
              count-abort t c.draining_task sh,
              count-abort t (some task) (record (abort nt Ws c.draining_task sh) {
                audio = clear_target (abort nt Ws c.draining_task sh).audio;
              }),
            )
      ];
      bare = λ e. (refl, refl);
    }

    on_stop-Shares :
        (sh : Shared nt Ws) (c : Client nt Ws)
        → c.phase ≡ selecting
        → Shares others sh c
        → let next = on_stop nt Ws to_string from_str sh c in Shares others (next.0) (next.1)
    unfolding on_stop write
    on_stop-Shares sh c e h =
        let cleared : Shared nt Ws = record sh { audio = clear_target sh.audio } in
        elim (Option-cases c.session) [
          | inl idle ↦ record {
            once = λ t. ground (arith, idle, h.once t);
            bare = λ s. ground (arith, e, s, idle);
          }
          | inr (task, active) ↦ record {
            once = λ t. ground (arith, active, h.once t, count-abort t c.draining_task cleared);
            bare = λ s. ground (arith, active, e, s);
          }
        ]

    on_cancel-Shares :
        (sh : Shared nt Ws) (c : Client nt Ws)
        → Shares others sh c
        → let next = on_cancel nt Ws to_string from_str sh c in Shares others (next.0) (next.1)
    unfolding on_cancel write
    on_cancel-Shares sh c h =
        let cleared : Shared nt Ws = record sh { audio = clear_target sh.audio } in
        record {
          once = λ t. ground (
            arith,
            h.once t,
            count-abort t c.session cleared,
            count-abort t c.draining_task (abort nt Ws c.session cleared),
          );
          bare = λ e. (refl, refl);
        }

    on_msg-Shares :
        (msg : ClientMsg) (sh : Shared nt Ws) (c : Client nt Ws)
        → c.phase ≡ selecting
        → Shares others sh c
        → let next = on_msg nt Ws to_string from_str msg sh c in Shares others (next.0) (next.1)
    unfolding on_msg
    on_msg-Shares (start mode) sh c e h = on_start-Shares sh c h
    on_msg-Shares stop sh c e h = on_stop-Shares sh c e h
    on_msg-Shares cancel sh c e h = on_cancel-Shares sh c h
    on_msg-Shares ClientMsg.other sh c e h =
        unfold on_other write in record { once = h.once; bare = h.bare }

    returns-Shares :
        (phase : Phase Ws) (sh : Shared nt Ws) (c : Client nt Ws)
        → Shares others sh c
        → let next = returns nt Ws phase sh c in Shares others (next.0) (next.1)
    unfolding returns
    returns-Shares phase sh c h = record {
      once = λ t. omega (arith, h.once t);
      bare = λ s. (refl, refl);
    }

    on_read-Shares :
        (r : LineRead) (sh : Shared nt Ws) (c : Client nt Ws)
        → c.phase ≡ selecting
        → Shares others sh c
        → let next = on_read nt Ws to_string from_str r sh c in Shares others (next.0) (next.1)
    unfolding on_read on_msg on_other
    on_read-Shares (line l) sh c e h = elim (Option-cases (from_str l)) [
      | inl unknown ↦ rw (unknown, on_read) (on_msg-Shares ClientMsg.other sh c e h)
      | inr (msg, parsed) ↦ rw (parsed, on_read) (on_msg-Shares msg sh c e h)
    ]
    on_read-Shares end_of_file sh c e h =
        returns-Shares left (record sh { audio = clear_target sh.audio }) c
          (record { once = h.once; bare = h.bare })
    on_read-Shares read_error sh c e h = returns-Shares failed sh c h

    on_response-Shares :
        (r : Option Text) (sh : Shared nt Ws) (c : Client nt Ws)
        → c.phase ≡ selecting
        → Shares others sh c
        → let next = on_response nt Ws to_string from_str r sh c in Shares others (next.0) (next.1)
    unfolding on_response
    on_response-Shares none sh c e h = h
    on_response-Shares (some l) sh c e h = record { once = h.once; bare = h.bare }

    on_taken-Shares :
        (sh : Shared nt Ws) (c : Client nt Ws)
        → c.phase ≡ taking
        → Shares others sh c
        → let next = on_taken nt Ws to_string from_str sh c in Shares others (next.0) (next.1)
    unfolding on_taken take_spare write
    on_taken-Shares sh c e h =
        let bare = h.bare (rw e refl) in
        elim (Option-cases sh.pool.spare) [
          | inl empty ↦ record {
            once = λ t. ground (arith, empty, h.once t);
            bare = λ s. ground (arith, empty, bare);
          }
          | inr (stream, full) ↦ record {
            once = λ t. ground (arith, full, h.once t);
            bare = λ s. ground (arith, full, bare);
          }
        ]

    on_dialed-Shares :
        (r : Result Text Ws) (sh : Shared nt Ws) (c : Client nt Ws)
        → c.phase ≡ dialing
        → Shares others sh c
        → let next = on_dialed nt Ws to_string from_str r sh c in Shares others (next.0) (next.1)
    unfolding on_dialed write
    on_dialed-Shares (ok stream) sh c e h = record { once = h.once; bare = λ s. h.bare (rw e refl) }
    on_dialed-Shares (err message) sh c e h = record {
      once = h.once;
      bare = λ s. absurd (ground (arith, s));
    }

    on_opened-Shares :
        (stream : Ws) (sh : Shared nt Ws) (c : Client nt Ws)
        → c.phase ≡ opening stream
        → Shares others sh c
        → let next = on_opened nt Ws to_string from_str stream sh c in
          Shares others (next.0) (next.1)
    unfolding on_opened write
    on_opened-Shares stream sh c e h =
        let (no_session, no_draining) = h.bare (rw e refl) in
        record {
          once = λ t. ground (arith, no_session, no_draining, h.once t);
          bare = λ s. absurd (ground (arith, s));
        }

    pub Shares-Kept : IsKept nt Ws to_string from_str (Shares others)
    Shares-Kept = record {
      reads = on_read-Shares;
      responds = on_response-Shares;
      takes = on_taken-Shares;
      dials = on_dialed-Shares;
      opens = on_opened-Shares;
      ignores_pool = λ sh c pool h. record { once = h.once; bare = h.bare };
    }

  -- For a single handler.
  abbrev pub Owned : Shared nt Ws → Client nt Ws → Type 0
  Owned = Shares (λ t. 0)

  connect-Owned :
      (sh : Shared nt Ws) → IsIdle nt Ws sh → Owned sh (connect nt Ws to_string from_str sh)
  unfolding connect write
  connect-Owned sh idle = elim (Option-cases sh.pool.spare) [
    | inl empty ↦ record {
      once = λ t. ground (arith, empty, idle.unspawned, idle.unaborted, idle.attached);
      bare = λ s. ground (arith, empty);
    }
    | inr (stream, full) ↦ record {
      once = λ t. ground (arith, full, idle.unspawned, idle.unaborted, idle.attached);
      bare = λ s. ground (arith, full);
    }
  ]

  -- In every state that the handler of a single client reaches from an idle daemon, whatever the pool
  -- does, each session task spawned so far is exactly one of the current session, the draining task,
  -- those that the handler has left behind by its return, and the aborted tasks, once.
  Reaches-Owned :
      (sh : Shared nt Ws) (c : Client nt Ws) → Reaches nt Ws to_string from_str sh c → Owned sh c
  Reaches-Owned =
      Reaches-invariant nt Ws to_string from_str Owned (Shares-Kept (λ t. 0)) connect-Owned
