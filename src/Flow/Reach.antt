-- ===== src/Flow/Reach.antt =====
-- The states that the flow reaches from an idle daemon, whatever the order of the steps, and the
-- chunks that the channel of each task has taken so far.
use fcitx5_anytalk.Prelude.{ℕ, ◌<◌, ◌≡◌, Option, none, some, List, [], ◌∷◌, ◌++◌}
use fcitx5_anytalk.Prelude.Families.{update}
use fcitx5_anytalk.Audio.Msg.{AudioMsg}
use fcitx5_anytalk.Audio.Capture.{Capture}
use fcitx5_anytalk.Audio.Global.{Data}
use fcitx5_anytalk.Asr.Pool.{ConnectionPool}
use fcitx5_anytalk.Ipc.Client.{Event, Shared, Client, connect, step}
use fcitx5_anytalk.Ipc.Client.Reach.{IsIdle}
use fcitx5_anytalk.Ipc.Client.Tasks.{count}
use fcitx5_anytalk.Flow.{
  Setting, TaskState, unspawned, TaskEvent, begins, hears, gets, stops, Flow, on_callback,
  on_handler, on_task,
}

module _ (w : Setting) where
  open w use {nt, Ws, to_string, from_str, fl, f32, format, ch}

  -- The chunks taken by each channel.
  abbrev pub Log : Type 0
  Log = ℕ → List AudioMsg

  abbrev pub logged : Option ℕ → List AudioMsg → Log → Log
  logged none taken log = log
  logged (some t) taken log = update log t (log t ++ taken)

  -- Only a task that has been aborted stops by that.
  abbrev pub Allowed : TaskEvent → ℕ → List ℕ → Type 0
  Allowed (begins e) t aborted = Unit {0}
  Allowed (hears sent) t aborted = Unit {0}
  Allowed (gets item) t aborted = Unit {0}
  Allowed stops t aborted = 0 < count t aborted

  pub data FlowReaches : Flow w → List (Client nt Ws) → Log → Type 0 where
    idle :
        (sh : Shared nt Ws) (c : Capture fl) (queues : ℕ → ch.State)
        → IsIdle nt Ws sh
        → FlowReaches
            (record { shared = sh; capture = c; queues = queues; tasks = λ t. unspawned })
            []
            (λ t. [])
    called :
        (slice : Data f32 format) (s s' : Flow w) (cs : List (Client nt Ws)) (log : Log)
        (taken : List AudioMsg)
        → FlowReaches s cs log
        → on_callback w slice s ≡ some (s', taken)
        → FlowReaches s' cs (logged s.shared.audio.target taken log)
    accepted :
        (s : Flow w) (cs : List (Client nt Ws)) (log : Log)
        → FlowReaches s cs log
        → FlowReaches s (connect nt Ws to_string from_str s.shared ∷ cs) log
    moved :
        (s : Flow w) (before after : List (Client nt Ws)) (log : Log) (c c' : Client nt Ws)
        (event : Event Ws) (sh : Shared nt Ws)
        → FlowReaches s (before ++ (c ∷ after)) log
        → step nt Ws to_string from_str event s.shared c ≡ some (sh, c')
        → FlowReaches (on_handler w sh s) (before ++ (c' ∷ after)) log
    pool_changed :
        (s : Flow w) (cs : List (Client nt Ws)) (log : Log) (pool : ConnectionPool nt Ws)
        → FlowReaches s cs log
        → FlowReaches (record s { shared = record s.shared { pool = pool } }) cs log
    ran :
        (s : Flow w) (cs : List (Client nt Ws)) (log : Log) (t : ℕ) (event : TaskEvent)
        (state : TaskState) (q : ch.State)
        → FlowReaches s cs log
        → Allowed event t s.shared.aborted
        → on_task w (s.tasks t) event (s.queues t) ≡ some (state, q)
        → FlowReaches
            (record s { queues = update s.queues t q; tasks = update s.tasks t state })
            cs
            log
