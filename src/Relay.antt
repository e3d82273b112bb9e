-- ===== src/Relay.antt =====
-- The lines from the tasks of a client to the client (anytalk-daemon/src/ipc.rs, asr.rs): the tasks
-- send their messages to the channel of the client's handler, one at a time, and the handler writes
-- what comes from it among its own replies, until it returns. The parts run in any order, other
-- clients change what is shared, and a task that is aborted makes no more steps. A send waits for
-- room, and goes on where `try_send` succeeds.
pub mod Within
pub mod Kept
pub mod Order
pub mod Passes
pub mod Idle
mod Tests
use fcitx5_anytalk.Prelude.{
  ℕ, ◌+◌, ◌≤◌, Bool, true, false, ◌≡◌, ◌⊎◌, inl, inr, Option, none, some, List, [], ◌∷◌, ◌++◌, map,
  ◌==◌, ltb, if◌then◌else◌,
}
use fcitx5_anytalk.Prelude.Families.{update}
use fcitx5_anytalk.Text.{Text, text}
use fcitx5_anytalk.Mpsc.{Mpsc}
use fcitx5_anytalk.Ipc.Msg.{ServerMsg, serialize_msg}
use fcitx5_anytalk.Ipc.Client.{Event, response, Shared, Client, connect, step}
use fcitx5_anytalk.Ipc.Client.Reach.{IsIdle}
use fcitx5_anytalk.Ipc.Task.{task_messages}
use fcitx5_anytalk.Asr.Session.{Session, Outcome, goes_on, opened}
use fcitx5_anytalk.Asr.Session
use fcitx5_anytalk.Flow.{Setting}

-- A task of the client: not spawned, spawned, or with the result of `run_session` so far.
pub data Work : Type 0 where
  unspawned : Work
  spawned : Work
  running : Text ⊎ Outcome → Work

-- All that a task has had to send so far.
abbrev pub messages_of : Work → List ServerMsg
messages_of unspawned = []
messages_of spawned = []
messages_of (running r) = elim (task_messages r) [ none ↦ [] | some ms ↦ ms ]

-- What has been put into the channel, each message with its task, and what has come out.
pub record Trace : Type 0 where
  pub order : List (ℕ × ServerMsg)
  pub forwarded : List Text

-- The messages of one task.
abbrev pub only : ℕ → List (ℕ × ServerMsg) → List ServerMsg
only t [] = []
only t ((u, m) ∷ order) = if u == t then m ∷ only t order else only t order

module _ (w : Setting) (lines : Mpsc Text) where
  open w use {nt, Ws, to_string, from_str, serde, mode, req_json}

  pub record Relay : Type 0 where
    pub shared : Shared nt Ws
    pub client : Client nt Ws
    pub queue : lines.State
    pub tasks : ℕ → Work

  -- The first send of `run_session`, with its error.
  unfoldable pub after_first : Option Text → Text ⊎ Outcome
  after_first none = inr (goes_on (opened req_json))
  after_first (some e) = inl (text "ws send error: " ++ e)

  -- A step of the handler other than a response: a session that it opens has a new task.
  unfoldable pub on_move : Shared nt Ws → Client nt Ws → Relay → Relay
  on_move sh c s =
      if ltb s.shared.tasks sh.tasks
      then record s { shared = sh; client = c; tasks = update s.tasks s.shared.tasks spawned }
      else record s { shared = sh; client = c }

  -- The events that are no responses.
  abbrev pub IsOwn : Event Ws → Type 0
  IsOwn (response r) = ⊥
  IsOwn event = Unit {0}

  abbrev pub line_of : ℕ × ServerMsg → Text
  line_of (t, m) = serialize_msg to_string m

  abbrev pub came : Option Text → List Text
  came none = []
  came (some l) = l ∷ []

  -- The states that are reached from a client that has just connected.
  pub data RelayReaches : Relay → Trace → Type 0 where
    begun :
        (sh : Shared nt Ws)
        → RelayReaches
            (record {
              shared = sh;
              client = connect nt Ws to_string from_str sh;
              queue = lines.channel;
              tasks = λ t. unspawned;
            })
            (record { order = []; forwarded = [] })
    moved :
        (s : Relay) (tr : Trace) (event : Event Ws) (sh : Shared nt Ws) (c : Client nt Ws)
        → RelayReaches s tr
        → IsOwn event
        → step nt Ws to_string from_str event s.shared s.client ≡ some (sh, c)
        → RelayReaches (on_move sh c s) tr
    forwards :
        (s : Relay) (tr : Trace) (r : Option Text) (q : lines.State) (sh : Shared nt Ws)
        (c : Client nt Ws)
        → RelayReaches s tr
        → lines.recv s.queue ≡ some (r, q)
        → step nt Ws to_string from_str (response r) s.shared s.client ≡ some (sh, c)
        → RelayReaches
            (record s { shared = sh; client = c; queue = q })
            (record tr { forwarded = tr.forwarded ++ came r })
    others :
        (s : Relay) (tr : Trace) (sh : Shared nt Ws)
        → RelayReaches s tr
        → s.shared.tasks ≤ sh.tasks
        → RelayReaches (record s { shared = sh }) tr
    begins :
        (s : Relay) (tr : Trace) (t : ℕ) (e : Option Text)
        → RelayReaches s tr
        → s.tasks t ≡ spawned
        → RelayReaches (record s { tasks = update s.tasks t (running (after_first e)) }) tr
    works :
        (s : Relay) (tr : Trace) (t : ℕ) (u : Session) (event : Session.Event)
        → RelayReaches s tr
        → s.tasks t ≡ running (inr (goes_on u))
        → messages_of (s.tasks t) ≡ only t tr.order
        → RelayReaches
            (record s {
              tasks = update s.tasks t (running (inr (Session.step serde mode u event)));
            })
            tr
    sends :
        (s : Relay) (tr : Trace) (t : ℕ) (m : ServerMsg) (rest : List ServerMsg) (q : lines.State)
        → RelayReaches s tr
        → messages_of (s.tasks t) ≡ only t tr.order ++ (m ∷ rest)
        → lines.try_send (serialize_msg to_string m) s.queue ≡ some q
        → RelayReaches (record s { queue = q }) (record tr { order = tr.order ++ ((t, m) ∷ []) })
