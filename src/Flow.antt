-- ===== src/Flow.antt =====
-- The audio from the microphone to the service: the callback of the stream (anytalk-daemon/src/audio.rs),
-- the handlers of the clients (ipc.rs) and the tasks of the sessions (asr.rs, run_session), joined by
-- the channels that a start makes. The parts run in any order; a step of the flow is a step of one of
-- them. Aborted tasks end at some later step.
pub mod Reach
pub mod Ledger
pub mod Sound
pub mod Handlers
pub mod Kept
pub mod Delivery
pub mod Wire
mod Tests
use fcitx5_anytalk.Prelude.{
  ℕ, zero, suc, ◌+◌, Bool, true, false, Option, none, some, List, [], ◌∷◌, ◌++◌, ◌==◌, ltb,
  if◌then◌else◌,
}
use fcitx5_anytalk.Prelude.Families.{update}
use fcitx5_anytalk.Text.{Text}
use fcitx5_anytalk.Mpsc.{Mpsc}
use fcitx5_anytalk.Audio.Msg.{AudioMsg}
use fcitx5_anytalk.Audio.Float.{Float}
use fcitx5_anytalk.Audio.Resampler.{done, panicked, no_fuel}
use fcitx5_anytalk.Audio.Capture.{Capture}
use fcitx5_anytalk.Audio.Global.{SampleFormat, Data, on_data}
use fcitx5_anytalk.Ipc.Msg.{ClientMsg, ServerMsg}
use fcitx5_anytalk.Asr.Json.{JsonLib}
use fcitx5_anytalk.Asr.Pool.{Notify}
use fcitx5_anytalk.Asr.Session.{
  WsItem, Event, audio, message, Session, Outcome, goes_on, ended, panicked, opened, step,
}
use fcitx5_anytalk.Ipc.Client.{Shared}

-- What the parts run with: the libraries, the mode, the text of the first request, and the stream.
pub record Setting : Type 1 where
  pub nt : Notify
  pub Ws : Type 0
  pub to_string : ServerMsg → Option Text
  pub from_str : Text → Option ClientMsg
  pub serde : JsonLib
  pub mode : Text
  pub req_json : Text
  pub fl : Float
  pub f32 : Float
  pub fuel : ℕ
  pub channels : ℕ
  pub format : SampleFormat
  pub ch : Mpsc AudioMsg

-- A task of a session: not spawned, before the first send of `run_session`, in its loop, at its end
-- with the session if there was one, or ended by a panic.
pub data TaskState : Type 0 where
  unspawned : TaskState
  begun : TaskState
  at_work : Session → TaskState
  over : Option Session → TaskState
  crashed : TaskState

-- What happens to a task: its first send, with the error if it fails; the audio branch of its loop,
-- with the success of the send; the branch of the WebSocket; and that an abort takes effect.
pub data TaskEvent : Type 0 where
  begins : Option Text → TaskEvent
  hears : Bool → TaskEvent
  gets : Option WsItem → TaskEvent
  stops : TaskEvent

module _ (w : Setting) where
  open w use {nt, Ws, serde, mode, req_json, fl, f32, fuel, channels, format, ch}

  pub record Flow : Type 0 where
    pub shared : Shared nt Ws
    pub capture : Capture fl
    pub queues : ℕ → ch.State
    pub tasks : ℕ → TaskState

  -- `let _ = tx.try_send(…)` for each chunk: those that the channel takes.
  unfoldable pub offer : List AudioMsg → ch.State → List AudioMsg × ch.State
  offer [] q = ([], q)
  offer (msg ∷ msgs) q = elim (ch.try_send msg q) [
    | none ↦ offer msgs q
    | some q' ↦ let (taken, last) = offer msgs q' in (msg ∷ taken, last)
  ]

  -- A call of the callback, under the lock of the target: the chunks that the channel takes. `none` is
  -- a panic of the audio thread, or a lack of fuel.
  unfoldable pub on_callback : Data f32 format → Flow → Option (Flow × List AudioMsg)
  on_callback slice s =
      elim (on_data fl f32 fuel channels format s.shared.audio.target s.capture slice) [
        | panicked ↦ none
        | no_fuel ↦ none
        | done (msgs, capture) ↦ elim s.shared.audio.target [
          | none ↦ some (record s { capture = capture }, [])
          | some t ↦
              let (taken, q) = offer msgs (s.queues t) in
              some (record s { capture = capture; queues = update s.queues t q }, taken)
        ]
      ]

  -- Whether a target is a given task.
  abbrev pub aims_at : ℕ → Option ℕ → Bool
  aims_at t none = false
  aims_at t (some u) = t == u

  -- The channels after a handler has set or cleared the target: the sender that was there is dropped.
  unfoldable pub retarget : Option ℕ → Option ℕ → (ℕ → ch.State) → ℕ → ch.State
  retarget none new queues = queues
  retarget (some t) new queues =
      if aims_at t new then queues else update queues t (ch.drop_tx (queues t))

  -- A step of a handler, with the state that it leaves; a session that it opens has a new channel and
  -- a new task.
  unfoldable pub on_handler : Shared nt Ws → Flow → Flow
  on_handler sh s =
      let queues = retarget s.shared.audio.target sh.audio.target s.queues in
      if ltb s.shared.tasks sh.tasks
      then record s {
        shared = sh;
        queues = update queues s.shared.tasks ch.channel;
        tasks = update s.tasks s.shared.tasks begun;
      }
      else record s { shared = sh; queues = queues }

  -- A session after a round of its loop. A task that ends drops its receiver.
  unfoldable pub after_round : Outcome → ch.State → TaskState × ch.State
  after_round (goes_on s) q = (at_work s, q)
  after_round (ended s) q = (over (some s), ch.drop_rx q)
  after_round panicked q = (crashed, ch.drop_rx q)

  -- An event of a task; `none` where it does not happen.
  unfoldable pub on_task : TaskState → TaskEvent → ch.State → Option (TaskState × ch.State)
  on_task begun (begins none) q = some (at_work (opened req_json), q)
  on_task begun (begins (some e)) q = some (over none, ch.drop_rx q)
  on_task begun stops q = some (over none, ch.drop_rx q)
  on_task (at_work s) (hears sent) q =
      if s.audio_active
      then elim (ch.recv q) [
        | none ↦ none
        | some (msg, q') ↦ some (after_round (step serde mode s (audio msg sent)) q')
      ]
      else none
  on_task (at_work s) (gets item) q = some (after_round (step serde mode s (message item)) q)
  on_task (at_work s) stops q = some (over (some s), ch.drop_rx q)
  on_task state event q = none
