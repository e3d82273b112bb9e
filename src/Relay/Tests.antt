-- ===== src/Relay/Tests.antt =====
-- A start, a response that commits a text, and the message of it passed on.
use fcitx5_anytalk.Prelude.{
  ℕ, true, All, ◌≡◌, ◌≢◌, refl, sym, ◌∙◌, ap, inl, inr, none, some, List, [], ◌∷◌, ◌++◌, map,
  Option-cases, arith,
}
use fcitx5_anytalk.Prelude.Families.{update}
use fcitx5_anytalk.Prelude.Results.{ok}
use fcitx5_anytalk.Text.{Text, text, text_eq}
use fcitx5_anytalk.Mpsc.{Mpsc}
use fcitx5_anytalk.Mpsc.Bounded.{Line, bounded, bounded-Fifo}
use fcitx5_anytalk.Audio.Capture.{new_controller, set_target}
use fcitx5_anytalk.Audio.Fixed.{fixed}
use fcitx5_anytalk.Audio.Global.{i16_format}
use fcitx5_anytalk.Audio.Msg.{AudioMsg}
use fcitx5_anytalk.Protocol.Format.{frame_bytes}
use fcitx5_anytalk.Asr.Pool.{new, take_spare}
use fcitx5_anytalk.Asr.Sample.{sample}
use fcitx5_anytalk.Asr.Session.{
  Session, Outcome, goes_on, panicked, opened, binary, message, on_message,
}
use fcitx5_anytalk.Asr.Session
use fcitx5_anytalk.Asr.Session.Sample.{nostream, first, one_heard, first-heard}
use fcitx5_anytalk.Ipc.Msg.{ServerMsg, serialize_msg}
use fcitx5_anytalk.Ipc.Task.{task_messages}
use fcitx5_anytalk.Ipc.Client.{
  selecting, line, Event, read, taken, dialed, response, Shared, Client, connect, step, on_read,
  on_msg, on_start, on_taken, on_dialed, on_opened, on_response, abort, write,
}
use fcitx5_anytalk.Ipc.Client
use fcitx5_anytalk.Ipc.Client.Sample.{one_permit, to_string, from_str, idle}
use fcitx5_anytalk.Flow.{Setting}
use fcitx5_anytalk.Relay.{
  unspawned, spawned, running, messages_of, Trace, only, Relay, after_first, on_move, IsOwn,
  line_of, RelayReaches, begun, moved, forwards, begins, works, sends,
}
use fcitx5_anytalk.Relay.Within.{Within}
use fcitx5_anytalk.Ipc.Task.Idle.{IsAnswer}
use fcitx5_anytalk.Relay.Order.{relay-Ordered}
use fcitx5_anytalk.Relay.Passes.{pass_on, relay-passes}
use fcitx5_anytalk.Relay.Idle.{relay-idle}

abbrev setting : Setting
setting = record {
  nt = one_permit;
  Ws = ℕ;
  to_string = to_string;
  from_str = from_str;
  serde = sample;
  mode = nostream;
  req_json = [];
  fl = fixed;
  f32 = fixed;
  fuel = 1;
  channels = 1;
  format = i16_format;
  ch = bounded AudioMsg 16;
}

abbrev lines : Mpsc Text
lines = bounded Text 32

abbrev Reached : Relay setting lines → Trace → Type 0
Reached = RelayReaches setting lines

abbrev nothing : Trace
nothing = record { order = []; forwarded = [] }

-- The state after an event of the handler where it happens, and the state itself elsewhere.
unfoldable stepped : Event ℕ → Relay setting lines → Relay setting lines
stepped event s = elim (step one_permit ℕ to_string from_str event s.shared s.client) [
  | none ↦ s
  | some (sh, c) ↦ on_move setting lines sh c s
]

stepped-Reached :
    (event : Event ℕ) (s : Relay setting lines) (tr : Trace)
    → IsOwn setting lines event
    → Reached s tr
    → Reached (stepped event s) tr
unfolding stepped
stepped-Reached event s tr own before =
    elim (Option-cases (step one_permit ℕ to_string from_str event s.shared s.client)) [
      | inl not_awaited ↦ rw (not_awaited, stepped) before
      | inr ((sh, c), e) ↦ rw (e, stepped) (moved s tr event sh c before own e)
    ]

abbrev calm : Relay setting lines
calm = record {
  shared = idle;
  client = connect one_permit ℕ to_string from_str idle;
  queue = lines.channel;
  tasks = λ t. unspawned;
}

abbrev started : Relay setting lines
started =
    stepped Client.opened
      (stepped (dialed (ok 5)) (stepped taken (stepped (read (line (text "start"))) calm)))

started-Reached : Reached started nothing
started-Reached =
    let s1 = stepped (read (line (text "start"))) calm in
    let s2 = stepped taken s1 in
    let s3 = stepped (dialed (ok 5)) s2 in
    stepped-Reached Client.opened s3 nothing tt (
      stepped-Reached (dialed (ok 5)) s2 nothing tt (
        stepped-Reached taken s1 nothing tt
          (stepped-Reached (read (line (text "start"))) calm nothing tt (begun idle))))

started-spawned : started.tasks 0 ≡ spawned
unfolding stepped step connect new new_controller on_read on_msg on_start on_taken on_dialed
    on_opened take_spare set_target abort write text_eq serialize_msg on_move
started-spawned = refl

abbrev at_work : Relay setting lines
at_work = record started {
  tasks = update started.tasks 0 (running (after_first setting lines none));
}

at_work-Reached : Reached at_work nothing
at_work-Reached = begins started nothing 0 none started-Reached started-spawned

abbrev said : ServerMsg
said = ServerMsg.final (text "hello")

abbrev said_line : Text
said_line = serialize_msg to_string said

abbrev answer_event : Session.Event
answer_event = message (some (binary (frame_bytes first)))

abbrev answered : Relay setting lines
answered = record at_work {
  tasks =
      update at_work.tasks 0
        (running (inr (Session.step sample nostream (opened []) answer_event)));
}

answered-Reached : Reached answered nothing
unfolding after_first task_messages opened
answered-Reached = works at_work nothing 0 (opened []) answer_event at_work-Reached refl refl

answered-messages : messages_of (answered.tasks 0) ≡ said ∷ []
unfolding task_messages
answered-messages = ap (λ (o : Outcome). messages_of (running (inr o))) first-heard

abbrev one_sent : Trace
one_sent = record { order = (0, said) ∷ []; forwarded = [] }

abbrev waiting : Relay setting lines
waiting = record answered {
  queue = record { messages = said_line ∷ []; sender = true; receiver = true };
}

queue_test : lines.try_send said_line answered.queue ≡ some waiting.queue
unfolding stepped step connect new new_controller on_read on_msg on_start on_taken on_dialed
    on_opened take_spare set_target abort write text_eq serialize_msg on_move
queue_test = refl

waiting-Reached : Reached waiting one_sent
waiting-Reached =
    sends answered nothing 0 said [] waiting.queue answered-Reached answered-messages queue_test

abbrev written_client : Client one_permit ℕ
written_client = record waiting.client { written = waiting.client.written ++ (said_line ∷ []) }

abbrev passed : Relay setting lines
passed = record waiting {
  client = written_client;
  queue = record { messages = []; sender = true; receiver = true };
}

abbrev one_passed : Trace
one_passed = record { order = (0, said) ∷ []; forwarded = said_line ∷ [] }

response_test :
    step one_permit ℕ to_string from_str (response (some said_line)) waiting.shared waiting.client
    ≡ some (waiting.shared, written_client)
unfolding stepped step connect new new_controller on_read on_msg on_start on_taken on_dialed
    on_opened take_spare set_target abort write text_eq serialize_msg on_move on_response
response_test = refl

passed-Reached : Reached passed one_passed
passed-Reached =
    forwards waiting one_sent (some said_line) passed.queue waiting.shared written_client
      waiting-Reached refl response_test

passed-runs : passed.tasks 0 ≢ running (inr panicked)
passed-runs =
    λ e. absurd (ground (arith, sym (ap (λ (o : Outcome). running (inr o)) first-heard) ∙ e))

relay-Ordered_example :
    Within (said_line ∷ []) passed.client.written
    × (map (line_of setting lines) one_passed.order ≡ (said_line ∷ []) ++ passed.queue.messages)
    × (rest : List ServerMsg) × (messages_of (passed.tasks 0) ≡ only 0 one_passed.order ++ rest)
relay-Ordered_example =
    relay-Ordered setting lines (bounded-Fifo Text 32) passed one_passed 0 passed-Reached
      passed-runs

-- The stream ends, and the task says that it is idle.
abbrev closed : Relay setting lines
closed = record passed {
  tasks =
      update passed.tasks 0 (running (inr (Session.step sample nostream one_heard (message none))));
}

closed-Reached : Reached closed one_passed
closed-Reached =
    works passed one_passed 0 one_heard (message none) passed-Reached
      (ap (λ (o : Outcome). running (inr o)) first-heard) answered-messages

closed-messages : messages_of (closed.tasks 0) ≡ said ∷ ServerMsg.status (text "idle") ∷ []
unfolding task_messages Session.step on_message opened
closed-messages = refl

abbrev all_sent : Trace
all_sent = record {
  order = (0, said) ∷ (0, ServerMsg.status (text "idle")) ∷ [];
  forwarded = said_line ∷ [];
}

abbrev ended_state : Relay setting lines
ended_state = record closed {
  queue = record {
    messages = serialize_msg to_string (ServerMsg.status (text "idle")) ∷ [];
    sender = true;
    receiver = true;
  };
}

ended-Reached : Reached ended_state all_sent
ended-Reached =
    sends closed one_passed 0 (ServerMsg.status (text "idle")) [] ended_state.queue closed-Reached
      closed-messages refl

ended-runs : ended_state.tasks 0 ≢ running (inr panicked)
unfolding Session.step on_message
ended-runs = λ e. ground (arith, e)

abbrev none_after : List ServerMsg
none_after = []

relay-idle_example :
    (none_after ≡ [])
    × (messages_of (ended_state.tasks 0) ≡ only 0 all_sent.order)
    × All IsAnswer (said ∷ [])
relay-idle_example =
    relay-idle setting lines ended_state all_sent 0 (said ∷ []) none_after (bounded-Fifo Text 32)
      ended-Reached ended-runs refl

ended-selecting : ended_state.client.phase ≡ selecting
unfolding stepped step connect new new_controller on_read on_msg on_start on_taken on_dialed
    on_opened take_spare set_target abort write text_eq serialize_msg on_move
ended-selecting = refl

relay-passes_example :
    (c : Client one_permit ℕ) × (q : Line Text) × (pass_on setting lines
        (bounded-Fifo Text 32)
        1
        ended_state.shared
        ended_state.client
        ended_state.queue
      ≡ some (c, q))
    × Within (map (line_of setting lines) all_sent.order) c.written
    × (q.messages ≡ [])
relay-passes_example =
    relay-passes setting lines (bounded-Fifo Text 32) ended_state all_sent ended-Reached
      ended-selecting
