-- ===== src/Flow/Tests.antt =====
-- A start, two chunks of a microphone of 16 kHz, and a stop.
use fcitx5_anytalk.Prelude.{
  true, false, ℕ, zero, suc, ◌≡◌, ◌≢◌, ◌⊎◌, refl, ap, subst, none, some, List, [], ◌∷◌, ◌++◌, map,
  length, Option-cases, inl, inr, arith,
}
use fcitx5_anytalk.Prelude.Families.{update}
use fcitx5_anytalk.Prelude.Int.{ℤ, pos}
use fcitx5_anytalk.Prelude.Results.{ok}
use fcitx5_anytalk.Text.{text, text_eq}
use fcitx5_anytalk.Text.Utf8.{as_bytes}
use fcitx5_anytalk.Audio.Msg.{AudioMsg, chunk}
use fcitx5_anytalk.Asr.Pool.{ConnectionPool, new, take_spare}
use fcitx5_anytalk.Asr.Sample.{sample}
use fcitx5_anytalk.Asr.Session.{Session, on_audio}
use fcitx5_anytalk.Asr.Session
use fcitx5_anytalk.Asr.Session.Frames.{audio_frames}
use fcitx5_anytalk.Protocol.{build_full_client_request, build_audio_only_request}
use fcitx5_anytalk.Asr.Session.Sample.{nostream}
use fcitx5_anytalk.Audio.Fixed.{fixed}
use fcitx5_anytalk.Audio.Capture.{
  Capture, new_controller, set_target, clear_target, new_capture, chunk_samples, chunk_msg,
  process_i16, push_samples, drain_chunks,
}
use fcitx5_anytalk.Audio.Resampler.{done, process}
use fcitx5_anytalk.Audio.Resampler
use fcitx5_anytalk.Audio.Samples.{to_mono, i16_to_le_bytes}
use fcitx5_anytalk.Audio.Global.{i16_format, on_data}
use fcitx5_anytalk.Ipc.Client.{
  line, read, taken, dialed, opened, Event, Client, connect, step, on_read, on_msg, on_start,
  on_stop, on_taken, on_dialed, on_opened, abort, write,
}
use fcitx5_anytalk.Ipc.Msg.{serialize_msg}
use fcitx5_anytalk.Ipc.Client.Sample.{one_permit, to_string, from_str, idle, idle-Idle}
use fcitx5_anytalk.Flow.{
  Setting, TaskState, unspawned, at_work, TaskEvent, begins, hears, Flow, on_callback, on_handler,
  on_task, offer, retarget, after_round,
}
use fcitx5_anytalk.Mpsc.Bounded.{Line, bounded, bounded-Fifo}
use fcitx5_anytalk.Flow.Reach.{FlowReaches, logged, Allowed, called, accepted, moved, ran}
use fcitx5_anytalk.Flow.Wire.{ReadAs, flow-ReadAs}
use fcitx5_anytalk.Flow.Delivery.{Sent, session_at, flow-frames, stop-drains}

abbrev setting : Setting
setting = record {
  nt = one_permit;
  Ws = ℕ;
  to_string = to_string;
  from_str = from_str;
  serde = sample;
  mode = nostream;
  req_json = text "{}";
  fl = fixed;
  f32 = fixed;
  fuel = 1;
  channels = 1;
  format = i16_format;
  ch = bounded AudioMsg 16;
}

abbrev tone : ℕ → ℕ → List ℤ
tone pitch zero = []
tone pitch (suc n) = pos pitch ∷ tone pitch n

abbrev silence : Capture fixed
silence = new_capture fixed 16000

abbrev loud : AudioMsg
loud = chunk_msg (tone 1 3200)

heard_tone :
    (t : ℕ) → process_i16 fixed 1 (some t) silence 1 (tone 1 3200) 3200 ≡ done (loud ∷ [], silence)
unfolding process_i16 push_samples new_capture Resampler.new process to_mono drain_chunks
heard_tone t = refl

abbrev recording :
    ConnectionPool one_permit ℕ → List ℕ → (ℕ → Line AudioMsg) → (ℕ → TaskState) → Flow setting
recording pool aborted queues tasks = record {
  shared = record {
    audio = record { target = some 0 };
    pool = pool;
    tasks = 1;
    aborted = aborted;
    detached = [];
    streams = (0, 5) ∷ [];
  };
  capture = silence;
  queues = queues;
  tasks = tasks;
}

slice_step :
    (slice : List ℤ) (pool : ConnectionPool one_permit ℕ) (aborted : List ℕ)
    (queues : ℕ → Line AudioMsg) (tasks : ℕ → TaskState)
    → process_i16 fixed 1 (some 0) silence 1 slice chunk_samples ≡ done (loud ∷ [], silence)
    → let (msgs, q) = offer setting (loud ∷ []) (queues 0) in
      on_callback setting slice (recording pool aborted queues tasks)
      ≡ some (recording pool aborted (update queues 0 q) tasks, msgs)
unfolding on_callback on_data
slice_step slice pool aborted queues tasks e = rw (e, on_callback, on_data) refl

tone_step :
    (pool : ConnectionPool one_permit ℕ) (aborted : List ℕ) (queues : ℕ → Line AudioMsg)
    (tasks : ℕ → TaskState)
    → let (msgs, q) = offer setting (loud ∷ []) (queues 0) in
      on_callback setting (tone 1 3200) (recording pool aborted queues tasks)
      ≡ some (recording pool aborted (update queues 0 q) tasks, msgs)
tone_step pool aborted queues tasks =
    slice_step (tone 1 3200) pool aborted queues tasks (heard_tone 0)

-- The state after an event where it happens, and the state itself elsewhere.
unfoldable stepped :
    Event ℕ → Flow setting × Client one_permit ℕ → Flow setting × Client one_permit ℕ
stepped event (s, c) = elim (step one_permit ℕ to_string from_str event s.shared c) [
  | none ↦ (s, c)
  | some (sh, c') ↦ (on_handler setting sh s, c')
]

unfoldable worked : TaskEvent → Flow setting → Flow setting
worked event s = elim (on_task setting (s.tasks 0) event (s.queues 0)) [
  | none ↦ s
  | some (state, q) ↦ record s { queues = update s.queues 0 q; tasks = update s.tasks 0 state }
]

stepped-Reaches :
    (event : Event ℕ) (s : Flow setting) (c : Client one_permit ℕ) (log : ℕ → List AudioMsg)
    → FlowReaches setting s (c ∷ []) log
    → FlowReaches setting ((stepped event (s, c)).0) ((stepped event (s, c)).1 ∷ []) log
unfolding stepped
stepped-Reaches event s c log before =
    elim (Option-cases (step one_permit ℕ to_string from_str event s.shared c)) [
      | inl not_awaited ↦ rw (not_awaited, stepped) before
      | inr ((sh, c'), e) ↦ rw (e, stepped) (moved s [] [] log c c' event sh before e)
    ]

worked-Reaches :
    (event : TaskEvent) (s : Flow setting) (cs : List (Client one_permit ℕ))
    (log : ℕ → List AudioMsg)
    → Allowed setting event 0 s.shared.aborted
    → FlowReaches setting s cs log
    → FlowReaches setting (worked event s) cs log
unfolding worked
worked-Reaches event s cs log allowed before =
    elim (Option-cases (on_task setting (s.tasks 0) event (s.queues 0))) [
      | inl not_now ↦ rw (not_now, worked) before
      | inr ((state, q), e) ↦ rw (e, worked) (ran s cs log 0 event state q before allowed e)
    ]

abbrev quiet : Flow setting
quiet = record {
  shared = idle;
  capture = silence;
  queues = λ t. setting.ch.channel;
  tasks = λ t. unspawned;
}

quiet-Reached : FlowReaches setting quiet [] (λ t. [])
quiet-Reached = FlowReaches.idle idle silence (λ t. setting.ch.channel) idle-Idle

abbrev started : Flow setting × Client one_permit ℕ
started = stepped opened (
    stepped (dialed (ok 5)) (
      stepped taken (
        stepped (read (line (text "start")))
          (quiet, connect one_permit ℕ to_string from_str idle))))

started-Reached : FlowReaches setting (started.0) (started.1 ∷ []) (λ t. [])
started-Reached =
    let s0 : Flow setting × Client one_permit ℕ =
      (quiet, connect one_permit ℕ to_string from_str idle) in
    let s1 = stepped (read (line (text "start"))) s0 in
    let s2 = stepped taken s1 in
    let s3 = stepped (dialed (ok 5)) s2 in
    stepped-Reaches opened (s3.0) (s3.1) (λ t. [])
      (stepped-Reaches (dialed (ok 5)) (s2.0) (s2.1) (λ t. [])
        (stepped-Reaches taken (s1.0) (s1.1) (λ t. [])
          (stepped-Reaches (read (line (text "start"))) quiet (s0.1) (λ t. [])
            (accepted quiet [] (λ t. []) quiet-Reached))))

-- The request is sent; a tone is heard, and its chunk sent; another is heard.
abbrev ready : Flow setting
ready = worked (begins none) (started.0)

abbrev pool : ConnectionPool one_permit ℕ
pool = ready.shared.pool

abbrev after_tone : Flow setting → Flow setting
after_tone s =
    recording pool [] (update s.queues 0 ((offer setting (loud ∷ []) (s.queues 0)).1)) s.tasks

abbrev sent_one : Flow setting
sent_one = worked (hears true) (after_tone ready)

abbrev spoken : Flow setting
spoken = after_tone sent_one

ready_eq : ready ≡ recording pool [] ready.queues ready.tasks
unfolding worked stepped step connect new new_controller on_read on_msg on_start on_taken on_dialed
    on_opened take_spare set_target abort write text_eq serialize_msg on_handler retarget on_task
ready_eq = refl

called-Reaches :
    (s : Flow setting) (cs : List (Client one_permit ℕ)) (log : ℕ → List AudioMsg)
    → s ≡ recording pool [] s.queues s.tasks
    → FlowReaches setting s cs log
    → FlowReaches setting
        (after_tone s)
        cs
        (logged setting (some 0) ((offer setting (loud ∷ []) (s.queues 0)).0) log)
called-Reaches s cs log e before =
    called (tone 1 3200) (recording pool [] s.queues s.tasks) (after_tone s) cs log
      ((offer setting (loud ∷ []) (s.queues 0)).0)
      (subst (λ (u : Flow setting). FlowReaches setting u cs log) e before)
      (tone_step pool [] s.queues s.tasks)

abbrev taken_log : Flow setting → (ℕ → List AudioMsg) → ℕ → List AudioMsg
taken_log s log = logged setting (some 0) ((offer setting (loud ∷ []) (s.queues 0)).0) log

sent_one-Reached : FlowReaches setting sent_one (started.1 ∷ []) (taken_log ready (λ t. []))
sent_one-Reached =
    worked-Reaches (hears true) (after_tone ready) (started.1 ∷ []) (taken_log ready (λ t. [])) tt (
      called-Reaches ready (started.1 ∷ []) (λ t. []) ready_eq
        (worked-Reaches (begins none) (started.0) (started.1 ∷ []) (λ t. []) tt started-Reached))

sent_one_eq : sent_one ≡ recording pool [] sent_one.queues sent_one.tasks
unfolding worked stepped step connect new new_controller on_read on_msg on_start on_taken on_dialed
    on_opened take_spare set_target abort write text_eq serialize_msg on_handler retarget on_task
    offer after_round Session.step on_audio Session.opened chunk_msg
sent_one_eq = refl

abbrev stopped : Flow setting × Client one_permit ℕ
stopped = stepped (read (line (text "stop"))) (spoken, started.1)

abbrev stopped_log : ℕ → List AudioMsg
stopped_log = taken_log sent_one (taken_log ready (λ t. []))

stopped-Reached : FlowReaches setting (stopped.0) (stopped.1 ∷ []) stopped_log
stopped-Reached = stepped-Reaches (read (line (text "stop"))) spoken (started.1) stopped_log (
    called-Reaches sent_one (started.1 ∷ []) (taken_log ready (λ t. [])) sent_one_eq
      sent_one-Reached)

-- The session has sent the first chunk; the second waits in its channel.
abbrev sent_session : Session
sent_session = record (Session.opened (text "{}")) {
  chunk_count = 1;
  frames =
      build_full_client_request (text "{}")
      ∷ build_audio_only_request (i16_to_le_bytes (tone 1 3200)) false
      ∷ [];
}

stopped_test :
    (stopped_log 0 ≡ loud ∷ loud ∷ [])
    × ((stopped.0).tasks 0 ≡ at_work sent_session)
    × ((stopped.0).shared.audio.target ≡ none)
unfolding worked stepped step connect new new_controller on_read on_msg on_start on_stop on_taken
    on_dialed on_opened take_spare set_target clear_target abort write text_eq serialize_msg
    on_handler retarget on_task offer after_round Session.step on_audio Session.opened chunk_msg
stopped_test = (refl, refl, refl)

sent_session-active : sent_session.audio_active ≡ true
unfolding Session.opened
sent_session-active = refl

flow-frames_example :
    (chunks : List (List ℕ)) × (((sent_session.frames
          ≡ build_full_client_request setting.req_json ∷ audio_frames chunks false)
        × (map chunk chunks ++ ((stopped.0).queues 0).messages ≡ stopped_log 0))
      ⊎ ((sent_session.frames
            ≡ build_full_client_request setting.req_json ∷ audio_frames chunks true)
          × (map chunk chunks ≡ stopped_log 0)
          × ((stopped.0).shared.audio.target ≢ some 0)))
flow-frames_example =
    flow-frames setting (bounded-Fifo AudioMsg 16) (stopped.0) (stopped.1 ∷ []) stopped_log 0
      sent_session stopped-Reached (ap session_at (stopped_test.1))

stop-drains_example :
    Sent setting
      (bounded-Fifo AudioMsg 16)
      (stopped_log 0)
      (suc (length ((stopped.0).queues 0).messages))
      ((stopped.0).tasks 0)
      ((stopped.0).queues 0)
stop-drains_example =
    stop-drains setting (bounded-Fifo AudioMsg 16) (stopped.0) (stopped.1 ∷ []) stopped_log 0
      sent_session stopped-Reached (stopped_test.1) sent_session-active
      (λ e. absurd (ground (arith, stopped_test.2, e)))

flow-ReadAs_example : ReadAs setting (bounded-Fifo AudioMsg 16) sent_session (stopped_log 0)
unfolding as_bytes
flow-ReadAs_example =
    flow-ReadAs setting (bounded-Fifo AudioMsg 16) (stopped.0) (stopped.1 ∷ []) stopped_log 0
      sent_session (inl (omega arith), (inl (omega arith), tt)) (omega arith) stopped-Reached
      (ap session_at (stopped_test.1))
