-- ===== src/Ipc/Client.antt =====
-- handle_client of anytalk-daemon/src/ipc.rs, as steps from one await to the next, so that other
-- clients and the maintainer of the pool may run between any two of them. What clients share is the
-- target of the audio, the pool and the tasks. A task is known by a number, which is that of its
-- audio channel as well. A write to the client is logged; its errors are ignored as the code does.
pub mod Reach
pub mod Target
pub mod Tasks
pub mod Start
pub mod Replies
pub mod Retarget
pub mod Written
pub mod Every
pub mod Sample
mod Tests
use fcitx5_anytalk.Prelude.{ℕ, zero, suc, ◌+◌, ◌≡◌, Option, none, some, List, [], ◌∷◌, ◌++◌}
use fcitx5_anytalk.Prelude.Results.{Result, ok, err}
use fcitx5_anytalk.Text.{Text, text}
use fcitx5_anytalk.Ipc.Msg.{ClientMsg, ServerMsg, start, stop, cancel, serialize_msg}
use fcitx5_anytalk.Audio.Capture.{AudioController, set_target, clear_target}
use fcitx5_anytalk.Asr.Pool.{Notify, ConnectionPool, take_spare}

-- Where a handler stands: at `select!`, in `pool.take()`, in `connect_to_asr`, with a connection just
-- got, or returned, with a result or an error.
pub data Phase (Ws : Type 0) : Type 0 where
  selecting : Phase Ws
  taking : Phase Ws
  dialing : Phase Ws
  opening : Ws → Phase Ws
  left : Phase Ws
  failed : Phase Ws

-- What `reader.next_line()` gives.
pub data LineRead : Type 0 where
  line : Text → LineRead
  end_of_file : LineRead
  read_error : LineRead

-- What an await gives: a line, a response of a session, the lock of the pool, a dial. An opening goes
-- on at once.
pub data Event (Ws : Type 0) : Type 0 where
  read : LineRead → Event Ws
  response : Option Text → Event Ws
  taken : Event Ws
  dialed : Result Text Ws → Event Ws
  opened : Event Ws

module _ (nt : Notify) (Ws : Type 0) where
  pub record Shared : Type 0 where
    pub audio : AudioController
    pub pool : ConnectionPool nt Ws
    pub tasks : ℕ  -- how many have been spawned
    pub aborted : List ℕ
    pub detached : List (Option ℕ × Option ℕ)  -- the session and draining task of handlers that returned
    pub streams : List (ℕ × Ws)  -- the tasks with the connections that they run on

  pub record Client : Type 0 where
    pub phase : Phase Ws
    pub session : Option ℕ
    pub draining_task : Option ℕ
    pub written : List Text

  unfoldable pub abort : Option ℕ → Shared → Shared
  abort none sh = sh
  abort (some task) sh = record sh { aborted = task ∷ sh.aborted }

  -- A handler returns and its `JoinHandle`s are dropped: the tasks run on.
  unfoldable pub returns : Phase Ws → Shared → Client → Shared × Client
  returns phase sh c = (
    record sh { detached = (c.session, c.draining_task) ∷ sh.detached },
    record c { phase = phase; session = none; draining_task = none },
  )

  -- `serde_json::to_string` and `from_str` are parameters, with `none` for an error.
  module _ (to_string : ServerMsg → Option Text) (from_str : Text → Option ClientMsg) where
    unfoldable pub write : ServerMsg → Client → Client
    write msg c = record c { written = c.written ++ (serialize_msg to_string msg ∷ []) }

    -- A handler starts with a message if the pool is ready.
    unfoldable pub connect : Shared → Client
    connect sh =
        let c : Client = record {
          phase = selecting;
          session = none;
          draining_task = none;
          written = [];
        } in
        elim sh.pool.spare [
          | none ↦ c
          | some stream ↦ write (ServerMsg.status (text "connected")) c
        ]

    unfoldable pub on_start : Shared → Client → Shared × Client
    on_start sh c =
        let sh = abort c.draining_task sh in
        let sh : Shared = elim c.session [
          | none ↦ sh
          | some task ↦ abort (some task) (record sh { audio = clear_target sh.audio })
        ] in
        (sh, record c { phase = taking; session = none; draining_task = none })

    unfoldable pub on_taken : Shared → Client → Shared × Client
    on_taken sh c =
        let (maybe_ws, pool) = take_spare nt Ws sh.pool in
        (
          record sh { pool = pool },
          elim maybe_ws [
            | some stream ↦ record c { phase = opening stream }
            | none ↦ record (write (ServerMsg.status (text "connecting")) c) { phase = dialing }
          ],
        )

    unfoldable pub on_dialed : Result Text Ws → Shared → Client → Shared × Client
    on_dialed (ok stream) sh c = (sh, record c { phase = opening stream })
    on_dialed (err e) sh c = (sh, record (write (ServerMsg.error e) c) { phase = selecting })

    -- The new task has the next number, and runs on the connection.
    unfoldable pub on_opened : Ws → Shared → Client → Shared × Client
    on_opened stream sh c = (
      record sh {
        audio = set_target sh.audio sh.tasks;
        tasks = sh.tasks + 1;
        streams = (sh.tasks, stream) ∷ sh.streams;
      },
      record (write (ServerMsg.status (text "recording")) c) {
        phase = selecting;
        session = some sh.tasks;
      },
    )

    unfoldable pub on_stop : Shared → Client → Shared × Client
    on_stop sh c =
        let sh = record sh { audio = clear_target sh.audio } in
        elim c.session [
          | none ↦ (sh, write (ServerMsg.status (text "idle")) c)
          | some task ↦
              (abort c.draining_task sh, record c { session = none; draining_task = some task })
        ]

    unfoldable pub on_cancel : Shared → Client → Shared × Client
    on_cancel sh c =
        let sh = record sh { audio = clear_target sh.audio } in
        let sh = abort c.draining_task (abort c.session sh) in
        (
          sh,
          record (write (ServerMsg.status (text "idle")) c) {
            session = none;
            draining_task = none;
          },
        )

    unfoldable pub on_other : Shared → Client → Shared × Client
    on_other sh c = (sh, write (ServerMsg.error (text "unknown message")) c)

    unfoldable pub on_msg : ClientMsg → Shared → Client → Shared × Client
    on_msg (start mode) sh c = on_start sh c
    on_msg stop sh c = on_stop sh c
    on_msg cancel sh c = on_cancel sh c
    on_msg ClientMsg.other sh c = on_other sh c

    -- A line that does not parse is `Other`; the end of the file clears the target; an error is
    -- returned at once.
    unfoldable pub on_read : LineRead → Shared → Client → Shared × Client
    on_read (line l) sh c = elim (from_str l) [ some msg ↦ on_msg msg sh c | none ↦ on_other sh c ]
    on_read end_of_file sh c = returns left (record sh { audio = clear_target sh.audio }) c
    on_read read_error sh c = returns failed sh c

    unfoldable pub on_response : Option Text → Shared → Client → Shared × Client
    on_response none sh c = (sh, c)
    on_response (some l) sh c = (sh, record c { written = c.written ++ (l ∷ []) })

    -- One step; `none` for an event that the handler does not wait for.
    unfoldable pub step : Event Ws → Shared → Client → Option (Shared × Client)
    step event sh c = elim c.phase [
      | selecting ↦ elim event [
        | read r ↦ some (on_read r sh c)
        | response r ↦ some (on_response r sh c)
        | taken ↦ none
        | dialed r ↦ none
        | opened ↦ none
      ]
      | taking ↦ elim event [ taken ↦ some (on_taken sh c) | _ ↦ none ]
      | dialing ↦ elim event [ dialed r ↦ some (on_dialed r sh c) | _ ↦ none ]
      | opening stream ↦ elim event [ opened ↦ some (on_opened stream sh c) | _ ↦ none ]
      | left ↦ none
      | failed ↦ none
    ]

    -- The steps on a list of events.
    unfoldable pub run : List (Event Ws) → Shared → Client → Option (Shared × Client)
    run [] sh c = some (sh, c)
    run (event ∷ events) sh c = elim (step event sh c) [
      | none ↦ none
      | some (sh', c') ↦ run events sh' c'
    ]
