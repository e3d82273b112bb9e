-- ===== src/Ipc/Client/Start.antt =====
-- What the client is told of a start, and what becomes of the old session.
use fcitx5_anytalk.Prelude.{
  ℕ, ◌+◌, ◌≡◌, refl, ◌∙◌, ap, Option, none, some, Option-cases, inl, inr, List, [], ◌∷◌, ◌++◌,
  append_assoc, arith,
}
use fcitx5_anytalk.Prelude.Results.{ok, err}
use fcitx5_anytalk.Text.{Text, text}
use fcitx5_anytalk.Ipc.Msg.{ClientMsg, ServerMsg, start, serialize_msg}
use fcitx5_anytalk.Audio.Capture.{set_target}
use fcitx5_anytalk.Asr.Pool.{Notify, take_spare}
use fcitx5_anytalk.Ipc.Client.Target.{on_start-target}
use fcitx5_anytalk.Ipc.Client.{
  selecting, taking, dialing, opening, line, Event, read, taken, dialed, opened, Shared, Client,
  abort, write, on_start, on_taken, on_dialed, on_opened, on_msg, on_read, step, run,
}

module _ (nt : Notify) (Ws : Type 0) (to_string : ServerMsg → Option Text)
    (from_str : Text → Option ClientMsg) where
  abbrev pub status_line : Text → Text
  status_line state = serialize_msg to_string (ServerMsg.status state)

  run-step :
      (event : Event Ws) (events : List (Event Ws)) (sh sh' : Shared nt Ws) (c c' : Client nt Ws)
      → step nt Ws to_string from_str event sh c ≡ some (sh', c')
      → run nt Ws to_string from_str (event ∷ events) sh c
        ≡ run nt Ws to_string from_str events sh' c'
  unfolding run
  run-step event events sh sh' c c' e = ground (arith, e)

  -- The handler after a start that opens a session on a connection.
  pub record Recording (sh : Shared nt Ws) (c : Client nt Ws) (stream : Ws) (told : List Text)
      (o : Option (Shared nt Ws × Client nt Ws)) : Type 0 where
    pub sh' : Shared nt Ws
    pub c' : Client nt Ws
    pub returned : o ≡ some (sh', c')
    pub phase : c'.phase ≡ selecting
    pub session : c'.session ≡ some sh.tasks
    pub target : sh'.audio.target ≡ some sh.tasks
    pub draining : c'.draining_task ≡ none
    pub tasks : sh'.tasks ≡ sh.tasks + 1
    pub streams : sh'.streams ≡ (sh.tasks, stream) ∷ sh.streams
    pub spare : sh'.pool.spare ≡ none
    pub written : c'.written ≡ c.written ++ told

  abort_shared :
      (task : Option ℕ) (sh : Shared nt Ws)
      → let sh' = abort nt Ws task sh in
        (sh'.tasks ≡ sh.tasks) × (sh'.pool ≡ sh.pool) × (sh'.streams ≡ sh.streams)
  unfolding abort
  abort_shared none sh = (refl, refl, refl)
  abort_shared (some task) sh = (refl, refl, refl)

  on_start_shared :
      (sh : Shared nt Ws) (c : Client nt Ws)
      → let sh' = (on_start nt Ws to_string from_str sh c).0 in
        (sh'.tasks ≡ sh.tasks) × (sh'.pool ≡ sh.pool) × (sh'.streams ≡ sh.streams)
  unfolding on_start
  on_start_shared sh c = elim (Option-cases c.session) [
    | inl idle ↦ ground (arith, idle, abort_shared c.draining_task sh)
    | inr (task, active) ↦ unfold abort in ground (arith, active, abort_shared c.draining_task sh)
  ]

  -- The client after the line of a start.
  abbrev started : Client nt Ws → Client nt Ws
  started c = record c { phase = taking; session = none; draining_task = none }

  run-start :
      (events : List (Event Ws)) (l : Text) (mode : Option Text) (sh : Shared nt Ws)
      (c : Client nt Ws)
      → c.phase ≡ selecting
      → from_str l ≡ some (start mode)
      → run nt Ws to_string from_str (read (line l) ∷ events) sh c
        ≡ run nt Ws to_string from_str events
            ((on_start nt Ws to_string from_str sh c).0)
            (started c)
  run-start events l mode sh c at parsed =
      run-step (read (line l)) events sh _ c (started c)
        (unfold step on_read on_msg on_start in ground (arith, at, parsed))

  run-opened :
      (sh : Shared nt Ws) (c : Client nt Ws) (stream : Ws)
      → c.phase ≡ opening stream
      → run nt Ws to_string from_str (opened ∷ []) sh c
        ≡ some (on_opened nt Ws to_string from_str stream sh c)
  unfolding run step
  run-opened sh c stream at = ground (arith, at)

  run-taken_spare :
      (events : List (Event Ws)) (sh : Shared nt Ws) (c : Client nt Ws) (stream : Ws)
      → c.phase ≡ taking
      → sh.pool.spare ≡ some stream
      → run nt Ws to_string from_str (taken ∷ events) sh c
        ≡ run nt Ws to_string from_str events
            (record sh { pool = (take_spare nt Ws sh.pool).1 })
            (record c { phase = opening stream })
  run-taken_spare events sh c stream at full =
      run-step taken events sh (record sh { pool = (take_spare nt Ws sh.pool).1 }) c
        (record c { phase = opening stream })
        (unfold step on_taken take_spare in ground (arith, at, full))

  abbrev told_connecting : Client nt Ws → Client nt Ws
  told_connecting c = record c {
    phase = dialing;
    written = c.written ++ (status_line (text "connecting") ∷ []);
  }

  run-taken_none :
      (events : List (Event Ws)) (sh : Shared nt Ws) (c : Client nt Ws)
      → c.phase ≡ taking
      → sh.pool.spare ≡ none
      → run nt Ws to_string from_str (taken ∷ events) sh c
        ≡ run nt Ws to_string from_str events sh (told_connecting c)
  run-taken_none events sh c at empty =
      run-step taken events sh sh c (told_connecting c)
        (unfold step on_taken take_spare write in ground (arith, at, empty))

  -- At `select!`, with a spare connection, a start opens a session on it: the client is told
  -- `recording` alone, the session is the new task, the audio goes to it, no task is draining and the
  -- spare is used up.
  pub start-spare :
      (l : Text) (mode : Option Text) (stream : Ws) (sh : Shared nt Ws) (c : Client nt Ws)
      → c.phase ≡ selecting
      → from_str l ≡ some (start mode)
      → sh.pool.spare ≡ some stream
      → Recording sh c stream
          (status_line (text "recording") ∷ [])
          (run nt Ws to_string from_str (read (line l) ∷ taken ∷ opened ∷ []) sh c)
  start-spare l mode stream sh c at parsed full =
      let s1 = (on_start nt Ws to_string from_str sh c).0 in
      let (tasks, pool, streams) = on_start_shared sh c in
      let s2 : Shared nt Ws = record s1 { pool = (take_spare nt Ws s1.pool).1 } in
      let c2 : Client nt Ws = record (started c) { phase = opening stream } in
      let has : s1.pool.spare ≡ some stream = ap (λ p. p.spare) pool ∙ full in
      let end_state = on_opened nt Ws to_string from_str stream s2 c2 in
      record {
        sh' = end_state.0;
        c' = end_state.1;
        returned =
            run-start (taken ∷ opened ∷ []) l mode sh c at parsed
            ∙ run-taken_spare (opened ∷ []) s1 (started c) stream refl has
            ∙ run-opened s2 c2 stream refl;
        phase = unfold on_opened in refl;
        session = unfold on_opened in ap some tasks;
        target = unfold on_opened set_target in ap some tasks;
        draining = unfold on_opened write in refl;
        tasks = unfold on_opened in ap (λ (n : ℕ). n + 1) tasks;
        streams = unfold on_opened in ground (arith, tasks, streams);
        spare = unfold on_opened take_spare in ground (arith, has);
        written = unfold on_opened write in refl;
      }

  -- At `select!`, with no spare connection and a dial that succeeds, a start opens a session in the
  -- same way, and the client is told `connecting` and then `recording`.
  pub start-dialed :
      (l : Text) (mode : Option Text) (stream : Ws) (sh : Shared nt Ws) (c : Client nt Ws)
      → c.phase ≡ selecting
      → from_str l ≡ some (start mode)
      → sh.pool.spare ≡ none
      → Recording sh c stream
          (status_line (text "connecting") ∷ status_line (text "recording") ∷ [])
          (run nt Ws to_string from_str
            (read (line l) ∷ taken ∷ dialed (ok stream) ∷ opened ∷ [])
            sh
            c)
  start-dialed l mode stream sh c at parsed empty =
      let s1 = (on_start nt Ws to_string from_str sh c).0 in
      let (tasks, pool, streams) = on_start_shared sh c in
      let c1 = told_connecting (started c) in
      let c2 : Client nt Ws = record c1 { phase = opening stream } in
      let has : s1.pool.spare ≡ none = ap (λ p. p.spare) pool ∙ empty in
      let end_state = on_opened nt Ws to_string from_str stream s1 c2 in
      record {
        sh' = end_state.0;
        c' = end_state.1;
        returned =
            run-start (taken ∷ dialed (ok stream) ∷ opened ∷ []) l mode sh c at parsed
            ∙ run-taken_none (dialed (ok stream) ∷ opened ∷ []) s1 (started c) refl has
            ∙ run-step (dialed (ok stream)) (opened ∷ []) s1 s1 c1 c2
                (unfold step on_dialed in refl)
            ∙ run-opened s1 c2 stream refl;
        phase = unfold on_opened in refl;
        session = unfold on_opened in ap some tasks;
        target = unfold on_opened set_target in ap some tasks;
        draining = unfold on_opened write in refl;
        tasks = unfold on_opened in ap (λ (n : ℕ). n + 1) tasks;
        streams = unfold on_opened in ground (arith, tasks, streams);
        spare = unfold on_opened in has;
        written = unfold on_opened write in append_assoc c.written _ _;
      }

  -- The handler after a start that opens no session.
  pub record Refused (sh : Shared nt Ws) (c : Client nt Ws) (told : List Text)
      (o : Option (Shared nt Ws × Client nt Ws)) : Type 0 where
    pub sh' : Shared nt Ws
    pub c' : Client nt Ws
    pub returned : o ≡ some (sh', c')
    pub phase : c'.phase ≡ selecting
    pub session : c'.session ≡ none
    pub draining : c'.draining_task ≡ none
    pub target : sh'.audio.target ≡ none
    pub tasks : sh'.tasks ≡ sh.tasks
    pub written : c'.written ≡ c.written ++ told

  -- At `select!`, with the target that of the session, with no spare connection and a dial that
  -- fails, a start leaves no session, no draining task and no target, spawns nothing, and the client
  -- is told `connecting` and then the error; the handler reads on.
  pub start-Refused :
      (l : Text) (mode : Option Text) (e : Text) (sh : Shared nt Ws) (c : Client nt Ws)
      → c.phase ≡ selecting
      → from_str l ≡ some (start mode)
      → sh.pool.spare ≡ none
      → sh.audio.target ≡ c.session
      → Refused sh c
          (status_line (text "connecting") ∷ serialize_msg to_string (ServerMsg.error e) ∷ [])
          (run nt Ws to_string from_str (read (line l) ∷ taken ∷ dialed (err e) ∷ []) sh c)
  start-Refused l mode e sh c at parsed empty follows =
      let s1 = (on_start nt Ws to_string from_str sh c).0 in
      let (tasks, pool, streams) = on_start_shared sh c in
      let (silent, bare, begun) = on_start-target nt Ws to_string from_str sh c follows in
      let c1 = told_connecting (started c) in
      let has : s1.pool.spare ≡ none = ap (λ p. p.spare) pool ∙ empty in
      let end_state = on_dialed nt Ws to_string from_str (err e) s1 c1 in
      record {
        sh' = end_state.0;
        c' = end_state.1;
        returned =
            run-start (taken ∷ dialed (err e) ∷ []) l mode sh c at parsed
            ∙ run-taken_none (dialed (err e) ∷ []) s1 (started c) refl has
            ∙ run-step (dialed (err e)) [] s1 s1 c1 (end_state.1) (unfold step on_dialed in refl)
            ∙ (unfold run on_dialed in refl);
        phase = unfold on_dialed in refl;
        session = unfold on_dialed write in refl;
        draining = unfold on_dialed write in refl;
        target = unfold on_dialed in silent;
        tasks = unfold on_dialed in tasks;
        written = unfold on_dialed write in append_assoc c.written _ _;
      }
