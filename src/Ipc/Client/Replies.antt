-- ===== src/Ipc/Client/Replies.antt =====
-- The start of a session with and without a spare connection, and a line of a task after it.
use fcitx5_anytalk.Prelude.{
  ◌≡◌, refl, ◌∙◌, ap, Option, none, some, Option-cases, inl, inr, List, [], ◌∷◌, ◌++◌, append_assoc,
  arith,
}
use fcitx5_anytalk.Prelude.Results.{ok}
use fcitx5_anytalk.Text.{Text, text}
use fcitx5_anytalk.Ipc.Msg.{ClientMsg, ServerMsg, start}
use fcitx5_anytalk.Asr.Pool.{Notify}
use fcitx5_anytalk.Ipc.Client.{
  selecting, line, Event, read, response, taken, dialed, opened, Shared, Client, on_response, step,
  run,
}
use fcitx5_anytalk.Ipc.Client.Start.{Recording, start-spare, start-dialed, status_line}

module _ (nt : Notify) (Ws : Type 0) (to_string : ServerMsg → Option Text)
    (from_str : Text → Option ClientMsg) where
  -- The state that is shared, with a spare connection or none.
  abbrev pub with_spare : Option Ws → Shared nt Ws → Shared nt Ws
  with_spare spare sh = record sh { pool = record sh.pool { spare = spare } }

  -- At `select!`, a start opens a session, to which the audio goes from then on, and leaves no task
  -- draining: with a spare connection on it, and the client is told `recording` alone; with none on
  -- one that is dialed, and the client is told `connecting` first.
  pub start-Recording :
      (l : Text) (mode : Option Text) (stream : Ws) (sh : Shared nt Ws) (c : Client nt Ws)
      → c.phase ≡ selecting
      → from_str l ≡ some (start mode)
      → Recording nt Ws to_string from_str
          (with_spare (some stream) sh)
          c
          stream
          (status_line nt Ws to_string from_str (text "recording") ∷ [])
          (run nt Ws to_string from_str
            (read (line l) ∷ taken ∷ opened ∷ [])
            (with_spare (some stream) sh)
            c)
        × Recording nt Ws to_string from_str
            (with_spare none sh)
            c
            stream
            (status_line nt Ws to_string from_str (text "connecting")
              ∷ status_line nt Ws to_string from_str (text "recording")
              ∷ [])
            (run nt Ws to_string from_str
              (read (line l) ∷ taken ∷ dialed (ok stream) ∷ opened ∷ [])
              (with_spare none sh)
              c)
  start-Recording l mode stream sh c at parsed = (
    start-spare nt Ws to_string from_str l mode stream (with_spare (some stream) sh) c at parsed
        refl,
    start-dialed nt Ws to_string from_str l mode stream (with_spare none sh) c at parsed refl,
  )

  run-append :
      (es fs : List (Event Ws)) (sh sh' : Shared nt Ws) (c c' : Client nt Ws)
      → run nt Ws to_string from_str es sh c ≡ some (sh', c')
      → run nt Ws to_string from_str (es ++ fs) sh c ≡ run nt Ws to_string from_str fs sh' c'
  unfolding run
  run-append [] fs sh sh' c c' h = ground (arith, h)
  run-append (e ∷ es) fs sh sh' c c' h =
      elim (Option-cases (step nt Ws to_string from_str e sh c)) [
        | inl stuck ↦ absurd (ground (arith, stuck, h))
        | inr ((sh1, c1), went) ↦
            let rest : run nt Ws to_string from_str es sh1 c1 ≡ some (sh', c') =
              ground (arith, went, h) in
            ground (arith, went, run-append es fs sh1 sh' c1 c' rest)
      ]

  -- A line of a task, of whichever session, is passed on and changes nothing else.
  pub late-Recording :
      (es : List (Event Ws)) (told : List Text) (l : Text) (sh : Shared nt Ws) (c : Client nt Ws)
      (stream : Ws)
      → Recording nt Ws to_string from_str sh c stream told (run nt Ws to_string from_str es sh c)
      → Recording nt Ws to_string from_str sh c stream
          (told ++ (l ∷ []))
          (run nt Ws to_string from_str (es ++ (response (some l) ∷ [])) sh c)
  late-Recording es told l sh c stream r = record {
    sh' = r.sh';
    c' = record r.c' { written = r.c'.written ++ (l ∷ []) };
    returned =
        run-append es (response (some l) ∷ []) sh r.sh' c r.c' r.returned
        ∙ (unfold run step on_response in ground (arith, r.phase));
    phase = r.phase;
    session = r.session;
    target = r.target;
    draining = r.draining;
    tasks = r.tasks;
    streams = r.streams;
    spare = r.spare;
    written =
        ap (λ (w : List Text). w ++ (l ∷ [])) r.written ∙ append_assoc c.written told (l ∷ []);
  }
