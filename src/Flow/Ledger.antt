-- ===== src/Flow/Ledger.antt =====
-- What the session of a task has sent, what waits in its channel, and what the channel has taken.
use fcitx5_anytalk.Prelude.{
  ℕ, Bool, true, false, Bool-cases, Option-cases, inl, inr, ◌≡◌, refl, sym, ◌∙◌, ap, subst, Option,
  none, some, List, [], ◌∷◌, ◌++◌, map, map-append, append_assoc, append-nil, arith,
}
use fcitx5_anytalk.Mpsc.{IsFifo}
use fcitx5_anytalk.Protocol.{build_full_client_request, build_audio_only_request}
use fcitx5_anytalk.Audio.Msg.{AudioMsg, chunk}
use fcitx5_anytalk.Asr.Session.{
  WsItem, Session, Outcome, goes_on, ended, panicked, opened, on_audio, on_message, step,
}
use fcitx5_anytalk.Asr.Session.Runs.{session_of}
use fcitx5_anytalk.Asr.Session.Frames.{audio_frames, on_message-audio}
use fcitx5_anytalk.Flow.{
  Setting, TaskState, unspawned, begun, at_work, over, crashed, TaskEvent, begins, hears, gets,
  stops, after_round, on_task,
}

module _ (w : Setting) (fifo : IsFifo (w.ch)) where
  open w use {serde, mode, req_json, ch}
  open fifo use {unread, is_open}

  -- The frames of a session: the request, a frame for each of the first chunks that the channel took,
  -- in order, and the last frame only after all of them and after the end of the channel.
  pub record Delivers (s : Session) (q : ch.State) (taken : List AudioMsg) : Type 0 where
    pub chunks : List (List ℕ)
    pub closed : Bool
    pub frames : s.frames ≡ build_full_client_request req_json ∷ audio_frames chunks closed
    pub rest : map chunk chunks ++ unread q ≡ taken
    pub whole : closed ≡ true → (unread q ≡ []) × (is_open q ≡ false)
    pub more : s.audio_active ≡ true → closed ≡ false

  abbrev pub Ledger : TaskState → ch.State → List AudioMsg → Type 0
  Ledger unspawned q taken = Unit {0}
  Ledger begun q taken = unread q ≡ taken
  Ledger (at_work s) q taken = Delivers s q taken
  Ledger (over none) q taken = Unit {0}
  Ledger (over (some s)) q taken = Delivers s q taken
  Ledger crashed q taken = Unit {0}

  -- A channel that changes in other ways than by its messages.
  pub Delivers-queue :
      (s : Session) (q q' : ch.State) (taken : List AudioMsg)
      → unread q' ≡ unread q
      → (is_open q ≡ false → is_open q' ≡ false)
      → Delivers s q taken
      → Delivers s q' taken
  Delivers-queue s q q' taken same shut d = record {
    chunks = d.chunks;
    closed = d.closed;
    frames = d.frames;
    rest = ap (λ (r : List AudioMsg). map chunk d.chunks ++ r) same ∙ d.rest;
    whole = λ e. (same ∙ (d.whole e).0, shut ((d.whole e).1));
    more = d.more;
  }

  -- More messages that the channel takes while it is open.
  pub Delivers-more :
      (s : Session) (q q' : ch.State) (taken new : List AudioMsg)
      → unread q' ≡ unread q ++ new
      → is_open q ≡ true
      → Delivers s q taken
      → Delivers s q' (taken ++ new)
  Delivers-more s q q' taken new grown on d = record {
    chunks = d.chunks;
    closed = d.closed;
    frames = d.frames;
    rest =
        ap (λ (r : List AudioMsg). map chunk d.chunks ++ r) grown
        ∙ sym (append_assoc (map chunk d.chunks) (unread q) new)
        ∙ ap (λ (r : List AudioMsg). r ++ new) d.rest;
    whole = λ e. absurd (ground (arith, (d.whole e).1, on));
    more = d.more;
  }

  -- A session that has sent the same frames.
  Delivers-session :
      (s s' : Session) (q : ch.State) (taken : List AudioMsg)
      → (s'.frames ≡ s.frames) × (s'.audio_active ≡ s.audio_active)
      → Delivers s q taken
      → Delivers s' q taken
  Delivers-session s s' q taken (frames, active) d = record {
    chunks = d.chunks;
    closed = d.closed;
    frames = frames ∙ d.frames;
    rest = d.rest;
    whole = d.whole;
    more = λ on. d.more (sym active ∙ on);
  }

  -- The first send.
  opened-Delivers :
      (q : ch.State) (taken : List AudioMsg) → unread q ≡ taken → Delivers (opened req_json) q taken
  unfolding opened
  opened-Delivers q taken e = record {
    chunks = [];
    closed = false;
    frames = refl;
    rest = e;
    whole = λ e. (cc);
    more = λ on. refl;
  }

  pub open_frames :
      (s : Session) (q : ch.State) (taken : List AudioMsg)
      → s.audio_active ≡ true
      → (d : Delivers s q taken)
      → s.frames
        ≡ build_full_client_request req_json
          ∷ map (λ bytes. build_audio_only_request bytes false) d.chunks
  open_frames s q taken on d =
      d.frames
      ∙ ap (λ (c : Bool). build_full_client_request req_json ∷ audio_frames d.chunks c) (d.more on)
      ∙ ap (λ (r : List (List ℕ)). build_full_client_request req_json ∷ r)
          (append-nil (map (λ bytes. build_audio_only_request bytes false) d.chunks))

  -- A chunk that comes, and the end.
  chunk-Delivers :
      (s : Session) (bytes : List ℕ) (sent : Bool) (q q' : ch.State) (taken : List AudioMsg)
      → s.audio_active ≡ true
      → ch.recv q ≡ some (some (chunk bytes), q')
      → Delivers s q taken
      → Delivers (on_audio s (some (chunk bytes)) sent) q' taken
  unfolding on_audio
  chunk-Delivers s bytes sent q q' taken on came d =
      let (front, same) = fifo.comes (chunk bytes) q q' came in
      let not_closed = d.more on in
      record {
        chunks = d.chunks ++ (bytes ∷ []);
        closed = false;
        frames =
            ap (λ (r : List (List ℕ)). r ++ (build_audio_only_request bytes false ∷ []))
              (open_frames s q taken on d)
            ∙ ap (λ (r : List (List ℕ)). build_full_client_request req_json ∷ r)
                (sym (map-append (λ b. build_audio_only_request b false) d.chunks (bytes ∷ []))
                  ∙ sym (
                      append-nil
                        (map (λ b. build_audio_only_request b false) (d.chunks ++ (bytes ∷ [])))));
        rest =
            ap (λ (r : List AudioMsg). r ++ unread q') (map-append chunk d.chunks (bytes ∷ []))
            ∙ append_assoc (map chunk d.chunks) (chunk bytes ∷ []) (unread q')
            ∙ ap (λ (r : List AudioMsg). map chunk d.chunks ++ r) (sym front)
            ∙ d.rest;
        whole = λ e. (cc);
        more = λ e. refl;
      }

  end-Delivers :
      (s : Session) (sent : Bool) (q q' : ch.State) (taken : List AudioMsg)
      → s.audio_active ≡ true
      → ch.recv q ≡ some (none, q')
      → Delivers s q taken
      → Delivers (on_audio s none sent) q' taken
  unfolding on_audio
  end-Delivers s sent q q' taken on came d =
      let (empty, shut, empty', shut') = fifo.ends q q' came in
      record {
        chunks = d.chunks;
        closed = true;
        frames =
            ap (λ (r : List (List ℕ)). r ++ (build_audio_only_request [] true ∷ []))
              (open_frames s q taken on d);
        rest = ap (λ (r : List AudioMsg). map chunk d.chunks ++ r) (empty' ∙ sym empty) ∙ d.rest;
        whole = λ e. (empty', shut');
        more = λ e. (cc);
      }

  -- What comes from the channel.
  came-Delivers :
      (s : Session) (msg : Option AudioMsg) (sent : Bool) (q q' : ch.State) (taken : List AudioMsg)
      → s.audio_active ≡ true
      → ch.recv q ≡ some (msg, q')
      → Delivers s q taken
      → Delivers (on_audio s msg sent) q' taken
  came-Delivers s none sent q q' taken on came d = end-Delivers s sent q q' taken on came d
  came-Delivers s (some (chunk bytes)) sent q q' taken on came d =
      chunk-Delivers s bytes sent q q' taken on came d

  -- A message of the service, by its outcome.
  message-Ledger :
      (s : Session) (item : Option WsItem) (o : Outcome) (q : ch.State) (taken : List AudioMsg)
      → on_message serde mode s item ≡ o
      → Delivers s q taken
      → let next = after_round w o q in Ledger (next.0) (next.1) taken
  unfolding after_round
  message-Ledger s item (goes_on s') q taken e d =
      Delivers-session s s' q taken (on_message-audio serde mode s item {s' = s'} (ap session_of e))
        d
  message-Ledger s item (ended s') q taken e d =
      let (same, open_) = fifo.leaves q in
      Delivers-queue s' q (ch.drop_rx q) taken same (λ shut. open_ ∙ shut)
        (Delivers-session s s' q taken
          (on_message-audio serde mode s item {s' = s'} (ap session_of e)) d)
  message-Ledger s item panicked q taken e d = tt

  dropped-Ledger :
      (s : Session) (q : ch.State) (taken : List AudioMsg)
      → Delivers s q taken
      → Delivers s (ch.drop_rx q) taken
  dropped-Ledger s q taken d =
      let (same, open_) = fifo.leaves q in
      Delivers-queue s q (ch.drop_rx q) taken same (λ shut. open_ ∙ shut) d

  -- Of the result of an event, where there is one.
  abbrev LedgerOf : List AudioMsg → Option (TaskState × ch.State) → Type 0
  LedgerOf taken none = Unit {0}
  LedgerOf taken (some (state, q)) = Ledger state q taken

  hears-LedgerOf :
      (s : Session) (sent : Bool) (q : ch.State) (taken : List AudioMsg)
      → Delivers s q taken
      → LedgerOf taken (on_task w (at_work s) (hears sent) q)
  unfolding on_task
  hears-LedgerOf s sent q taken d = elim (Bool-cases s.audio_active) [
    | inr off ↦ rw (off, LedgerOf, on_task) tt
    | inl on ↦ elim (Option-cases (ch.recv q)) [
      | inl waits ↦ rw (on, waits, LedgerOf, on_task) tt
      | inr ((msg, q'), came) ↦
          rw (on, came, LedgerOf, on_task)
            (unfold step after_round in
              rw (on, step, after_round)
                (came-Delivers (record s { audio_active = true }) msg sent q q' taken refl came
                  (Delivers-session s (record s { audio_active = true }) q taken (refl, sym on) d)))
    ]
  ]

  on_task-LedgerOf :
      (state : TaskState) (event : TaskEvent) (q : ch.State) (taken : List AudioMsg)
      → Ledger state q taken
      → LedgerOf taken (on_task w state event q)
  unfolding on_task
  on_task-LedgerOf begun (begins none) q taken h = opened-Delivers q taken h
  on_task-LedgerOf begun (begins (some e)) q taken h = tt
  on_task-LedgerOf begun stops q taken h = tt
  on_task-LedgerOf begun (hears sent) q taken h = tt
  on_task-LedgerOf begun (gets item) q taken h = tt
  on_task-LedgerOf (at_work s) (hears sent) q taken h = hears-LedgerOf s sent q taken h
  on_task-LedgerOf (at_work s) (gets item) q taken h =
      unfold step in message-Ledger s item (on_message serde mode s item) q taken refl h
  on_task-LedgerOf (at_work s) stops q taken h = dropped-Ledger s q taken h
  on_task-LedgerOf (at_work s) (begins e) q taken h = tt
  on_task-LedgerOf unspawned event q taken h = tt
  on_task-LedgerOf (over s) event q taken h = tt
  on_task-LedgerOf crashed event q taken h = tt

  -- Every event of a task.
  pub on_task-Ledger :
      (event : TaskEvent) (state state' : TaskState) (q q' : ch.State) (taken : List AudioMsg)
      → on_task w state event q ≡ some (state', q')
      → Ledger state q taken
      → Ledger state' q' taken
  on_task-Ledger event state state' q q' taken e h =
      subst (LedgerOf taken) e (on_task-LedgerOf state event q taken h)
