-- ===== src/Flow/Delivery.antt =====
-- What the service hears of the audio that the channel of its session takes, and that a session
-- whose audio has been stopped sends all of it (anytalk-daemon/src/audio.rs, ipc.rs and asr.rs).
use fcitx5_anytalk.Prelude.{
  ℕ, zero, suc, ◌<◌, Bool, true, false, ltb, Bool-cases, Option-cases, inl, inr, ◌≡◌, ◌≢◌, ◌⊎◌,
  refl, sym, ◌∙◌, ap, subst, Option, none, some, List, [], ◌∷◌, ◌++◌, map, length, append-nil,
  arith,
}
use fcitx5_anytalk.Mpsc.{IsFifo}
use fcitx5_anytalk.Protocol.{build_full_client_request, build_audio_only_request}
use fcitx5_anytalk.Audio.Msg.{AudioMsg, chunk}
use fcitx5_anytalk.Ipc.Client.{Client}
use fcitx5_anytalk.Asr.Session.{Session, audio, goes_on, step, on_audio}
use fcitx5_anytalk.Asr.Session.Frames.{audio_frames}
use fcitx5_anytalk.Flow.{
  Setting, TaskState, unspawned, begun, at_work, over, crashed, hears, Flow, on_task, after_round,
}
use fcitx5_anytalk.Flow.Reach.{Log, FlowReaches}
use fcitx5_anytalk.Flow.Ledger.{Delivers, Ledger, open_frames, on_task-Ledger}
use fcitx5_anytalk.Flow.Sound.{IsSound}
use fcitx5_anytalk.Flow.Kept.{FlowReaches-Sound}

-- The session of a task, in its loop or after it.
abbrev pub session_at : TaskState → Option Session
session_at unspawned = none
session_at begun = none
session_at (at_work s) = some s
session_at (over o) = o
session_at crashed = none

module _ (w : Setting) (fifo : IsFifo (w.ch)) where
  open w use {nt, Ws, serde, mode, req_json, ch}
  open fifo use {unread, is_open}

  session-Delivers :
      (state : TaskState) (u : Session) (q : ch.State) (taken : List AudioMsg)
      → session_at state ≡ some u
      → Ledger w fifo state q taken
      → Delivers w fifo u q taken
  session-Delivers unspawned u q taken e h = absurd (ground (arith, e))
  session-Delivers begun u q taken e h = absurd (ground (arith, e))
  session-Delivers (at_work s) u q taken e h =
      subst
        (λ (o : Option Session). elim o [ none ↦ Unit {0} | some v ↦ Delivers w fifo v q taken ]) e
        h
  session-Delivers (over none) u q taken e h = absurd (ground (arith, e))
  session-Delivers (over (some s)) u q taken e h =
      subst
        (λ (o : Option Session). elim o [ none ↦ Unit {0} | some v ↦ Delivers w fifo v q taken ]) e
        h
  session-Delivers crashed u q taken e h = absurd (ground (arith, e))

  -- In every state of the flow, whatever the order of the callbacks, of the steps of the handlers and
  -- of those of the tasks, what the session of a task has sent, each send with success or not, is the
  -- full request and a frame for each of the first chunks that its channel has taken from the
  -- microphone, in order. Either no last frame is sent yet, and the other chunks wait in the channel;
  -- or the last frame is sent, after all that the channel has taken, and the audio no longer goes to
  -- this session.
  pub flow-frames :
      (s : Flow w) (cs : List (Client nt Ws)) (log : Log w) (t : ℕ) (u : Session)
      → FlowReaches w s cs log
      → session_at (s.tasks t) ≡ some u
      → (chunks : List (List ℕ)) × (((u.frames
              ≡ build_full_client_request req_json ∷ audio_frames chunks false)
            × (map chunk chunks ++ unread (s.queues t) ≡ log t))
          ⊎ ((u.frames ≡ build_full_client_request req_json ∷ audio_frames chunks true)
              × (map chunk chunks ≡ log t)
              × (s.shared.audio.target ≢ some t)))
  flow-frames s cs log t u reached e =
      let h = FlowReaches-Sound w fifo reached in
      let d = session-Delivers (s.tasks t) u (s.queues t) (log t) e (h.ledger t) in
      let with_last : (c : Bool)
          → d.closed ≡ c
          → u.frames ≡ build_full_client_request req_json ∷ audio_frames d.chunks c =
        λ c at.
          d.frames
          ∙ ap (λ (b : Bool). build_full_client_request req_json ∷ audio_frames d.chunks b) at in
      (
        d.chunks,
        elim (Bool-cases d.closed) [
          | inr not_yet ↦ inl (with_last false not_yet, d.rest)
          | inl last ↦
              let (empty, shut) = d.whole last in
              inr (
                with_last true last,
                sym (append-nil (map chunk d.chunks))
                    ∙ ap (λ (r : List AudioMsg). map chunk d.chunks ++ r) (sym empty)
                    ∙ d.rest,
                λ at. ground (arith, shut, (h.tuned t at).0),
              )
        ],
      )

  -- The audio branch of a task taken some times in a row, with sends that succeed.
  unfoldable pub hear : ℕ → TaskState → ch.State → Option (TaskState × ch.State)
  hear zero state q = some (state, q)
  hear (suc n) state q = elim (on_task w state (hears true) q) [
    | none ↦ none
    | some (state', q') ↦ hear n state' q'
  ]

  -- A session that has sent all that its channel took.
  abbrev pub Sent : List AudioMsg → ℕ → TaskState → ch.State → Type 0
  Sent taken n state q =
      (u : Session) × (q' : ch.State) × (chunks : List (List ℕ)) × (hear n state q
        ≡ some (at_work u, q'))
      × (u.frames ≡ build_full_client_request req_json ∷ audio_frames chunks true)
      × (map chunk chunks ≡ taken)

  step-audio :
      (s : Session) (msg : Option AudioMsg) (sent : Bool)
      → s.audio_active ≡ true
      → step serde mode s (audio msg sent) ≡ goes_on (on_audio s msg sent)
  unfolding step
  step-audio s msg sent on = ground (arith, on)

  hears-came :
      (s : Session) (q q' : ch.State) (msg : Option AudioMsg)
      → s.audio_active ≡ true
      → ch.recv q ≡ some (msg, q')
      → on_task w (at_work s) (hears true) q ≡ some (at_work (on_audio s msg true), q')
  unfolding on_task after_round
  hears-came s q q' msg on came = ground (arith, on, came, step-audio s msg true on)

  hear-suc :
      (n : ℕ) (state next : TaskState) (q q' : ch.State) (taken : List AudioMsg)
      → on_task w state (hears true) q ≡ some (next, q')
      → Sent taken n next q'
      → Sent taken (suc n) state q
  unfolding hear
  hear-suc n state next q q' taken e (u, last, chunks, heard, frames, all) =
      (u, last, chunks, ground (arith, e, heard), frames, all)

  -- The end of the channel.
  hear_end :
      (s : Session) (q q' : ch.State) (taken : List AudioMsg)
      → s.audio_active ≡ true
      → ch.recv q ≡ some (none, q')
      → Delivers w fifo s q taken
      → Sent taken 1 (at_work s) q
  unfolding hear on_audio
  hear_end s q q' taken on came d =
      hear-suc 0 (at_work s) (at_work (on_audio s none true)) q q' taken
        (hears-came s q q' none on came)
        (
          on_audio s none true,
          q',
          d.chunks,
          refl,
          ap (λ (r : List (List ℕ)). r ++ (build_audio_only_request [] true ∷ []))
              (open_frames w fifo s q taken on d),
          sym (append-nil (map chunk d.chunks))
              ∙ ap (λ (r : List AudioMsg). map chunk d.chunks ++ r) (sym ((fifo.ends q q' came).0))
              ∙ d.rest,
        )

  on_audio-active :
      (s : Session) (m : AudioMsg) → (on_audio s (some m) true).audio_active ≡ s.audio_active
  unfolding on_audio
  on_audio-active s (chunk bytes) = refl

  tail_eq : {x y : AudioMsg} {xs ys : List AudioMsg} → x ∷ xs ≡ y ∷ ys → xs ≡ ys
  tail_eq e = ground (arith, e)

  drains :
      (rest : List AudioMsg) (s : Session) (q : ch.State) (taken : List AudioMsg)
      → unread q ≡ rest
      → is_open q ≡ false
      → s.audio_active ≡ true
      → Delivers w fifo s q taken
      → Sent taken (suc (length rest)) (at_work s) q
  drains [] s q taken front shut on d = elim (Option-cases (ch.recv q)) [
    | inl waiting ↦ absurd (ground (arith, shut, (fifo.waits q waiting).0))
    | inr ((none, q'), came) ↦ hear_end s q q' taken on came d
    | inr ((some m, q'), came) ↦ absurd (ground (arith, front, (fifo.comes m q q' came).0))
  ]
  drains (x ∷ rest) s q taken front shut on d = elim (Option-cases (ch.recv q)) [
    | inl waiting ↦ absurd (ground (arith, shut, (fifo.waits q waiting).0))
    | inr ((none, q'), came) ↦ absurd (ground (arith, front, (fifo.ends q q' came).0))
    | inr ((some m, q'), came) ↦
        let here = hears-came s q q' (some m) on came in
        hear-suc (suc (length rest)) (at_work s) (at_work (on_audio s (some m) true)) q q' taken
          here
          (drains rest (on_audio s (some m) true) q' taken
            (tail_eq (sym ((fifo.comes m q q' came).0) ∙ front)) ((fifo.comes m q q' came).1 ∙ shut)
            (on_audio-active s m ∙ on)
            (on_task-Ledger w fifo (hears true) (at_work s) (at_work (on_audio s (some m) true)) q
              q' taken here d))
  ]

  spawned :
      (s : Flow w) (log : Log w) (t : ℕ) (u : Session)
      → IsSound w fifo s log
      → s.tasks t ≡ at_work u
      → t < s.shared.tasks
  spawned s log t u h e = elim (Bool-cases (ltb t s.shared.tasks)) [
    | inl below ↦ ground (arith, below)
    | inr above ↦ absurd (ground (arith, e, (h.ahead t (ground (arith, above))).0))
  ]

  -- A session in its loop that still listens, to which the audio no longer goes, sends all that its
  -- channel has taken and then the last frame, when its audio branch runs once more often than there
  -- are chunks in the channel and the sends succeed.
  pub stop-drains :
      (s : Flow w) (cs : List (Client nt Ws)) (log : Log w) (t : ℕ) (u : Session)
      → FlowReaches w s cs log
      → s.tasks t ≡ at_work u
      → u.audio_active ≡ true
      → s.shared.audio.target ≢ some t
      → Sent (log t) (suc (length (unread (s.queues t)))) (s.tasks t) (s.queues t)
  stop-drains s cs log t u reached e on away =
      let h = FlowReaches-Sound w fifo reached in
      let d = subst (λ (st : TaskState). Ledger w fifo st (s.queues t) (log t)) e (h.ledger t) in
      subst (λ (st : TaskState). Sent (log t) (suc (length (unread (s.queues t)))) st (s.queues t))
        (sym e)
        (drains (unread (s.queues t)) u (s.queues t) (log t) refl
          (h.shut t (spawned s log t u h e) away) on d)
