-- ===== src/Flow/Kept.antt =====
-- The audio that each session sends is what its channel has taken, in every state of the flow.
use fcitx5_anytalk.Prelude.{
  ℕ, ◌≤◌, ◌<◌, Bool, true, false, Bool-cases, Option-cases, inl, inr, ◌≡◌, ◌≢◌, refl, sym, ◌∙◌, ap,
  subst, Option, none, some, List, arith,
}
use fcitx5_anytalk.Prelude.Families.{update, update_all, update_both}
use fcitx5_anytalk.Mpsc.{IsFifo}
use fcitx5_anytalk.Audio.Msg.{AudioMsg}
use fcitx5_anytalk.Audio.Global.{on_data}
use fcitx5_anytalk.Ipc.Client.{Client}
use fcitx5_anytalk.Ipc.Client.Retarget.{step-Retargets}
use fcitx5_anytalk.Asr.Session.{Session, audio, message, Outcome, goes_on, ended, panicked, step}
use fcitx5_anytalk.Flow.{
  begins, hears, gets, stops, after_round, Setting, TaskState, unspawned, begun, at_work, over,
  crashed, TaskEvent, Flow, on_task,
}
use fcitx5_anytalk.Flow.Sound.{IsSound, called-Sound}
use fcitx5_anytalk.Flow.Handlers.{handler-Sound}
use fcitx5_anytalk.Flow.Reach.{Log, FlowReaches, idle, called, accepted, moved, pool_changed, ran}
use fcitx5_anytalk.Flow.Ledger.{Ledger, on_task-Ledger}

module _ (w : Setting) (fifo : IsFifo (w.ch)) where
  open w use {nt, Ws, to_string, from_str, fl, f32, fuel, channels, format, ch, serde, mode}
  open fifo use {unread, is_open}

  -- A task's events neither open nor close the sending side of its channel, and come after its spawn.
  unfoldable OpenOf : ch.State → Option (TaskState × ch.State) → Type 0
  OpenOf q none = Unit {0}
  OpenOf q (some (state, q')) = is_open q' ≡ is_open q

  after_round-open : (o : Outcome) (q : ch.State) → is_open ((after_round w o q).1) ≡ is_open q
  unfolding after_round
  after_round-open (goes_on s) q = refl
  after_round-open (ended s) q = (fifo.leaves q).1
  after_round-open panicked q = (fifo.leaves q).1

  pub recv-open :
      (q q' : ch.State) (msg : Option AudioMsg)
      → ch.recv q ≡ some (msg, q')
      → is_open q' ≡ is_open q
  recv-open q q' none came = let (e, shut, e', shut') = fifo.ends q q' came in shut' ∙ sym shut
  recv-open q q' (some msg) came = (fifo.comes msg q q' came).1

  hears-OpenOf :
      (s : Session) (sent : Bool) (q : ch.State) → OpenOf q (on_task w (at_work s) (hears sent) q)
  unfolding on_task OpenOf
  hears-OpenOf s sent q = elim (Bool-cases s.audio_active) [
    | inr off ↦ rw (off, OpenOf, on_task) tt
    | inl on ↦ elim (Option-cases (ch.recv q)) [
      | inl waits ↦ rw (on, waits, OpenOf, on_task) tt
      | inr ((msg, q'), came) ↦
          rw (on, came, OpenOf, on_task)
            (after_round-open (step serde mode s (audio msg sent)) q' ∙ recv-open q q' msg came)
    ]
  ]

  on_task-OpenOf :
      (state : TaskState) (event : TaskEvent) (q : ch.State) → OpenOf q (on_task w state event q)
  unfolding on_task OpenOf
  on_task-OpenOf begun (begins none) q = refl
  on_task-OpenOf begun (begins (some e)) q = (fifo.leaves q).1
  on_task-OpenOf begun stops q = (fifo.leaves q).1
  on_task-OpenOf begun (hears sent) q = tt
  on_task-OpenOf begun (gets item) q = tt
  on_task-OpenOf (at_work s) (hears sent) q = hears-OpenOf s sent q
  on_task-OpenOf (at_work s) (gets item) q = after_round-open (step serde mode s (message item)) q
  on_task-OpenOf (at_work s) stops q = (fifo.leaves q).1
  on_task-OpenOf (at_work s) (begins e) q = tt
  on_task-OpenOf unspawned event q = tt
  on_task-OpenOf (over s) event q = tt
  on_task-OpenOf crashed event q = tt

  pub on_task-open :
      (event : TaskEvent) (state state' : TaskState) (q q' : ch.State)
      → on_task w state event q ≡ some (state', q')
      → is_open q' ≡ is_open q
  unfolding OpenOf
  on_task-open event state state' q q' e = subst (OpenOf q) e (on_task-OpenOf state event q)

  on_task-spawned :
      (event : TaskEvent) (state state' : TaskState) (q q' : ch.State)
      → on_task w state event q ≡ some (state', q')
      → state ≢ unspawned
  unfolding on_task
  on_task-spawned event state state' q q' e late =
      absurd (ground (arith, sym e ∙ ap (λ (st : TaskState). on_task w st event q) late))

  -- An event of a task in the flow.
  ran-Sound :
      (s : Flow w) (log : Log w) (t : ℕ) (event : TaskEvent) (state : TaskState) (q : ch.State)
      → on_task w (s.tasks t) event (s.queues t) ≡ some (state, q)
      → IsSound w fifo s log
      → IsSound w fifo
          (record s { queues = update s.queues t q; tasks = update s.tasks t state })
          log
  ran-Sound s log t event state q e h =
      let same = on_task-open event (s.tasks t) state (s.queues t) q e in
      let spawned = on_task-spawned event (s.tasks t) state (s.queues t) q e in
      record {
        tuned = λ u at. (
          update_all (λ v r. s.shared.audio.target ≡ some v → is_open r ≡ true) s.queues t q
              (λ at_t. same ∙ (h.tuned t at_t).0) (λ v at_v. (h.tuned v at_v).0) u at,
          (h.tuned u at).1,
        );
        ahead = λ u late. (
          update_all (λ v st. s.shared.tasks ≤ v → st ≡ unspawned) s.tasks t state
              (λ late_t. absurd (spawned ((h.ahead t late_t).0))) (λ v late_v. (h.ahead v late_v).0)
              u late,
          (h.ahead u late).1,
        );
        shut =
            update_all
              (λ v r. v < s.shared.tasks → s.shared.audio.target ≢ some v → is_open r ≡ false)
              s.queues t q (λ lt away. same ∙ h.shut t lt away) h.shut;
        ledger =
            update_both (λ u st r. Ledger w fifo st r (log u)) s.tasks s.queues t state q
              (on_task-Ledger w fifo event (s.tasks t) state (s.queues t) q (log t) e (h.ledger t))
              h.ledger;
      }

  -- Every state that the flow reaches.
  pub FlowReaches-Sound :
      {s : Flow w} {cs : List (Client nt Ws)} {log : Log w}
      → FlowReaches w s cs log
      → IsSound w fifo s log
  FlowReaches-Sound (idle sh c queues quiet) = record {
    tuned = λ t at. absurd (ground (arith, quiet.silent, at));
    ahead = λ t late. (refl, refl);
    shut = λ t spawned away. absurd (ground (arith, spawned, quiet.unspawned));
    ledger = λ t. tt;
  }
  FlowReaches-Sound (called slice s s' cs log taken before e) =
      called-Sound w fifo slice s s' log taken
        (on_data fl f32 fuel channels format s.shared.audio.target s.capture slice) refl e
        (FlowReaches-Sound before)
  FlowReaches-Sound (accepted s cs log before) = FlowReaches-Sound before
  FlowReaches-Sound (moved s left right log c c1 event sh before e) =
      handler-Sound w fifo s sh log
        (step-Retargets nt Ws to_string from_str s.shared c event sh c1 e)
        (FlowReaches-Sound before)
  FlowReaches-Sound (pool_changed s cs log pool before) =
      let h = FlowReaches-Sound before in
      record { tuned = h.tuned; ahead = h.ahead; shut = h.shut; ledger = h.ledger }
  FlowReaches-Sound (ran s cs log t event state q before allowed e) =
      ran-Sound s log t event state q e (FlowReaches-Sound before)
