-- ===== src/Flow/Sound.antt =====
-- The flow between its steps, and the calls of the callback (anytalk-daemon/src/audio.rs).
use fcitx5_anytalk.Prelude.{
  ℕ, ◌≤◌, ◌<◌, true, false, Option-cases, inl, inr, ◌≡◌, ◌≢◌, refl, sym, ◌∙◌, ap, subst, Option,
  none, some, List, [], ◌∷◌, ◌++◌, append-nil, append_assoc, arith,
}
use fcitx5_anytalk.Prelude.Families.{update, update_all, update_both}
use fcitx5_anytalk.Mpsc.{IsFifo}
use fcitx5_anytalk.Audio.Msg.{AudioMsg}
use fcitx5_anytalk.Audio.Resampler.{Outcome, done, panicked, no_fuel}
use fcitx5_anytalk.Audio.Capture.{Capture}
use fcitx5_anytalk.Audio.Global.{Data, on_data}
use fcitx5_anytalk.Flow.{
  Setting, TaskState, unspawned, begun, at_work, over, crashed, Flow, offer, on_callback,
}
use fcitx5_anytalk.Flow.Reach.{Log, logged}
use fcitx5_anytalk.Flow.Ledger.{Delivers-queue, Delivers-more, Ledger}

module _ (w : Setting) (fifo : IsFifo (w.ch)) where
  open w use {nt, Ws, to_string, from_str, fl, f32, fuel, channels, format, ch}
  open fifo use {unread, is_open}

  -- The channel of the target is open, tasks are spawned in order, and the ledger of each holds.
  pub record IsSound (s : Flow w) (log : Log w) : Type 0 where
    pub tuned :
        (t : ℕ)
        → s.shared.audio.target ≡ some t
        → (is_open (s.queues t) ≡ true) × (t < s.shared.tasks)
    pub ahead : (t : ℕ) → s.shared.tasks ≤ t → (s.tasks t ≡ unspawned) × (log t ≡ [])
    pub shut :
        (t : ℕ) → t < s.shared.tasks → s.shared.audio.target ≢ some t → is_open (s.queues t) ≡ false
    pub ledger : (t : ℕ) → Ledger w fifo (s.tasks t) (s.queues t) (log t)

  pub offer-taken :
      (msgs : List AudioMsg) (q : ch.State)
      → let r = offer w msgs q in (unread (r.1) ≡ unread q ++ (r.0)) × (is_open (r.1) ≡ is_open q)
  unfolding offer
  offer-taken [] q = (sym (append-nil (unread q)), refl)
  offer-taken (msg ∷ msgs) q = elim (Option-cases (ch.try_send msg q)) [
    | inl refused ↦ rw (refused, offer) (offer-taken msgs q)
    | inr (q', went) ↦
        let (here, same) = fifo.sends msg q q' went in
        let (there, same') = offer-taken msgs q' in
        rw (went, offer)
          (
            there
                ∙ ap (λ (r : List AudioMsg). r ++ (offer w msgs q').0) here
                ∙ append_assoc (unread q) (msg ∷ []) ((offer w msgs q').0),
            same' ∙ same,
          )
  ]

  -- A channel that takes more while it is open.
  Ledger-more :
      (state : TaskState) (q q' : ch.State) (taken new : List AudioMsg)
      → unread q' ≡ unread q ++ new
      → is_open q ≡ true
      → Ledger w fifo state q taken
      → Ledger w fifo state q' (taken ++ new)
  Ledger-more unspawned q q' taken new grown on h = tt
  Ledger-more begun q q' taken new grown on h = grown ∙ ap (λ (r : List AudioMsg). r ++ new) h
  Ledger-more (at_work s) q q' taken new grown on h =
      Delivers-more w fifo s q q' taken new grown on h
  Ledger-more (over none) q q' taken new grown on h = tt
  Ledger-more (over (some s)) q q' taken new grown on h =
      Delivers-more w fifo s q q' taken new grown on h
  Ledger-more crashed q q' taken new grown on h = tt

  -- A channel whose sender is dropped.
  pub Ledger-closed :
      (state : TaskState) (q : ch.State) (taken : List AudioMsg)
      → Ledger w fifo state q taken
      → Ledger w fifo state (ch.drop_tx q) taken
  Ledger-closed unspawned q taken h = tt
  Ledger-closed begun q taken h = (fifo.closes q).0 ∙ h
  Ledger-closed (at_work s) q taken h =
      Delivers-queue w fifo s q (ch.drop_tx q) taken ((fifo.closes q).0) (λ e. (fifo.closes q).1) h
  Ledger-closed (over none) q taken h = tt
  Ledger-closed (over (some s)) q taken h =
      Delivers-queue w fifo s q (ch.drop_tx q) taken ((fifo.closes q).0) (λ e. (fifo.closes q).1) h
  Ledger-closed crashed q taken h = tt

  -- A callback.
  silent-Sound :
      (s : Flow w) (log : Log w) (capture : Capture fl)
      → s.shared.audio.target ≡ none
      → IsSound s log
      → IsSound (record s { capture = capture }) (logged w s.shared.audio.target [] log)
  silent-Sound s log capture silent h =
      subst (λ (o : Option ℕ). IsSound (record s { capture = capture }) (logged w o [] log))
        (sym silent) (record { tuned = h.tuned; ahead = h.ahead; shut = h.shut; ledger = h.ledger })

  heard-Sound :
      (s : Flow w) (log : Log w) (capture : Capture fl) (t : ℕ) (msgs : List AudioMsg)
      → s.shared.audio.target ≡ some t
      → IsSound s log
      → let r = offer w msgs (s.queues t) in
        IsSound
          (record s { capture = capture; queues = update s.queues t (r.1) })
          (logged w s.shared.audio.target (r.0) log)
  heard-Sound s log capture t msgs aims h =
      let (grown, same) = offer-taken msgs (s.queues t) in
      let (open_, spawned) = h.tuned t aims in
      let r = offer w msgs (s.queues t) in
      subst
        (λ (o : Option ℕ).
          IsSound (record s { capture = capture; queues = update s.queues t (r.1) })
            (logged w o (r.0) log))
        (sym aims)
        (record {
          tuned = λ u at. (
            update_all (λ v q. s.shared.audio.target ≡ some v → is_open q ≡ true) s.queues t (r.1)
                (λ e. same ∙ open_) (λ v e. (h.tuned v e).0) u at,
            (h.tuned u at).1,
          );
          ahead = λ u late. ((h.ahead u late).0, ground (arith, spawned, late, (h.ahead u late).1));
          shut = λ u spawned_u away.
              update_all
                (λ v q. v < s.shared.tasks → s.shared.audio.target ≢ some v → is_open q ≡ false)
                s.queues t (r.1) (λ lt ne. absurd (ne aims)) h.shut u spawned_u away;
          ledger =
              update_both (λ u q l. Ledger w fifo (s.tasks u) q l) s.queues log t (r.1)
                (log t ++ (r.0))
                (Ledger-more (s.tasks t) (s.queues t) (r.1) (log t) (r.0) grown open_ (h.ledger t))
                h.ledger;
        })

  pub called-Sound :
      (slice : Data f32 format) (s s' : Flow w) (log : Log w) (taken : List AudioMsg)
      (o : Outcome (List AudioMsg × Capture fl))
      → on_data fl f32 fuel channels format s.shared.audio.target s.capture slice ≡ o
      → on_callback w slice s ≡ some (s', taken)
      → IsSound s log
      → IsSound s' (logged w s.shared.audio.target taken log)
  unfolding on_callback
  called-Sound slice s s' log taken panicked at e h = absurd (ground (arith, at, e))
  called-Sound slice s s' log taken no_fuel at e h = absurd (ground (arith, at, e))
  called-Sound slice s s' log taken (done (msgs, capture)) at e h =
      let After =
        λ (p : Flow w × List AudioMsg). IsSound (p.0) (logged w s.shared.audio.target (p.1) log) in
      elim (Option-cases s.shared.audio.target) [
        | inl silent ↦
            let eq : (record s { capture = capture }, []) ≡ (s', taken) =
              ground (arith, at, e, silent) in
            subst After eq (silent-Sound s log capture silent h)
        | inr (t, aims) ↦
            let r = offer w msgs (s.queues t) in
            let eq : (record s { capture = capture; queues = update s.queues t (r.1) }, r.0)
                ≡ (s', taken) =
              ground (arith, at, e, aims) in
            subst After eq (heard-Sound s log capture t msgs aims h)
      ]
