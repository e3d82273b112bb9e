-- ===== src/Flow/Handlers.antt =====
-- The steps of the handlers in the flow (anytalk-daemon/src/ipc.rs).
use fcitx5_anytalk.Prelude.{
  ℕ, ◌+◌, ◌<◌, true, false, Bool-cases, inl, inr, ◌≡◌, ◌≢◌, refl, sym, ◌∙◌, ap, Option, none, some,
  ◌==◌, ltb, arith,
}
use fcitx5_anytalk.Prelude.Families.{update, eq_of_==, update_all, update_both}
use fcitx5_anytalk.Mpsc.{IsFifo}
use fcitx5_anytalk.Ipc.Client.{Shared}
use fcitx5_anytalk.Ipc.Client.Retarget.{Retargets, kept, cleared, aimed}
use fcitx5_anytalk.Flow.{Setting, TaskState, begun, Flow, aims_at, retarget, on_handler}
use fcitx5_anytalk.Flow.Sound.{IsSound, Ledger-closed}
use fcitx5_anytalk.Flow.Reach.{Log}
use fcitx5_anytalk.Flow.Ledger.{Ledger}

module _ (w : Setting) (fifo : IsFifo (w.ch)) where
  open w use {nt, Ws, to_string, from_str, fl, f32, fuel, channels, format, ch}
  open fifo use {unread, is_open}

  -- The channels after a change of the target.
  retarget-Ledger :
      (old new : Option ℕ) (states : ℕ → TaskState) (queues : ℕ → ch.State) (log : Log w)
      → ((u : ℕ) → Ledger w fifo (states u) (queues u) (log u))
      → (u : ℕ) → Ledger w fifo (states u) (retarget w old new queues u) (log u)
  unfolding retarget
  retarget-Ledger none new states queues log h u = h u
  retarget-Ledger (some t) new states queues log h u = elim (Bool-cases (aims_at w t new)) [
    | inl same ↦ rw (same, retarget) (h u)
    | inr other ↦
        rw (other, retarget)
          (update_all (λ v q. Ledger w fifo (states v) q (log v)) queues t (ch.drop_tx (queues t))
            (Ledger-closed w fifo (states t) (queues t) (log t) (h t)) h u)
  ]

  retarget-same :
      (old : Option ℕ) (queues : ℕ → ch.State) (u : ℕ) → retarget w old old queues u ≡ queues u
  unfolding retarget
  retarget-same none queues u = refl
  retarget-same (some t) queues u = ground arith

  dropped-shut :
      (t : ℕ) (queues : ℕ → ch.State) (u : ℕ)
      → (some t ≢ some u → is_open (queues u) ≡ false)
      → is_open (update queues t (ch.drop_tx (queues t)) u) ≡ false
  dropped-shut t queues u h = elim (Bool-cases (u == t)) [
    | inl same ↦ rw same (fifo.closes (queues t)).1
    | inr other ↦ rw other (h (λ e. (ground (arith, e, other))))
  ]

  retarget-shut :
      (old new : Option ℕ) (queues : ℕ → ch.State) (u : ℕ)
      → new ≢ some u
      → (old ≢ some u → is_open (queues u) ≡ false)
      → is_open (retarget w old new queues u) ≡ false
  unfolding retarget
  retarget-shut none new queues u away h = h (λ e. (cc))
  retarget-shut (some t) none queues u away h = dropped-shut t queues u h
  retarget-shut (some t) (some v) queues u away h = elim (Bool-cases (t == v)) [
    | inl same ↦ rw (same, retarget) (h (λ e. away (ap some (sym (eq_of_== t v same)) ∙ e)))
    | inr other ↦ rw (other, retarget) (dropped-shut t queues u h)
  ]

  -- A handler that opens no session.
  same_tasks-Sound :
      (s : Flow w) (sh : Shared nt Ws) (log : Log w)
      → sh.tasks ≡ s.shared.tasks
      → ((t : ℕ)
          → sh.audio.target ≡ some t
          → (is_open (retarget w s.shared.audio.target sh.audio.target s.queues t) ≡ true)
            × (t < sh.tasks))
      → IsSound w fifo s log
      → IsSound w fifo (on_handler w sh s) log
  unfolding on_handler
  same_tasks-Sound s sh log tasks tuned h =
      let none_new : ltb s.shared.tasks sh.tasks ≡ false = ground (arith, tasks) in
      rw (none_new, on_handler)
        (record {
          tuned = tuned;
          ahead = λ u late. h.ahead u (omega (arith, tasks, late));
          shut = λ u spawned away.
              retarget-shut s.shared.audio.target sh.audio.target s.queues u away
                (λ away_before. h.shut u (omega (arith, tasks, spawned)) away_before);
          ledger =
              retarget-Ledger s.shared.audio.target sh.audio.target s.tasks s.queues log h.ledger;
        })

  not_same : (n u : ℕ) → u ≢ n → (u == n) ≡ false
  not_same n u other = ground (arith, other)

  -- A handler that opens one.
  spawned-Sound :
      (s : Flow w) (sh : Shared nt Ws) (log : Log w)
      → sh.audio.target ≡ some s.shared.tasks
      → sh.tasks ≡ s.shared.tasks + 1
      → IsSound w fifo s log
      → IsSound w fifo (on_handler w sh s) log
  unfolding on_handler
  spawned-Sound s sh log aims tasks h =
      let new_task : ltb s.shared.tasks sh.tasks ≡ true = ground (arith, tasks) in
      let n = s.shared.tasks in
      let queues = retarget w s.shared.audio.target sh.audio.target s.queues in
      rw (new_task, on_handler)
        (record {
          tuned = λ u at.
              let here : u ≡ n = ground (arith, aims, at) in
              (ground (arith, here, fifo.fresh.1), omega (arith, here, tasks));
          ahead = λ u late. (
            ground (arith, late, tasks, (h.ahead u (omega (arith, late, tasks))).0),
            (h.ahead u (omega (arith, late, tasks))).1,
          );
          shut = λ u spawned away.
              let other : u ≢ n = λ e. away (aims ∙ ap some (sym e)) in
              rw (not_same n u other) (
                retarget-shut s.shared.audio.target sh.audio.target s.queues u away
                  (h.shut u (omega (arith, spawned, tasks, other))));
          ledger =
              update_both (λ u state q. Ledger w fifo state q (log u)) s.tasks queues n begun
                ch.channel (fifo.fresh.0 ∙ sym ((h.ahead n (omega arith)).1))
                (retarget-Ledger s.shared.audio.target sh.audio.target s.tasks s.queues log
                  h.ledger);
        })

  pub handler-Sound :
      (s : Flow w) (sh : Shared nt Ws) (log : Log w)
      → Retargets nt Ws to_string from_str s.shared sh
      → IsSound w fifo s log
      → IsSound w fifo (on_handler w sh s) log
  handler-Sound s sh log (kept target tasks) h =
      same_tasks-Sound s sh log tasks
        (λ t at.
          let (open_, spawned) = h.tuned t (sym target ∙ at) in
          (
            ap (λ (o : Option ℕ). is_open (retarget w s.shared.audio.target o s.queues t)) target
                ∙ ap is_open (retarget-same s.shared.audio.target s.queues t)
                ∙ open_,
            omega (arith, spawned, tasks),
          ))
        h
  handler-Sound s sh log (cleared target tasks) h =
      same_tasks-Sound s sh log tasks (λ t at. absurd (ground (arith, target, at))) h
  handler-Sound s sh log (aimed target tasks) h = spawned-Sound s sh log target tasks h
