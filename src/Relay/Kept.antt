-- ===== src/Relay/Kept.antt =====
-- Each step of the relay keeps the order of the messages of each task.
use fcitx5_anytalk.Prelude.{
  ℕ, ◌+◌, ◌≤◌, true, false, Bool-cases, ◌≡◌, ◌≢◌, inl, inr, refl, sym, ◌∙◌, ap, subst, Option, none,
  some, List, [], ◌∷◌, ◌++◌, map, append-nil, append_assoc, ◌==◌, ltb, arith,
}
use fcitx5_anytalk.Prelude.Families.{update, update_all}
use fcitx5_anytalk.Text.{Text, text}
use fcitx5_anytalk.Mpsc.{Mpsc, IsFifo}
use fcitx5_anytalk.Ipc.Msg.{ServerMsg}
use fcitx5_anytalk.Ipc.Client.{Event, response, Shared, Client, connect, step}
use fcitx5_anytalk.Ipc.Client.Retarget.{Retargets, kept, cleared, aimed}
use fcitx5_anytalk.Ipc.Client.Written.{step-Adds, Writes, step-Writes}
use fcitx5_anytalk.Ipc.Task.{task_messages}
use fcitx5_anytalk.Asr.Session.{Session, Outcome, goes_on, ended, panicked, opened}
use fcitx5_anytalk.Asr.Session
use fcitx5_anytalk.Asr.Session.Grows.{Grows, step-Grows}
use fcitx5_anytalk.Flow.{Setting}
use fcitx5_anytalk.Relay.{
  Work, unspawned, spawned, running, messages_of, Trace, only, Relay, after_first, on_move, line_of,
  came,
}
use fcitx5_anytalk.Relay.Within.{Within, Within-none, Within-more, Within-both}

-- What a task has put into the channel is a first part of all that it has to send. A task that has
-- panicked sends no more.
abbrev pub Rest : Work → List ServerMsg → Type 0
Rest unspawned said = (rest : List ServerMsg) × ([] ≡ said ++ rest)
Rest spawned said = (rest : List ServerMsg) × ([] ≡ said ++ rest)
Rest (running (inl e)) said =
    (rest : List ServerMsg) × (messages_of (running (inl e)) ≡ said ++ rest)
Rest (running (inr (goes_on s))) said = (rest : List ServerMsg) × (s.lines ≡ said ++ rest)
Rest (running (inr (ended s))) said =
    (rest : List ServerMsg) × (messages_of (running (inr (ended s))) ≡ said ++ rest)
Rest (running (inr panicked)) said = Unit {0}

pub Rest-messages :
    (work : Work) (said rest : List ServerMsg) → messages_of work ≡ said ++ rest → Rest work said
unfolding task_messages
Rest-messages unspawned said rest e = (rest, e)
Rest-messages spawned said rest e = (rest, e)
Rest-messages (running (inl m)) said rest e = (rest, e)
Rest-messages (running (inr (goes_on s))) said rest e = (rest, e)
Rest-messages (running (inr (ended s))) said rest e = (rest, e)
Rest-messages (running (inr panicked)) said rest e = tt

pub only-append :
    (t : ℕ) (xs ys : List (ℕ × ServerMsg)) → only t (xs ++ ys) ≡ only t xs ++ only t ys
only-append t [] ys = refl
only-append t ((u, m) ∷ xs) ys = elim (Bool-cases (u == t)) [
  | inl same ↦ rw same (ap (λ (r : List ServerMsg). m ∷ r) (only-append t xs ys))
  | inr other ↦ rw other (only-append t xs ys)
]

nothing_left : (said rest : List ServerMsg) → [] ≡ said ++ rest → said ≡ []
nothing_left [] rest e = refl
nothing_left (m ∷ said) rest e = absurd (ground (arith, e))

module _ (w : Setting) (lines : Mpsc Text) (fifo : IsFifo lines) where
  open w use {nt, Ws, to_string, from_str, serde, mode, req_json}
  open fifo use {unread}

  pub record IsRelayed (s : Relay w lines) (tr : Trace) : Type 0 where
    pub arrived : map (line_of w lines) tr.order ≡ tr.forwarded ++ unread s.queue
    pub each : (t : ℕ) → Rest (s.tasks t) (only t tr.order)
    pub fresh : (t : ℕ) → s.shared.tasks ≤ t → (s.tasks t ≡ unspawned) × (only t tr.order ≡ [])
    pub written : Within tr.forwarded s.client.written

  pub begun-Relayed :
      (sh : Shared nt Ws)
      → IsRelayed
          (record {
            shared = sh;
            client = connect nt Ws to_string from_str sh;
            queue = lines.channel;
            tasks = λ t. unspawned;
          })
          (record { order = []; forwarded = [] })
  begun-Relayed sh = record {
    arrived = sym (fifo.fresh.0);
    each = λ t. ([], refl);
    fresh = λ t late. (refl, refl);
    written = Within-none ((connect nt Ws to_string from_str sh).written);
  }

  -- A step of the handler.
  pub own_written :
      (s : Relay w lines) (tr : Trace) (event : Event Ws) (sh : Shared nt Ws) (c : Client nt Ws)
      → step nt Ws to_string from_str event s.shared s.client ≡ some (sh, c)
      → IsRelayed s tr
      → Within tr.forwarded c.written
  own_written s tr event sh c e h =
      let (new, more) = step-Adds nt Ws to_string from_str s.shared s.client event sh c e in
      subst (Within tr.forwarded) (sym more) (Within-more new h.written)

  same_tasks-Relayed :
      (s : Relay w lines) (tr : Trace) (sh : Shared nt Ws) (c : Client nt Ws)
      → sh.tasks ≡ s.shared.tasks
      → Within tr.forwarded c.written
      → IsRelayed s tr
      → IsRelayed (on_move w lines sh c s) tr
  unfolding on_move
  same_tasks-Relayed s tr sh c same within h =
      let none_new : ltb s.shared.tasks sh.tasks ≡ false = ground (arith, same) in
      rw (none_new, on_move)
        (record {
          arrived = h.arrived;
          each = h.each;
          fresh = λ t late. h.fresh t (omega (arith, same, late));
          written = within;
        })

  spawned-Relayed :
      (s : Relay w lines) (tr : Trace) (sh : Shared nt Ws) (c : Client nt Ws)
      → sh.tasks ≡ s.shared.tasks + 1
      → Within tr.forwarded c.written
      → IsRelayed s tr
      → IsRelayed (on_move w lines sh c s) tr
  unfolding on_move
  spawned-Relayed s tr sh c more within h =
      let new_task : ltb s.shared.tasks sh.tasks ≡ true = ground (arith, more) in
      let n = s.shared.tasks in
      rw (new_task, on_move)
        (record {
          arrived = h.arrived;
          each =
              update_all (λ t work. Rest work (only t tr.order)) s.tasks n spawned
                ([], sym ((h.fresh n (omega arith)).1) ∙ sym (append-nil (only n tr.order))) h.each;
          fresh = λ t late. (
            ground (arith, more, late, (h.fresh t (omega (arith, more, late))).0),
            (h.fresh t (omega (arith, more, late))).1,
          );
          written = within;
        })

  pub moved-Relayed :
      (s : Relay w lines) (tr : Trace) (sh : Shared nt Ws) (c : Client nt Ws)
      → Retargets nt Ws to_string from_str s.shared sh
      → Within tr.forwarded c.written
      → IsRelayed s tr
      → IsRelayed (on_move w lines sh c s) tr
  moved-Relayed s tr sh c (kept target same) within h = same_tasks-Relayed s tr sh c same within h
  moved-Relayed s tr sh c (cleared target same) within h =
      same_tasks-Relayed s tr sh c same within h
  moved-Relayed s tr sh c (aimed target more) within h = spawned-Relayed s tr sh c more within h

  -- A line that comes from the channel.
  came-Written :
      (s : Relay w lines) (tr : Trace) (r : Option Text) (sh : Shared nt Ws) (c : Client nt Ws)
      → Writes nt Ws to_string from_str s.shared s.client r (some (sh, c))
      → Within tr.forwarded s.client.written
      → (sh ≡ s.shared) × Within (tr.forwarded ++ came w lines r) c.written
  came-Written s tr none sh c (same, silent) h = (
    same,
    subst (λ (f : List Text). Within f c.written) (sym (append-nil tr.forwarded))
        (subst (Within tr.forwarded) (sym silent) h),
  )
  came-Written s tr (some l) sh c (same, more) h =
      (same, subst (Within (tr.forwarded ++ (l ∷ []))) (sym more) (Within-both (l ∷ []) h))

  came-arrived :
      (forwarded : List Text) (r : Option Text) (q q' : lines.State)
      → lines.recv q ≡ some (r, q')
      → forwarded ++ unread q ≡ (forwarded ++ came w lines r) ++ unread q'
  came-arrived forwarded none q q' e =
      let (empty, shut, empty', shut') = fifo.ends q q' e in
      ap (λ (r : List Text). forwarded ++ r) (empty ∙ sym empty')
      ∙ ap (λ (f : List Text). f ++ unread q') (sym (append-nil forwarded))
  came-arrived forwarded (some l) q q' e =
      ap (λ (r : List Text). forwarded ++ r) ((fifo.comes l q q' e).0)
      ∙ sym (append_assoc forwarded (l ∷ []) (unread q'))

  pub forwarded-Relayed :
      (s : Relay w lines) (tr : Trace) (r : Option Text) (q : lines.State) (sh : Shared nt Ws)
      (c : Client nt Ws)
      → lines.recv s.queue ≡ some (r, q)
      → step nt Ws to_string from_str (response r) s.shared s.client ≡ some (sh, c)
      → IsRelayed s tr
      → IsRelayed
          (record s { shared = sh; client = c; queue = q })
          (record tr { forwarded = tr.forwarded ++ came w lines r })
  forwarded-Relayed s tr r q sh c e went h =
      let (same, within) =
        came-Written s tr r sh c
          (step-Writes nt Ws to_string from_str s.shared s.client r sh c went) h.written in
      record {
        arrived = h.arrived ∙ came-arrived tr.forwarded r s.queue q e;
        each = h.each;
        fresh = λ t late. h.fresh t (subst (λ (x : Shared nt Ws). x.tasks ≤ t) same late);
        written = within;
      }

  -- A task whose state changes.
  task-Relayed :
      (s : Relay w lines) (tr : Trace) (t : ℕ) (work : Work)
      → s.tasks t ≢ unspawned
      → Rest work (only t tr.order)
      → IsRelayed s tr
      → IsRelayed (record s { tasks = update s.tasks t work }) tr
  task-Relayed s tr t work not_new rest h = record {
    arrived = h.arrived;
    each = update_all (λ u x. Rest x (only u tr.order)) s.tasks t work rest h.each;
    fresh = λ u late. (
      update_all (λ v x. s.shared.tasks ≤ v → x ≡ unspawned) s.tasks t work
          (λ late_t. absurd (not_new ((h.fresh t late_t).0))) (λ v late_v. (h.fresh v late_v).0) u
          late,
      (h.fresh u late).1,
    );
    written = h.written;
  }

  first-Rest :
      (e : Option Text) (said : List ServerMsg)
      → said ≡ []
      → Rest (running (after_first w lines e)) said
  unfolding after_first
  first-Rest none said none_yet = unfold opened in ([], sym (append-nil said ∙ none_yet))
  first-Rest (some e) said none_yet = (
    _,
    ap (λ (f : List ServerMsg). f ++ messages_of (running (inl (text "ws send error: " ++ e))))
        (sym none_yet),
  )

  pub begins-Relayed :
      (s : Relay w lines) (tr : Trace) (t : ℕ) (e : Option Text)
      → s.tasks t ≡ spawned
      → IsRelayed s tr
      → IsRelayed (record s { tasks = update s.tasks t (running (after_first w lines e)) }) tr
  begins-Relayed s tr t e at h =
      let (rest, none_yet) = subst (λ (x : Work). Rest x (only t tr.order)) at (h.each t) in
      task-Relayed s tr t (running (after_first w lines e))
        (λ late. absurd (ground (arith, at, late)))
        (first-Rest e (only t tr.order) (nothing_left (only t tr.order) rest none_yet)) h

  grown-Rest :
      (u : Session) (o : Outcome) (said : List ServerMsg)
      → u.lines ≡ said
      → Grows u.lines o
      → Rest (running (inr o)) said
  unfolding task_messages
  grown-Rest u (goes_on v) said e (more, grown) =
      (more, grown ∙ ap (λ (f : List ServerMsg). f ++ more) e)
  grown-Rest u (ended v) said e (more, grown) = (
    more ++ (ServerMsg.status (text "idle") ∷ []),
    ap (λ (f : List ServerMsg). f ++ (ServerMsg.status (text "idle") ∷ []))
          (grown ∙ ap (λ (f : List ServerMsg). f ++ more) e)
        ∙ append_assoc said more (ServerMsg.status (text "idle") ∷ []),
  )
  grown-Rest u panicked said e grown = tt

  running-lines :
      (work : Work) (u : Session) (said : List ServerMsg)
      → work ≡ running (inr (goes_on u))
      → messages_of work ≡ said
      → u.lines ≡ said
  unfolding task_messages
  running-lines work u said at all = sym (ap messages_of at) ∙ all

  pub works-Relayed :
      (s : Relay w lines) (tr : Trace) (t : ℕ) (u : Session) (event : Session.Event)
      → s.tasks t ≡ running (inr (goes_on u))
      → messages_of (s.tasks t) ≡ only t tr.order
      → IsRelayed s tr
      → IsRelayed
          (record s { tasks = update s.tasks t (running (inr (Session.step serde mode u event))) })
          tr
  works-Relayed s tr t u event at all h =
      task-Relayed s tr t (running (inr (Session.step serde mode u event)))
        (λ late. absurd (ground (arith, at, late)))
        (grown-Rest u (Session.step serde mode u event) (only t tr.order)
          (running-lines (s.tasks t) u (only t tr.order) at all) (step-Grows serde mode u event))
        h
