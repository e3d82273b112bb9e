-- ===== src/Relay/Order.antt =====
-- What a client gets from its tasks, in every state of the relay (anytalk-daemon/src/ipc.rs).
use fcitx5_anytalk.Prelude.{
  ℕ, ◌≤◌, false, Bool-cases, ◌≡◌, ◌≢◌, inl, inr, refl, sym, ◌∙◌, ap, subst, some, List, [], ◌∷◌,
  ◌++◌, map, map-append, append-nil, append_assoc, ◌==◌, arith,
}
use fcitx5_anytalk.Prelude.Families.{eq_of_==}
use fcitx5_anytalk.Text.{Text}
use fcitx5_anytalk.Mpsc.{Mpsc, IsFifo}
use fcitx5_anytalk.Ipc.Msg.{ServerMsg, serialize_msg}
use fcitx5_anytalk.Ipc.Client.Retarget.{step-Retargets}
use fcitx5_anytalk.Ipc.Task.{task_messages}
use fcitx5_anytalk.Asr.Session.{goes_on, ended, panicked}
use fcitx5_anytalk.Flow.{Setting}
use fcitx5_anytalk.Relay.{
  Work, unspawned, spawned, running, messages_of, Trace, only, Relay, line_of, RelayReaches, begun,
  moved, forwards, others, begins, works, sends,
}
use fcitx5_anytalk.Relay.Within.{Within}
use fcitx5_anytalk.Relay.Kept.{
  Rest, Rest-messages, only-append, IsRelayed, begun-Relayed, own_written, moved-Relayed,
  forwarded-Relayed, begins-Relayed, works-Relayed,
}

module _ (w : Setting) (lines : Mpsc Text) (fifo : IsFifo lines) where
  open w use {nt, Ws, to_string, from_str}
  open fifo use {unread}

  -- The messages of each task after one more has been sent.
  only-here :
      (t : ℕ) (m : ServerMsg) (order : List (ℕ × ServerMsg))
      → only t (order ++ ((t, m) ∷ [])) ≡ only t order ++ (m ∷ [])
  only-here t m order =
      only-append t order ((t, m) ∷ [])
      ∙ ap (λ (r : List ServerMsg). only t order ++ r) (ground arith)

  only-elsewhere :
      (u t : ℕ) (m : ServerMsg) (order : List (ℕ × ServerMsg))
      → (t == u) ≡ false
      → only u (order ++ ((t, m) ∷ [])) ≡ only u order
  only-elsewhere u t m order other =
      only-append u order ((t, m) ∷ [])
      ∙ ap (λ (r : List ServerMsg). only u order ++ r) (ground (arith, other))
      ∙ append-nil (only u order)

  sent-Rest :
      (s : Relay w lines) (order : List (ℕ × ServerMsg)) (t u : ℕ) (m : ServerMsg)
      (rest : List ServerMsg)
      → messages_of (s.tasks t) ≡ only t order ++ (m ∷ rest)
      → Rest (s.tasks u) (only u order)
      → Rest (s.tasks u) (only u (order ++ ((t, m) ∷ [])))
  sent-Rest s order t u m rest e h = elim (Bool-cases (t == u)) [
    | inr other ↦ subst (Rest (s.tasks u)) (sym (only-elsewhere u t m order other)) h
    | inl same ↦
        subst (λ (v : ℕ). Rest (s.tasks v) (only v (order ++ ((t, m) ∷ [])))) (eq_of_== t u same)
          (subst (Rest (s.tasks t)) (sym (only-here t m order)) (
            Rest-messages (s.tasks t) (only t order ++ (m ∷ [])) rest
              (e ∙ sym (append_assoc (only t order) (m ∷ []) rest))))
  ]

  no_message : (said rest : List ServerMsg) (m : ServerMsg) → [] ≢ said ++ (m ∷ rest)
  no_message [] rest m e = absurd (ground (arith, e))
  no_message (x ∷ said) rest m e = absurd (ground (arith, e))

  sends-Relayed :
      (s : Relay w lines) (tr : Trace) (t : ℕ) (m : ServerMsg) (rest : List ServerMsg)
      (q : lines.State)
      → messages_of (s.tasks t) ≡ only t tr.order ++ (m ∷ rest)
      → lines.try_send (serialize_msg to_string m) s.queue ≡ some q
      → IsRelayed w lines fifo s tr
      → IsRelayed w lines fifo
          (record s { queue = q })
          (record tr { order = tr.order ++ ((t, m) ∷ []) })
  sends-Relayed s tr t m rest q e went h =
      let l = serialize_msg to_string m in
      record {
        arrived =
            map-append (line_of w lines) tr.order ((t, m) ∷ [])
            ∙ ap (λ (r : List Text). r ++ (l ∷ [])) h.arrived
            ∙ append_assoc tr.forwarded (unread s.queue) (l ∷ [])
            ∙ ap (λ (r : List Text). tr.forwarded ++ r) (sym ((fifo.sends l s.queue q went).0));
        each = λ u. sent-Rest s tr.order t u m rest e (h.each u);
        fresh = λ u late. (
          (h.fresh u late).0,
          elim (Bool-cases (t == u)) [
            | inr other ↦ only-elsewhere u t m tr.order other ∙ (h.fresh u late).1
            | inl same ↦
                let new : s.tasks t ≡ unspawned =
                  (h.fresh t
                    (subst (λ (v : ℕ). s.shared.tasks ≤ v) (sym (eq_of_== t u same)) late)).0 in
                absurd (no_message (only t tr.order) rest m (sym (ap messages_of new) ∙ e))
          ],
        );
        written = h.written;
      }

  pub RelayReaches-Relayed :
      {s : Relay w lines} {tr : Trace} → RelayReaches w lines s tr → IsRelayed w lines fifo s tr
  RelayReaches-Relayed (begun sh) = begun-Relayed w lines fifo sh
  RelayReaches-Relayed (moved s tr event sh c before own e) =
      let h = RelayReaches-Relayed before in
      moved-Relayed w lines fifo s tr sh c
        (step-Retargets nt Ws to_string from_str s.shared s.client event sh c e)
        (own_written w lines fifo s tr event sh c e h) h
  RelayReaches-Relayed (forwards s tr r q sh c before e went) =
      forwarded-Relayed w lines fifo s tr r q sh c e went (RelayReaches-Relayed before)
  RelayReaches-Relayed (others s tr sh before more) =
      let h = RelayReaches-Relayed before in
      record {
        arrived = h.arrived;
        each = h.each;
        fresh = λ t late. h.fresh t (omega (arith, more, late));
        written = h.written;
      }
  RelayReaches-Relayed (begins s tr t e before at) =
      begins-Relayed w lines fifo s tr t e at (RelayReaches-Relayed before)
  RelayReaches-Relayed (works s tr t u event before at all) =
      works-Relayed w lines fifo s tr t u event at all (RelayReaches-Relayed before)
  RelayReaches-Relayed (sends s tr t m rest q before e went) =
      sends-Relayed s tr t m rest q e went (RelayReaches-Relayed before)

  pub Rest-of :
      (work : Work) (said : List ServerMsg)
      → work ≢ running (inr panicked)
      → Rest work said
      → (rest : List ServerMsg) × (messages_of work ≡ said ++ rest)
  unfolding task_messages
  Rest-of unspawned said alive h = h
  Rest-of spawned said alive h = h
  Rest-of (running (inl e)) said alive h = h
  Rest-of (running (inr (goes_on s))) said alive h = h
  Rest-of (running (inr (ended s))) said alive h = h
  Rest-of (running (inr panicked)) said alive h = absurd (alive refl)

  -- In every state that a client, its handler and its tasks reach, in whatever order they run, and
  -- whatever other clients change: the lines that have come out of the channel of the handler stand
  -- in what the handler has written, in their order; they and those that wait in the channel are the
  -- lines that the tasks have sent, in the order of sending; and what a task that has not panicked
  -- has sent is a first part of its messages, none of them left out or sent twice.
  pub relay-Ordered :
      (s : Relay w lines) (tr : Trace) (t : ℕ)
      → RelayReaches w lines s tr
      → s.tasks t ≢ running (inr panicked)
      → Within tr.forwarded s.client.written
        × (map (line_of w lines) tr.order ≡ tr.forwarded ++ unread s.queue)
        × (rest : List ServerMsg) × (messages_of (s.tasks t) ≡ only t tr.order ++ rest)
  relay-Ordered s tr t reached alive =
      let h = RelayReaches-Relayed reached in
      let (rest, e) = Rest-of (s.tasks t) (only t tr.order) alive (h.each t) in
      (h.written, h.arrived, rest, e)
