-- ===== src/Relay/Passes.antt =====
-- The handler of a client passes on all that waits in its channel (anytalk-daemon/src/ipc.rs).
use fcitx5_anytalk.Prelude.{
  ℕ, zero, suc, ◌≡◌, inl, inr, refl, sym, ◌∙◌, subst, Option, none, some, Option-cases, List, [],
  ◌∷◌, ◌++◌, map, length, append-nil, append_assoc, arith,
}
use fcitx5_anytalk.Text.{Text}
use fcitx5_anytalk.Mpsc.{Mpsc, IsFifo}
use fcitx5_anytalk.Ipc.Client.{selecting, response, Shared, Client, on_response, step}
use fcitx5_anytalk.Flow.{Setting}
use fcitx5_anytalk.Relay.{Trace, Relay, line_of, RelayReaches}
use fcitx5_anytalk.Relay.Within.{Within, Within-both}
use fcitx5_anytalk.Relay.Order.{RelayReaches-Relayed}

module _ (w : Setting) (lines : Mpsc Text) (fifo : IsFifo lines) where
  open w use {nt, Ws, to_string, from_str}
  open fifo use {unread}

  -- The response branch of the handler taken some times in a row.
  unfoldable pub pass_on :
      ℕ → Shared nt Ws → Client nt Ws → lines.State → Option (Client nt Ws × lines.State)
  pass_on zero sh c q = some (c, q)
  pass_on (suc n) sh c q = elim (lines.recv q) [
    | none ↦ none
    | some (r, q') ↦ elim (step nt Ws to_string from_str (response r) sh c) [
      | none ↦ none
      | some (sh', c') ↦ pass_on n sh' c' q'
    ]
  ]

  -- All the lines that wait are written.
  abbrev Passed : List Text → Shared nt Ws → Client nt Ws → lines.State → Type 0
  Passed rest sh c q =
      (c' : Client nt Ws) × (q' : lines.State) × (pass_on (length rest) sh c q ≡ some (c', q'))
      × (c'.written ≡ c.written ++ rest)
      × (unread q' ≡ [])

  step-line :
      (l : Text) (sh : Shared nt Ws) (c : Client nt Ws)
      → c.phase ≡ selecting
      → step nt Ws to_string from_str (response (some l)) sh c
        ≡ some (sh, record c { written = c.written ++ (l ∷ []) })
  unfolding step on_response
  step-line l sh c at = ground (arith, at)

  passes_one :
      (l : Text) (rest : List Text) (sh : Shared nt Ws) (c : Client nt Ws) (q q' : lines.State)
      → c.phase ≡ selecting
      → lines.recv q ≡ some (some l, q')
      → Passed rest sh (record c { written = c.written ++ (l ∷ []) }) q'
      → Passed (l ∷ rest) sh c q
  unfolding pass_on
  passes_one l rest sh c q q' at came (c1, q1, ran, written, empty) = (
    c1,
    q1,
    rw (came, pass_on) (rw (step-line l sh c at, pass_on) ran),
    written ∙ append_assoc c.written (l ∷ []) rest,
    empty,
  )

  passes :
      (rest : List Text) (sh : Shared nt Ws) (c : Client nt Ws) (q : lines.State)
      → unread q ≡ rest
      → c.phase ≡ selecting
      → Passed rest sh c q
  unfolding pass_on
  passes [] sh c q front at = (c, q, refl, sym (append-nil c.written), front)
  passes (x ∷ rest) sh c q front at = elim (Option-cases (lines.recv q)) [
    | inl waiting ↦ absurd (ground (arith, front, (fifo.waits q waiting).1))
    | inr ((none, q'), came) ↦ absurd (ground (arith, front, (fifo.ends q q' came).0))
    | inr ((some l, q'), came) ↦
        let split : x ∷ rest ≡ l ∷ unread q' = sym front ∙ (fifo.comes l q q' came).0 in
        let same : x ≡ l = ground (arith, split) in
        let others : unread q' ≡ rest = ground (arith, split) in
        subst (λ (y : Text). Passed (y ∷ rest) sh c q) (sym same)
          (passes_one l rest sh c q q' at came
            (passes rest sh (record c { written = c.written ++ (l ∷ []) }) q' others at))
  ]

  -- In every state of the relay in which the handler is at its select!, taking its response branch as
  -- often as there are lines in the channel succeeds, leaves the channel empty, and after that all
  -- lines that the tasks have sent stand in what the handler has written, in the order of sending.
  pub relay-passes :
      (s : Relay w lines) (tr : Trace)
      → RelayReaches w lines s tr
      → s.client.phase ≡ selecting
      → (c : Client nt Ws) × (q : lines.State) × (pass_on
            (length (unread s.queue))
            s.shared
            s.client
            s.queue
          ≡ some (c, q))
        × Within (map (line_of w lines) tr.order) c.written
        × (unread q ≡ [])
  relay-passes s tr reached at =
      let h = RelayReaches-Relayed w lines fifo reached in
      let (c, q, ran, written, empty) = passes (unread s.queue) s.shared s.client s.queue refl at in
      (
        c,
        q,
        ran,
        subst (λ (sent : List Text). Within sent c.written) (sym h.arrived)
            (subst (Within (tr.forwarded ++ unread s.queue)) (sym written)
              (Within-both (unread s.queue) h.written)),
        empty,
      )
