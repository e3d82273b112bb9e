-- ===== src/Relay/Idle.antt =====
-- A client hears that a session is idle after all else that the session's task has to say
-- (anytalk-daemon/src/ipc.rs).
use fcitx5_anytalk.Prelude.{
  ℕ, Bool, true, false, Bool-cases, ◌≡◌, ◌≢◌, inl, inr, refl, sym, ◌∙◌, ap, subst, Option, none,
  some, List, [], ◌∷◌, ◌++◌, append-nil, append_assoc, All, ltb, if◌then◌else◌, arith,
}
use fcitx5_anytalk.Prelude.Families.{update_all}
use fcitx5_anytalk.Text.{Text, text}
use fcitx5_anytalk.Mpsc.{Mpsc, IsFifo}
use fcitx5_anytalk.Ipc.Msg.{ServerMsg}
use fcitx5_anytalk.Ipc.Client.{Shared, Client}
use fcitx5_anytalk.Ipc.Task.{task_messages}
use fcitx5_anytalk.Ipc.Task.Idle.{IsAnswer, Answers, step-Answers}
use fcitx5_anytalk.Asr.Session.{Session, Outcome, goes_on, ended, panicked, opened, message}
use fcitx5_anytalk.Asr.Session
use fcitx5_anytalk.Flow.{Setting}
use fcitx5_anytalk.Relay.{
  Work, unspawned, spawned, running, messages_of, Trace, only, Relay, after_first, on_move,
  RelayReaches, begun, moved, forwards, others, begins, works, sends,
}
use fcitx5_anytalk.Relay.Order.{relay-Ordered}

-- The status that ends what a task has to say.
abbrev idle : ServerMsg
idle = ServerMsg.status (text "idle")

abbrev ending : Bool → List ServerMsg
ending last = if last then idle ∷ [] else []

-- The lines of the session of a task are no status messages.
abbrev Talks : Work → Type 0
Talks unspawned = Unit {0}
Talks spawned = Unit {0}
Talks (running (inl e)) = Unit {0}
Talks (running (inr o)) = Answers o

-- What a task has to say: answers, and then the status if it is at its end.
abbrev Shape : List ServerMsg → Type 0
Shape messages =
    (answers : List ServerMsg) × (last : Bool) × (messages ≡ answers ++ ending last)
    × All IsAnswer answers

Talks-Shape : (work : Work) → work ≢ running (inr panicked) → Talks work → Shape (messages_of work)
unfolding task_messages
Talks-Shape unspawned alive h = ([], false, refl, tt)
Talks-Shape spawned alive h = ([], false, refl, tt)
Talks-Shape (running (inl e)) alive h = (ServerMsg.error e ∷ [], true, refl, (tt, tt))
Talks-Shape (running (inr (goes_on s))) alive h = (s.lines, false, sym (append-nil s.lines), h)
Talks-Shape (running (inr (ended s))) alive h = (s.lines, true, refl, h)
Talks-Shape (running (inr panicked)) alive h = absurd (alive refl)

no_status : (a : ServerMsg) (state : Text) → IsAnswer a → a ≢ ServerMsg.status state
no_status (ServerMsg.status s) state h e = absurd h
no_status (ServerMsg.partial t) state h e = absurd (ground (arith, e))
no_status (ServerMsg.final t) state h e = absurd (ground (arith, e))
no_status (ServerMsg.error t) state h e = absurd (ground (arith, e))

head_eq : {a b : ServerMsg} {xs ys : List ServerMsg} → a ∷ xs ≡ b ∷ ys → a ≡ b
head_eq e = ground (arith, e)

tail_eq : {a b : ServerMsg} {xs ys : List ServerMsg} → a ∷ xs ≡ b ∷ ys → xs ≡ ys
tail_eq e = ground (arith, e)

-- A status among such messages is the last one.
status_last :
    (answers : List ServerMsg) (last : Bool) (front tail : List ServerMsg)
    → All IsAnswer answers
    → answers ++ ending last ≡ front ++ (idle ∷ tail)
    → (front ≡ answers) × (tail ≡ [])
status_last [] true [] tail h e = (refl, sym (tail_eq e))
status_last [] true (y ∷ []) tail h e = absurd (ground (arith, e))
status_last [] true (y ∷ (z ∷ front)) tail h e = absurd (ground (arith, e))
status_last [] false [] tail h e = absurd (ground (arith, e))
status_last [] false (y ∷ front) tail h e = absurd (ground (arith, e))
status_last (a ∷ answers) last [] tail (here, h) e =
    absurd (no_status a (text "idle") here (head_eq e))
status_last (a ∷ answers) last (y ∷ front) tail (here, h) e =
    let (same, none_left) = status_last answers last front tail h (tail_eq e) in
    (
      ap (λ (r : List ServerMsg). y ∷ r) same
          ∙ ap (λ (x : ServerMsg). x ∷ answers) (sym (head_eq e)),
      none_left,
    )

nothing_after : (back rest : List ServerMsg) → back ++ rest ≡ [] → (back ≡ []) × (rest ≡ [])
nothing_after [] rest e = (refl, e)
nothing_after (b ∷ back) rest e = absurd (ground (arith, e))

module _ (w : Setting) (lines : Mpsc Text) where
  open w use {nt, Ws, serde, mode}

  move-Talks :
      (s : Relay w lines) (sh : Shared nt Ws) (c : Client nt Ws)
      → ((t : ℕ) → Talks (s.tasks t))
      → (t : ℕ) → Talks ((on_move w lines sh c s).tasks t)
  unfolding on_move
  move-Talks s sh c h t = elim (Bool-cases (ltb s.shared.tasks sh.tasks)) [
    | inl more ↦
        rw (more, on_move) (update_all (λ u x. Talks x) s.tasks s.shared.tasks spawned tt h t)
    | inr same ↦ rw (same, on_move) (h t)
  ]

  first-Talks : (e : Option Text) → Talks (running (after_first w lines e))
  unfolding after_first
  first-Talks none = unfold opened in tt
  first-Talks (some e) = tt

  RelayReaches-Talks :
      {s : Relay w lines} {tr : Trace} → RelayReaches w lines s tr → (t : ℕ) → Talks (s.tasks t)
  RelayReaches-Talks (begun sh) t = tt
  RelayReaches-Talks (moved s tr event sh c before own e) t =
      move-Talks s sh c (RelayReaches-Talks before) t
  RelayReaches-Talks (forwards s tr r q sh c before e went) t = RelayReaches-Talks before t
  RelayReaches-Talks (others s tr sh before more) t = RelayReaches-Talks before t
  RelayReaches-Talks (begins s tr u e before at) t =
      update_all (λ v x. Talks x) s.tasks u (running (after_first w lines e)) (first-Talks e)
        (RelayReaches-Talks before) t
  RelayReaches-Talks (works s tr u session event before at all) t =
      update_all (λ v x. Talks x) s.tasks u (running (inr (Session.step serde mode session event)))
        (step-Answers serde mode session event (subst Talks at (RelayReaches-Talks before u)))
        (RelayReaches-Talks before) t
  RelayReaches-Talks (sends s tr u m rest q before e went) t = RelayReaches-Talks before t

  -- In every state of the relay, if a task that has not panicked has sent the status `idle`, that is
  -- the last of all the messages it has to send, all of them have been sent before it, and none of
  -- those is a status.
  pub relay-idle :
      (s : Relay w lines) (tr : Trace) (t : ℕ) (front back : List ServerMsg)
      → IsFifo lines
      → RelayReaches w lines s tr
      → s.tasks t ≢ running (inr panicked)
      → only t tr.order ≡ front ++ (ServerMsg.status (text "idle") ∷ back)
      → (back ≡ []) × (messages_of (s.tasks t) ≡ only t tr.order) × All IsAnswer front
  relay-idle s tr t front back fifo reached alive sent =
      let (within, arrived, rest, e) = relay-Ordered w lines fifo s tr t reached alive in
      let (answers, last, shape, at) =
        Talks-Shape (s.tasks t) alive (RelayReaches-Talks reached t) in
      let whole : answers ++ ending last ≡ front ++ (idle ∷ (back ++ rest)) =
        sym shape
        ∙ e
        ∙ ap (λ (r : List ServerMsg). r ++ rest) sent
        ∙ append_assoc front (idle ∷ back) rest in
      let (same, over) = status_last answers last front (back ++ rest) at whole in
      let (no_back, no_rest) = nothing_after back rest over in
      (
        no_back,
        e
            ∙ ap (λ (r : List ServerMsg). only t tr.order ++ r) no_rest
            ∙ append-nil (only t tr.order),
        subst (All IsAnswer) (sym same) at,
      )
