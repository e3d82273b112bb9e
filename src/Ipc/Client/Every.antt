-- ===== src/Ipc/Client/Every.antt =====
-- Any number of handlers at once, over one audio target, pool and set of tasks: their steps in any
-- order.
use fcitx5_anytalk.Prelude.{
  true, ℕ, ◌+◌, ◌≡◌, refl, Option, none, some, Option-cases, inl, inr, List, [], ◌∷◌, ◌++◌, arith,
  subst, ltb, if◌then◌else◌, All, All-append,
}
use fcitx5_anytalk.Text.{Text}
use fcitx5_anytalk.Ipc.Msg.{ClientMsg, ServerMsg}
use fcitx5_anytalk.Asr.Pool.{Notify, ConnectionPool}
use fcitx5_anytalk.Ipc.Client.{Event, Shared, Client, write, connect, step, run}
use fcitx5_anytalk.Ipc.Client.Reach.{IsIdle, Holds, step-Holds}
use fcitx5_anytalk.Ipc.Client.Retarget.{Newest, step-Retargets, Retargets-Newest}
use fcitx5_anytalk.Ipc.Client.Tasks.{occurs, count, left_behind, is_bare, Shares, Shares-Kept}

module _ (nt : Notify) (Ws : Type 0) (to_string : ServerMsg → Option Text)
    (from_str : Text → Option ClientMsg) where
  -- The states that are reached from an idle daemon: a client connects, a handler makes a step, or
  -- the pool changes. A handler that has returned makes no more steps.
  pub data EveryReaches : Shared nt Ws → List (Client nt Ws) → Type 0 where
    begun : (sh : Shared nt Ws) → IsIdle nt Ws sh → EveryReaches sh []
    accepted :
        (sh : Shared nt Ws) (cs : List (Client nt Ws))
        → EveryReaches sh cs
        → EveryReaches sh (connect nt Ws to_string from_str sh ∷ cs)
    moved :
        (sh sh' : Shared nt Ws) (before after : List (Client nt Ws)) (c c' : Client nt Ws)
        (event : Event Ws)
        → EveryReaches sh (before ++ (c ∷ after))
        → step nt Ws to_string from_str event sh c ≡ some (sh', c')
        → EveryReaches sh' (before ++ (c' ∷ after))
    pool_changed :
        (sh : Shared nt Ws) (cs : List (Client nt Ws)) (pool : ConnectionPool nt Ws)
        → EveryReaches sh cs
        → EveryReaches (record sh { pool = pool }) cs

  -- Several steps of one handler.
  pub run-EveryReaches :
      (events : List (Event Ws)) (sh sh' : Shared nt Ws) (before after : List (Client nt Ws))
      (c c' : Client nt Ws)
      → EveryReaches sh (before ++ (c ∷ after))
      → run nt Ws to_string from_str events sh c ≡ some (sh', c')
      → EveryReaches sh' (before ++ (c' ∷ after))
  unfolding run
  run-EveryReaches [] sh sh' before after c c' r e =
      let same : (sh, c) ≡ (sh', c') = ground (arith, e) in
      subst (λ (p : Shared nt Ws × Client nt Ws). EveryReaches (p.0) (before ++ (p.1 ∷ after))) same
        r
  run-EveryReaches (event ∷ events) sh sh' before after c c' r e =
      elim (Option-cases (step nt Ws to_string from_str event sh c)) [
        | inl stuck ↦ absurd (ground (arith, stuck, e))
        | inr ((sh1, c1), went) ↦
            run-EveryReaches events sh1 sh' before after c1 c'
              (moved sh sh1 before after c c1 event r went) (ground (arith, went, e))
      ]

  -- How often a task is the session or the draining task of a handler; one that has returned has
  -- neither.
  abbrev pub held : ℕ → List (Client nt Ws) → ℕ
  held t [] = 0
  held t (c ∷ cs) = occurs t c.session + occurs t c.draining_task + held t cs

  -- Between a start and the session that it opens, and after the return of the handler, there is
  -- neither a session nor a draining task.
  abbrev pub Bare : Client nt Ws → Type 0
  Bare c =
      is_bare nt Ws to_string from_str c.phase ≡ true
      → (c.session ≡ none) × (c.draining_task ≡ none)

  pub record EveryOwned (sh : Shared nt Ws) (cs : List (Client nt Ws)) : Type 0 where
    pub once :
        (t : ℕ)
        → held t cs + left_behind t sh.detached + count t sh.aborted
          ≡ (if ltb t sh.tasks then 1 else 0)
    pub bare : All Bare cs
    pub newest : Newest nt Ws to_string from_str sh

  held-append : (t : ℕ) (xs ys : List (Client nt Ws)) → held t (xs ++ ys) ≡ held t xs + held t ys
  held-append t [] ys = omega arith
  held-append t (c ∷ xs) ys = omega (arith, held-append t xs ys)

  split-Bare :
      (xs ys : List (Client nt Ws)) (c : Client nt Ws)
      → All Bare (xs ++ (c ∷ ys))
      → All Bare xs × Bare c × All Bare ys
  split-Bare [] ys c (h, rest) = (tt, h, rest)
  split-Bare (x ∷ xs) ys c (h, rest) =
      let (before, here, after) = split-Bare xs ys c rest in ((h, before), here, after)

  -- A handler among the others.
  Owned-Shares :
      (sh : Shared nt Ws) (xs ys : List (Client nt Ws)) (c : Client nt Ws)
      → EveryOwned sh (xs ++ (c ∷ ys))
      → Shares nt Ws to_string from_str (λ t. held t xs + held t ys) sh c
  Owned-Shares sh xs ys c h = record {
    once = λ t. omega (arith, h.once t, held-append t xs (c ∷ ys));
    bare = (split-Bare xs ys c h.bare).1;
  }

  Shares-Owned :
      (sh : Shared nt Ws) (xs ys : List (Client nt Ws)) (c : Client nt Ws)
      → All Bare xs
      → All Bare ys
      → Shares nt Ws to_string from_str (λ t. held t xs + held t ys) sh c
      → Newest nt Ws to_string from_str sh
      → EveryOwned sh (xs ++ (c ∷ ys))
  Shares-Owned sh xs ys c before after h newest = record {
    newest = newest;
    once = λ t. omega (arith, h.once t, held-append t xs (c ∷ ys));
    bare = All-append Bare xs (c ∷ ys) before (h.bare, after);
  }

  connect-Bare :
      (sh : Shared nt Ws)
      → let c = connect nt Ws to_string from_str sh in (c.session ≡ none) × (c.draining_task ≡ none)
  unfolding connect write
  connect-Bare sh = elim (Option-cases sh.pool.spare) [
    | inl empty ↦ ground (arith, empty)
    | inr (stream, full) ↦ ground (arith, full)
  ]

  -- In every state that any number of handlers reach together from an idle daemon, in whatever order
  -- they run and whatever the pool does, each session task spawned so far is exactly one of these: the
  -- current session of one handler, the draining task of one handler, a task that one handler left
  -- behind when it returned, which runs on unless it was over, and an aborted task. So no two handlers
  -- own the same task, a task that a handler owns has not been aborted, and as long as no handler has
  -- returned each task is owned or aborted. A handler that has returned owns none. The audio goes to
  -- the session opened last, or to none.
  pub EveryReaches-Owned :
      (sh : Shared nt Ws) (cs : List (Client nt Ws)) → EveryReaches sh cs → EveryOwned sh cs
  EveryReaches-Owned sh cs (begun _ idle) = record {
    once = λ t. ground (arith, idle.unspawned, idle.unaborted, idle.attached);
    bare = tt;
    newest = λ t at. absurd (ground (arith, idle.silent, at));
  }
  EveryReaches-Owned sh _ (accepted _ cs r) =
      let h = EveryReaches-Owned sh cs r in
      let (no_session, no_draining) = connect-Bare sh in
      record {
        once = λ t. ground (arith, no_session, no_draining, h.once t);
        bare = (λ e. (no_session, no_draining), h.bare);
        newest = h.newest;
      }
  EveryReaches-Owned sh' _ (moved sh _ before after c c' event r e) =
      let h = EveryReaches-Owned sh (before ++ (c ∷ after)) r in
      let others : ℕ → ℕ = λ t. held t before + held t after in
      let P = Shares nt Ws to_string from_str others in
      let (first, here, second) = split-Bare before after c h.bare in
      let next : P sh' c' = subst (Holds nt Ws to_string from_str P) e (
        step-Holds nt Ws to_string from_str P (Shares-Kept nt Ws to_string from_str others) event sh
          c c.phase refl (Owned-Shares sh before after c h)) in
      let newest =
        Retargets-Newest nt Ws to_string from_str sh sh'
          (step-Retargets nt Ws to_string from_str sh c event sh' c' e) h.newest in
      Shares-Owned sh' before after c' first second next newest
  EveryReaches-Owned _ cs (pool_changed sh _ pool r) =
      let h = EveryReaches-Owned sh cs r in
      record { once = h.once; bare = h.bare; newest = h.newest }
