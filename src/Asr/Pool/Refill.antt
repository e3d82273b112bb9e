-- ===== src/Asr/Pool/Refill.antt =====
-- The maintainer fills the spare connection again, and no connection is lost or handed out twice.
use fcitx5_anytalk.Prelude.{
  ℕ, zero, suc, ◌≡◌, ◌≢◌, refl, inl, inr, Option, none, some, Option-cases, List, [], ◌∷◌,
  replicate, arith,
}
use fcitx5_anytalk.Prelude.Results.{Result, ok, err}
use fcitx5_anytalk.Text.{Text}
use fcitx5_anytalk.Asr.Pool.{
  Notify, IsNotify, Maintainer, checking, connecting, retrying, waiting, pausing, ConnectionPool,
  new, take_spare, maintain, PoolEvent, taken, maintained, pool_step, pool_run,
}

module _ (nt : Notify) (Ws : Type 0) (law : IsNotify nt) where
  -- A maintainer that dials has no spare, and one that waits has a spare or will be woken.
  abbrev pub IsAwake : Maintainer → ConnectionPool nt Ws → Type 0
  IsAwake checking pool = Unit
  IsAwake connecting pool = pool.spare ≡ none
  IsAwake retrying pool = pool.spare ≡ none
  IsAwake waiting pool = pool.spare ≡ none → nt.notified pool.notify_consumed ≢ none
  IsAwake pausing pool = Unit

  none_ne_some : {A : Type 0} (a : A) → some a ≢ none
  none_ne_some a e = ground (arith, e)

  pub taken-Awake :
      (m : Maintainer) (spare : Option Ws) (n : nt.State)
      → IsAwake m (record { spare = spare; notify_consumed = n })
      → IsAwake m ((take_spare nt Ws (record { spare = spare; notify_consumed = n })).1)
  unfolding take_spare
  taken-Awake m none n h = h
  taken-Awake checking (some stream) n h = tt
  taken-Awake connecting (some stream) n h = refl
  taken-Awake retrying (some stream) n h = refl
  taken-Awake waiting (some stream) n h = λ e. law.kept n
  taken-Awake pausing (some stream) n h = tt

  checked-Awake :
      (dialed : Result Text Ws) (spare : Option Ws) (n : nt.State)
      → let next = maintain nt Ws dialed checking (record { spare = spare; notify_consumed = n }) in
        IsAwake (next.0) (next.1)
  unfolding maintain
  checked-Awake dialed none n = refl
  checked-Awake dialed (some stream) n = λ e. absurd (none_ne_some stream e)

  woken-Awake :
      (dialed : Result Text Ws) (pool : ConnectionPool nt Ws) (o : Option nt.State)
      → nt.notified pool.notify_consumed ≡ o
      → IsAwake waiting pool
      → let next = maintain nt Ws dialed waiting pool in IsAwake (next.0) (next.1)
  unfolding maintain
  woken-Awake dialed pool none e h = rw (e, IsAwake, maintain) h
  woken-Awake dialed pool (some n) e h = rw (e, IsAwake, maintain) tt

  pub step-Awake :
      (e : PoolEvent nt Ws) (m : Maintainer) (pool : ConnectionPool nt Ws)
      → IsAwake m pool
      → let next = pool_step nt Ws e (m, pool) in IsAwake (next.0) (next.1)
  unfolding pool_step
  step-Awake taken m pool h = taken-Awake m pool.spare pool.notify_consumed h
  step-Awake (maintained dialed) checking pool h =
      checked-Awake dialed pool.spare pool.notify_consumed
  step-Awake (maintained (ok stream)) connecting pool h =
      unfold maintain in λ e. absurd (none_ne_some stream e)
  step-Awake (maintained (err e)) connecting pool h = unfold maintain in h
  step-Awake (maintained dialed) retrying pool h = unfold maintain in tt
  step-Awake (maintained dialed) waiting pool h =
      woken-Awake dialed pool (nt.notified pool.notify_consumed) refl h
  step-Awake (maintained dialed) pausing pool h = unfold maintain in tt

  pub run-Awake :
      (events : List (PoolEvent nt Ws)) (m : Maintainer) (pool : ConnectionPool nt Ws)
      → IsAwake m pool
      → let next = pool_run nt Ws events (m, pool) in IsAwake (next.0) (next.1)
  unfolding pool_run
  run-Awake [] m pool h = h
  run-Awake (e ∷ events) m pool h =
      let next = pool_step nt Ws e (m, pool) in
      run-Awake events (next.0) (next.1) (step-Awake e m pool h)

  maintain-keeps :
      (stream : Ws) (m : Maintainer) (pool : ConnectionPool nt Ws)
      → pool.spare ≡ some stream
      → (maintain nt Ws (ok stream) m pool).1.spare ≡ some stream
  unfolding maintain
  maintain-keeps stream checking pool full = ground (arith, full)
  maintain-keeps stream connecting pool full = refl
  maintain-keeps stream retrying pool full = full
  maintain-keeps stream waiting pool full = elim (Option-cases (nt.notified pool.notify_consumed)) [
    | inl asleep ↦ ground (arith, asleep, full)
    | inr (n, awake) ↦ ground (arith, awake, full)
  ]
  maintain-keeps stream pausing pool full = full

  run-keeps :
      (k : ℕ) (stream : Ws) (m : Maintainer) (pool : ConnectionPool nt Ws)
      → pool.spare ≡ some stream
      → (pool_run nt Ws (replicate k (maintained (ok stream))) (m, pool)).1.spare ≡ some stream
  unfolding pool_run pool_step
  run-keeps zero stream m pool full = full
  run-keeps (suc k) stream m pool full =
      let next = maintain nt Ws (ok stream) m pool in
      run-keeps k stream (next.0) (next.1) (maintain-keeps stream m pool full)

  step_runs :
      (k : ℕ) (stream : Ws) (m m' : Maintainer) (pool pool' : ConnectionPool nt Ws)
      → maintain nt Ws (ok stream) m pool ≡ (m', pool')
      → (pool_run nt Ws (replicate k (maintained (ok stream))) (m', pool')).1.spare ≡ some stream
      → (pool_run nt Ws (replicate (suc k) (maintained (ok stream))) (m, pool)).1.spare
        ≡ some stream
  unfolding pool_run pool_step
  step_runs k stream m m' pool pool' e h = ground (arith, e, h)

  connecting-fills :
      (k : ℕ) (stream : Ws) (pool : ConnectionPool nt Ws)
      → (pool_run nt Ws (replicate (suc k) (maintained (ok stream))) (connecting, pool)).1.spare
        ≡ some stream
  connecting-fills k stream pool =
      step_runs k stream connecting waiting pool (record pool { spare = some stream })
        (unfold maintain in refl) (run-keeps k stream waiting _ refl)

  checking-fills :
      (k : ℕ) (stream : Ws) (pool : ConnectionPool nt Ws)
      → pool.spare ≡ none
      → (pool_run nt Ws (replicate (suc (suc k)) (maintained (ok stream))) (checking, pool)).1.spare
        ≡ some stream
  checking-fills k stream pool empty =
      step_runs (suc k) stream checking connecting pool pool
        (unfold maintain in ground (arith, empty)) (connecting-fills k stream pool)

  awake-fills :
      (stream : Ws) (m : Maintainer) (pool : ConnectionPool nt Ws)
      → IsAwake m pool
      → pool.spare ≡ none
      → (pool_run nt Ws (replicate 4 (maintained (ok stream))) (m, pool)).1.spare ≡ some stream
  awake-fills stream checking pool h empty = checking-fills 2 stream pool empty
  awake-fills stream connecting pool h empty = connecting-fills 3 stream pool
  awake-fills stream retrying pool h empty =
      step_runs 3 stream retrying checking pool pool (unfold maintain in refl)
        (checking-fills 1 stream pool empty)
  awake-fills stream waiting pool h empty = elim (Option-cases (nt.notified pool.notify_consumed)) [
    | inl asleep ↦ absurd (h empty asleep)
    | inr (n, awake) ↦
        step_runs 3 stream waiting pausing pool (record pool { notify_consumed = n })
          (unfold maintain in ground (arith, awake))
          (step_runs 2 stream pausing checking (record pool { notify_consumed = n })
            (record pool { notify_consumed = n }) (unfold maintain in refl)
            (checking-fills 0 stream _ empty))
  ]
  awake-fills stream pausing pool h empty =
      step_runs 3 stream pausing checking pool pool (unfold maintain in refl)
        (checking-fills 1 stream pool empty)

  -- Whatever clients took and however the dials of the maintainer ended since the start, if there is
  -- no spare connection and dialing now succeeds, four steps of the maintainer are enough for a
  -- spare: a wake-up is never lost.
  pub pool_run-refills :
      (events : List (PoolEvent nt Ws)) (stream : Ws)
      → let s = pool_run nt Ws events (checking, new nt Ws) in
        s.1.spare ≡ none
        → (pool_run nt Ws (replicate 4 (maintained (ok stream))) s).1.spare ≡ some stream
  pool_run-refills events stream empty =
      let s = pool_run nt Ws events (checking, new nt Ws) in
      awake-fills stream (s.0) (s.1) (run-Awake events checking (new nt Ws) tt) empty
