-- ===== src/Asr/Pool/Handed.antt =====
-- Each connection that the maintainer makes is handed out at most once, in order.
use fcitx5_anytalk.Prelude.{
  ◌≡◌, refl, sym, ◌∙◌, ap, Option, none, some, List, [], ◌∷◌, ◌++◌, append_assoc, append-nil, arith,
}
use fcitx5_anytalk.Prelude.Results.{Result, ok, err}
use fcitx5_anytalk.Text.{Text}
use fcitx5_anytalk.Asr.Pool.{
  Notify, IsNotify, Maintainer, checking, connecting, retrying, waiting, pausing, ConnectionPool,
  new, take_spare, maintain, PoolEvent, taken, maintained, pool_step, pool_run,
}
use fcitx5_anytalk.Asr.Pool.Refill.{IsAwake, step-Awake}

abbrev pub kept_list {ℓ} : {A : Type ℓ} → Option A → List A
kept_list none = []
kept_list (some a) = a ∷ []

abbrev pub ok_list {ℓ κ} : {E : Type ℓ} {A : Type κ} → Result E A → List A
ok_list (ok a) = a ∷ []
ok_list (err e) = []

module _ (nt : Notify) (Ws : Type 0) (law : IsNotify nt) where
  -- The connection that an event makes, and the one that it gives to a client.
  abbrev pub made : PoolEvent nt Ws → Maintainer → List Ws
  made taken m = []
  made (maintained dialed) checking = []
  made (maintained dialed) connecting = ok_list dialed
  made (maintained dialed) retrying = []
  made (maintained dialed) waiting = []
  made (maintained dialed) pausing = []

  abbrev pub given : PoolEvent nt Ws → ConnectionPool nt Ws → List Ws
  given taken pool = kept_list ((take_spare nt Ws pool).0)
  given (maintained dialed) pool = []

  abbrev pub all_made : List (PoolEvent nt Ws) → Maintainer × ConnectionPool nt Ws → List Ws
  all_made [] s = []
  all_made (e ∷ events) s = made e s.0 ++ all_made events (pool_step nt Ws e s)

  abbrev pub all_given : List (PoolEvent nt Ws) → Maintainer × ConnectionPool nt Ws → List Ws
  all_given [] s = []
  all_given (e ∷ events) s = given e s.1 ++ all_given events (pool_step nt Ws e s)

  taken_balance :
      (spare : Option Ws) (n : nt.State)
      → let pool : ConnectionPool nt Ws = record { spare = spare; notify_consumed = n } in
        kept_list spare ++ []
        ≡ kept_list ((take_spare nt Ws pool).0) ++ kept_list ((take_spare nt Ws pool).1.spare)
  unfolding take_spare
  taken_balance none n = refl
  taken_balance (some stream) n = refl

  checked_spare :
      (dialed : Result Text Ws) (spare : Option Ws) (n : nt.State)
      → (maintain nt Ws dialed checking (record { spare = spare; notify_consumed = n })).1.spare
        ≡ spare
  unfolding maintain
  checked_spare dialed none n = refl
  checked_spare dialed (some stream) n = refl

  woken_spare :
      (dialed : Result Text Ws) (pool : ConnectionPool nt Ws) (o : Option nt.State)
      → nt.notified pool.notify_consumed ≡ o
      → (maintain nt Ws dialed waiting pool).1.spare ≡ pool.spare
  unfolding maintain
  woken_spare dialed pool none e = ground (arith, e)
  woken_spare dialed pool (some n) e = ground (arith, e)

  step_balance :
      (e : PoolEvent nt Ws) (m : Maintainer) (pool : ConnectionPool nt Ws)
      → IsAwake nt Ws law m pool
      → kept_list pool.spare ++ made e m
        ≡ given e pool ++ kept_list ((pool_step nt Ws e (m, pool)).1.spare)
  unfolding pool_step
  step_balance taken m pool h = taken_balance pool.spare pool.notify_consumed
  step_balance (maintained (ok stream)) connecting pool h = unfold maintain in rw h refl
  step_balance (maintained (err e)) connecting pool h =
      unfold maintain in append-nil (kept_list pool.spare)
  step_balance (maintained dialed) checking pool h =
      append-nil (kept_list pool.spare)
      ∙ ap kept_list (sym (checked_spare dialed pool.spare pool.notify_consumed))
  step_balance (maintained dialed) retrying pool h =
      unfold maintain in append-nil (kept_list pool.spare)
  step_balance (maintained dialed) waiting pool h =
      append-nil (kept_list pool.spare) ∙ ap kept_list (sym (woken_spare dialed pool _ refl))
  step_balance (maintained dialed) pausing pool h =
      unfold maintain in append-nil (kept_list pool.spare)

  run_balance :
      (events : List (PoolEvent nt Ws)) (m : Maintainer) (pool : ConnectionPool nt Ws)
      → IsAwake nt Ws law m pool
      → kept_list pool.spare ++ all_made events (m, pool)
        ≡ all_given events (m, pool) ++ kept_list ((pool_run nt Ws events (m, pool)).1.spare)
  unfolding pool_run
  run_balance [] m pool h = append-nil (kept_list pool.spare)
  run_balance (e ∷ events) m pool h =
      let next = pool_step nt Ws e (m, pool) in
      let later = run_balance events (next.0) (next.1) (step-Awake nt Ws law e m pool h) in
      sym (append_assoc (kept_list pool.spare) (made e m) (all_made events next))
      ∙ ap (λ t. t ++ all_made events next) (step_balance e m pool h)
      ∙ append_assoc (given e pool) _ _
      ∙ ap (λ t. given e pool ++ t) later
      ∙ sym (append_assoc (given e pool) _ _)

  -- In every run from the start, the connections that the maintainer made are those that clients were
  -- given, in order, and after them the spare if there is one: none is dropped, and none is given
  -- twice.
  pub pool_run-balance :
      (events : List (PoolEvent nt Ws))
      → let start : Maintainer × ConnectionPool nt Ws = (checking, new nt Ws) in
        all_made events start
        ≡ all_given events start ++ kept_list ((pool_run nt Ws events start).1.spare)
  pool_run-balance events = unfold new in run_balance events checking (new nt Ws) tt
