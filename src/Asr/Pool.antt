-- ===== src/Asr/Pool.antt =====
-- ConnectionPool of anytalk-daemon/src/asr.rs: the spare connection, the operation that takes it, and
-- the task that fills it again, as steps from one await to the next. `Notify` of tokio is a
-- parameter.
pub mod Refill
pub mod Handed
mod Tests
use fcitx5_anytalk.Prelude.{Bool, ℕ, zero, suc, ◌≡◌, ◌≢◌, Option, none, some, List, [], ◌∷◌}
use fcitx5_anytalk.Prelude.Results.{Result, ok, err}
use fcitx5_anytalk.Text.{Text}

-- A `Notify` with its operations: what is left of it after `notified().await` went through, or
-- `none` where that waits.
pub record Notify : Type 1 where
  pub State : Type 0
  pub fresh : State
  pub notify_one : State → State
  pub notified : State → Option State

-- A `notify_one` with no task waiting is kept for the next `notified().await`.
pub record IsNotify (nt : Notify) : Type 0 where
  pub kept : (n : nt.State) → nt.notified (nt.notify_one n) ≢ none

-- Where the maintainer stands: before the check, in `connect_to_asr`, in the pause of 3 s after an
-- error, before `notified`, in the pause of 100 ms.
pub data Maintainer : Type 0 where
  checking : Maintainer
  connecting : Maintainer
  retrying : Maintainer
  waiting : Maintainer
  pausing : Maintainer

module _ (nt : Notify) (Ws : Type 0) where
  pub record ConnectionPool : Type 0 where
    pub spare : Option Ws
    pub notify_consumed : nt.State

  unfoldable pub new : ConnectionPool
  new = record { spare = none; notify_consumed = nt.fresh }

  -- `take` holds the lock to its end, so it is one step.
  unfoldable pub take_spare : ConnectionPool → Option Ws × ConnectionPool
  take_spare pool = elim pool.spare [
    | none ↦ (none, pool)
    | some stream ↦
        (some stream, record { spare = none; notify_consumed = nt.notify_one pool.notify_consumed })
  ]

  -- One step of `run_maintainer`, with the answer that a call of `connect_to_asr` would give. The
  -- step that waits leaves all as it is.
  unfoldable pub maintain :
      Result Text Ws → Maintainer → ConnectionPool → Maintainer × ConnectionPool
  maintain dialed checking pool = elim pool.spare [
    | none ↦ (connecting, pool)
    | some stream ↦ (waiting, pool)
  ]
  maintain (ok stream) connecting pool = (waiting, record pool { spare = some stream })
  maintain (err e) connecting pool = (retrying, pool)
  maintain dialed retrying pool = (checking, pool)
  maintain dialed waiting pool = elim (nt.notified pool.notify_consumed) [
    | none ↦ (waiting, pool)
    | some n ↦ (pausing, record pool { notify_consumed = n })
  ]
  maintain dialed pausing pool = (checking, pool)

  -- What happens to a pool: a client takes, or the maintainer goes on.
  pub data PoolEvent : Type 0 where
    taken : PoolEvent
    maintained : Result Text Ws → PoolEvent

  unfoldable pub pool_step : PoolEvent → Maintainer × ConnectionPool → Maintainer × ConnectionPool
  pool_step taken (m, pool) = (m, (take_spare pool).1)
  pool_step (maintained dialed) (m, pool) = maintain dialed m pool

  unfoldable pub pool_run :
      List PoolEvent → Maintainer × ConnectionPool → Maintainer × ConnectionPool
  pool_run [] s = s
  pool_run (e ∷ events) s = pool_run events (pool_step e s)
