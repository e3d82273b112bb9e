-- ===== src/Asr/Pool/Tests.antt =====
-- Concrete runs of the pool.
use fcitx5_anytalk.Prelude.{
  Bool, true, false, ℕ, ◌≡◌, refl, Option, none, some, List, [], ◌∷◌, ◌++◌, replicate, arith,
}
use fcitx5_anytalk.Prelude.Results.{ok, err}
use fcitx5_anytalk.Text.{text}
use fcitx5_anytalk.Asr.Pool.{
  Notify, IsNotify, checking, new, take_spare, maintain, PoolEvent, taken, maintained, pool_step,
  pool_run,
}
use fcitx5_anytalk.Asr.Pool.Refill.{pool_run-refills}
use fcitx5_anytalk.Asr.Pool.Handed.{kept_list, all_made, all_given, pool_run-balance}

-- One permit, kept or not.
abbrev pub permit : Bool → Option Bool
permit true = some false
permit false = none

abbrev pub one_permit : Notify
one_permit = record { State = Bool; fresh = false; notify_one = λ n. true; notified = permit }

abbrev pub one_permit-Notify : IsNotify one_permit
one_permit-Notify = record { kept = λ n e. ground (arith, e) }

-- A failed dial, a connection, a client that takes it, and one that finds none.
abbrev busy : List (PoolEvent one_permit ℕ)
busy =
    maintained (err (text "refused"))
    ∷ maintained (err (text "refused"))
    ∷ maintained (ok 1)
    ∷ maintained (ok 1)
    ∷ maintained (ok 7)
    ∷ taken
    ∷ taken
    ∷ []

busy_spare : (pool_run one_permit ℕ busy (checking, new one_permit ℕ)).1.spare ≡ none
unfolding pool_run pool_step maintain take_spare new
busy_spare = refl

pool_run-refills_example :
    (pool_run one_permit ℕ
      (replicate 4 (maintained (ok 8)))
      (pool_run one_permit ℕ busy (checking, new one_permit ℕ))).1.spare
    ≡ some 8
pool_run-refills_example = pool_run-refills one_permit ℕ one_permit-Notify busy 8 busy_spare

pool_run-balance_example :
    all_made one_permit ℕ one_permit-Notify busy (checking, new one_permit ℕ)
    ≡ all_given one_permit ℕ one_permit-Notify busy (checking, new one_permit ℕ)
      ++ kept_list ((pool_run one_permit ℕ busy (checking, new one_permit ℕ)).1.spare)
pool_run-balance_example = pool_run-balance one_permit ℕ one_permit-Notify busy

busy_made : all_made one_permit ℕ one_permit-Notify busy (checking, new one_permit ℕ) ≡ 7 ∷ []
unfolding pool_step maintain take_spare new
busy_made = refl
