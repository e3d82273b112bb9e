-- ===== src/Plugin/Manager/Stopping.antt =====
-- What `stop` does to the process: which signals it sends, and how long it waits.
use fcitx5_anytalk.Prelude.{
  ℕ, zero, suc, ◌+◌, ◌*◌, ◌≤◌, Bool, true, false, Bool-cases, inl, inr, ◌≡◌, refl, ap, none, some,
  List, [], ◌∷◌, ◌++◌, if◌then◌else◌, arith,
}
use fcitx5_anytalk.Plugin.Manager.{
  ProcessAction, exec, kill, wait_no_hang, wait, sleep, sigterm, sigkill, await_end, stop,
}

-- The signals sent, without the questions whether the process exists.
abbrev pub signals : List ProcessAction → List (ℕ × ℕ)
signals [] = []
signals (exec path env ∷ actions) = signals actions
signals (kill p zero ∷ actions) = signals actions
signals (kill p (suc s) ∷ actions) = (p, suc s) ∷ signals actions
signals (wait_no_hang p ∷ actions) = signals actions
signals (wait p ∷ actions) = signals actions
signals (sleep ms ∷ actions) = signals actions

-- The time slept, in milliseconds.
abbrev pub slept : List ProcessAction → ℕ
slept [] = 0
slept (exec path env ∷ actions) = slept actions
slept (kill p s ∷ actions) = slept actions
slept (wait_no_hang p ∷ actions) = slept actions
slept (wait p ∷ actions) = slept actions
slept (sleep ms ∷ actions) = ms + slept actions

signals-await_end :
    (p : ℕ) (ended : ℕ → Bool) (rounds k : ℕ) (rest : List ProcessAction)
    → signals (await_end p ended rounds k ++ rest) ≡ signals rest
unfolding await_end
signals-await_end p ended zero k rest = refl
signals-await_end p ended (suc rounds) k rest = elim (Bool-cases (ended k)) [
  | inl over ↦ rw (over, await_end) refl
  | inr on ↦ rw (on, await_end) (signals-await_end p ended rounds (k + 1) rest)
]

-- The waits before the first attempt that finds the process ended, at most all the rounds.
abbrev pub waits : (ℕ → Bool) → ℕ → ℕ → ℕ
waits ended zero k = 0
waits ended (suc rounds) k =
    let later = waits ended rounds (k + 1) in if ended k then 0 else suc later

waits-le : (ended : ℕ → Bool) (rounds k : ℕ) → waits ended rounds k ≤ rounds
waits-le ended zero k = omega arith
waits-le ended (suc rounds) k = ground (arith, waits-le ended rounds (k + 1))

slept-await_end :
    (p : ℕ) (ended : ℕ → Bool) (rounds k : ℕ) (rest : List ProcessAction)
    → slept (await_end p ended rounds k ++ rest) ≡ 100 * waits ended rounds k + slept rest
unfolding await_end
slept-await_end p ended zero k rest = omega arith
slept-await_end p ended (suc rounds) k rest = elim (Bool-cases (ended k)) [
  | inl over ↦ rw (over, await_end) (omega arith)
  | inr on ↦ rw (on, await_end) (omega (arith, slept-await_end p ended rounds (k + 1) rest))
]

-- A stop forgets the process. One that exists gets SIGTERM, and SIGKILL after it exactly if it is
-- still there after the waits; each wait is 100 ms, they end with the first question that finds the
-- process ended, and they take a second at most. One that does not exist gets no signal.
stop-Stopped :
    (ended : ℕ → Bool) (still : Bool) (p : ℕ)
    → let there = stop true ended still (some p) in
      let gone = stop false ended still (some p) in
      (there.0 ≡ none)
      × (signals (there.1) ≡ (p, sigterm) ∷ (if still then (p, sigkill) ∷ [] else []))
      × (slept (there.1) ≡ 100 * waits ended 10 0)
      × (slept (there.1) ≤ 1000)
      × (gone.0 ≡ none)
      × (signals (gone.1) ≡ [])
unfolding stop
stop-Stopped ended true p =
    let end = kill p 0 ∷ kill p sigkill ∷ wait p ∷ [] in
    let time = slept-await_end p ended 10 0 end in
    (
      refl,
      ap (λ (s : List (ℕ × ℕ)). (p, sigterm) ∷ s) (signals-await_end p ended 10 0 end),
      omega (arith, time),
      omega (arith, time, waits-le ended 10 0),
      refl,
      refl,
    )
stop-Stopped ended false p =
    let end = kill p 0 ∷ [] in
    let time = slept-await_end p ended 10 0 end in
    (
      refl,
      ap (λ (s : List (ℕ × ℕ)). (p, sigterm) ∷ s) (signals-await_end p ended 10 0 end),
      omega (arith, time),
      omega (arith, time, waits-le ended 10 0),
      refl,
      refl,
    )
