-- ===== src/Audio/Resampler/Rates.antt =====
-- Input rates of four or more times the output rate: the resampler panics.
use fcitx5_anytalk.Prelude.{
  ◌≢◌, true, dec_lt, ℕ, ◌+◌, ◌-◌, ◌*◌, ◌/◌, ◌≤◌, ◌<◌, ◌≡◌, sym, ◌∙◌, List, [], ◌∷◌, arith, length,
}
use native.Mathlib.Nat.{mul_assoc, div-eq_of_eq-mul_left}
use fcitx5_anytalk.Prelude.Int.{ℤ}
use fcitx5_anytalk.Audio.Float.{Float, IsExact}
use fcitx5_anytalk.Audio.Resampler.{done, panicked, new, index, resample_loop, keep_tail, process}
use fcitx5_anytalk.Prelude.Quotients.{mul_mono}
use fcitx5_anytalk.Audio.Resampler.Rounds.{index-ticks, Stops, loop-Stops}

factor_lt : (a b k : ℕ) → b * k < a * k → b < a
factor_lt a b k h = elim (dec_lt b a) [
  | yes less ↦ less
  | no other ↦ absurd (omega (arith, mul_mono a b k (omega arith), h))
]

module _ (fl : Float) (in_rate out_rate : ℕ) (exact : IsExact fl in_rate out_rate)
    (pos_in : 0 < in_rate) (pos_out : 0 < out_rate) where
  open fl use {Num, of_usize, add, sub, div}
  open exact use {ticks, is_position, limit}

  index_eq : (x : Num) → is_position x ≡ true → index fl x ≡ ticks x / out_rate
  index_eq = index-ticks fl in_rate out_rate exact pos_in pos_out

  rounds-Stops :
      (fuel : ℕ) (merged : List ℤ) (x : Num) (acc : List ℤ)
      → is_position x ≡ true
      → length merged * out_rate + in_rate ≤ limit
      → length merged * out_rate - ticks x < fuel
      → Stops fl in_rate out_rate exact pos_in pos_out merged x acc
          (resample_loop fl fuel merged (div (of_usize in_rate) (of_usize out_rate)) x acc)
  rounds-Stops = loop-Stops fl in_rate out_rate exact pos_in pos_out

  -- Where the loop stops on an input of `k * m + 2` samples, at a rate of `k` times the output.
  far_stop :
      (k m n t added : ℕ)
      → 4 ≤ k
      → n ≡ m * k + 2
      → t ≡ added * (k * out_rate)
      → n ≤ t / out_rate + 1
      → n < t / out_rate - 1
  far_stop k m n t added four size ticks_eq past =
      let at : t / out_rate ≡ added * k =
        div-eq_of_eq-mul_left pos_out (ticks_eq ∙ sym (mul_assoc added k out_rate)) in
      let more : m < added = factor_lt added m k (omega arith) in
      omega (arith, at, mul_mono (m + 1) added k (omega arith))

  process_past :
      (fuel : ℕ) (s : ℤ) (rest out : List ℤ) (y : Num)
      → in_rate ≢ out_rate
      → resample_loop fl fuel
          (s ∷ rest)
          (div (of_usize in_rate) (of_usize out_rate))
          (of_usize 0)
          []
        ≡ done (out, y)
      → length (s ∷ rest) < index fl y - 1
      → process fl fuel (new fl in_rate out_rate) (s ∷ rest) ≡ panicked
  unfolding process keep_tail new
  process_past fuel s rest out y ne looped far = ground (arith, looped)

  -- At a rate of four or more times the output rate, as from 96 kHz to 16 kHz, on input for which
  -- positions are exact and with enough fuel, the first call
  -- panics on inputs whose number of samples is two more than a multiple of that ratio, as 512 is:
  -- the slice of the samples to keep begins past their end.
  pub process-new_panics :
      (fuel k m : ℕ) (input : List ℤ)
      → 4 ≤ k
      → in_rate ≡ k * out_rate
      → length input ≡ m * k + 2
      → length input * out_rate + in_rate ≤ limit
      → length input * out_rate < fuel
      → process fl fuel (new fl in_rate out_rate) input ≡ panicked
  process-new_panics fuel k m [] four ratio size fits enough = absurd (omega arith)
  process-new_panics fuel k m (s ∷ rest) four ratio size fits enough =
      let input = s ∷ rest in
      let loop =
        rounds-Stops fuel input (of_usize 0) [] exact.at_zero.0 fits (omega (arith, enough)) in
      let y = loop.end_at in
      let beyond =
        far_stop k m (length input) (ticks y) (length loop.added) four size
          (loop.rate ∙ rw (exact.at_zero.1, ratio) (omega arith))
          (rw (index_eq y loop.at) at loop.past) in
      process_past fuel s rest loop.added y (omega (arith, ratio, mul_mono 4 k out_rate four))
        loop.returned (rw (index_eq y loop.at) beyond)
