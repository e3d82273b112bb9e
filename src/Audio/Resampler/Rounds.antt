-- ===== src/Audio/Resampler/Rounds.antt =====
-- The loop of the resampler: it ends where the samples do, and counts time exactly, where positions
-- are exact.
use fcitx5_anytalk.Prelude.{
  ap, sym, ◌%◌, Option, true, ℕ, zero, suc, ◌+◌, ◌-◌, ◌*◌, ◌/◌, ◌≤◌, ◌<◌, ◌≡◌, refl, ◌∙◌, ◌⊎◌, inl,
  inr, List, [], ◌∷◌, ◌++◌, some, arith, length, get_elem?, append_assoc, append-nil, leb,
  Bool-cases,
}
use native.Mathlib.Nat.{mod-eq-sub-div-mul}
use fcitx5_anytalk.Prelude.Indices.{get_elem?-some}
use fcitx5_anytalk.Audio.Resampler.Times.{blend, value_at}
use fcitx5_anytalk.Prelude.Quotients.{div_mul_le, lt_div_mul, mul_mono}
use fcitx5_anytalk.Prelude.Int.{ℤ}
use fcitx5_anytalk.Audio.Float.{Float, IsExact}
use fcitx5_anytalk.Audio.Resampler.{Outcome, done, index, interpolate, resample_loop}

-- A position before the last of `n` samples.
before_last : (t n d : ℕ) → 0 < d → t / d + 1 < n → t + d < n * d
before_last t n d h le = omega (arith, lt_div_mul t d h, mul_mono (t / d + 2) n d (omega arith))

module _ (fl : Float) (in_rate out_rate : ℕ) (exact : IsExact fl in_rate out_rate)
    (pos_in : 0 < in_rate) (pos_out : 0 < out_rate) where
  open fl use {Num, of_usize, add, sub, div}
  open exact use {ticks, is_position, limit}

  abbrev pub rate_step : Num
  rate_step = div (of_usize in_rate) (of_usize out_rate)

  abbrev pub value : List ℤ → ℕ → Option ℤ
  value = value_at fl out_rate exact.frac

  pub index-ticks : (x : Num) → is_position x ≡ true → index fl x ≡ ticks x / out_rate
  unfolding index
  index-ticks x at = exact.floor_ticks x at

  -- What the loop returns: the samples put out, and where it stops.
  pub record Stops (merged : List ℤ) (x : Num) (acc : List ℤ) (o : Outcome (List ℤ × Num))
      : Type 0 where
    pub added : List ℤ
    pub end_at : Num
    pub at : is_position end_at ≡ true
    pub returned : o ≡ done (acc ++ added, end_at)
    pub rate : ticks end_at ≡ ticks x + length added * in_rate
    pub past : length merged ≤ index fl end_at + 1
    pub near :
        (ticks end_at ≡ ticks x) ⊎ (ticks end_at + out_rate < length merged * out_rate + in_rate)
    pub values :
        (j : ℕ) → j < length added → get_elem? added j ≡ value merged (ticks x + j * in_rate)

  -- The part of a sample between a position and the sample before it.
  sub-frac :
      (x : Num)
      → is_position x ≡ true
      → sub x (of_usize (ticks x / out_rate)) ≡ exact.frac (ticks x % out_rate)
  sub-frac x at =
      exact.frac_ticks x (ticks x / out_rate) at (div_mul_le (ticks x) out_rate)
        (lt_div_mul (ticks x) out_rate pos_out)
      ∙ ap exact.frac (sym (mod-eq-sub-div-mul (ticks x) out_rate))

  value-interpolate :
      (merged : List ℤ) (x : Num) (s0 s1 : ℤ)
      → is_position x ≡ true
      → get_elem? merged (index fl x) ≡ some s0
      → get_elem? merged (index fl x + 1) ≡ some s1
      → value merged (ticks x) ≡ some (interpolate fl x (index fl x) s0 s1)
  unfolding interpolate
  value-interpolate merged x s0 s1 at at0 at1 =
      let here : get_elem? merged (ticks x / out_rate) ≡ some s0 = rw (← index-ticks x at) at0 in
      let next : get_elem? merged (ticks x / out_rate + 1) ≡ some s1 =
        rw (← index-ticks x at) at1 in
      rw (index-ticks x at, here, next)
        (ap (λ (f : Num). some (blend fl f s0 s1)) (sym (sub-frac x at)))

  loop_step :
      (fuel : ℕ) (merged : List ℤ) (x : Num) (acc : List ℤ)
      → is_position x ≡ true
      → index fl x + 1 < length merged
      → (s : ℤ) × (resample_loop fl (suc fuel) merged rate_step x acc
          ≡ resample_loop fl fuel merged rate_step (add x rate_step) (acc ++ (s ∷ [])))
        × (value merged (ticks x) ≡ some s)
  loop_step fuel merged x acc at h =
      let (s0, at0) = get_elem?-some merged (index fl x) (omega arith) in
      let (s1, at1) = get_elem?-some merged (index fl x + 1) h in
      (
        interpolate fl x (index fl x) s0 s1,
        unfold resample_loop in ground (arith, at0, at1),
        value-interpolate merged x s0 s1 at at0 at1,
      )

  loop_stop :
      (fuel : ℕ) (merged : List ℤ) (x : Num) (acc : List ℤ)
      → length merged ≤ index fl x + 1
      → resample_loop fl (suc fuel) merged rate_step x acc ≡ done (acc, x)
  unfolding resample_loop
  loop_stop fuel merged x acc h = ground arith

  later_values :
      (merged : List ℤ) (t t' : ℕ) (s : ℤ) (added : List ℤ)
      → value merged t ≡ some s
      → t' ≡ t + in_rate
      → ((j : ℕ) → j < length added → get_elem? added j ≡ value merged (t' + j * in_rate))
      → (j : ℕ) → j < length (s ∷ added)
      → get_elem? (s ∷ added) j ≡ value merged (t + j * in_rate)
  later_values merged t t' s added first moved rest zero less =
      sym first ∙ ap (value merged) (omega arith)
  later_values merged t t' s added first moved rest (suc j) less =
      rest j (omega arith) ∙ ap (value merged) (grind (arith, moved))

  step-Stops :
      (fuel : ℕ) (merged : List ℤ) (x : Num) (acc : List ℤ) (s : ℤ)
      → resample_loop fl (suc fuel) merged rate_step x acc
        ≡ resample_loop fl fuel merged rate_step (add x rate_step) (acc ++ (s ∷ []))
      → ticks (add x rate_step) ≡ ticks x + in_rate
      → ticks x + out_rate < length merged * out_rate
      → value merged (ticks x) ≡ some s
      → Stops merged
          (add x rate_step)
          (acc ++ (s ∷ []))
          (resample_loop fl fuel merged rate_step (add x rate_step) (acc ++ (s ∷ [])))
      → Stops merged x acc (resample_loop fl (suc fuel) merged rate_step x acc)
  step-Stops fuel merged x acc s stepped moved before first r = record {
    added = s ∷ r.added;
    end_at = r.end_at;
    at = r.at;
    returned = stepped ∙ r.returned ∙ rw append_assoc;
    rate = omega (arith, r.rate, moved);
    past = r.past;
    near = elim r.near [
      | inl same ↦ inr (omega (arith, same, moved, before))
      | inr close ↦ inr close
    ];
    values = λ j less.
        later_values merged (ticks x) (ticks (add x rate_step)) s r.added first moved r.values j
          less;
  }

  pub loop-Stops :
      (fuel : ℕ) (merged : List ℤ) (x : Num) (acc : List ℤ)
      → is_position x ≡ true
      → length merged * out_rate + in_rate ≤ limit
      → length merged * out_rate - ticks x < fuel
      → Stops merged x acc (resample_loop fl fuel merged rate_step x acc)
  loop-Stops zero merged x acc at fits h = absurd (omega arith)
  loop-Stops (suc fuel) merged x acc at fits h =
      elim (Bool-cases (leb (length merged) (index fl x + 1))) [
        | inl stop ↦ record {
          added = [];
          end_at = x;
          at = at;
          returned = loop_stop fuel merged x acc (ground (arith, stop)) ∙ rw append-nil;
          rate = omega arith;
          past = ground (arith, stop);
          near = inl refl;
          values = λ j less. absurd (omega arith);
        }
        | inr go ↦
            let inside : index fl x + 1 < length merged = ground (arith, go) in
            let before =
              before_last (ticks x) (length merged) out_rate pos_out
                (rw (index-ticks x at) at inside) in
            let (at', moved) = exact.step_ticks x at (omega (arith, before)) in
            let (s, stepped, first) = loop_step fuel merged x acc at inside in
            step-Stops fuel merged x acc s stepped moved before first (
              loop-Stops fuel merged (add x rate_step) (acc ++ (s ∷ [])) at' fits
                (omega (arith, moved, before)))
      ]
