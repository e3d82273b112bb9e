-- ===== src/Audio/Resampler/Times.antt =====
-- The value of a sampled signal at a time, counted in parts of 1 / out_rate of a sample: what a
-- resampler is to put out there.
use fcitx5_anytalk.Prelude.{
  ℕ, ◌+◌, ◌*◌, ◌/◌, ◌%◌, ◌≤◌, ◌<◌, ◌≡◌, refl, ap, List, ◌++◌, Option, none, some, ◌>>=◌, arith,
  length, get_elem?, drop,
}
use fcitx5_anytalk.Prelude.Quotients.{div-add_turns, mod-add_turns}
use fcitx5_anytalk.Prelude.Indices.{get_elem?-drop, get_elem?-append_left, get_elem?-none}
use fcitx5_anytalk.Prelude.Int.{ℤ, pos, negsuc}
use fcitx5_anytalk.Audio.Float.{Float}

module _ (fl : Float) where
  open fl use {Num, of_usize, of_i16, add, sub, mul, round, clamp, as_i16}

  -- Between two samples, at a fraction of the way: the straight line, rounded and clamped to an i16.
  abbrev pub blend : Num → ℤ → ℤ → ℤ
  blend frac s0 s1 = as_i16 (
      clamp (round (add (mul (of_i16 s0) (sub (of_usize 1) frac)) (mul (of_i16 s1) frac)))
        (of_i16 (negsuc 32767)) (of_i16 (pos 32767)))

  module _ (out_rate : ℕ) (frac : ℕ → Num) where
    -- At the tick `t`: `none` where one of the two samples around it is missing.
    abbrev pub value_at : List ℤ → ℕ → Option ℤ
    value_at xs t = get_elem? xs (t / out_rate) >>= λ s0.
        get_elem? xs (t / out_rate + 1) >>= λ s1. some (blend (frac (t % out_rate)) s0 s1)

    module _ (pos_out : 0 < out_rate) where
      -- Samples that are gone move the time.
      pub value_at-drop :
          (k : ℕ) (xs : List ℤ) (t : ℕ) → value_at (drop k xs) t ≡ value_at xs (t + k * out_rate)
      value_at-drop k xs t =
          rw
            (
              div-add_turns t k out_rate pos_out,
              mod-add_turns t k out_rate pos_out,
              get_elem?-drop k xs (t / out_rate),
              get_elem?-drop k xs (t / out_rate + 1),
            )
            (ap
              (λ (i : ℕ). get_elem? xs (t / out_rate + k) >>= λ s0.
                get_elem? xs i >>= λ s1. some (blend (frac (t % out_rate)) s0 s1))
              (omega arith))

      -- What is known at a time does not change when samples are added.
      pub value_at-append :
          (xs ys : List ℤ) (t : ℕ)
          → t / out_rate + 1 < length xs
          → value_at (xs ++ ys) t ≡ value_at xs t
      value_at-append xs ys t h =
          rw
            (
              get_elem?-append_left xs ys (t / out_rate) (omega arith),
              get_elem?-append_left xs ys (t / out_rate + 1) h,
            )
            refl

      pub value_at-none :
          (xs : List ℤ) (t : ℕ) → length xs ≤ t / out_rate + 1 → value_at xs t ≡ none
      value_at-none xs t h =
          rw (get_elem?-none xs (t / out_rate + 1) h) (bind-none (get_elem? xs (t / out_rate)))
        where
          bind-none : (o : Option ℤ) → (o >>= λ (s : ℤ). let r : Option ℤ = none in r) ≡ none
          bind-none none = refl
          bind-none (some s) = refl
