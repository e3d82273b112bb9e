-- ===== src/Audio/Float.antt =====
-- The operations on f64 and f32 that audio.rs uses, as an interface that the model takes as a
-- parameter, and what the resampler relies on where they are exact.
use fcitx5_anytalk.Prelude.{Bool, true, ◌<◌, ℕ, ◌+◌, ◌-◌, ◌*◌, ◌/◌, ◌≤◌, ◌≡◌}
use fcitx5_anytalk.Prelude.Int.{ℤ}

pub record Float : Type 1 where
  pub Num : Type 0
  pub of_usize : ℕ → Num  -- `n as f64`
  pub of_i16 : ℤ → Num  -- `n as f64`
  pub add : Num → Num → Num
  pub sub : Num → Num → Num
  pub mul : Num → Num → Num
  pub div : Num → Num → Num
  pub floor : Num → Num
  pub round : Num → Num
  pub clamp : Num → Num → Num → Num  -- `x.clamp(lo, hi)`
  pub as_usize : Num → ℕ  -- `x as usize`
  pub as_i16 : Num → ℤ  -- `x as i16`

-- Positions are measured in parts of 1 / out_rate of a sample. Where the quotient of the rates is a
-- binary fraction, as it is from 8, 24, 32, 48 or 96 kHz to 16 kHz, the positions of the resampler
-- are f64 values with few binary places, on which sums, differences and `floor` are exact up to a
-- limit. The laws state that.
pub record IsExact (fl : Float) (in_rate out_rate : ℕ) : Type 0 where
  pub ticks : fl.Num → ℕ
  pub is_position : fl.Num → Bool
  pub limit : ℕ
  pub at_zero : (is_position (fl.of_usize 0) ≡ true) × (ticks (fl.of_usize 0) ≡ 0)
  pub floor_ticks :
      (x : fl.Num) → is_position x ≡ true → fl.as_usize (fl.floor x) ≡ ticks x / out_rate
  pub step_ticks :
      (x : fl.Num)
      → is_position x ≡ true
      → ticks x + in_rate < limit
      → let y = fl.add x (fl.div (fl.of_usize in_rate) (fl.of_usize out_rate)) in
        (is_position y ≡ true) × (ticks y ≡ ticks x + in_rate)
  pub sub_ticks :
      (x : fl.Num) (k : ℕ)
      → is_position x ≡ true
      → k * out_rate ≤ ticks x
      → let y = fl.sub x (fl.of_usize k) in
        (is_position y ≡ true) × (ticks y ≡ ticks x - k * out_rate)
  pub frac : ℕ → fl.Num  -- the part of a sample that so many ticks are
  pub frac_ticks :
      (x : fl.Num) (k : ℕ)
      → is_position x ≡ true
      → k * out_rate ≤ ticks x
      → ticks x < k * out_rate + out_rate
      → fl.sub x (fl.of_usize k) ≡ frac (ticks x - k * out_rate)
