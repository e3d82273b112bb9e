-- ===== src/Audio/Fixed.antt =====
-- Numbers that count parts of a 16000th, with which the interface of the floats can be met.
use fcitx5_anytalk.Prelude.{true, ◌<◌, ℕ, ◌+◌, ◌-◌, ◌*◌, ◌/◌, ◌≤◌, ◌≡◌, refl, arith, if◌then◌else◌}
use fcitx5_anytalk.Prelude.Int.{ℤ, pos, negsuc, sub_ℕ, pos_part, neg_part, leb_ℤ}
use fcitx5_anytalk.Audio.Float.{Float, IsExact}

abbrev pub unit : ℕ
unit = 16000

-- The sign of the product, and its size in parts of a unit.
abbrev pub scaled : ℤ → ℤ → ℕ → ℕ → ℤ
scaled a b times by =
    sub_ℕ ((pos_part a * pos_part b + neg_part a * neg_part b) * times / by)
      ((pos_part a * neg_part b + neg_part a * pos_part b) * times / by)

abbrev pub minus : ℤ → ℤ → ℤ
minus a b = sub_ℕ (pos_part a + neg_part b) (neg_part a + pos_part b)

abbrev pub fixed_floor : ℤ → ℤ
fixed_floor a = pos (pos_part a / unit * unit)

abbrev pub fixed_round : ℤ → ℤ
fixed_round a = sub_ℕ ((pos_part a + 8000) / unit * unit) ((neg_part a + 8000) / unit * unit)

abbrev pub fixed : Float
fixed = record {
  Num = ℤ;
  of_usize = λ n. pos (n * unit);
  of_i16 = λ n. sub_ℕ (pos_part n * unit) (neg_part n * unit);
  add = λ a b. sub_ℕ (pos_part a + pos_part b) (neg_part a + neg_part b);
  sub = minus;
  mul = λ a b. scaled a b 1 unit;
  div = λ a b. pos (pos_part a * unit / pos_part b);
  floor = fixed_floor;
  round = fixed_round;
  clamp = λ x lo hi. if leb_ℤ x lo then lo else if leb_ℤ hi x then hi else x;
  as_usize = λ a. pos_part a / unit;
  as_i16 = λ a. sub_ℕ (pos_part a / unit) (neg_part a / unit);
}

floor_exact : (t : ℕ) → t / 16000 * 16000 / 16000 ≡ t / 16000
floor_exact t = omega arith

pub fixed_floor-ticks :
    (x : ℤ) → leb_ℤ (pos 0) x ≡ true → pos_part (fixed_floor x) / unit ≡ pos_part x / unit
fixed_floor-ticks x h = omega arith

pub step_exact :
    (x : ℤ) (n : ℕ)
    → leb_ℤ (pos 0) x ≡ true
    → let y = sub_ℕ (pos_part x + n) (neg_part x + 0) in
      (leb_ℤ (pos 0) y ≡ true) × (pos_part y ≡ pos_part x + n)
step_exact (pos m) n h = ground arith
step_exact (negsuc m) n h = ground (arith, h)

pub sub_exact :
    (x : ℤ) (k : ℕ)
    → leb_ℤ (pos 0) x ≡ true
    → k * 16000 ≤ pos_part x
    → let y = minus x (pos (k * 16000)) in
      (leb_ℤ (pos 0) y ≡ true) × (pos_part y ≡ pos_part x - k * 16000)
sub_exact (pos m) k h le = ground arith
sub_exact (negsuc m) k h le = ground (arith, h)

pub frac_exact :
    (x : ℤ) (k : ℕ)
    → leb_ℤ (pos 0) x ≡ true
    → k * 16000 ≤ pos_part x
    → pos_part x < k * 16000 + 16000
    → minus x (pos (k * 16000)) ≡ pos (pos_part x - k * 16000)
frac_exact (pos m) k h le lt = ground arith
frac_exact (negsuc m) k h le lt = ground (arith, h)

abbrev pub exact_48k : IsExact fixed 48000 16000
exact_48k = record {
  ticks = pos_part;
  is_position = λ x. leb_ℤ (pos 0) x;
  limit = 1000000000;
  at_zero = (refl, refl);
  floor_ticks = fixed_floor-ticks;
  step_ticks = λ x at fits. step_exact x 48000 at;
  sub_ticks = sub_exact;
  frac = pos;
  frac_ticks = frac_exact;
}

abbrev pub exact_96k : IsExact fixed 96000 16000
exact_96k = record {
  ticks = pos_part;
  is_position = λ x. leb_ℤ (pos 0) x;
  limit = 1000000000;
  at_zero = (refl, refl);
  floor_ticks = fixed_floor-ticks;
  step_ticks = λ x at fits. step_exact x 96000 at;
  sub_ticks = sub_exact;
  frac = pos;
  frac_ticks = frac_exact;
}
