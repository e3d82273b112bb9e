-- ===== src/Prelude/Quotients.antt =====
-- Bounds of a quotient of native numbers.
use Prim.Native.Nat.{ℕ, zero, suc, ◌%◌, ◌+◌, ◌*◌, ◌/◌, ◌≤◌, ◌<◌}
use mathlib.Core.Path.{◌≡◌, ap}
use native.Mathlib.Omega.{arith}
use native.Mathlib.Nat.{div-add-mod, le-div_iff_mul-le, mod-eq-sub-div-mul}
use native.Mathlib.Decide.{dec_lt}

pub div_mul_le : (t d : ℕ) → t / d * d ≤ t
div_mul_le t d = grind (arith, div-add-mod t d)

pub lt_div_mul : (t d : ℕ) → 0 < d → t < t / d * d + d
lt_div_mul t d h = grind (arith, div-add-mod t d)

pub mul_mono : (a b d : ℕ) → a ≤ b → a * d ≤ b * d
mul_mono a b d h = grind arith

pub div_lt : (t k d : ℕ) → t < k * d → t / d < k
div_lt t k d h = grind (arith, div_mul_le t d, mul_mono k (t / d) d)

pub div_le : (n d b : ℕ) → 0 < d → n ≤ b * d → n / d ≤ b
div_le n d b at h = elim (dec_lt b (n / d)) [
  | yes more ↦
      absurd (omega (arith, div_mul_le n d, mul_mono (b + 1) (n / d) d (omega arith), at, h))
  | no other ↦ omega (arith, other)
]

pos_of : (t q d : ℕ) → t < q * d + d → q * d ≤ t → 0 < d
pos_of t q zero high low = absurd (omega arith)
pos_of t q (suc d) high low = omega arith

-- The quotient by its bounds.
pub div_eq : (t q d : ℕ) → q * d ≤ t → t < q * d + d → t / d ≡ q
div_eq t q d low high =
    omega
      (arith, div_lt t (q + 1) d (grind arith), (le-div_iff_mul-le (pos_of t q d high low)).1 low)

-- Whole turns do not change the remainder.
pub div-add_turns : (t k d : ℕ) → 0 < d → (t + k * d) / d ≡ t / d + k
div-add_turns t k d h =
    div_eq (t + k * d) (t / d + k) d (grind (arith, div_mul_le t d))
      (grind (arith, lt_div_mul t d h))

pub mod-add_turns : (t k d : ℕ) → 0 < d → (t + k * d) % d ≡ t % d
mod-add_turns t k d h =
    let turns = ap (λ (n : ℕ). n * d) (div-add_turns t k d h) in
    omega
      (arith, mod-eq-sub-div-mul (t + k * d) d, mod-eq-sub-div-mul t d, turns, distrib (t / d) k d)
  where
    distrib : (a b d : ℕ) → (a + b) * d ≡ a * d + b * d
    distrib a b d = grind arith
