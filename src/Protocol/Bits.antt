-- ===== src/Protocol/Bits.antt =====
-- Nibbles and big-endian words as arithmetic; the laws of the masks are tables over one byte.
use fcitx5_anytalk.Prelude.{
  Option, none, some, ℕ_discrete, if◌then◌else◌, [], ◌∷◌, ℕ, zero, suc, ◌+◌, ◌*◌, ◌/◌, ◌%◌, ◌^◌,
  ◌<◌, ◌≡◌, refl, ◌∙◌, ◌==◌, arith, bit_and,
}
use fcitx5_anytalk.Protocol.{nibbles, u32be, from_be_bytes}

-- The largest number below `n` at which two functions differ, if there is one.
module _ (f g : ℕ → ℕ) where
  differ : ℕ → Option ℕ
  differ zero = none
  differ (suc n) = if f n == g n then differ n else some n

  eq_of_differ : (n : ℕ) {x : ℕ} → differ n ≡ none → x < n → f x ≡ g x
  unfolding differ
  eq_of_differ zero same below = absurd (omega arith)
  eq_of_differ (suc n) {x} same below = elim (ℕ_discrete x n) [
    | yes at_n ↦ rw at_n (ground (arith, same))
    | no before ↦ eq_of_differ n (ground (arith, same)) (omega arith)
  ]

pub low_nibble : (x : ℕ) → x < 256 → bit_and x 0xf ≡ x % 16
unfolding differ
low_nibble x h = eq_of_differ (λ x. bit_and x 0xf) (λ x. x % 16) 256 refl h

split_byte : (x : ℕ) → x < 256 → nibbles (x / 16) (x % 16) ≡ x
unfolding differ nibbles
split_byte x h = eq_of_differ (λ x. nibbles (x / 16) (x % 16)) (λ x. x) 256 refl h

-- Two nibbles make a byte.
pub nibbles_lem : (hi lo : ℕ) → hi < 16 → lo < 16 → nibbles hi lo ≡ hi * 16 + lo
nibbles_lem hi lo h l = rw (quotient, remainder) at (split_byte (hi * 16 + lo) (omega arith))
  where
    quotient : (hi * 16 + lo) / 16 ≡ hi
    quotient = omega arith

    remainder : (hi * 16 + lo) % 16 ≡ lo
    remainder = omega arith

-- The two nibbles of a byte, as the parser reads them.
pub high_nibble : (x : ℕ) → x < 256 → bit_and (x / 16) 0xf ≡ x / 16
high_nibble x h = low_nibble (x / 16) (omega arith) ∙ omega arith

pub from_be_bytes-lt :
    (a b c d : ℕ) → a < 256 → b < 256 → c < 256 → d < 256 → from_be_bytes a b c d < 2 ^ 32
unfolding from_be_bytes
from_be_bytes-lt a b c d ha hb hc hd = omega arith

-- The bytes of a word give it back, cut to 32 bits.
pub from_be_bytes-u32be :
    (n : ℕ)
    → from_be_bytes
        (n % 2 ^ 32 / 2 ^ 24)
        (n % 2 ^ 32 / 2 ^ 16 % 256)
        (n % 2 ^ 32 / 2 ^ 8 % 256)
        (n % 2 ^ 32 % 256)
      ≡ n % 2 ^ 32
unfolding from_be_bytes
from_be_bytes-u32be n = omega arith

-- Four bytes are the big-endian form of the number that they make.
pub u32be-from_be_bytes :
    (a b c d : ℕ)
    → a < 256
    → b < 256
    → c < 256
    → d < 256
    → u32be (from_be_bytes a b c d) ≡ a ∷ b ∷ c ∷ d ∷ []
unfolding from_be_bytes u32be
u32be-from_be_bytes a b c d ha hb hc hd = ground arith
