-- ===== src/Audio/Samples.antt =====
-- Samples of audio.rs: an i16 is an integer in its range.
pub mod Bytes
pub mod Mono
use fcitx5_anytalk.Prelude.{
  ℕ, zero, suc, ◌+◌, ◌-◌, ◌*◌, ◌/◌, ◌%◌, ◌≤◌, ◌<◌, ◌≡◌, refl, Bool, List, [], ◌∷◌, ◌++◌, map, ltb,
  leb, if◌then◌else◌, length, take, drop, All, arith, length-append, take-append-drop, ap, ◌∙◌,
  length-drop,
}
use fcitx5_anytalk.Prelude.Int.{ℤ, pos, negsuc, ◌+ℤ◌, sub_ℕ, pos_part, neg_part}
use fcitx5_anytalk.Text.Utf8.{IsByte}

abbrev pub IsI16 : ℤ → Type 0
IsI16 v = (pos_part v < 32768) × (neg_part v ≤ 32768)

-- `s.to_le_bytes()` of an i16, by its bit pattern.
unfoldable pub to_le_bytes : ℤ → List ℕ
to_le_bytes (pos n) = (n % 256) ∷ (n / 256) ∷ []
to_le_bytes (negsuc n) = ((65535 - n) % 256) ∷ ((65535 - n) / 256) ∷ []

unfoldable pub i16_to_le_bytes : List ℤ → List ℕ
i16_to_le_bytes [] = []
i16_to_le_bytes (s ∷ samples) = to_le_bytes s ++ i16_to_le_bytes samples

-- `((s as i32) - 32768) as i16` of a u16.
unfoldable pub of_u16 : ℕ → ℤ
of_u16 s = sub_ℕ s 32768

-- `input.chunks(size)`: the last chunk may be shorter. A chunk takes a sample at least, so as many
-- rounds as there are samples are enough.
unfoldable pub chunks_fuel : ℕ → ℕ → List ℤ → List (List ℤ)
chunks_fuel fuel size [] = []
chunks_fuel zero size (x ∷ xs) = []
chunks_fuel (suc fuel) size (x ∷ xs) =
    take size (x ∷ xs) ∷ chunks_fuel fuel size (drop size (x ∷ xs))

unfoldable pub chunks : ℕ → List ℤ → List (List ℤ)
unfolding chunks_fuel
chunks size xs = chunks_fuel (length xs) size xs

unfoldable pub sum : List ℤ → ℤ
sum [] = pos 0
sum (x ∷ xs) = x +ℤ sum xs

-- Division of i32 rounds to zero.
unfoldable pub quot : ℤ → ℕ → ℤ
quot (pos n) d = pos (n / d)
quot (negsuc n) d = sub_ℕ 0 (suc n / d)

-- `(sum / frame.len() as i32) as i16`.
unfoldable pub average : List ℤ → ℤ
average frame = quot (sum frame) (length frame)

unfoldable pub to_mono : ℕ → List ℤ → List ℤ
to_mono channels input = if leb channels 1 then input else map average (chunks channels input)
