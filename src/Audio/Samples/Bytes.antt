-- ===== src/Audio/Samples/Bytes.antt =====
-- Samples as bytes, and back.
use fcitx5_anytalk.Prelude.{
  ℕ, ◌+◌, ◌-◌, ◌*◌, ◌≡◌, refl, ap, List, [], ◌∷◌, ◌++◌, ltb, if◌then◌else◌, length, All, arith, ◌∙◌,
  length-append, All-append,
}
use fcitx5_anytalk.Prelude.Int.{ℤ, pos, negsuc}
use fcitx5_anytalk.Text.Utf8.{IsByte}
use fcitx5_anytalk.Audio.Samples.{IsI16, to_le_bytes, i16_to_le_bytes}

-- The samples of signed 16-bit little-endian PCM, the format that the session announces.
unfoldable pub read_pcm : List ℕ → List ℤ
read_pcm (lo ∷ hi ∷ bytes) =
    (if ltb hi 128 then pos (hi * 256 + lo) else negsuc (65535 - (hi * 256 + lo))) ∷ read_pcm bytes
read_pcm bytes = []

read_pcm-sample :
    (s : ℤ) (bytes : List ℕ) → IsI16 s → read_pcm (to_le_bytes s ++ bytes) ≡ s ∷ read_pcm bytes
unfolding read_pcm to_le_bytes
read_pcm-sample (pos n) bytes h = ground arith
read_pcm-sample (negsuc n) bytes h = ground arith

length-to_le_bytes : (s : ℤ) → length (to_le_bytes s) ≡ 2
unfolding to_le_bytes
length-to_le_bytes (pos n) = refl
length-to_le_bytes (negsuc n) = refl

pub length-i16_to_le_bytes :
    (samples : List ℤ) → length (i16_to_le_bytes samples) ≡ 2 * length samples
unfolding i16_to_le_bytes
length-i16_to_le_bytes [] = refl
length-i16_to_le_bytes (s ∷ samples) = omega (
  arith,
  length-append (to_le_bytes s) (i16_to_le_bytes samples),
  length-to_le_bytes s,
  length-i16_to_le_bytes samples,
)

to_le_bytes-Bytes : (s : ℤ) → IsI16 s → All IsByte (to_le_bytes s)
unfolding to_le_bytes
to_le_bytes-Bytes (pos n) h = (omega arith, (omega arith, tt))
to_le_bytes-Bytes (negsuc n) h = (omega arith, (omega arith, tt))

-- Samples that fit an i16 become two bytes each, and a reader of 16-bit little-endian PCM gets
-- them back.
pub read_pcm-i16_to_le_bytes :
    (samples : List ℤ)
    → All IsI16 samples
    → (read_pcm (i16_to_le_bytes samples) ≡ samples)
      × (length (i16_to_le_bytes samples) ≡ 2 * length samples)
      × All IsByte (i16_to_le_bytes samples)
unfolding i16_to_le_bytes
read_pcm-i16_to_le_bytes [] h = (unfold read_pcm in refl, refl, tt)
read_pcm-i16_to_le_bytes (s ∷ samples) h =
    let (same, size, bytes) = read_pcm-i16_to_le_bytes samples h.1 in
    (
      read_pcm-sample s (i16_to_le_bytes samples) h.0 ∙ ap (λ t. s ∷ t) same,
      omega (
        arith,
        length-append (to_le_bytes s) (i16_to_le_bytes samples),
        size,
        length-to_le_bytes s,
      ),
      All-append IsByte (to_le_bytes s) (i16_to_le_bytes samples) (to_le_bytes-Bytes s h.0) bytes,
    )
