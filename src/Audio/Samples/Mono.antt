-- ===== src/Audio/Samples/Mono.antt =====
-- The mix to one channel: a frame of i16 samples has an i16 as its average, with no overflow of the
-- i32 sum, and the chunks of a buffer put together are the buffer.
use fcitx5_anytalk.Prelude.{
  ℕ, zero, suc, ◌*◌, ◌≤◌, ◌<◌, ◌≡◌, refl, concat, ap, ◌∙◌, List, [], ◌∷◌, ◌++◌, map, length, take,
  drop, All, arith, take-append-drop, length-drop, length-take, length-map,
}
use fcitx5_anytalk.Prelude.Quotients.{div_le}
use fcitx5_anytalk.Prelude.Int.{ℤ, pos, negsuc, ◌+ℤ◌, pos_part, neg_part}
use fcitx5_anytalk.Audio.Samples.{IsI16, chunks_fuel, chunks, sum, quot, average, to_mono}

-- The bounds of the sum of `n` samples.
sum-Bounds :
    (xs : List ℤ)
    → All IsI16 xs
    → (pos_part (sum xs) ≤ 32767 * length xs) × (neg_part (sum xs) ≤ 32768 * length xs)
unfolding sum ◌+ℤ◌
sum-Bounds [] h = (omega arith, omega arith)
sum-Bounds (x ∷ xs) (at_x, at_xs) =
    let (high, low) = sum-Bounds xs at_xs in ground (arith, high, low, at_x)

quot-Bounds :
    (s : ℤ) (d : ℕ) → 0 < d → pos_part s ≤ 32767 * d → neg_part s ≤ 32768 * d → IsI16 (quot s d)
unfolding quot
quot-Bounds (pos n) d at high low = (omega (arith, div_le n d 32767 at high), omega arith)
quot-Bounds (negsuc n) d at high low = ground (arith, div_le (suc n) d 32768 at low)

average-I16 : (frame : List ℤ) → 0 < length frame → All IsI16 frame → IsI16 (average frame)
unfolding average
average-I16 frame some h =
    let (high, low) = sum-Bounds frame h in quot-Bounds (sum frame) (length frame) some high low

chunks_fuel-concat :
    (fuel size : ℕ) (xs : List ℤ)
    → 0 < size
    → length xs ≤ fuel
    → concat (chunks_fuel fuel size xs) ≡ xs
unfolding chunks_fuel
chunks_fuel-concat fuel size [] some h = refl
chunks_fuel-concat zero size (x ∷ xs) some h = absurd (omega arith)
chunks_fuel-concat (suc fuel) size (x ∷ xs) some h =
    ap (λ (t : List ℤ). take size (x ∷ xs) ++ t)
      (chunks_fuel-concat fuel size (drop size (x ∷ xs)) some
        (omega (arith, length-drop size (x ∷ xs))))
    ∙ take-append-drop size (x ∷ xs)

-- A frame of samples: not empty, not longer than the number of channels, all of them i16 values.
abbrev pub IsFrame : ℕ → List ℤ → Type 0
IsFrame channels frame = (0 < length frame) × (length frame ≤ channels) × All IsI16 frame

All-take : (n : ℕ) (xs : List ℤ) → All IsI16 xs → All IsI16 (take n xs)
All-take zero xs h = tt
All-take (suc n) [] h = tt
All-take (suc n) (x ∷ xs) h = (h.0, All-take n xs h.1)

All-drop : (n : ℕ) (xs : List ℤ) → All IsI16 xs → All IsI16 (drop n xs)
All-drop zero xs h = h
All-drop (suc n) [] h = tt
All-drop (suc n) (x ∷ xs) h = All-drop n xs h.1

chunks_fuel-Frames :
    (fuel size : ℕ) (xs : List ℤ)
    → 0 < size
    → All IsI16 xs
    → All (IsFrame size) (chunks_fuel fuel size xs)
unfolding chunks_fuel
chunks_fuel-Frames fuel size [] some h = tt
chunks_fuel-Frames zero size (x ∷ xs) some h = tt
chunks_fuel-Frames (suc fuel) size (x ∷ xs) some h = (
  (
    omega (arith, length-take size (x ∷ xs)),
    omega (arith, length-take size (x ∷ xs)),
    All-take size (x ∷ xs) h,
  ),
  chunks_fuel-Frames fuel size (drop size (x ∷ xs)) some (All-drop size (x ∷ xs) h),
)

-- A sum that an i32 holds.
abbrev pub IsI32 : ℤ → Type 0
IsI32 v = (pos_part v < 2147483648) × (neg_part v ≤ 2147483648)

frame-I32 :
    (channels : ℕ) (frame : List ℤ) → channels < 65536 → IsFrame channels frame → IsI32 (sum frame)
frame-I32 channels frame size (some, short, h) =
    let (high, low) = sum-Bounds frame h in (omega arith, omega arith)

frames-Mono :
    (channels : ℕ) (frames : List (List ℤ))
    → channels < 65536
    → All (IsFrame channels) frames
    → All (λ frame. IsI32 (sum frame)) frames × All IsI16 (map average frames)
frames-Mono channels [] size h = (tt, tt)
frames-Mono channels (frame ∷ frames) size (at, rest) =
    let (sums, averages) = frames-Mono channels frames size rest in
    ((frame-I32 channels frame size at, sums), (average-I16 frame at.0 at.2, averages))

-- With 2 to 65535 channels (a u16) and i16 samples, the frames are the input in order, none of them
-- is empty or longer than the number of channels, the i32 sum of each does not overflow, and what
-- is put out is one i16 for each frame.
pub to_mono-Mono :
    (channels : ℕ) (input : List ℤ)
    → 1 < channels
    → channels < 65536
    → All IsI16 input
    → (concat (chunks channels input) ≡ input)
      × All (IsFrame channels) (chunks channels input)
      × All (λ frame. IsI32 (sum frame)) (chunks channels input)
      × All IsI16 (to_mono channels input)
      × (length (to_mono channels input) ≡ length (chunks channels input))
unfolding to_mono chunks
to_mono-Mono channels input many size h =
    let frames = chunks_fuel (length input) channels input in
    let ok = chunks_fuel-Frames (length input) channels input (omega arith) h in
    let (sums, averages) = frames-Mono channels frames size ok in
    let mixed : to_mono channels input ≡ map average frames = ground arith in
    (
      chunks_fuel-concat (length input) channels input (omega arith) (omega arith),
      ok,
      sums,
      rw mixed averages,
      rw mixed (length-map frames average),
    )
