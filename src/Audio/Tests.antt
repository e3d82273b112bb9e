-- ===== src/Audio/Tests.antt =====
-- Concrete runs of the audio model.
use fcitx5_anytalk.Prelude.{
  map, take, drop, ◌≡◌, refl, some, List, [], ◌∷◌, length, concat, All, arith,
}
use fcitx5_anytalk.Prelude.Int.{ℤ, pos, negsuc}
use fcitx5_anytalk.Audio.Samples.{of_u16, to_mono, IsI16, chunks, chunks_fuel, sum}
use fcitx5_anytalk.Audio.Samples.Mono.{to_mono-Mono, IsFrame, IsI32}
use fcitx5_anytalk.Audio.Resampler.{done, StreamingResampler, panicked, new, process}
use fcitx5_anytalk.Audio.Resampler.Bounds.{IsReady, Resampled, process-Resampled}
use fcitx5_anytalk.Audio.Resampler.Stream.{feed}
use fcitx5_anytalk.Audio.Resampler.Stream.Calls.{Follows, feed-Follows}
use fcitx5_anytalk.Audio.Resampler.Rates.{process-new_panics}
use fcitx5_anytalk.Audio.Capture.{
  of_f32, Capture, new_capture, process_i16, process_u16, process_f32,
}
use fcitx5_anytalk.Audio.Capture.Callbacks.{IsKept, Called, callbacks-Called}
use fcitx5_anytalk.Audio.Fixed.{fixed, exact_48k, exact_96k}

abbrev samples_ : List ℤ
samples_ = pos 1 ∷ negsuc 299 ∷ pos 32767 ∷ negsuc 32767 ∷ pos 0 ∷ pos 258 ∷ negsuc 0 ∷ pos 7 ∷ []

samples_-I16 : All IsI16 samples_
samples_-I16 = omega arith

abbrev fresh : StreamingResampler fixed
fresh = new fixed 48000 16000

fresh-Ready : IsReady fixed 48000 16000 exact_48k (omega arith) (omega arith) fresh
unfolding new
fresh-Ready = record {
  in_eq = refl;
  out_eq = refl;
  at = refl;
  low = omega arith;
  short = omega arith;
  waits = omega arith;
}

to_mono_example :
    (concat (chunks 3 samples_) ≡ samples_)
    × All (IsFrame 3) (chunks 3 samples_)
    × All (λ frame. IsI32 (sum frame)) (chunks 3 samples_)
    × All IsI16 (to_mono 3 samples_)
    × (length (to_mono 3 samples_) ≡ length (chunks 3 samples_))
to_mono_example = to_mono-Mono 3 samples_ (omega arith) (omega arith) samples_-I16

process_48k_example :
    Resampled fixed 48000 16000 exact_48k
      (omega arith)
      (omega arith)
      fresh
      samples_
      (process fixed 1000000 fresh samples_)
process_48k_example =
    process-Resampled fixed 48000 16000 exact_48k (omega arith) (omega arith) 1000000 fresh samples_
      (omega arith) (omega arith) fresh-Ready (unfold new in omega arith)
      (unfold new in omega arith)

process_96k_example : process fixed 1000000 (new fixed 96000 16000) samples_ ≡ panicked
process_96k_example =
    process-new_panics fixed 96000 16000 exact_96k (omega arith) (omega arith) 1000000 6 1 samples_
      (omega arith) (omega arith) (omega arith) (omega arith) (omega arith)

abbrev stream : Capture fixed
stream = new_capture fixed 48000

stream-Kept :
    IsKept fixed 48000 16000 exact_48k (omega arith) (omega arith) (omega arith) 3200 stream
unfolding new_capture
stream-Kept = record { less = omega arith; ready = fresh-Ready }

callbacks_example :
    Called fixed 48000 16000 exact_48k
      (omega arith)
      (omega arith)
      (omega arith)
      1000000
      2
      samples_
      (some 1)
      3200
      stream
      (process_i16 fixed 1000000 (some 1) stream 2 samples_ 3200)
    × Called fixed 48000 16000 exact_48k
        (omega arith)
        (omega arith)
        (omega arith)
        1000000
        2
        (map of_u16 (40000 ∷ 3 ∷ []))
        (some 1)
        3200
        stream
        (process_u16 fixed 1000000 (some 1) stream 2 (40000 ∷ 3 ∷ []) 3200)
    × Called fixed 48000 16000 exact_48k
        (omega arith)
        (omega arith)
        (omega arith)
        1000000
        2
        (map (of_f32 fixed) (pos 4000 ∷ []))
        (some 1)
        3200
        stream
        (process_f32 fixed fixed 1000000 (some 1) stream 2 (pos 4000 ∷ []) 3200)
unfolding new_capture new to_mono chunks chunks_fuel
callbacks_example =
    callbacks-Called fixed 48000 16000 exact_48k (omega arith) (omega arith) (omega arith) 1000000
      fixed (some 1) stream 2 samples_ (40000 ∷ 3 ∷ []) (pos 4000 ∷ []) 3200 stream-Kept
      (omega arith) (omega arith) (omega arith)

-- The same samples in calls of other sizes.
abbrev in_calls : List (List ℤ)
in_calls = take 3 samples_ ∷ [] ∷ drop 3 samples_ ∷ []

feed-Follows_example :
    Follows fixed 48000 16000 exact_48k
      (omega arith)
      (omega arith)
      in_calls
      (feed fixed 1000000 (new fixed 48000 16000) in_calls)
feed-Follows_example =
    feed-Follows fixed 48000 16000 exact_48k (omega arith) (omega arith) 1000000 in_calls
      (omega arith) (omega arith) (omega arith)

calls_ran :
    (out : List ℤ) × (r : StreamingResampler fixed) × (feed fixed 1000000 fresh in_calls
      ≡ done (out, r))
calls_ran = (feed-Follows_example.out, feed-Follows_example.next, feed-Follows_example.returned)

whole_ran :
    (out : List ℤ) × (r : StreamingResampler fixed) × (feed fixed 1000000 fresh (samples_ ∷ [])
      ≡ done (out, r))
whole_ran =
    let f =
      feed-Follows fixed 48000 16000 exact_48k (omega arith) (omega arith) 1000000 (samples_ ∷ [])
        (omega arith) (omega arith) (omega arith) in
    (f.out, f.next, f.returned)
