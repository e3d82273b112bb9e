-- ===== src/Audio/Global/Sizes.antt =====
-- The chunks that the callback of the stream hands on (anytalk-daemon/src/audio.rs) are of one size.
use fcitx5_anytalk.Prelude.{
  ℕ, ◌≡◌, refl, subst, Option, none, some, List, [], ◌∷◌, ◌++◌, map, length, All, arith,
}
use fcitx5_anytalk.Prelude.Int.{ℤ}
use fcitx5_anytalk.Audio.Msg.{AudioMsg, chunk}
use fcitx5_anytalk.Audio.Float.{Float}
use fcitx5_anytalk.Audio.Samples.{to_mono, of_u16}
use fcitx5_anytalk.Audio.Samples.Bytes.{length-i16_to_le_bytes}
use fcitx5_anytalk.Audio.Resampler.{StreamingResampler, Outcome, done, panicked, no_fuel, process}
use fcitx5_anytalk.Audio.Capture.{
  Capture, chunk_msg, chunk_samples, drain_chunks, push_samples, process_i16, process_u16,
  process_f32, of_f32,
}
use fcitx5_anytalk.Audio.Capture.Chunks.{drain_chunks-Cut}
use fcitx5_anytalk.Audio.Global.{
  SampleFormat, f32_format, i16_format, u16_format, other_format, Data, on_data,
}

-- 200 ms of 16-bit samples at 16000 Hz.
abbrev pub IsFull : AudioMsg → Type 0
IsFull (chunk bytes) = length bytes ≡ 6400

chunks-Full :
    (cs : List (List ℤ)) → All (λ c. length c ≡ chunk_samples) cs → All IsFull (map chunk_msg cs)
unfolding chunk_msg
chunks-Full [] h = tt
chunks-Full (c ∷ cs) (here, h) = (omega (arith, length-i16_to_le_bytes c, here), chunks-Full cs h)

module _ (fl : Float) where
  -- Of a call that returns.
  abbrev FullOf : Outcome (List AudioMsg × Capture fl) → Type 0
  FullOf (done (msgs, c)) = All IsFull msgs
  FullOf panicked = Unit {0}
  FullOf no_fuel = Unit {0}

  pushed-FullOf :
      (fuel : ℕ) (c : Capture fl) (channels : ℕ) (s : ℤ) (rest : List ℤ)
      (o : Outcome (List ℤ × StreamingResampler fl))
      → process fl fuel c.resampler (to_mono channels (s ∷ rest)) ≡ o
      → FullOf (push_samples fl fuel c channels (s ∷ rest) chunk_samples)
  unfolding push_samples
  pushed-FullOf fuel c channels s rest (done (out, r)) e =
      let buffer = c.buffer ++ out in
      rw (e, FullOf, push_samples)
        (chunks-Full ((drain_chunks (length buffer) chunk_samples buffer).0) (
          (drain_chunks-Cut (length buffer) chunk_samples buffer (omega arith) (omega arith)).full))
  pushed-FullOf fuel c channels s rest panicked e = rw (e, FullOf, push_samples) tt
  pushed-FullOf fuel c channels s rest no_fuel e = rw (e, FullOf, push_samples) tt

  push-FullOf :
      (fuel : ℕ) (c : Capture fl) (channels : ℕ) (input : List ℤ)
      → FullOf (push_samples fl fuel c channels input chunk_samples)
  push-FullOf fuel c channels [] = unfold push_samples in tt
  push-FullOf fuel c channels (s ∷ rest) =
      pushed-FullOf fuel c channels s rest
        (process fl fuel c.resampler (to_mono channels (s ∷ rest))) refl

  on_data-FullOf :
      (f32 : Float) (fuel channels : ℕ) (format : SampleFormat) (target : Option ℕ) (c : Capture fl)
      (slice : Data f32 format)
      → FullOf (on_data fl f32 fuel channels format target c slice)
  unfolding on_data process_i16 process_u16 process_f32
  on_data-FullOf f32 fuel channels f32_format none c slice = tt
  on_data-FullOf f32 fuel channels i16_format none c slice = tt
  on_data-FullOf f32 fuel channels u16_format none c slice = tt
  on_data-FullOf f32 fuel channels f32_format (some t) c slice =
      push-FullOf fuel c channels (map (of_f32 f32) slice)
  on_data-FullOf f32 fuel channels i16_format (some t) c slice = push-FullOf fuel c channels slice
  on_data-FullOf f32 fuel channels u16_format (some t) c slice =
      push-FullOf fuel c channels (map of_u16 slice)
  on_data-FullOf f32 fuel channels other_format target c slice = absurd slice

  -- Every call of the callback.
  pub on_data-Full :
      (f32 : Float) (fuel channels : ℕ) (format : SampleFormat) (target : Option ℕ)
      (c next : Capture fl) (slice : Data f32 format) (msgs : List AudioMsg)
      → on_data fl f32 fuel channels format target c slice ≡ done (msgs, next)
      → All IsFull msgs
  on_data-Full f32 fuel channels format target c next slice msgs e =
      subst FullOf e (on_data-FullOf f32 fuel channels format target c slice)
