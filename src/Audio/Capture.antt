-- ===== src/Audio/Capture.antt =====
-- The stream callbacks of anytalk-daemon/src/audio.rs and AudioController. The target is the channel
-- of the active session, known by a number. A callback returns the chunks that it hands to
-- `try_send` in order; whether that channel takes them is not seen by the callback.
pub mod Chunks
pub mod Callbacks
use fcitx5_anytalk.Prelude.{
  ℕ, zero, suc, ◌+◌, ◌*◌, ◌/◌, List, [], ◌∷◌, ◌++◌, map, Option, none, some, leb, if◌then◌else◌,
  length, take, drop,
}
use fcitx5_anytalk.Prelude.Int.{ℤ, pos, negsuc}
use fcitx5_anytalk.Audio.Msg.{AudioMsg, chunk}
use fcitx5_anytalk.Audio.Float.{Float}
use fcitx5_anytalk.Audio.Samples.{to_mono, of_u16, i16_to_le_bytes}
use fcitx5_anytalk.Audio.Resampler.{
  StreamingResampler, Outcome, done, panicked, no_fuel, new, process,
}

pub record AudioController : Type 0 where
  pub target : Option ℕ

unfoldable pub new_controller : AudioController
new_controller = record { target = none }

unfoldable pub set_target : AudioController → ℕ → AudioController
set_target c tx = record { target = some tx }

unfoldable pub clear_target : AudioController → AudioController
clear_target c = record { target = none }

-- 200 ms at 16000 Hz.
abbrev pub chunk_samples : ℕ
chunk_samples = 16000 * 200 / 1000

-- What the stream keeps between callbacks.
pub record Capture (fl : Float) : Type 0 where
  pub buffer : List ℤ
  pub resampler : StreamingResampler fl

unfoldable pub new_capture : (fl : Float) → ℕ → Capture fl
new_capture fl in_rate = record { buffer = []; resampler = new fl in_rate 16000 }

-- `while buffer.len() >= size`: the chunks taken off the front, and what is left. A chunk takes a
-- sample at least, so as many rounds as there are samples are enough.
unfoldable pub drain_chunks : ℕ → ℕ → List ℤ → List (List ℤ) × List ℤ
drain_chunks zero size buffer = ([], buffer)
drain_chunks (suc fuel) size buffer =
    let (rest, left) = drain_chunks fuel size (drop size buffer) in
    if leb size (length buffer) then (take size buffer ∷ rest, left) else ([], buffer)

unfoldable pub chunk_msg : List ℤ → AudioMsg
chunk_msg samples = chunk (i16_to_le_bytes samples)

-- `(s.clamp(-1.0, 1.0) * 32767.0).round() as i16`, over the arithmetic of f32.
unfoldable pub of_f32 : (f32 : Float) → f32.Num → ℤ
of_f32 f32 s =
    let clamped = f32.clamp s (f32.of_i16 (negsuc 0)) (f32.of_i16 (pos 1)) in
    f32.as_i16 (f32.round (f32.mul clamped (f32.of_i16 (pos 32767))))

module _ (fl : Float) where
  -- The fuel is that of the resampler.
  unfoldable pub push_samples :
      ℕ → Capture fl → ℕ → List ℤ → ℕ → Outcome (List AudioMsg × Capture fl)
  push_samples fuel c channels input size = elim input [
    | [] ↦ done ([], c)
    | s ∷ rest ↦ elim (process fl fuel c.resampler (to_mono channels (s ∷ rest))) [
      | done (resampled, r) ↦
          let buffer = c.buffer ++ resampled in
          let (ready, left) = drain_chunks (length buffer) size buffer in
          done (map chunk_msg ready, record { buffer = left; resampler = r })
      | panicked ↦ panicked
      | no_fuel ↦ no_fuel
    ]
  ]

  unfoldable pub process_i16 :
      ℕ → Option ℕ → Capture fl → ℕ → List ℤ → ℕ → Outcome (List AudioMsg × Capture fl)
  process_i16 fuel none c channels samples size = done ([], record c { buffer = [] })
  process_i16 fuel (some tx) c channels samples size = push_samples fuel c channels samples size

  unfoldable pub process_u16 :
      ℕ → Option ℕ → Capture fl → ℕ → List ℕ → ℕ → Outcome (List AudioMsg × Capture fl)
  process_u16 fuel none c channels samples size = done ([], record c { buffer = [] })
  process_u16 fuel (some tx) c channels samples size =
      push_samples fuel c channels (map of_u16 samples) size

  unfoldable pub process_f32 :
      (f32 : Float)
      → ℕ
      → Option ℕ
      → Capture fl
      → ℕ
      → List (f32.Num)
      → ℕ
      → Outcome (List AudioMsg × Capture fl)
  process_f32 f32 fuel none c channels samples size = done ([], record c { buffer = [] })
  process_f32 f32 fuel (some tx) c channels samples size =
      push_samples fuel c channels (map (of_f32 f32) samples) size
