-- ===== src/Audio/Global.antt =====
-- start_global_audio of anytalk-daemon/src/audio.rs, over an interface for cpal, and the calls of the
-- stream's callback.
pub mod Heard
pub mod Sizes
mod Tests
use fcitx5_anytalk.Prelude.{ℕ, Option, none, some, List, [], ◌∷◌, ◌++◌}
use fcitx5_anytalk.Prelude.Int.{ℤ}
use fcitx5_anytalk.Prelude.Results.{Result, ok, err}
use fcitx5_anytalk.Text.{Text, text}
use fcitx5_anytalk.Audio.Msg.{AudioMsg}
use fcitx5_anytalk.Audio.Float.{Float}
use fcitx5_anytalk.Audio.Resampler.{Outcome, done, panicked, no_fuel}
use fcitx5_anytalk.Audio.Capture.{
  AudioController, new_controller, Capture, new_capture, chunk_samples, process_i16, process_u16,
  process_f32,
}

-- The formats that the match tells apart.
pub data SampleFormat : Type 0 where
  f32_format : SampleFormat
  i16_format : SampleFormat
  u16_format : SampleFormat
  other_format : SampleFormat

pub record StreamConfig : Type 0 where
  pub channels : ℕ
  pub sample_rate : ℕ
  pub sample_format : SampleFormat

-- The calls of cpal, with the text of an error. A stream is built with the callback of the format.
pub record Cpal : Type 1 where
  pub Device : Type 0
  pub Stream : Type 0
  pub default_input_device : Option Device
  pub default_input_config : Device → Result Text StreamConfig
  pub build_input_stream : Device → StreamConfig → Result Text Stream
  pub play : Stream → Result Text (Unit {0})

-- The slice that the callback of a format takes.
abbrev pub Data : Float → SampleFormat → Type 0
Data f32 f32_format = List (f32.Num)
Data f32 i16_format = List ℤ
Data f32 u16_format = List ℕ
Data f32 other_format = ⊥

module _ (cpal : Cpal) (fl : Float) where
  open cpal use {
    Device, Stream, default_input_device, default_input_config, build_input_stream, play,
  }

  -- The stream and the controller, and what the callback keeps.
  pub record Started : Type 0 where
    pub stream : Stream
    pub controller : AudioController
    pub channels : ℕ
    pub sample_format : SampleFormat
    pub capture : Capture fl

  -- The match on the format.
  unfoldable pub build : SampleFormat → Device → StreamConfig → Result Text Stream
  build other_format device config = err (text "unsupported sample format")
  build format device config = elim (build_input_stream device config) [
    | ok stream ↦ ok stream
    | err e ↦ err (text "failed to build stream: " ++ e)
  ]

  unfoldable pub start_global_audio : Result Text Started
  start_global_audio = elim default_input_device [
    | none ↦ err (text "no input device")
    | some device ↦ elim (default_input_config device) [
      | err e ↦ err (text "input config error: " ++ e)
      | ok config ↦ elim (build config.sample_format device config) [
        | err e ↦ err e
        | ok stream ↦ elim (play stream) [
          | err e ↦ err (text "failed to play stream: " ++ e)
          | ok u ↦ ok (record {
            stream = stream;
            controller = new_controller;
            channels = config.channels;
            sample_format = config.sample_format;
            capture = new_capture fl config.sample_rate;
          })
        ]
      ]
    ]
  ]

-- The callback of a format; the fuel is that of the resampler.
unfoldable pub on_data :
    (fl f32 : Float) (fuel channels : ℕ) (format : SampleFormat)
    → Option ℕ
    → Capture fl
    → Data f32 format
    → Outcome (List AudioMsg × Capture fl)
on_data fl f32 fuel channels f32_format target c slice =
    process_f32 fl f32 fuel target c channels slice chunk_samples
on_data fl f32 fuel channels i16_format target c slice =
    process_i16 fl fuel target c channels slice chunk_samples
on_data fl f32 fuel channels u16_format target c slice =
    process_u16 fl fuel target c channels slice chunk_samples
on_data fl f32 fuel channels other_format target c slice = absurd slice

-- The calls of a stream, each with the target then, and all the chunks handed on.
unfoldable pub stream_run :
    (fl f32 : Float) (fuel channels : ℕ) (format : SampleFormat)
    → Capture fl
    → List (Option ℕ × Data f32 format)
    → Outcome (List AudioMsg × Capture fl)
stream_run fl f32 fuel channels format c [] = done ([], c)
stream_run fl f32 fuel channels format c ((target, slice) ∷ calls) =
    elim (on_data fl f32 fuel channels format target c slice) [
      | panicked ↦ panicked
      | no_fuel ↦ no_fuel
      | done (now, c') ↦ elim (stream_run fl f32 fuel channels format c' calls) [
        | panicked ↦ panicked
        | no_fuel ↦ no_fuel
        | done (later, last) ↦ done (now ++ later, last)
      ]
    ]
