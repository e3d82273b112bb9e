-- ===== src/Audio/Global/Tests.antt =====
-- A microphone of 48 kHz with two channels.
use fcitx5_anytalk.Prelude.{ℕ, ◌≡◌, refl, Option, none, some, List, [], ◌∷◌, All, arith}
use fcitx5_anytalk.Prelude.Int.{ℤ, pos, negsuc}
use fcitx5_anytalk.Prelude.Results.{ok}
use fcitx5_anytalk.Audio.Samples.{to_mono, chunks, chunks_fuel}
use fcitx5_anytalk.Audio.Resampler.{new}
use fcitx5_anytalk.Audio.Capture.{new_controller, new_capture}
use fcitx5_anytalk.Audio.Fixed.{fixed, exact_48k}
use fcitx5_anytalk.Audio.Global.{
  i16_format, StreamConfig, Cpal, Started, build, start_global_audio, stream_run,
}
use fcitx5_anytalk.Audio.Global.Heard.{Fits, Heard, start_global_audio-Heard}

abbrev config : StreamConfig
config = record { channels = 2; sample_rate = 48000; sample_format = i16_format }

abbrev microphone : Cpal
microphone = record {
  Device = Unit;
  Stream = ℕ;
  default_input_device = some tt;
  default_input_config = λ device. ok config;
  build_input_stream = λ device c. ok 7;
  play = λ stream. ok tt;
}

abbrev started : Started microphone fixed
started = record {
  stream = 7;
  controller = record { target = none };
  channels = 2;
  sample_format = i16_format;
  capture = record {
    buffer = [];
    resampler = record { in_rate = 48000; out_rate = 16000; position = pos 0; tail = [] };
  };
}

started-ok : start_global_audio microphone fixed ≡ ok started
unfolding start_global_audio build new_controller new_capture new
started-ok = refl

-- A slice without a session, and two with one.
abbrev slices : List (Option ℕ × List ℤ)
slices =
    (none, pos 1 ∷ pos 2 ∷ [])
    ∷ (some 5, pos 4 ∷ pos 6 ∷ negsuc 0 ∷ pos 3 ∷ [])
    ∷ (some 5, pos 9 ∷ [])
    ∷ []

slices-Fit :
    All (Fits fixed fixed 48000 exact_48k (omega arith) (omega arith) 1000000 2 i16_format) slices
unfolding to_mono chunks chunks_fuel
slices-Fit =
    ((omega arith, omega arith), ((omega arith, omega arith), ((omega arith, omega arith), tt)))

start_global_audio-Heard_example :
    (started.controller.target ≡ none)
    × Heard fixed fixed 48000 exact_48k
        (omega arith)
        (omega arith)
        (stream_run fixed fixed 1000000 2 i16_format started.capture slices)
start_global_audio-Heard_example =
    start_global_audio-Heard microphone fixed fixed started exact_48k (omega arith) (omega arith)
      1000000 slices started-ok slices-Fit
