-- ===== src/Audio/Global/Heard.antt =====
-- A whole stream, from the start of the capture on.
use fcitx5_anytalk.Prelude.{
  ℕ, ◌+◌, ◌*◌, ◌≤◌, ◌<◌, ◌≡◌, refl, ◌∙◌, ap, Option, none, some, List, [], ◌∷◌, ◌++◌, map, length,
  All, All-append, arith, length-append,
}
use fcitx5_anytalk.Prelude.Int.{ℤ, pos, negsuc}
use fcitx5_anytalk.Prelude.Results.{ok}
use fcitx5_anytalk.Audio.Msg.{AudioMsg, chunk}
use fcitx5_anytalk.Audio.Float.{Float, IsExact}
use fcitx5_anytalk.Audio.Samples.{to_mono, of_u16, to_le_bytes, i16_to_le_bytes}
use fcitx5_anytalk.Audio.Resampler.{Outcome, done, new}
use fcitx5_anytalk.Audio.Resampler.Bounds.{IsReady}
use fcitx5_anytalk.Audio.Capture.{
  new_controller, Capture, new_capture, chunk_msg, process_i16, process_u16, process_f32, of_f32,
  chunk_samples, push_samples,
}
use fcitx5_anytalk.Audio.Capture.Callbacks.{IsKept, Handed, push-Handed, cleared-Kept}
use fcitx5_anytalk.Audio.Global.{
  SampleFormat, f32_format, i16_format, u16_format, other_format, Data, Cpal, Started,
  start_global_audio, on_data, stream_run,
}

-- The samples of a slice.
abbrev pub samples_of : (f32 : Float) (format : SampleFormat) → Data f32 format → List ℤ
samples_of f32 f32_format slice = map (of_f32 f32) slice
samples_of f32 i16_format slice = slice
samples_of f32 u16_format slice = map of_u16 slice
samples_of f32 other_format slice = absurd slice

-- A message of 200 ms: 3200 samples of two bytes.
abbrev pub IsWhole : AudioMsg → Type 0
IsWhole (chunk bytes) = length bytes ≡ 6400

pub rate_out : 0 < 16000
rate_out = omega arith

length-to_le_bytes : (s : ℤ) → length (to_le_bytes s) ≡ 2
unfolding to_le_bytes
length-to_le_bytes (pos n) = refl
length-to_le_bytes (negsuc n) = refl

length-i16_to_le_bytes : (samples : List ℤ) → length (i16_to_le_bytes samples) ≡ 2 * length samples
unfolding i16_to_le_bytes to_le_bytes
length-i16_to_le_bytes [] = refl
length-i16_to_le_bytes (s ∷ samples) = omega (
  arith,
  length-i16_to_le_bytes samples,
  length-append (to_le_bytes s) (i16_to_le_bytes samples),
  length-to_le_bytes s,
)

chunks-Whole :
    (chunks : List (List ℤ))
    → All (λ c. length c ≡ chunk_samples) chunks
    → All IsWhole (map chunk_msg chunks)
unfolding chunk_msg
chunks-Whole [] h = tt
chunks-Whole (c ∷ chunks) (size, sizes) =
    (omega (arith, length-i16_to_le_bytes c, size), chunks-Whole chunks sizes)

module _ (fl f32 : Float) (rate : ℕ) (exact : IsExact fl rate 16000) (pos_in : 0 < rate)
    (third : rate ≤ 3 * 16000) where
  abbrev pub Kept : Capture fl → Type 0
  Kept = IsKept fl rate 16000 exact pos_in rate_out third chunk_samples

  -- The fuel and the exactness that a call takes.
  abbrev pub Fits : ℕ → ℕ → (format : SampleFormat) → Option ℕ × Data f32 format → Type 0
  Fits fuel channels format (target, slice) =
      let mono = to_mono channels (samples_of f32 format slice) in
      ((2 + length mono) * 16000 + rate ≤ exact.limit) × ((2 + length mono) * 16000 < fuel)

  -- What calls return: whole messages and a state between calls.
  pub record Heard (o : Outcome (List AudioMsg × Capture fl)) : Type 0 where
    pub msgs : List AudioMsg
    pub next : Capture fl
    pub returned : o ≡ done (msgs, next)
    pub whole : All IsWhole msgs
    pub kept : Kept next

  Handed-Heard :
      (fuel channels : ℕ) (input : List ℤ) (c : Capture fl)
      (o : Outcome (List AudioMsg × Capture fl))
      → Handed fl rate 16000 exact pos_in rate_out third fuel channels input chunk_samples c o
      → Heard o
  Handed-Heard fuel channels input c o h = record {
    msgs = map chunk_msg h.ready_chunks;
    next = h.next;
    returned = h.returned;
    whole = chunks-Whole h.ready_chunks h.full;
    kept = h.kept;
  }

  cleared-Heard : (c : Capture fl) → Kept c → Heard (done ([], record c { buffer = [] }))
  cleared-Heard c kept = record {
    msgs = [];
    next = record c { buffer = [] };
    returned = refl;
    whole = tt;
    kept = cleared-Kept fl rate 16000 exact pos_in rate_out third chunk_samples c kept;
  }

  fits_tail :
      (c : Capture fl) (n fuel : ℕ)
      → Kept c
      → ((2 + n) * 16000 + rate ≤ exact.limit) × ((2 + n) * 16000 < fuel)
      → ((length c.resampler.tail + n) * 16000 + rate ≤ exact.limit)
        × ((length c.resampler.tail + n) * 16000 < fuel)
  fits_tail c n fuel kept (fits, enough) =
      let short = kept.ready.short in (omega (arith, short), omega (arith, short))

  push-Heard :
      (fuel channels : ℕ) (c : Capture fl) (input : List ℤ)
      → Kept c
      → ((2 + length (to_mono channels input)) * 16000 + rate ≤ exact.limit)
        × ((2 + length (to_mono channels input)) * 16000 < fuel)
      → Heard (push_samples fl fuel c channels input chunk_samples)
  push-Heard fuel channels c input kept fits =
      Handed-Heard fuel channels input c (push_samples fl fuel c channels input chunk_samples) (
        push-Handed fl rate 16000 exact pos_in rate_out third fuel c channels input chunk_samples
          kept (fits_tail c (length (to_mono channels input)) fuel kept fits))

  on_data-Heard :
      (fuel channels : ℕ) (format : SampleFormat) (target : Option ℕ) (c : Capture fl)
      (slice : Data f32 format)
      → Kept c
      → Fits fuel channels format (target, slice)
      → Heard (on_data fl f32 fuel channels format target c slice)
  unfolding on_data process_f32 process_i16 process_u16
  on_data-Heard fuel channels f32_format none c slice kept fits = cleared-Heard c kept
  on_data-Heard fuel channels i16_format none c slice kept fits = cleared-Heard c kept
  on_data-Heard fuel channels u16_format none c slice kept fits = cleared-Heard c kept
  on_data-Heard fuel channels other_format target c slice kept fits = absurd slice
  on_data-Heard fuel channels f32_format (some tx) c slice kept fits =
      push-Heard fuel channels c (map (of_f32 f32) slice) kept fits
  on_data-Heard fuel channels i16_format (some tx) c slice kept fits =
      push-Heard fuel channels c slice kept fits
  on_data-Heard fuel channels u16_format (some tx) c slice kept fits =
      push-Heard fuel channels c (map of_u16 slice) kept fits

  run_at :
      (fuel channels : ℕ) (format : SampleFormat) (target : Option ℕ) (c c' last : Capture fl)
      (slice : Data f32 format) (calls : List (Option ℕ × Data f32 format))
      (now later : List AudioMsg)
      → on_data fl f32 fuel channels format target c slice ≡ done (now, c')
      → stream_run fl f32 fuel channels format c' calls ≡ done (later, last)
      → stream_run fl f32 fuel channels format c ((target, slice) ∷ calls)
        ≡ done (now ++ later, last)
  unfolding stream_run
  run_at fuel channels format target c c' last slice calls now later call rest =
      ground (arith, call, rest)

  stream_run-Heard :
      (fuel channels : ℕ) (format : SampleFormat) (c : Capture fl)
      (calls : List (Option ℕ × Data f32 format))
      → Kept c
      → All (Fits fuel channels format) calls
      → Heard (stream_run fl f32 fuel channels format c calls)
  stream_run-Heard fuel channels format c [] kept fits = record {
    msgs = [];
    next = c;
    returned = unfold stream_run in refl;
    whole = tt;
    kept = kept;
  }
  stream_run-Heard fuel channels format c ((target, slice) ∷ calls) kept (fits, later) =
      let now = on_data-Heard fuel channels format target c slice kept fits in
      let rest = stream_run-Heard fuel channels format now.next calls now.kept later in
      record {
        msgs = now.msgs ++ rest.msgs;
        next = rest.next;
        returned =
            run_at fuel channels format target c now.next rest.next slice calls now.msgs rest.msgs
              now.returned rest.returned;
        whole = All-append IsWhole now.msgs rest.msgs now.whole rest.whole;
        kept = rest.kept;
      }

module _ (cpal : Cpal) (fl : Float) where
  -- What a start that succeeds gives.
  pub record IsFresh (started : Started cpal fl) : Type 0 where
    pub silent : started.controller.target ≡ none
    pub empty : started.capture.buffer ≡ []
    pub no_tail : started.capture.resampler.tail ≡ []
    pub at_zero : started.capture.resampler.position ≡ fl.of_usize 0
    pub out_eq : started.capture.resampler.out_rate ≡ 16000

  start-Fresh :
      (started : Started cpal fl) → start_global_audio cpal fl ≡ ok started → IsFresh started
  unfolding start_global_audio new_controller new_capture new
  start-Fresh started h = record {
    silent = ground (arith, h);
    empty = ground (arith, h);
    no_tail = ground (arith, h);
    at_zero = ground (arith, h);
    out_eq = ground (arith, h);
  }

-- Where the start succeeds, no session is the target at first, and with exact positions and an input
-- rate above 0 and of at most 48 kHz every run of the stream's callback, over any slices and targets,
-- given enough fuel for each slice, returns without a panic; all the messages that it hands on are
-- whole chunks of 200 ms, and what stays in the buffer is shorter than one.
pub start_global_audio-Heard :
    (cpal : Cpal) (fl f32 : Float) (started : Started cpal fl)
    (exact : IsExact fl started.capture.resampler.in_rate 16000)
    (pos_in : 0 < started.capture.resampler.in_rate)
    (third : started.capture.resampler.in_rate ≤ 3 * 16000) (fuel : ℕ)
    (calls : List (Option ℕ × Data f32 started.sample_format))
    → start_global_audio cpal fl ≡ ok started
    → All
        (Fits fl f32 started.capture.resampler.in_rate exact pos_in third fuel started.channels
          started.sample_format)
        calls
    → (started.controller.target ≡ none)
      × Heard fl f32 started.capture.resampler.in_rate exact pos_in third
          (stream_run fl f32 fuel started.channels started.sample_format started.capture calls)
start_global_audio-Heard cpal fl f32 started exact pos_in third fuel calls start fits =
    let fresh = start-Fresh cpal fl started start in
    let rate = started.capture.resampler.in_rate in
    let zero_ticks : exact.ticks started.capture.resampler.position ≡ 0 =
      ap exact.ticks fresh.at_zero ∙ exact.at_zero.1 in
    let ready : IsReady fl rate 16000 exact pos_in rate_out started.capture.resampler = record {
      in_eq = refl;
      out_eq = fresh.out_eq;
      at = ap exact.is_position fresh.at_zero ∙ exact.at_zero.0;
      low = omega (arith, zero_ticks);
      short = rw fresh.no_tail (omega arith);
      waits = rw fresh.no_tail (omega arith);
    } in
    (
      fresh.silent,
      stream_run-Heard fl f32 rate exact pos_in third fuel started.channels started.sample_format
          started.capture calls (record { less = rw fresh.empty (omega arith); ready = ready })
          fits,
    )
