-- ===== src/Audio/Capture/Callbacks.antt =====
-- The stream callbacks of audio.rs return, and keep the state between calls.
use fcitx5_anytalk.Prelude.{
  ℕ, ◌+◌, ◌*◌, ◌≤◌, ◌<◌, ◌≡◌, append-nil, refl, sym, Option, none, some, List, [], ◌∷◌, ◌++◌, map,
  length, concat, All, arith, ℕ_discrete,
}
use fcitx5_anytalk.Prelude.Int.{ℤ}
use fcitx5_anytalk.Audio.Msg.{AudioMsg}
use fcitx5_anytalk.Audio.Float.{Float, IsExact}
use fcitx5_anytalk.Audio.Samples.{to_mono, of_u16, chunks, chunks_fuel}
use fcitx5_anytalk.Audio.Resampler.{StreamingResampler, Outcome, done, process}
use fcitx5_anytalk.Audio.Resampler.Bounds.{IsReady, process-Resampled}
use fcitx5_anytalk.Audio.Capture.{
  Capture, chunk_msg, drain_chunks, push_samples, process_i16, process_u16, process_f32, of_f32,
}
use fcitx5_anytalk.Audio.Capture.Chunks.{drain_chunks-Cut}

module _ (fl : Float) (in_rate out_rate : ℕ) (exact : IsExact fl in_rate out_rate)
    (pos_in : 0 < in_rate) (pos_out : 0 < out_rate) (third : in_rate ≤ 3 * out_rate) where
  open exact use {limit}

  abbrev pub Ready : StreamingResampler fl → Type 0
  Ready = IsReady fl in_rate out_rate exact pos_in pos_out

  -- The state between two callbacks.
  pub record IsKept (size : ℕ) (c : Capture fl) : Type 0 where
    pub less : length c.buffer < size
    pub ready : Ready c.resampler

  -- The fuel and the exactness that a call on `n` samples takes.
  abbrev pub Fits : ℕ → Capture fl → ℕ → Type 0
  Fits fuel c n =
      ((length c.resampler.tail + n) * out_rate + in_rate ≤ limit)
      × ((length c.resampler.tail + n) * out_rate < fuel)

  process_returns :
      (fuel : ℕ) (r : StreamingResampler fl) (input : List ℤ)
      → Ready r
      → (length r.tail + length input) * out_rate + in_rate ≤ limit
      → (length r.tail + length input) * out_rate < fuel
      → (out : List ℤ) × (next : StreamingResampler fl) × (process fl fuel r input
          ≡ done (out, next))
        × Ready next
  process_returns fuel r input ready fits enough = elim (ℕ_discrete in_rate out_rate) [
    | yes same ↦
        (input, r, (unfold process in ground (arith, ready.in_eq, ready.out_eq, same)), ready)
    | no differ ↦
        let result =
          process-Resampled fl in_rate out_rate exact pos_in pos_out fuel r input differ third ready
            fits enough in
        (result.out, result.next, result.returned, result.ready)
  ]

  -- What a callback returns on some samples: the chunks handed on, and the state. `out` is what the
  -- resampler makes of the samples mixed to one channel.
  pub record Handed (fuel channels : ℕ) (input : List ℤ) (size : ℕ) (c : Capture fl)
      (o : Outcome (List AudioMsg × Capture fl)) : Type 0 where
    pub out : List ℤ
    pub ready_chunks : List (List ℤ)
    pub next : Capture fl
    pub returned : o ≡ done (map chunk_msg ready_chunks, next)
    pub resampled :
        process fl fuel c.resampler (to_mono channels input) ≡ done (out, next.resampler)
    pub whole : concat ready_chunks ++ next.buffer ≡ c.buffer ++ out
    pub full : All (λ chunk. length chunk ≡ size) ready_chunks
    pub kept : IsKept size next

  push_at :
      (fuel : ℕ) (c : Capture fl) (channels : ℕ) (s : ℤ) (rest : List ℤ) (size : ℕ) (out : List ℤ)
      (r : StreamingResampler fl)
      → process fl fuel c.resampler (to_mono channels (s ∷ rest)) ≡ done (out, r)
      → let buffer = c.buffer ++ out in
        let cut = drain_chunks (length buffer) size buffer in
        push_samples fl fuel c channels (s ∷ rest) size
        ≡ done (map chunk_msg (cut.0), record { buffer = cut.1; resampler = r })
  unfolding push_samples
  push_at fuel c channels s rest size out r h = ground (arith, h)

  process_nothing :
      (fuel : ℕ) (r : StreamingResampler fl) (channels : ℕ)
      → Ready r
      → process fl fuel r (to_mono channels []) ≡ done ([], r)
  unfolding process to_mono chunks chunks_fuel
  process_nothing fuel r channels ready = elim (ℕ_discrete in_rate out_rate) [
    | yes same ↦ ground (arith, ready.in_eq, ready.out_eq, same)
    | no differ ↦ ground (arith, ready.in_eq, ready.out_eq, differ)
  ]

  pub push-Handed :
      (fuel : ℕ) (c : Capture fl) (channels : ℕ) (input : List ℤ) (size : ℕ)
      → IsKept size c
      → Fits fuel c (length (to_mono channels input))
      → Handed fuel channels input size c (push_samples fl fuel c channels input size)
  push-Handed fuel c channels [] size kept fits = record {
    out = [];
    ready_chunks = [];
    next = c;
    returned = unfold push_samples in refl;
    resampled = process_nothing fuel c.resampler channels kept.ready;
    whole = sym (append-nil c.buffer);
    full = tt;
    kept = kept;
  }
  push-Handed fuel c channels (s ∷ rest) size kept (fits, enough) =
      let (out, r, returned, ready) =
        process_returns fuel c.resampler (to_mono channels (s ∷ rest)) kept.ready fits enough in
      let buffer = c.buffer ++ out in
      let cut =
        drain_chunks-Cut (length buffer) size buffer (omega (arith, kept.less)) (omega arith) in
      let (chunks, left) = drain_chunks (length buffer) size buffer in
      record {
        out = out;
        ready_chunks = chunks;
        next = record { buffer = left; resampler = r };
        returned = push_at fuel c channels s rest size out r returned;
        resampled = returned;
        whole = cut.whole;
        full = cut.full;
        kept = record { less = cut.less; ready = ready };
      }

  pub cleared-Kept :
      (size : ℕ) (c : Capture fl) → IsKept size c → IsKept size (record c { buffer = [] })
  cleared-Kept size c kept = record { less = omega (arith, kept.less); ready = kept.ready }

  -- What a callback does with a target, and without one.
  abbrev pub Called :
      ℕ → ℕ → List ℤ → Option ℕ → ℕ → Capture fl → Outcome (List AudioMsg × Capture fl) → Type 0
  Called fuel channels input none size c o =
      (o ≡ done ([], record c { buffer = [] })) × IsKept size (record c { buffer = [] })
  Called fuel channels input (some tx) size c o = Handed fuel channels input size c o

  -- Where positions are exact and the input rate is at most three times the output rate, each of the
  -- callbacks on i16, u16 and f32 samples, in a state between callbacks and with enough fuel for its
  -- input, returns without a panic and leaves a state between callbacks. With a session's channel as
  -- the target, the chunks that it hands on have exactly the chunk size, and with what stays in the
  -- buffer they are, in order, the buffer before and what the resampler, from its state before to its
  -- state after, makes of the samples converted to 16 bits and mixed to one channel. With no target
  -- it hands on nothing, empties the buffer and leaves the resampler as it is.
  pub callbacks-Called :
      (fuel : ℕ) (f32 : Float) (target : Option ℕ) (c : Capture fl) (channels : ℕ) (xs : List ℤ)
      (us : List ℕ) (fs : List (f32.Num)) (size : ℕ)
      → IsKept size c
      → Fits fuel c (length (to_mono channels xs))
      → Fits fuel c (length (to_mono channels (map of_u16 us)))
      → Fits fuel c (length (to_mono channels (map (of_f32 f32) fs)))
      → Called fuel channels xs target size c (process_i16 fl fuel target c channels xs size)
        × Called fuel channels
            (map of_u16 us)
            target
            size
            c
            (process_u16 fl fuel target c channels us size)
        × Called fuel channels
            (map (of_f32 f32) fs)
            target
            size
            c
            (process_f32 fl f32 fuel target c channels fs size)
  unfolding process_i16 process_u16 process_f32
  callbacks-Called fuel f32 none c channels xs us fs size kept at_xs at_us at_fs =
      let cleared = cleared-Kept size c kept in ((refl, cleared), (refl, cleared), (refl, cleared))
  callbacks-Called fuel f32 (some tx) c channels xs us fs size kept at_xs at_us at_fs = (
    push-Handed fuel c channels xs size kept at_xs,
    push-Handed fuel c channels (map of_u16 us) size kept at_us,
    push-Handed fuel c channels (map (of_f32 f32) fs) size kept at_fs,
  )
