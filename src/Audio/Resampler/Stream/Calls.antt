-- ===== src/Audio/Resampler/Stream/Calls.antt =====
-- The resampler over a stream of calls.
use fcitx5_anytalk.Prelude.{
  ◌≢◌, refl, ℕ, ◌+◌, ◌*◌, ◌≤◌, ◌<◌, ◌≡◌, List, [], ◌∷◌, ◌++◌, arith, length, concat, length-append,
  append-nil, append_assoc,
}
use fcitx5_anytalk.Prelude.Quotients.{mul_mono}
use fcitx5_anytalk.Prelude.Int.{ℤ}
use fcitx5_anytalk.Audio.Float.{Float, IsExact}
use fcitx5_anytalk.Audio.Resampler.{StreamingResampler, Outcome, done, new, process}
use fcitx5_anytalk.Audio.Resampler.Bounds.{process-Resampled}
use fcitx5_anytalk.Audio.Resampler.Stream.{feed, Ready, IsResampling, Resampling-unique}
use fcitx5_anytalk.Audio.Resampler.Stream.Steps.{Streams, Streams-all, next-Streams}

module _ (fl : Float) (in_rate out_rate : ℕ) (exact : IsExact fl in_rate out_rate)
    (pos_in : 0 < in_rate) (pos_out : 0 < out_rate) where
  open exact use {ticks, is_position, limit}

  -- What a run over a list of inputs returns.
  pub record Fed (xs outs : List ℤ) (inputs : List (List ℤ))
      (o : Outcome (List ℤ × StreamingResampler fl)) : Type 0 where
    pub out : List ℤ
    pub next : StreamingResampler fl
    pub returned : o ≡ done (out, next)
    pub streams :
        Streams fl in_rate out_rate exact pos_in pos_out (xs ++ concat inputs) (outs ++ out) next

  feed_step :
      (fuel : ℕ) (r r' r'' : StreamingResampler fl) (input : List ℤ) (inputs : List (List ℤ))
      (out outs : List ℤ)
      → process fl fuel r input ≡ done (out, r')
      → feed fl fuel r' inputs ≡ done (outs, r'')
      → feed fl fuel r (input ∷ inputs) ≡ done (out ++ outs, r'')
  unfolding feed
  feed_step fuel r r' r'' input inputs out outs call rest = ground (arith, call, rest)

  -- The fuel and the exactness that a stream of `n` samples takes.
  abbrev pub Fits : ℕ → ℕ → Type 0
  Fits fuel n = ((n + 2) * out_rate + in_rate ≤ limit) × ((n + 2) * out_rate < fuel)

  Fits-le :
      (fuel n m : ℕ)
      → m ≤ n + 2
      → Fits fuel n
      → (m * out_rate + in_rate ≤ limit) × (m * out_rate < fuel)
  Fits-le fuel n m le (fits, enough) =
      let small = mul_mono m (n + 2) out_rate le in (omega (arith, small), omega (arith, small))

  feed-Fed :
      (fuel : ℕ) (xs outs : List ℤ) (r : StreamingResampler fl) (inputs : List (List ℤ))
      → in_rate ≢ out_rate
      → in_rate ≤ 3 * out_rate
      → Streams fl in_rate out_rate exact pos_in pos_out xs outs r
      → Fits fuel (length (concat inputs))
      → Fed xs outs inputs (feed fl fuel r inputs)
  feed-Fed fuel xs outs r [] ne third s fits = record {
    out = [];
    next = r;
    returned = unfold feed in refl;
    streams = rw (append-nil xs, append-nil outs) s;
  }
  feed-Fed fuel xs outs r (input ∷ inputs) ne third s fits =
      let size = length-append input (concat inputs) in
      let (exactly, enough) =
        Fits-le fuel (length (concat (input ∷ inputs))) (length r.tail + length input)
          (omega (arith, size, s.ready.short)) fits in
      let call =
        process-Resampled fl in_rate out_rate exact pos_in pos_out fuel r input ne third s.ready
          exactly enough in
      let here = next-Streams fl in_rate out_rate exact pos_in pos_out xs outs input r _ s call in
      let (fits', enough') =
        Fits-le fuel (length (concat (input ∷ inputs))) (length (concat inputs) + 2)
          (omega (arith, size)) fits in
      let rest =
        feed-Fed fuel (xs ++ input) (outs ++ call.out) call.next inputs ne third here
          (fits', enough') in
      record {
        out = call.out ++ rest.out;
        next = rest.next;
        returned =
            feed_step fuel r call.next rest.next input inputs call.out rest.out call.returned
              rest.returned;
        streams =
            rw⁻¹ (append_assoc xs input (concat inputs))
              (rw⁻¹ (append_assoc outs call.out rest.out) rest.streams);
      }

  fresh-Streams : Streams fl in_rate out_rate exact pos_in pos_out [] [] (new fl in_rate out_rate)
  unfolding new
  fresh-Streams = record {
    ready = record {
      in_eq = refl;
      out_eq = refl;
      at = exact.at_zero.0;
      low = omega (arith, exact.at_zero.1);
      short = omega arith;
      waits = omega arith;
    };
    gone = 0;
    within = omega arith;
    tail = refl;
    clock = omega (arith, exact.at_zero.1);
    each = λ n less. absurd (omega arith);
  }

  -- What a run of calls on a fresh resampler returns.
  pub record Follows (inputs : List (List ℤ)) (o : Outcome (List ℤ × StreamingResampler fl))
      : Type 0 where
    pub out : List ℤ
    pub next : StreamingResampler fl
    pub returned : o ≡ done (out, next)
    pub ready : Ready fl in_rate out_rate exact pos_in pos_out next
    pub resampling : IsResampling fl in_rate out_rate exact pos_in pos_out (concat inputs) out

  -- Between different rates, the input rate at most three times the output rate, on a stream for
  -- which positions are exact and with enough fuel for it, the calls of `process` on a fresh
  -- resampler return without a panic, and all that they put out is the signal at the times of the
  -- output rate: the n-th output lies on the straight line between the two inputs around the time
  -- n * in_rate / out_rate, and there is one for each such time that the inputs reach, however the
  -- stream is cut into calls.
  pub feed-Follows :
      (fuel : ℕ) (inputs : List (List ℤ))
      → in_rate ≢ out_rate
      → in_rate ≤ 3 * out_rate
      → Fits fuel (length (concat inputs))
      → Follows inputs (feed fl fuel (new fl in_rate out_rate) inputs)
  feed-Follows fuel inputs ne third fits =
      let fed = feed-Fed fuel [] [] (new fl in_rate out_rate) inputs ne third fresh-Streams fits in
      record {
        out = fed.out;
        next = fed.next;
        returned = fed.returned;
        ready = fed.streams.ready;
        resampling = record {
          each = fed.streams.each;
          all =
              Streams-all fl in_rate out_rate exact pos_in pos_out (concat inputs) fed.out fed.next
                fed.streams;
        };
      }

  -- So what is put out depends on the stream alone: under the same conditions, two ways to cut the
  -- same samples into calls give the same output.
  pub feed-split :
      (fuel : ℕ) (inputs inputs' : List (List ℤ)) (out out' : List ℤ) (r r' : StreamingResampler fl)
      → in_rate ≢ out_rate
      → in_rate ≤ 3 * out_rate
      → Fits fuel (length (concat inputs))
      → concat inputs ≡ concat inputs'
      → feed fl fuel (new fl in_rate out_rate) inputs ≡ done (out, r)
      → feed fl fuel (new fl in_rate out_rate) inputs' ≡ done (out', r')
      → out ≡ out'
  feed-split fuel inputs inputs' out out' r r' ne third fits same ran ran' =
      let f = feed-Follows fuel inputs ne third fits in
      let f' = feed-Follows fuel inputs' ne third (rw (← same) fits) in
      let equal =
        Resampling-unique fl in_rate out_rate exact pos_in pos_out (concat inputs) f.out f'.out
          f.resampling (rw same f'.resampling) in
      ground (arith, ran, ran', f.returned, f'.returned, equal)
