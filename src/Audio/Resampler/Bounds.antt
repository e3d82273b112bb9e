-- ===== src/Audio/Resampler/Bounds.antt =====
-- The resampler ends, stays within the samples that it has, and keeps the rate, where positions are
-- exact and the input rate is at most three times the output rate.
use fcitx5_anytalk.Prelude.{
  ◌≢◌, refl, sym, ◌∙◌, Option, get_elem?, append-nil, true, ℕ, ◌+◌, ◌-◌, ◌*◌, ◌/◌, ◌≤◌, ◌<◌, ◌≡◌,
  ap, ◌⊎◌, inl, inr, List, [], ◌∷◌, ◌++◌, arith, length, drop, length-append, length-drop,
}
use native.Mathlib.Nat.{le_trans}
use fcitx5_anytalk.Prelude.Int.{ℤ}
use fcitx5_anytalk.Audio.Float.{Float, IsExact}
use fcitx5_anytalk.Audio.Resampler.{
  StreamingResampler, Outcome, done, index, resample_loop, keep_tail, process,
}
use fcitx5_anytalk.Prelude.Quotients.{div_mul_le, lt_div_mul, mul_mono, div_lt, div-add_turns}
use fcitx5_anytalk.Audio.Resampler.Times.{value_at}
use fcitx5_anytalk.Audio.Resampler.Rounds.{index-ticks, Stops, loop-Stops}

module _ (fl : Float) (in_rate out_rate : ℕ) (exact : IsExact fl in_rate out_rate)
    (pos_in : 0 < in_rate) (pos_out : 0 < out_rate) where
  open fl use {Num, of_usize, add, sub, div}
  open exact use {ticks, is_position, limit}

  abbrev pub value : List ℤ → ℕ → Option ℤ
  value = value_at fl out_rate exact.frac

  index_eq : (x : Num) → is_position x ≡ true → index fl x ≡ ticks x / out_rate
  index_eq = index-ticks fl in_rate out_rate exact pos_in pos_out

  rounds-Stops :
      (fuel : ℕ) (merged : List ℤ) (x : Num) (acc : List ℤ)
      → is_position x ≡ true
      → length merged * out_rate + in_rate ≤ limit
      → length merged * out_rate - ticks x < fuel
      → Stops fl in_rate out_rate exact pos_in pos_out merged x acc
          (resample_loop fl fuel merged (div (of_usize in_rate) (of_usize out_rate)) x acc)
  rounds-Stops = loop-Stops fl in_rate out_rate exact pos_in pos_out

  -- Where the loop stops, the samples before the position are all there and may be let go.
  stop_in_range :
      (merged : List ℤ) (x y : Num)
      → is_position y ≡ true
      → in_rate ≤ 3 * out_rate
      → ticks x < 2 * out_rate
      → ((ticks y ≡ ticks x) ⊎ (ticks y + out_rate < length merged * out_rate + in_rate))
      → index fl y - 1 ≤ length merged
  stop_in_range merged x y at third low (inl same) =
      let below : ticks y < 2 * out_rate = omega (arith, same) in
      omega (arith, index_eq y at, div_lt (ticks y) 2 out_rate below)
  stop_in_range merged x y at third low (inr close) =
      let below : ticks y < (length merged + 2) * out_rate = omega arith in
      omega (arith, index_eq y at, div_lt (ticks y) (length merged + 2) out_rate below)

  -- The position left in the samples that are kept.
  kept_position :
      (y : Num)
      → is_position y ≡ true
      → ((index fl y - 1) * out_rate ≤ ticks y)
        × (ticks y < (index fl y - 1) * out_rate + 2 * out_rate)
  kept_position y at = rw (index_eq y at) (kept_ticks (ticks y) out_rate pos_out)
    where
      kept_ticks : (t d : ℕ) → 0 < d → ((t / d - 1) * d ≤ t) × (t < (t / d - 1) * d + 2 * d)
      kept_ticks t d h = (
        le_trans (mul_mono (t / d - 1) (t / d) d (omega arith)) (div_mul_le t d),
        omega (arith, lt_div_mul t d h, mul_mono (t / d) (t / d - 1 + 1) d (omega arith)),
      )

  -- The state of a resampler between calls.
  pub record IsReady (r : StreamingResampler fl) : Type 0 where
    pub in_eq : r.in_rate ≡ in_rate
    pub out_eq : r.out_rate ≡ out_rate
    pub at : is_position r.position ≡ true
    pub low : ticks r.position < 2 * out_rate
    pub short : length r.tail ≤ 2
    pub waits : length r.tail ≤ ticks r.position / out_rate + 1

  -- A result of `process`: the next state, the time that it accounts for, in ticks, the samples let
  -- go, and what is put out.
  pub record Resampled (r : StreamingResampler fl) (input : List ℤ)
      (o : Outcome (List ℤ × StreamingResampler fl)) : Type 0 where
    pub out : List ℤ
    pub next : StreamingResampler fl
    pub returned : o ≡ done (out, next)
    pub ready : IsReady next
    pub time :
        length out * in_rate + ticks r.position + length next.tail * out_rate
        ≡ (length r.tail + length input) * out_rate + ticks next.position
    pub dropped : ℕ
    pub within : dropped ≤ length (r.tail ++ input)
    pub kept : next.tail ≡ drop dropped (r.tail ++ input)
    pub moved : ticks r.position + length out * in_rate ≡ ticks next.position + dropped * out_rate
    pub values :
        (j : ℕ)
        → j < length out
        → get_elem? out j ≡ value (r.tail ++ input) (ticks r.position + j * in_rate)

  process_at :
      (fuel : ℕ) (r : StreamingResampler fl) (s : ℤ) (rest : List ℤ) (out : List ℤ) (y : Num)
      → r.in_rate ≡ in_rate
      → r.out_rate ≡ out_rate
      → in_rate ≢ out_rate
      → resample_loop fl fuel
          (r.tail ++ (s ∷ rest))
          (div (of_usize in_rate) (of_usize out_rate))
          r.position
          []
        ≡ done (out, y)
      → index fl y - 1 ≤ length (r.tail ++ (s ∷ rest))
      → process fl fuel r (s ∷ rest)
        ≡ done (
          out,
          record r {
            tail = drop (index fl y - 1) (r.tail ++ (s ∷ rest));
            position = sub y (of_usize (index fl y - 1));
          },
        )
  unfolding process keep_tail
  process_at fuel r s rest out y ein eout ne looped room = ground (arith, looped)

  kept_time : (m k t d y z : ℕ) → m ≡ k + t → k * d ≤ y → z ≡ y - k * d → y + t * d ≡ m * d + z
  kept_time m k t d y z split le sub_eq = rw split (omega arith)

  -- What is kept ends at most one sample after the position.
  kept_waits :
      (y : Num) (z keep m t : ℕ)
      → is_position y ≡ true
      → keep * out_rate ≤ ticks y
      → z ≡ ticks y - keep * out_rate
      → m ≤ index fl y + 1
      → t ≡ m - keep
      → t ≤ z / out_rate + 1
  kept_waits y z keep m t at le moved past size =
      let whole : z + keep * out_rate ≡ ticks y = omega (arith, moved, le) in
      let turns : ticks y / out_rate ≡ z / out_rate + keep =
        ap (λ (n : ℕ). n / out_rate) (sym whole) ∙ div-add_turns z keep out_rate pos_out in
      omega (arith, turns, past, size, index_eq y at)

  process-some :
      (fuel : ℕ) (r : StreamingResampler fl) (s : ℤ) (rest : List ℤ)
      → in_rate ≢ out_rate
      → in_rate ≤ 3 * out_rate
      → IsReady r
      → length (r.tail ++ (s ∷ rest)) * out_rate + in_rate ≤ limit
      → length (r.tail ++ (s ∷ rest)) * out_rate < fuel
      → Resampled r (s ∷ rest) (process fl fuel r (s ∷ rest))
  process-some fuel r s rest ne third ready fits enough =
      let merged = r.tail ++ (s ∷ rest) in
      let loop = rounds-Stops fuel merged r.position [] ready.at fits (omega arith) in
      let y = loop.end_at in
      let keep = index fl y - 1 in
      let room = stop_in_range merged r.position y loop.at third ready.low loop.near in
      let (le, lt) = kept_position y loop.at in
      let (at, moved) = exact.sub_ticks y keep loop.at le in
      let tail_length = length-drop keep merged in
      record {
        out = loop.added;
        next = record r { tail = drop keep merged; position = sub y (of_usize keep) };
        returned =
            process_at fuel r s rest loop.added y ready.in_eq ready.out_eq ne loop.returned room;
        ready = record {
          in_eq = ready.in_eq;
          out_eq = ready.out_eq;
          at = at;
          low = omega (arith, moved, lt, le);
          short = omega (arith, tail_length, loop.past);
          waits =
              kept_waits y (ticks (sub y (of_usize keep))) keep (length merged) _ loop.at le moved
                loop.past tail_length;
        };
        time =
            let split : length merged ≡ keep + length (drop keep merged) =
              omega (arith, tail_length, room) in
            let whole =
              kept_time (length merged) keep (length (drop keep merged)) out_rate (ticks y) _ split
                le moved in
            let sizes = ap (λ (m : ℕ). m * out_rate) (length-append r.tail (s ∷ rest)) in
            omega (arith, whole, loop.rate, sizes);
        dropped = keep;
        within = room;
        kept = refl;
        moved = omega (arith, loop.rate, moved, le);
        values = loop.values;
      }

  -- One call of `process` between different rates, the input rate at most three times the output
  -- rate, from a state between calls, on input for which positions are exact, with fuel above the
  -- samples times the output rate: it returns without a panic, and the state is again one between
  -- calls, with the position below the third sample and at most two samples kept. The time of the samples put out is the time of the samples
  -- let go, so that the rates are kept whatever the sizes of the calls.
  pub process-Resampled :
      (fuel : ℕ) (r : StreamingResampler fl) (input : List ℤ)
      → in_rate ≢ out_rate
      → in_rate ≤ 3 * out_rate
      → IsReady r
      → (length r.tail + length input) * out_rate + in_rate ≤ limit
      → (length r.tail + length input) * out_rate < fuel
      → Resampled r input (process fl fuel r input)
  process-Resampled fuel r [] ne third ready fits enough = record {
    out = [];
    next = r;
    returned = unfold process in ground (arith, ready, ne);
    ready = ready;
    time = omega arith;
    dropped = 0;
    within = omega arith;
    kept = sym (append-nil r.tail);
    moved = omega arith;
    values = λ j less. absurd (omega arith);
  }
  process-Resampled fuel r (s ∷ rest) ne third ready fits enough =
      process-some fuel r s rest ne third ready (rw length-append fits) (rw length-append enough)
