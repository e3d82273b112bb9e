-- ===== src/Audio/Resampler/Stream/Steps.antt =====
-- What a call of the resampler does to a stream: an invariant of the samples that have gone in and
-- those that have come out.
use fcitx5_anytalk.Prelude.{
  sym, ◌∙◌, ap, ℕ, ◌+◌, ◌-◌, ◌*◌, ◌/◌, ◌≤◌, ◌<◌, ◌≡◌, List, ◌++◌, none, some, arith, length, drop,
  get_elem?, length-append, length-drop, dec_lt,
}
use fcitx5_anytalk.Prelude.Quotients.{div-add_turns}
use fcitx5_anytalk.Prelude.Indices.{
  get_elem?-append_left, get_elem?-append_right, get_elem?-some, drop-drop, drop-append,
}
use fcitx5_anytalk.Prelude.Int.{ℤ}
use fcitx5_anytalk.Audio.Float.{Float, IsExact}
use fcitx5_anytalk.Audio.Resampler.{StreamingResampler, Outcome}
use fcitx5_anytalk.Audio.Resampler.Times.{value_at-drop, value_at-append, value_at-none}
use fcitx5_anytalk.Audio.Resampler.Bounds.{Resampled}
use fcitx5_anytalk.Audio.Resampler.Stream.{signal, Ready}

module _ (fl : Float) (in_rate out_rate : ℕ) (exact : IsExact fl in_rate out_rate)
    (pos_in : 0 < in_rate) (pos_out : 0 < out_rate) where
  open exact use {ticks, is_position, limit}

  -- What holds after the samples `xs` have gone in and `outs` have come out.
  pub record Streams (xs outs : List ℤ) (r : StreamingResampler fl) : Type 0 where
    pub ready : Ready fl in_rate out_rate exact pos_in pos_out r
    pub gone : ℕ
    pub within : gone ≤ length xs
    pub tail : r.tail ≡ drop gone xs
    pub clock : ticks r.position + gone * out_rate ≡ length outs * in_rate
    pub each :
        (n : ℕ)
        → n < length outs
        → get_elem? outs n ≡ (signal fl in_rate out_rate exact pos_in pos_out) xs (n * in_rate)

  pub Streams-all :
      (xs outs : List ℤ) (r : StreamingResampler fl)
      → Streams xs outs r
      → (signal fl in_rate out_rate exact pos_in pos_out) xs (length outs * in_rate) ≡ none
  Streams-all xs outs r s =
      let turns = div-add_turns (ticks r.position) s.gone out_rate pos_out in
      let at = ap (λ (n : ℕ). n / out_rate) s.clock in
      let size = ap length s.tail ∙ length-drop s.gone xs in
      value_at-none fl out_rate exact.frac pos_out xs (length outs * in_rate)
        (omega (arith, turns, at, size, s.ready.waits, s.within))

  -- A value that is known stays when samples are added.
  signal-more :
      (xs ys : List ℤ) (t : ℕ) (v : ℤ)
      → (signal fl in_rate out_rate exact pos_in pos_out) xs t ≡ some v
      → (signal fl in_rate out_rate exact pos_in pos_out) (xs ++ ys) t ≡ some v
  signal-more xs ys t v h = elim (dec_lt (t / out_rate + 1) (length xs)) [
    | yes known ↦ value_at-append fl out_rate exact.frac pos_out xs ys t known ∙ h
    | no other ↦ absurd (
        ground (arith, h, value_at-none fl out_rate exact.frac pos_out xs t (omega (arith, other))))
  ]

  -- The times before and after a call, as one sum.
  clock_sum :
      (z gone n m y k d i : ℕ)
      → z + gone * d ≡ n * i
      → z + m * i ≡ y + k * d
      → y + (gone + k) * d ≡ (n + m) * i
  clock_sum z gone n m y k d i before call = grind (arith, before, call)

  -- An output of one call, in the whole stream.
  later_each :
      (xs outs input out : List ℤ) (r : StreamingResampler fl) (s : Streams xs outs r) (j : ℕ)
      → get_elem? out j
        ≡ (signal fl in_rate out_rate exact pos_in pos_out)
            (r.tail ++ input)
            (ticks r.position + j * in_rate)
      → get_elem? (outs ++ out) (length outs + j)
        ≡ (signal fl in_rate out_rate exact pos_in pos_out)
            (xs ++ input)
            ((length outs + j) * in_rate)
  later_each xs outs input out r s j here =
      let same : r.tail ++ input ≡ drop s.gone (xs ++ input) =
        ap (λ (t : List ℤ). t ++ input) s.tail ∙ sym (drop-append s.gone xs input s.within) in
      let time : ticks r.position + j * in_rate + s.gone * out_rate ≡ (length outs + j) * in_rate =
        grind (arith, s.clock) in
      get_elem?-append_right outs out j
      ∙ here
      ∙ ap
          (λ (t : List ℤ).
            (signal fl in_rate out_rate exact pos_in pos_out) t (ticks r.position + j * in_rate))
          same
      ∙ value_at-drop fl out_rate exact.frac pos_out s.gone (xs ++ input)
          (ticks r.position + j * in_rate)
      ∙ ap ((signal fl in_rate out_rate exact pos_in pos_out) (xs ++ input)) time

  all_each :
      (xs outs input out : List ℤ) (r : StreamingResampler fl)
      → Streams xs outs r
      → ((j : ℕ)
          → j < length out
          → get_elem? out j
            ≡ (signal fl in_rate out_rate exact pos_in pos_out)
                (r.tail ++ input)
                (ticks r.position + j * in_rate))
      → (n : ℕ) → n < length (outs ++ out)
      → get_elem? (outs ++ out) n
        ≡ (signal fl in_rate out_rate exact pos_in pos_out) (xs ++ input) (n * in_rate)
  all_each xs outs input out r s values n less = elim (dec_lt n (length outs)) [
    | yes old ↦
        let (v, here) = get_elem?-some outs n old in
        get_elem?-append_left outs out n old
        ∙ here
        ∙ sym (signal-more xs input (n * in_rate) v (sym (s.each n old) ∙ here))
    | no fresh ↦
        let j = n - length outs in
        let at : length outs + j ≡ n = omega (arith, fresh) in
        let inside : j < length out = omega (arith, fresh, less, length-append outs out) in
        ap (get_elem? (outs ++ out)) (sym at)
        ∙ later_each xs outs input out r s j (values j inside)
        ∙ ap
            (λ (k : ℕ).
              (signal fl in_rate out_rate exact pos_in pos_out) (xs ++ input) (k * in_rate))
            at
  ]

  pub next-Streams :
      (xs outs input : List ℤ) (r : StreamingResampler fl)
      (o : Outcome (List ℤ × StreamingResampler fl)) (s : Streams xs outs r)
      (call : Resampled fl in_rate out_rate exact pos_in pos_out r input o)
      → Streams (xs ++ input) (outs ++ call.out) call.next
  next-Streams xs outs input r o s call = record {
    ready = call.ready;
    gone = s.gone + call.dropped;
    within = omega (
      arith,
      call.within,
      s.within,
      length-append r.tail input,
      length-append xs input,
      ap length s.tail,
      length-drop s.gone xs,
    );
    tail =
        call.kept
        ∙ ap (λ (t : List ℤ). drop call.dropped (t ++ input)) s.tail
        ∙ ap (drop call.dropped) (sym (drop-append s.gone xs input s.within))
        ∙ drop-drop call.dropped s.gone (xs ++ input);
    clock =
        clock_sum _ s.gone (length outs) (length call.out) _ call.dropped out_rate in_rate s.clock
          call.moved
        ∙ ap (λ (n : ℕ). n * in_rate) (sym (length-append outs call.out));
    each = all_each xs outs input call.out r s call.values;
  }
