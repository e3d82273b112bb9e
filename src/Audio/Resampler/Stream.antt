-- ===== src/Audio/Resampler/Stream.antt =====
-- The resampler over a whole stream: what is put out is the signal at the times of the output rate,
-- whatever the sizes of the calls.
pub mod Steps
pub mod Calls
use fcitx5_anytalk.Prelude.{
  ◌≢◌, refl, sym, ◌∙◌, ap, true, ℕ, zero, suc, ◌+◌, ◌-◌, ◌*◌, ◌/◌, ◌≤◌, ◌<◌, ◌≡◌, ◌⊎◌, inl, inr,
  List, [], ◌∷◌, ◌++◌, Option, none, some, arith, length, drop, get_elem?, concat, length-append,
  length-drop, append-nil, append_assoc, dec_lt,
}
use fcitx5_anytalk.Prelude.Quotients.{mul_mono, div-add_turns}
use fcitx5_anytalk.Prelude.Indices.{
  get_elem?-append_left, get_elem?-append_right, get_elem?-none, get_elem?-some, drop-drop,
  drop-append, eq_of_get_elem?,
}
use fcitx5_anytalk.Prelude.Int.{ℤ}
use fcitx5_anytalk.Audio.Float.{Float, IsExact}
use fcitx5_anytalk.Audio.Resampler.{
  StreamingResampler, Outcome, done, panicked, no_fuel, new, process,
}
use fcitx5_anytalk.Audio.Resampler.Times.{value_at, value_at-drop, value_at-append, value_at-none}
use fcitx5_anytalk.Audio.Resampler.Bounds.{IsReady, Resampled, process-Resampled}

-- The calls of `process` on a list of inputs, one after the other, and all that they put out.
unfoldable pub feed :
    (fl : Float)
    → ℕ
    → StreamingResampler fl
    → List (List ℤ)
    → Outcome (List ℤ × StreamingResampler fl)
feed fl fuel r [] = done ([], r)
feed fl fuel r (input ∷ inputs) = elim (process fl fuel r input) [
  | panicked ↦ panicked
  | no_fuel ↦ no_fuel
  | done (out, r') ↦ elim (feed fl fuel r' inputs) [
    | panicked ↦ panicked
    | no_fuel ↦ no_fuel
    | done (outs, r'') ↦ done (out ++ outs, r'')
  ]
]

module _ (fl : Float) (in_rate out_rate : ℕ) (exact : IsExact fl in_rate out_rate)
    (pos_in : 0 < in_rate) (pos_out : 0 < out_rate) where
  open exact use {ticks, is_position, limit}

  -- The signal `xs` at a tick.
  abbrev pub signal : List ℤ → ℕ → Option ℤ
  signal = value_at fl out_rate exact.frac

  abbrev pub Ready : StreamingResampler fl → Type 0
  Ready = IsReady fl in_rate out_rate exact pos_in pos_out

  -- `outs` is the whole signal at the times of the output rate.
  pub record IsResampling (xs outs : List ℤ) : Type 0 where
    pub each : (n : ℕ) → n < length outs → get_elem? outs n ≡ signal xs (n * in_rate)
    pub all : signal xs (length outs * in_rate) ≡ none

  -- It is determined by the signal.
  longer_none :
      (xs short long : List ℤ)
      → IsResampling xs short
      → IsResampling xs long
      → length short ≤ length long
      → length long ≤ length short
  longer_none xs short long s l le = elim (dec_lt (length short) (length long)) [
    | no other ↦ omega (arith, other)
    | yes less ↦
        let (a, here) = get_elem?-some long (length short) less in
        absurd (ground (arith, here, l.each (length short) less, s.all))
  ]

  same_length : (xs o o' : List ℤ) → IsResampling xs o → IsResampling xs o' → length o ≡ length o'
  same_length xs o o' r r' = elim (dec_lt (length o) (length o')) [
    | yes less ↦ omega (arith, longer_none xs o o' r r' (omega arith))
    | no other ↦ omega (arith, other, longer_none xs o' o r' r (omega (arith, other)))
  ]

  pub Resampling-unique : (xs o o' : List ℤ) → IsResampling xs o → IsResampling xs o' → o ≡ o'
  Resampling-unique xs o o' r r' =
      let same = same_length xs o o' r r' in
      eq_of_get_elem? o o' (λ n. elim (dec_lt n (length o)) [
        | yes less ↦ r.each n less ∙ sym (r'.each n (omega (arith, same, less)))
        | no other ↦
            get_elem?-none o n (omega (arith, other))
            ∙ sym (get_elem?-none o' n (omega (arith, other, same)))
      ])
