-- ===== src/Audio/Resampler.antt =====
-- StreamingResampler of anytalk-daemon/src/audio.rs. The loop takes fuel, and a slice past the end
-- is a panic.
pub mod Times
pub mod Rounds
pub mod Bounds
pub mod Rates
pub mod Stream
use fcitx5_anytalk.Prelude.{
  ℕ, zero, suc, ◌+◌, ◌-◌, ◌≡◌, Bool, true, false, List, [], ◌∷◌, ◌++◌, Option, none, some, ltb, leb,
  ◌==◌, if◌then◌else◌, length, drop, get_elem?,
}
use fcitx5_anytalk.Prelude.Int.{ℤ, pos, negsuc}
use fcitx5_anytalk.Audio.Float.{Float}

pub record StreamingResampler (fl : Float) : Type 0 where
  pub in_rate : ℕ
  pub out_rate : ℕ
  pub position : fl.Num
  pub tail : List ℤ

-- A result, a panic, or no result within the fuel.
pub data Outcome {ℓ} (A : Type ℓ) : Type ℓ where
  done : A → Outcome A
  panicked : Outcome A
  no_fuel : Outcome A

module _ (fl : Float) where
  open fl use {Num, of_usize, of_i16, add, sub, mul, div, floor, round, clamp, as_usize, as_i16}

  unfoldable pub new : ℕ → ℕ → StreamingResampler fl
  new in_rate out_rate = record {
    in_rate = in_rate;
    out_rate = out_rate;
    position = of_usize 0;
    tail = [];
  }

  -- `pos.floor() as usize`.
  unfoldable pub index : Num → ℕ
  index x = as_usize (floor x)

  -- The sample between two neighbours: `v0 * (1.0 - frac) + v1 * frac`, rounded and clamped.
  unfoldable pub interpolate : Num → ℕ → ℤ → ℤ → ℤ
  interpolate x i0 s0 s1 =
      let frac = sub x (of_usize i0) in
      let v = add (mul (of_i16 s0) (sub (of_usize 1) frac)) (mul (of_i16 s1) frac) in
      as_i16 (clamp (round v) (of_i16 (negsuc 32767)) (of_i16 (pos 32767)))

  -- The loop over the samples `merged`, from a position: the samples put out, and the position in
  -- the end.
  unfoldable pub resample_loop : ℕ → List ℤ → Num → Num → List ℤ → Outcome (List ℤ × Num)
  resample_loop zero merged step x out = no_fuel
  resample_loop (suc fuel) merged step x out =
      let i0 = index x in
      if leb (length merged) (i0 + 1) then done (out, x) else elim (get_elem? merged i0) [
        | none ↦ panicked
        | some s0 ↦ elim (get_elem? merged (i0 + 1)) [
          | none ↦ panicked
          | some s1 ↦
              resample_loop fuel merged step (add x step) (out ++ (interpolate x i0 s0 s1 ∷ []))
        ]
      ]

  -- What is kept for the next call, `merged[keep_from..]`, and the position in it.
  unfoldable pub keep_tail :
      StreamingResampler fl → List ℤ → List ℤ × Num → Outcome (List ℤ × StreamingResampler fl)
  keep_tail r merged (out, x) =
      let keep_from = index x - 1 in
      if ltb (length merged) keep_from
      then panicked
      else done
          (out, record r { tail = drop keep_from merged; position = sub x (of_usize keep_from) })

  -- The fuel is an argument; Resampler/Bounds says how much is enough.
  unfoldable pub process :
      ℕ → StreamingResampler fl → List ℤ → Outcome (List ℤ × StreamingResampler fl)
  process fuel r input = if r.in_rate == r.out_rate then done (input, r) else elim input [
    | [] ↦ done ([], r)
    | s ∷ rest ↦
        let merged = r.tail ++ (s ∷ rest) in
        let step = div (of_usize r.in_rate) (of_usize r.out_rate) in
        elim (resample_loop fuel merged step r.position []) [
          | done result ↦ keep_tail r merged result
          | panicked ↦ panicked
          | no_fuel ↦ no_fuel
        ]
  ]
