-- ===== src/Audio/Capture/Chunks.antt =====
-- The chunks that the stream callbacks take off their buffer.
use fcitx5_anytalk.Prelude.{
  ℕ, zero, suc, ◌≤◌, ◌<◌, ◌≡◌, refl, ap, ◌∙◌, inl, inr, Bool-cases, List, [], ◌∷◌, ◌++◌, leb,
  length, take, drop, concat, All, arith, take-append-drop, length-take, length-drop, append_assoc,
}
use fcitx5_anytalk.Prelude.Int.{ℤ}
use fcitx5_anytalk.Audio.Capture.{drain_chunks}

-- A buffer cut into chunks of a size, less than a chunk being left.
pub record IsCut (size : ℕ) (buffer : List ℤ) (cut : List (List ℤ) × List ℤ) : Type 0 where
  pub whole : concat (cut.0) ++ cut.1 ≡ buffer
  pub full : All (λ c. length c ≡ size) (cut.0)
  pub less : length (cut.1) < size

drain_stop :
    (fuel size : ℕ) (buffer : List ℤ)
    → length buffer < size
    → drain_chunks (suc fuel) size buffer ≡ ([], buffer)
unfolding drain_chunks
drain_stop fuel size buffer h = ground arith

drain_more :
    (fuel size : ℕ) (buffer : List ℤ)
    → size ≤ length buffer
    → let rest = drain_chunks fuel size (drop size buffer) in
      drain_chunks (suc fuel) size buffer ≡ (take size buffer ∷ rest.0, rest.1)
unfolding drain_chunks
drain_more fuel size buffer h = ground arith

-- With as much fuel as the buffer has samples, the chunks taken off and what is left are the buffer
-- in order, each chunk has the size, and less than a chunk is left.
pub drain_chunks-Cut :
    (fuel size : ℕ) (buffer : List ℤ)
    → 0 < size
    → length buffer ≤ fuel
    → IsCut size buffer (drain_chunks fuel size buffer)
drain_chunks-Cut zero size buffer some h = record {
  whole = unfold drain_chunks in refl;
  full = unfold drain_chunks in tt;
  less = unfold drain_chunks in omega arith;
}
drain_chunks-Cut (suc fuel) size buffer some h = elim (Bool-cases (leb size (length buffer))) [
  | inl more ↦
      let enough : size ≤ length buffer = ground (arith, more) in
      let cut =
        drain_chunks-Cut fuel size (drop size buffer) some
          (omega (arith, length-drop size buffer)) in
      rw (drain_more fuel size buffer enough) record {
        whole =
            rw append_assoc
              (ap (λ t. take size buffer ++ t) cut.whole ∙ take-append-drop size buffer);
        full = (omega (arith, length-take size buffer), cut.full);
        less = cut.less;
      }
  | inr stop ↦
      let short : length buffer < size = ground (arith, stop) in
      rw (drain_stop fuel size buffer short) record { whole = refl; full = tt; less = short }
]
