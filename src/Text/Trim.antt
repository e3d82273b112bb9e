-- ===== src/Text/Trim.antt =====
-- What trimming leaves: no space at either end, and nothing else is taken away.
use fcitx5_anytalk.Prelude.{◌≡◌, refl, false, [], ◌∷◌, arith}
use fcitx5_anytalk.Text.{Text, is_whitespace, trim_start, trim_end, trim}

-- No white space at the front.
abbrev Flush : Text → Type 0
Flush [] = Unit {0}
Flush (c ∷ cs) = is_whitespace c ≡ false

trim_start_front : (t : Text) → Flush (trim_start t)
unfolding trim_start
trim_start_front [] = tt
trim_start_front (c ∷ cs) = ground (arith, trim_start_front cs)

trim_start-Flush : (t : Text) → Flush t → trim_start t ≡ t
unfolding trim_start
trim_start-Flush [] h = refl
trim_start-Flush (c ∷ cs) h = rw h

trim_end_front : (t : Text) → Flush t → Flush (trim_end t)
unfolding trim_end
trim_end_front [] h = tt
trim_end_front (c ∷ cs) h = ground arith

trim_end_idem : (t : Text) → trim_end (trim_end t) ≡ trim_end t
unfolding trim_end
trim_end_idem [] = refl
trim_end_idem (c ∷ cs) = ground (arith, trim_end_idem cs)

-- Trimming a trimmed text changes nothing.
pub trim_idem : (t : Text) → trim (trim t) ≡ trim t
unfolding trim
trim_idem t =
    rw (trim_start-Flush _ (trim_end_front _ (trim_start_front t))) (trim_end_idem (trim_start t))
