-- ===== src/Text/Slice.antt =====
-- Comparison, prefixes and byte slices.
use fcitx5_anytalk.Prelude.{ℕ, ◌+◌, ◌-◌, ◌<◌, ◌≡◌, refl, true, [], ◌∷◌, ◌++◌, some, arith}
use fcitx5_anytalk.Text.{Text, text_eq, starts_with, len_utf8, byte_len, slice_from}

pub text_eq→eq : (s t : Text) → text_eq s t ≡ true → s ≡ t
unfolding text_eq
text_eq→eq [] [] h = refl
text_eq→eq [] (d ∷ ds) h = cc
text_eq→eq (c ∷ cs) [] h = cc
text_eq→eq (c ∷ cs) (d ∷ ds) h = ground (arith, text_eq→eq cs ds)

pub text_eq_refl : (t : Text) → text_eq t t ≡ true
unfolding text_eq
text_eq_refl [] = refl
text_eq_refl (c ∷ cs) = ground (arith, text_eq_refl cs)

-- A text with a prefix is the prefix and what follows it.
pub starts_with→append : (t p : Text) → starts_with t p ≡ true → (s : Text) × (t ≡ p ++ s)
unfolding starts_with
starts_with→append t [] h = (t, refl)
starts_with→append [] (d ∷ ds) h = cc
starts_with→append (c ∷ cs) (d ∷ ds) h =
    ((starts_with→append cs ds (ground arith)).0, ground (arith, starts_with→append cs ds))

pub starts_with-append : (p s : Text) → starts_with (p ++ s) p ≡ true
unfolding starts_with
starts_with-append [] s = refl
starts_with-append (c ∷ cs) s = ground (arith, starts_with-append cs s)

len_utf8_pos : (c : ℕ) → 0 < len_utf8 c
unfolding len_utf8
len_utf8_pos c = ground arith

sub_same : (m n : ℕ) → m + n - m ≡ n
sub_same m n = omega arith

-- The slice at the length of a prefix does not panic, and gives what follows the prefix.
pub slice_from-append : (p s : Text) → slice_from (p ++ s) (byte_len p) ≡ some s
unfolding slice_from byte_len
slice_from-append [] [] = refl
slice_from-append [] (c ∷ cs) = refl
slice_from-append (c ∷ cs) s =
    ground (arith, slice_from-append cs s, len_utf8_pos c, sub_same (len_utf8 c) (byte_len cs))
