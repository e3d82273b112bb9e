-- ===== src/Asr/Texts/Told.antt =====
-- The commits of responses with one text for the whole session each, in a row: the second half of
-- parse_asr_texts (anytalk-daemon/src/asr.rs) from response to response.
use fcitx5_anytalk.Prelude.{
  Bool, true, false, ◌&&◌, Bool-cases, inl, inr, ◌≡◌, refl, sym, ◌∙◌, ap, none, some, List, [], ◌∷◌,
  ◌++◌, append-nil, append_assoc, concat, if◌then◌else◌, arith,
}
use fcitx5_anytalk.Text.{Text, text, is_empty, is_whitespace, trim, trim_start, trim_end, text_eq}
use fcitx5_anytalk.Asr.Texts.{AsrState, AsrTexts, full_text}
use fcitx5_anytalk.Asr.Texts.FullText.{full_text-append, full_text-bidi_async}

-- A text without its white space.
unfoldable pub strip : Text → Text
strip [] = []
strip (c ∷ cs) = let rest = strip cs in if is_whitespace c then rest else c ∷ rest

pub strip-append : (s t : Text) → strip (s ++ t) ≡ strip s ++ strip t
unfolding strip
strip-append [] t = refl
strip-append (c ∷ s) t = ground (arith, strip-append s t)

is_empty→eq : (t : Text) → is_empty t ≡ true → t ≡ []
is_empty→eq [] h = refl
is_empty→eq (c ∷ t) h = absurd (ground (arith, h))

and_both : (a b : Bool) → a && b ≡ true → (a ≡ true) × (b ≡ true)
and_both a b h = ground (arith, h)

strip-trim_start : (t : Text) → strip (trim_start t) ≡ strip t
unfolding strip trim_start
strip-trim_start [] = refl
strip-trim_start (c ∷ cs) = ground (arith, strip-trim_start cs)

strip-trim_end : (t : Text) → strip (trim_end t) ≡ strip t
unfolding strip trim_end
strip-trim_end [] = refl
strip-trim_end (c ∷ cs) = elim (Bool-cases (is_empty (trim_end cs) && is_whitespace c)) [
  | inl gone ↦
      let (nothing, space) = and_both (is_empty (trim_end cs)) (is_whitespace c) gone in
      rw (gone, trim_end)
        (rw space (ap strip (sym (is_empty→eq (trim_end cs) nothing)) ∙ strip-trim_end cs))
  | inr stays ↦ rw (stays, trim_end) (ground (arith, strip-trim_end cs))
]

pub strip-trim : (t : Text) → strip (trim t) ≡ strip t
unfolding trim
strip-trim t = strip-trim_end (trim_start t) ∙ strip-trim_start t

-- What responses with these texts commit, one after the other.
unfoldable pub told : Text → AsrState → List Text → List Text
told mode st [] = []
told mode st (txt ∷ txts) = elim (full_text txt mode st) [
  | none ↦ []
  | some r ↦ r.finals ++ told mode r.state txts
]

-- The trimmed texts that are not blank.
unfoldable pub not_blank : List Text → List Text
not_blank [] = []
not_blank (txt ∷ txts) =
    let rest = not_blank txts in if is_empty (trim txt) then rest else trim txt ∷ rest

-- Each text, trimmed, goes on where the one before ended.
abbrev pub Extends : Text → List Text → Type 0
Extends last [] = Unit {0}
Extends last (txt ∷ txts) = (more : Text) × (trim txt ≡ last ++ more) × Extends (trim txt) txts

abbrev pub latest : Text → List Text → Text
latest last [] = last
latest last (txt ∷ txts) = latest (trim txt) txts

-- In the mode "bidi_async" each text that is not blank is committed as a whole.
pub told-bidi_async :
    (st : AsrState) (txts : List Text) → told (text "bidi_async") st txts ≡ not_blank txts
unfolding told not_blank full_text
told-bidi_async st [] = refl
told-bidi_async st (txt ∷ txts) = elim (Bool-cases (is_empty (trim txt))) [
  | inl blank ↦ rw (blank, told, full_text) (told-bidi_async st txts)
  | inr filled ↦
      rw (full_text-bidi_async txt st filled, filled, told)
        (ap (λ (r : List Text). trim txt ∷ r)
          (told-bidi_async (record st { last_full_text = trim txt }) txts))
]

not_nothing : (t : Text) → is_empty t ≡ false → text_eq t [] ≡ false
unfolding text_eq
not_nothing [] h = absurd (ground (arith, h))
not_nothing (c ∷ t) h = refl

abbrev new_text : Text → List Text
new_text more = if is_empty (trim more) then [] else trim more ∷ []

strip-new_text : (more : Text) → strip (concat (new_text more)) ≡ strip more
strip-new_text more = elim (Bool-cases (is_empty (trim more))) [
  | inl blank ↦ rw blank (ap strip (sym (is_empty→eq (trim more) blank)) ∙ strip-trim more)
  | inr filled ↦ rw filled (ap strip (append-nil (trim more)) ∙ strip-trim more)
]

-- A text that goes on where the last one ended: what is committed of it is, apart from white space,
-- what is new.
abbrev Continues : Text → Text → Text → Text → AsrState → Type 0
Continues txt mode last more st =
    (r : AsrTexts) × (full_text txt mode st ≡ some r)
    × (r.state.last_full_text ≡ trim txt)
    × (strip (concat r.finals) ≡ strip more)

first-Continues :
    (txt mode more : Text) (st : AsrState)
    → text_eq mode (text "bidi_async") ≡ false
    → st.last_full_text ≡ []
    → trim txt ≡ more
    → Continues txt mode [] more st
unfolding full_text
first-Continues txt mode more st m none_yet same = elim (Bool-cases (is_empty (trim txt))) [
  | inl blank ↦
      let nothing = is_empty→eq (trim txt) blank in
      (
        record { partial = none; finals = []; state = st },
        ground (arith, blank),
        none_yet ∙ sym nothing,
        ap strip (sym nothing ∙ same),
      )
  | inr filled ↦ (
    record {
      partial = none;
      finals = trim txt ∷ [];
      state = record st { last_full_text = trim txt };
    },
    ground (arith, filled, m, none_yet, not_nothing (trim txt) filled),
    refl,
    ap strip (append-nil (trim txt) ∙ same),
  )
]

later-Continues :
    (txt mode more last : Text) (st : AsrState)
    → text_eq mode (text "bidi_async") ≡ false
    → st.last_full_text ≡ last
    → is_empty last ≡ false
    → trim txt ≡ last ++ more
    → Continues txt mode last more st
later-Continues txt mode more last st m at filled same = (
  record {
    partial = none;
    finals = new_text more;
    state = record st { last_full_text = trim txt };
  },
  full_text-append txt mode more st m (ap is_empty at ∙ filled)
      (same ∙ ap (λ (l : Text). l ++ more) (sym at)),
  refl,
  strip-new_text more,
)

any-Continues :
    (txt mode more last : Text) (st : AsrState)
    → text_eq mode (text "bidi_async") ≡ false
    → st.last_full_text ≡ last
    → trim txt ≡ last ++ more
    → Continues txt mode last more st
any-Continues txt mode more [] st m at same = first-Continues txt mode more st m at same
any-Continues txt mode more (c ∷ last) st m at same =
    later-Continues txt mode more (c ∷ last) st m at refl same

concat-append : (xss yss : List Text) → concat (xss ++ yss) ≡ concat xss ++ concat yss
concat-append [] yss = refl
concat-append (xs ∷ xss) yss =
    ap (λ (r : Text). xs ++ r) (concat-append xss yss)
    ∙ sym (append_assoc xs (concat xss) (concat yss))

-- In the other modes the commits together are, apart from white space, the text of the last response
-- that was not there before.
pub told-latest :
    (mode last : Text) (st : AsrState) (txts : List Text)
    → text_eq mode (text "bidi_async") ≡ false
    → st.last_full_text ≡ last
    → Extends last txts
    → strip last ++ strip (concat (told mode st txts)) ≡ strip (latest last txts)
unfolding told
told-latest mode last st [] m at h = unfold strip in append-nil (strip last)
told-latest mode last st (txt ∷ txts) m at (more, same, h) =
    let (r, found, next, new) = any-Continues txt mode more last st m at same in
    let rest = told mode r.state txts in
    rw (found, told)
      (ap (λ (x : Text). strip last ++ strip x) (concat-append r.finals rest)
        ∙ ap (λ (x : Text). strip last ++ x) (strip-append (concat r.finals) (concat rest))
        ∙ ap (λ (x : Text). strip last ++ (x ++ strip (concat rest))) new
        ∙ sym (append_assoc (strip last) (strip more) (strip (concat rest)))
        ∙ ap (λ (x : Text). x ++ strip (concat rest))
            (sym (strip-append last more) ∙ ap strip (sym same))
        ∙ told-latest mode (trim txt) r.state txts m next h)
