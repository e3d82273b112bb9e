-- ===== src/Relay/Within.antt =====
-- Lists that stand in another one in order, with other elements between.
use fcitx5_anytalk.Prelude.{List, [], ◌∷◌, ◌++◌}

pub data Within {ℓ} {A : Type ℓ} : List A → List A → Type ℓ where
  ends : Within [] []
  skips : (y : A) {xs ys : List A} → Within xs ys → Within xs (y ∷ ys)
  keeps : (x : A) {xs ys : List A} → Within xs ys → Within (x ∷ xs) (x ∷ ys)

module _ {ℓ} {A : Type ℓ} where
  pub Within-none : (ys : List A) → Within [] ys
  Within-none [] = ends
  Within-none (y ∷ ys) = skips y (Within-none ys)

  pub Within-same : (ys : List A) → Within ys ys
  Within-same [] = ends
  Within-same (y ∷ ys) = keeps y (Within-same ys)

  pub Within-more : {xs ys : List A} (zs : List A) → Within xs ys → Within xs (ys ++ zs)
  Within-more zs ends = Within-none zs
  Within-more zs (skips y h) = skips y (Within-more zs h)
  Within-more zs (keeps x h) = keeps x (Within-more zs h)

  pub Within-both : {xs ys : List A} (zs : List A) → Within xs ys → Within (xs ++ zs) (ys ++ zs)
  Within-both zs ends = Within-same zs
  Within-both zs (skips y h) = skips y (Within-both zs h)
  Within-both zs (keeps x h) = keeps x (Within-both zs h)
