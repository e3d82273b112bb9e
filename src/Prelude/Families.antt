-- ===== src/Prelude/Families.antt =====
-- Families indexed by a number, and the change of one member.
use fcitx5_anytalk.Prelude.{
  ℕ, ◌≡◌, sym, subst, inl, inr, Bool-cases, true, false, ◌==◌, if◌then◌else◌, arith,
}

abbrev pub update {ℓ} : {A : Type ℓ} → (ℕ → A) → ℕ → A → ℕ → A
update f i a j = if j == i then a else f j

pub update-same {ℓ} : {A : Type ℓ} (f : ℕ → A) (i : ℕ) (a : A) → update f i a i ≡ a
update-same f i a = ground arith

pub update-other {ℓ} :
    {A : Type ℓ} (f : ℕ → A) (i : ℕ) (a : A) (j : ℕ) → (j == i) ≡ false → update f i a j ≡ f j
update-other f i a j h = ground (arith, h)

pub eq_of_== : (i j : ℕ) → (i == j) ≡ true → i ≡ j
eq_of_== i j h = ground (arith, h)

-- What holds of each member still does after a change, where it holds of the new one.
pub update_all {ℓ κ} :
    {A : Type ℓ} (P : ℕ → A → Type κ) (f : ℕ → A) (i : ℕ) (a : A)
    → P i a
    → ((j : ℕ) → P j (f j))
    → (j : ℕ) → P j (update f i a j)
update_all P f i a here all j = elim (Bool-cases (j == i)) [
  | inl same ↦ rw same (subst (λ (k : ℕ). P k a) (sym (eq_of_== j i same)) here)
  | inr other ↦ rw other (all j)
]

-- The same of two families that change at one place.
pub update_both {ℓ κ μ} :
    {A : Type ℓ} {B : Type κ} (P : ℕ → A → B → Type μ) (f : ℕ → A) (g : ℕ → B) (i : ℕ) (a : A)
    (b : B)
    → P i a b
    → ((j : ℕ) → P j (f j) (g j))
    → (j : ℕ) → P j (update f i a j) (update g i b j)
update_both P f g i a b here all j = elim (Bool-cases (j == i)) [
  | inl same ↦ rw same (subst (λ (k : ℕ). P k a b) (sym (eq_of_== j i same)) here)
  | inr other ↦ rw other (all j)
]
