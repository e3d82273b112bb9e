-- ===== src/Asr/Session/Runs.antt =====
-- Induction over the events of a session.
use fcitx5_anytalk.Prelude.{
  ◌≡◌, refl, ◌⊎◌, inl, inr, List, [], ◌∷◌, Option, some, none, arith, subst, All,
}
use fcitx5_anytalk.Text.{Text}
use fcitx5_anytalk.Asr.Json.{JsonLib}
use fcitx5_anytalk.Asr.Session.{Event, Session, Outcome, goes_on, ended, panicked, step, run}

-- The session of an outcome, if it did not panic.
abbrev pub session_of : Outcome → Option Session
session_of (goes_on s) = some s
session_of (ended s) = some s
session_of panicked = none

Outcome-cases :
    (o : Outcome)
    → ((s : Session) × (o ≡ goes_on s)) ⊎ ((s : Session) × (o ≡ ended s)) ⊎ (o ≡ panicked)
Outcome-cases (goes_on s) = inl (s, refl)
Outcome-cases (ended s) = inr (inl (s, refl))
Outcome-cases panicked = inr (inr refl)

module _ (json : JsonLib) (mode : Text) where
  pub run-goes_on :
      (s t : Session) (e : Event) (es : List Event)
      → step json mode s e ≡ goes_on t
      → run json mode s (e ∷ es) ≡ run json mode t es
  unfolding run
  run-goes_on s t e es h = rw (h, run)

  pub run-ended :
      (s t : Session) (e : Event) (es : List Event)
      → step json mode s e ≡ ended t
      → run json mode s (e ∷ es) ≡ ended t
  unfolding run
  run-ended s t e es h = rw (h, run)

  run-panicked :
      (s : Session) (e : Event) (es : List Event)
      → step json mode s e ≡ panicked
      → run json mode s (e ∷ es) ≡ panicked
  unfolding run
  run-panicked s e es h = rw (h, run)

  -- A relation between a session, the events to come and the session in the end holds of a run if
  -- it holds of none, is carried backwards over a step, and holds of a step that ends the loop.
  pub run_induction {ℓ} :
      (R : Session → List Event → Session → Type ℓ)
      → ((s : Session) → R s [] s)
      → ((s t u : Session) (e : Event) (es : List Event)
          → step json mode s e ≡ goes_on t
          → R t es u
          → R s (e ∷ es) u)
      → ((s t : Session) (e : Event) (es : List Event)
          → step json mode s e ≡ ended t
          → R s (e ∷ es) t)
      → (s u : Session) (es : List Event) → session_of (run json mode s es) ≡ some u
      → R s es u
  run_induction R nil next last s u [] h =
      let same : s ≡ u = unfold run in ground (arith, h) in subst (λ u. R s [] u) same (nil s)
  run_induction R nil next last s u (e ∷ es) h = elim (Outcome-cases (step json mode s e)) [
    | inl (t, eq) ↦
        next s t u e es eq
          (run_induction R nil next last t u es (rw (run-goes_on s t e es eq) at h))
    | inr (inl (t, eq)) ↦
        let same : t ≡ u = ground (arith, h, run-ended s t e es eq) in
        subst (λ u. R s (e ∷ es) u) same (last s t e es eq)
    | inr (inr eq) ↦ absurd (ground (arith, h, run-panicked s e es eq))
  ]

  -- A run that does not panic, from steps that do not.
  pub run_total {ℓ} :
      (P : Event → Type ℓ)
      → ((s : Session) (e : Event)
          → P e
          → (t : Session) × (session_of (step json mode s e) ≡ some t))
      → (s : Session) (es : List Event) → All P es
      → (u : Session) × (session_of (run json mode s es) ≡ some u)
  run_total P total s [] h = (s, unfold run in refl)
  run_total P total s (e ∷ es) h = elim (Outcome-cases (step json mode s e)) [
    | inl (t, eq) ↦ rw (run-goes_on s t e es eq) (run_total P total t es h.1)
    | inr (inl (t, eq)) ↦ (t, rw (run-ended s t e es eq))
    | inr (inr eq) ↦ absurd (ground (arith, eq, total s e h.0))
  ]
