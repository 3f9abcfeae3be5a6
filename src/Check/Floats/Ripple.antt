-- ===== src/Check/Floats/Ripple.antt =====
-- What `hysteresis` of internal/check/check.go makes of a run of values, the newest first.
use photinus.Prelude.{
  ◌≡◌, refl, arith, inl, inr, ◌↔◌, Bool, true, false, List, [], ◌∷◌, ◌++◌, All, Bool-cases,
}
use photinus.Check.Floats.{Floats, hysteresis}

module _ {F : Type 0} (fl : Floats F) (max clear : F) where
  -- Some value was over the threshold, and all since were over the clear line.
  pub data Tripped : List F → Type 0 where
    tripped :
        (since : List F) (v : F) (before : List F)
        → All (λ w. fl.is_over w clear ≡ true) since
        → fl.is_over v max ≡ true
        → Tripped (since ++ v ∷ before)

  -- The warning after the values, from a check that has not warned.
  unfoldable pub settle : List F → Bool
  settle [] = false
  settle (v ∷ vs) = hysteresis fl (settle vs) v max clear

  later : (v : F) (vs : List F) → fl.is_over v clear ≡ true → Tripped vs → Tripped (v ∷ vs)
  later v vs high (tripped since w before all over) = tripped (v ∷ since) w before (high, all) over

  settle-Tripped : (vs : List F) → settle vs ≡ true → Tripped vs
  unfolding settle hysteresis
  settle-Tripped [] h = absurd (ground (arith, h))
  settle-Tripped (v ∷ vs) h = elim (Bool-cases (fl.is_over v max)) [
    | inl over ↦ tripped [] v vs tt over
    | inr under ↦
        later v vs (ground (arith, under, h)) (settle-Tripped vs (ground (arith, under, h)))
  ]

  settles :
      (since : List F) (v : F) (before : List F)
      → All (λ w. fl.is_over w clear ≡ true) since
      → fl.is_over v max ≡ true
      → settle (since ++ v ∷ before) ≡ true
  unfolding settle hysteresis
  settles [] v before all over = rw over refl
  settles (w ∷ since) v before (high, all) over =
      ground (arith, high, settles since v before all over)

  Tripped-settle : (vs : List F) → Tripped vs → settle vs ≡ true
  Tripped-settle vs (tripped since v before all over) = settles since v before all over

  pub settle_iff : (vs : List F) → (settle vs ≡ true) ↔ Tripped vs
  settle_iff vs = (settle-Tripped vs, Tripped-settle vs)
