-- ===== src/Check/Local/Line.antt =====
-- When the checks with a threshold warn, over a run of probes: only what a probe measures counts.
use photinus.Prelude.{
  ◌≡◌, ◌∙◌, refl, arith, inl, inr, ◌↔◌, Bool, true, false, Option, none, some, List, [], ◌∷◌,
  Option-cases, is_some,
}
use photinus.Lantern.State.{Verdict, ok, warn, failed, not_applicable}
use photinus.Lantern.Flash.{CheckResult}
use photinus.Check.Floats.{Floats, hysteresis}
use photinus.Check.Floats.Ripple.{Tripped, settle, settle_iff}

-- The values that a run of probes measures.
unfoldable pub measures {ℓ} : {R : Type ℓ} {F : Type 0} → (R → Option F) → List R → List F
measures value [] = []
measures value (r ∷ rs) = elim (value r) [
  | none ↦ measures value rs
  | some v ↦ v ∷ measures value rs
]

measures-some :
    {R F : Type 0} (value : R → Option F) (r : R) (rs : List R) (v : F)
    → value r ≡ some v
    → measures value (r ∷ rs) ≡ v ∷ measures value rs
unfolding measures
measures-some value r rs v e = rw (measures, e) refl

unfoldable pub is_warn : Verdict → Bool
is_warn ok = false
is_warn warn = true
is_warn failed = false
is_warn not_applicable = false

-- A check `C` with its `Run`, and the check with another state of its warning.
module _ {C R : Type 0} (run : C → R → CheckResult × C) where
  -- The check after its probes, the newest first.
  unfoldable pub after : C → List R → C
  after c [] = c
  after c (r ∷ rs) = (run (after c rs) r).1

module _ {F C R : Type 0} (fl : Floats F) (run : C → R → CheckResult × C) (value : R → Option F)
    (max clear : F) (c : Bool → C) where
  -- What one run does to the warning.
  abbrev pub Judges : R → Bool → Option F → Type 0
  Judges r warned none =
      ((run (c warned) r).1 ≡ c warned) × (is_warn (run (c warned) r).0.verdict ≡ false)
  Judges r warned (some v) =
      ((run (c warned) r).1 ≡ c (hysteresis fl warned v max clear))
      × (is_warn (run (c warned) r).0.verdict ≡ hysteresis fl warned v max clear)

  module _ (law : (r : R) (warned : Bool) → Judges r warned (value r)) where
    after_lem : (rs : List R) → after run (c false) rs ≡ c (settle fl max clear (measures value rs))
    unfolding after settle measures
    after_lem [] = refl
    after_lem (r ∷ rs) = elim (Option-cases (value r)) [
      | inl e ↦ ground (arith, e, after_lem rs, law r (settle fl max clear (measures value rs)))
      | inr (v, e) ↦
          ground (arith, e, after_lem rs, law r (settle fl max clear (measures value rs)))
    ]

  -- The last run warns exactly when it measured a value, and the values so far tripped the line.
  abbrev pub Follows : List R → R → Type 0
  Follows rs r =
      (is_warn (run (after run (c false) rs) r).0.verdict ≡ true)
      ↔ ((is_some (value r) ≡ true) × Tripped fl max clear (measures value (r ∷ rs)))

  module _ (law : (r : R) (warned : Bool) → Judges r warned (value r)) where
    judged_as : (r : R) (warned : Bool) (o : Option F) → value r ≡ o → Judges r warned o
    judged_as r warned o e = rw (← e) (law r warned)

    pub law-Follows : (rs : List R) (r : R) → Follows rs r
    unfolding measures settle
    law-Follows rs r = elim (Option-cases (value r)) [
      | inl e ↦
          let l = judged_as r (settle fl max clear (measures value rs)) none e in
          rw (after_lem law rs, e)
            ((λ h. absurd (ground (arith, h, l))), λ h. absurd (ground (arith, h.0)))
      | inr (v, e) ↦
          let l = judged_as r (settle fl max clear (measures value rs)) (some v) e in
          let s = settle_iff fl max clear (v ∷ measures value rs) in
          rw (after_lem law rs, measures-some value r rs v e, e)
            ((λ h. (refl, s.0 (ground (arith, h, l)))), λ h. l.1 ∙ s.1 h.1)
    ]
