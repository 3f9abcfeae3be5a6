-- ===== src/Lantern/Skew/Estimate.antt =====
-- The estimate and the verdict of internal/lantern/skew.go.
use photinus.Prelude.{
  ◌+◌, ◌≤◌, ◌<◌, ◌≡◌, refl, ◌↔◌, ◌⊎◌, inl, inr, String, false, List, [], ◌∷◌, arith, eq_iff, ℤ, pos,
  negsuc, pos_part, neg_part, ltb_ℤ, leb_ℤ, neg, wrap64_small, suc, Time, Duration, older_than,
  Bool-cases, All, Any, sym, subst, ◌∙◌,
}
use photinus.Quorum.{state_up, state_warn}
use photinus.Lantern.State.{PeerClock}
use photinus.Lantern.Skew.{sampled_clock, abs_duration, skew_verdict}

infix 50 ◌≤ℤ◌
abbrev pub ◌≤ℤ◌ : ℤ → ℤ → Type 0
a ≤ℤ b = pos_part a + neg_part b ≤ pos_part b + neg_part a

-- One sample after another, as the flashes of a peer arrive.
abbrev pub Sample : Type 0
Sample = Time × Duration

unfoldable pub samples : Duration → List Sample → PeerClock → PeerClock
samples window [] c = c
samples window ((now, x) ∷ xs) c = samples window xs (sampled_clock window now x c)

sampled-bounds :
    (window : Duration) (now : Time) (x : Duration) (c : PeerClock)
    → older_than now c.window window ≡ false
    → let c' = sampled_clock window now x c in
      (c'.offset ≤ℤ c.offset)
      × (c'.offset ≤ℤ x)
      × (c'.window ≡ c.window)
      × ((c'.offset ≡ c.offset) ⊎ (c'.offset ≡ x))
unfolding sampled_clock
sampled-bounds window now x c h = elim (Bool-cases (ltb_ℤ x c.offset)) [
  | inl y ↦ rw (h, sampled_clock) (rw y (ground arith, ground arith, refl, inr refl))
  | inr n ↦ rw (h, sampled_clock) (rw n (ground arith, ground arith, refl, inl refl))
]

-- While one window lasts, the estimate is the smallest of the samples and of what it started from:
-- at most each of them, and one of them.
pub samples_min :
    (window : Duration) (xs : List Sample) (c : PeerClock)
    → All (λ s. older_than s.0 c.window window ≡ false) xs
    → let c' = samples window xs c in
      (c'.offset ≤ℤ c.offset)
      × All (λ s. c'.offset ≤ℤ s.1) xs
      × ((c'.offset ≡ c.offset) ⊎ Any (λ s. s.1 ≡ c'.offset) xs)
unfolding samples
samples_min window [] c h = (omega arith, tt, inl refl)
samples_min window ((now, x) ∷ xs) c h =
    let c₁ = sampled_clock window now x c in
    let (le_old, le_x, same, from) = sampled-bounds window now x c h.0 in
    let (le_mid, all, among) =
      samples_min window xs c₁
        (subst (λ w. All (λ s. older_than s.0 w window ≡ false) xs) (sym same) h.1) in
    (
      omega arith,
      (omega arith, all),
      elim among [
        | inl e ↦ elim from [ inl f ↦ inl (e ∙ f) | inr f ↦ inr (inl (sym f ∙ sym e)) ]
        | inr a ↦ inr (inr a)
      ],
    )

abs_exact :
    (off : Duration)
    → neg_part off < 9223372036854775808
    → abs_duration off ≡ pos (pos_part off + neg_part off)
unfolding abs_duration neg
abs_exact (pos n) h = ground arith
abs_exact (negsuc n) h = ground (arith, wrap64_small (suc n) h)

-- A clock is in step exactly when its offset lies within the limit on both sides. (The offset is no
-- sample at the end of the range, whose absolute value wraps.)
pub in_step_iff :
    (show : Duration → String) (limit : Duration) (peer : String) (off : Duration)
    → neg_part off < 9223372036854775808
    → ((skew_verdict show limit peer off).0 ≡ state_up) ↔ ((off ≤ℤ limit) × (neg off ≤ℤ limit))
unfolding skew_verdict neg
in_step_iff show limit peer off h = elim (Bool-cases (leb_ℤ (abs_duration off) limit)) [
  | inl y ↦
      let b = rw (abs_exact off h) at y in rw y ((λ _. (ground arith, ground arith)), λ _. refl)
  | inr n ↦
      let b = rw (abs_exact off h) at n in ((λ e. absurd (warns e n)), λ p. absurd (ground arith))
]
  where
    warns :
        (skew_verdict show limit peer off).0 ≡ state_up → leb_ℤ (abs_duration off) limit ≡ false → ⊥
    warns e n = ground (arith, e, n, eq_iff state_warn state_up)
