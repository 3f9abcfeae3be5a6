-- ===== src/Lantern/Gossip/Fit.antt =====
-- The results of `fitForGossip` in internal/lantern/liveness.go.
use photinus.Prelude.{
  ℕ, ◌+◌, ◌-◌, ap, ◌∙◌, ◌≡◌, refl, String, Bool, true, false, not, ◌&&◌, Option, none, some, arith,
  leb, ltb, When, When_intro, byte_length, ◌⊎◌, inl, inr, Bool-cases,
}
use photinus.Quorum.{Observation}
use photinus.Lantern.Gossip.{
  fit_for_gossip, fit_from, fits, trimmed, shorten, last_resort, bare, is_fit,
}

When_never : (P : Type 0) (b : Bool) → b ≡ false → When b P
When_never P true h = absurd (cc)
When_never P false h = tt

module _ (encode : Observation → Option String) (limit : ℕ) (o : Observation) where
  -- The guard of the shortened detail.
  abbrev is_cut : ℕ → Bool
  is_cut size =
      let cut = byte_length o.detail - (size - limit + 8) in
      ltb 0 cut && is_fit encode limit (trimmed encode cut o)

  -- What a result promises.
  abbrev pub IsClamped : Observation × Bool → Type 0
  IsClamped r =
      (record r.0 { detail = o.detail } ≡ o)
      × When r.1 (is_fit encode limit r.0 ≡ true)
      × When (is_fit encode limit o) (r ≡ (o, true))
      × When (not r.1) (is_fit encode limit (record o { detail = "" }) ≡ false ⊎ (encode o ≡ none))

  last_resort-IsClamped : is_fit encode limit o ≡ false → IsClamped (last_resort encode limit o)
  unfolding last_resort bare
  last_resort-IsClamped h = (
    refl,
    When_intro (is_fit encode limit (bare encode o)) (λ e. e),
    When_never _ (is_fit encode limit o) h,
    When_intro (not (is_fit encode limit (bare encode o))) (λ e. inl (ground (arith, e))),
  )

  shorten-IsClamped :
      (size : ℕ) → is_fit encode limit o ≡ false → IsClamped (shorten encode limit o size)
  unfolding shorten
  shorten-IsClamped size h = elim (Bool-cases (is_cut size)) [
    | inl c ↦ rw c (refl, ground (arith, c), When_never _ (is_fit encode limit o) h, tt)
    | inr c ↦ rw c (last_resort-IsClamped h)
  ]

  fit_from-IsClamped : (e : Option String) → encode o ≡ e → IsClamped (fit_from encode limit o e)
  unfolding fit_from
  fit_from-IsClamped none e =
      (refl, tt, When_never _ (is_fit encode limit o) (ap (fits limit) e), inr e)
  fit_from-IsClamped (some b) e = elim (Bool-cases (leb (byte_length b) limit)) [
    | inl c ↦ rw c (refl, ap (fits limit) e ∙ c, When_intro (is_fit encode limit o) (λ y. refl), tt)
    | inr c ↦ rw c (shorten-IsClamped (byte_length b) (ap (fits limit) e ∙ c))
  ]

  -- Fitting an observation changes its detail at most, and nothing if it fits as it is. What is
  -- reported fit does fit the limit; what is reported unfit does not fit even without its detail, or
  -- cannot be written at all.
  pub fit_for_gossip-IsClamped : IsClamped (fit_for_gossip encode limit o)
  unfolding fit_for_gossip
  fit_for_gossip-IsClamped = fit_from-IsClamped (encode o) refl
