-- ===== src/Quorum/Majority.antt =====
-- The last-known-size rule of `Decide` in internal/quorum/quorum.go.
use photinus.Prelude.{
  ℕ, ◌+◌, ◌/◌, ◌≤◌, ◌≡◌, ◌≢◌, ap, subst, String, Bool, true, false, not, List, [], ◌∷◌, inl, inr,
  arith, eq_iff, Time, Duration, ◌==◌, Dict, lookup, values, All, Any, All-map, Distinct, contains,
  length, count, count-sort_by, count_mono, length-le-count, count-split, Bool-cases, Option-cases,
}
use photinus.Quorum.{
  Observation, Decision, Tally, newest, decide, conclude, hearsay, tally, ordered, complains,
  tally_one, says_down, state_up, state_warn, state_down, empty_tally,
}
use photinus.Quorum.Newest.{Word, backers}

tally-counts :
    (os : List Observation) (t : Tally)
    → ((tally os t).voters ≡ t.voters + length os)
      × ((tally os t).votes ≡ t.votes + count complains os)
      × ((tally os t).down_votes ≡ t.down_votes + count says_down os)
unfolding tally count
tally-counts [] t = (omega arith, omega arith, omega arith)
tally-counts (o ∷ os) t = ground (
  arith,
  eq_iff o.state state_up,
  eq_iff o.state state_down,
  eq_iff state_up state_down,
  tally-counts os (tally_one o t),
)

module _ (target check : String) (obs : List Observation) (max_age : Duration) (now : Time) where
  -- `k` has a live observation on the subject that passes `p`.
  abbrev pub Backs : (Observation → Bool) → String → Type 0
  Backs p k = Any (λ x. Word target check max_age now k x × (p x ≡ true)) obs

  -- At least `n` distinct lanterns back the claim `p`.
  abbrev pub Backed : (Observation → Bool) → ℕ → Type 0
  Backed p n = (ws : List String) × Distinct ws × All (Backs p) ws × (n ≤ length ws)

module _ (target check : String) (obs : List Observation) (size : ℕ) (max_age : Duration)
    (now : Time) where
  abbrev verdict : Decision
  verdict = decide target check obs size max_age now

  abbrev heard : Dict Observation
  heard = newest target check obs max_age now

  decide_hearsay : verdict.authority ≡ false → verdict ≡ hearsay target check size (ordered heard)
  unfolding decide
  decide_hearsay h = elim (Option-cases (lookup target heard)) [
    | inl e ↦ rw (e, conclude)
    | inr (a, e) ↦ absurd (let f = rw (e, conclude) at h in cc)
  ]

  Backed-count :
      (p : Observation → Bool) (n : ℕ)
      → n ≤ count p (ordered heard)
      → Backed target check obs max_age now p n
  unfolding ordered
  Backed-count p n h =
      let (ws, d, a, e) = backers target check max_age now p obs in
      (ws, d, a, omega (arith, e, count-sort_by _ p (values heard)))

  -- A verdict of down that is not the target's own word has a majority of the last known swarm size
  -- behind it: that many distinct lanterns each have a live observation that says down.
  pub down-has-majority :
      verdict.authority ≡ false
      → verdict.state ≡ state_down
      → Backed target check obs max_age now says_down (size / 2 + 1)
  unfolding hearsay
  down-has-majority a s =
      let e = ap (λ (d : Decision). d.state) (decide_hearsay a) in
      Backed-count says_down (size / 2 + 1) (
        ground (
          arith,
          e,
          s,
          tally-counts (ordered heard) empty_tally,
          eq_iff state_up state_down,
          eq_iff state_warn state_down,
        ))

  -- So has any verdict but up a majority that does not say up.
  pub alarm-has-majority :
      verdict.authority ≡ false
      → verdict.state ≢ state_up
      → Backed target check obs max_age now complains (size / 2 + 1)
  unfolding hearsay
  alarm-has-majority a s =
      let e = ap (λ (d : Decision). d.state) (decide_hearsay a) in
      Backed-count complains (size / 2 + 1) (
        ground (
          arith,
          e,
          s,
          tally-counts (ordered heard) empty_tally,
          count_mono says_down complains (ordered heard) λ x h. ground (
            arith,
            h,
            eq_iff x.state state_down,
            eq_iff x.state state_up,
            eq_iff state_up state_down,
          ),
        ))

-- The observers of one side of a partition: lanterns among the members, which `side` tells apart.
abbrev pub OnSide : List String → (String → Bool) → List Observation → Type 0
OnSide members side = All (λ o. (contains members o.observer ≡ true) × (side o.observer ≡ true))

module _ (target check : String) (max_age : Duration) (now : Time) (members : List String)
    (side : String → Bool) where
  backers-on-side :
      (obs : List Observation) (k : String)
      → OnSide members side obs
      → Backs target check obs max_age now complains k
      → (contains members k ≡ true) × (side k ≡ true)
  backers-on-side [] k h b = absurd b
  backers-on-side (o ∷ obs) k h (inl (w, p)) =
      subst (λ j. (contains members j ≡ true) × (side j ≡ true)) w.by h.0
  backers-on-side (o ∷ obs) k h (inr b) = backers-on-side obs k h.1 b

  side-bound :
      (obs : List Observation) (n : ℕ)
      → OnSide members side obs
      → Backed target check obs max_age now complains n
      → n ≤ count side members
  side-bound obs n h (ws, d, a, l) = omega (
    arith,
    l,
    length-le-count side ws members d (All-map _ _ ws (λ k. backers-on-side obs k h) a),
  )

-- No split brain. Each side of a partition decides from the observations of its own lanterns alone,
-- at its own time, each with a last known size that is at least the number of members. Then not both
-- sides raise an alarm about a subject that is no lantern's own.
pub no_split_brain :
    (target check : String) (max_age : Duration) (members : List String) (side : String → Bool)
    (here there : List Observation) (size size' : ℕ) (now now' : Time)
    → OnSide members side here
    → OnSide members (λ k. not (side k)) there
    → length members ≤ size
    → length members ≤ size'
    → (decide target check here size max_age now).authority ≡ false
    → (decide target check there size' max_age now').authority ≡ false
    → (decide target check here size max_age now).state ≢ state_up
    → (decide target check there size' max_age now').state ≡ state_up
no_split_brain target check max_age members side here there size size' now now' h h' l l' a a' s =
    elim (Bool-cases ((verdict target check there size' max_age now').state == state_up)) [
      | inl up ↦ (eq_iff _ _).0 up
      | inr alarm ↦ absurd (
          omega (
            arith,
            l,
            l',
            count-split side members,
            side-bound target check max_age now members side here (size / 2 + 1) h
                (alarm-has-majority target check here size max_age now a s),
            side-bound target check max_age now' members (λ k. not (side k)) there (size' / 2 + 1)
                h'
                (alarm-has-majority target check there size' max_age now' a' (λ e. ground (
                  arith,
                  e,
                  alarm,
                  eq_iff (verdict target check there size' max_age now').state state_up,
                ))),
          ))
    ]
