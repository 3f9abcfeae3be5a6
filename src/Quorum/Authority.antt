-- ===== src/Quorum/Authority.antt =====
-- Rule 4 of internal/quorum/quorum.go, a lantern's word on its own checks, and what is read at all.
use photinus.Prelude.{
  ℕ, ◌≡◌, refl, String, true, Option, none, List, [], ◌∷◌, arith, eq_iff, Time, Duration, ◌==◌,
  Dict, keep,
}
use photinus.Quorum.{Observation, is_live, newest, newest_loop, note, decide, conclude, hearsay}
use photinus.Quorum.Newest.{word_of, step, lookup-newest}

module _ (target check : String) (size : ℕ) (max_age : Duration) (now : Time) where
  -- Observations by others do not reach an observer's newest word.
  word_of-keep :
      (k : String) (obs : List Observation) (acc : Option Observation)
      → word_of target check max_age now k (keep (λ o. o.observer == k) obs) acc
        ≡ word_of target check max_age now k obs acc
  unfolding word_of keep
  word_of-keep k [] acc = refl
  word_of-keep k (o ∷ obs) acc = ground (
    arith,
    eq_iff o.observer k,
    word_of-keep k obs acc,
    word_of-keep k obs (step target check max_age now k o acc),
  )

  -- A verdict by authority is the same on the target's own observations alone: hearsay about a
  -- lantern's own checks never mixes with its word.
  pub authority_ignores_hearsay :
      (obs : List Observation)
      → (decide target check obs size max_age now).authority ≡ true
      → decide target check (keep (λ o. o.observer == target) obs) size max_age now
        ≡ decide target check obs size max_age now
  unfolding decide conclude hearsay
  authority_ignores_hearsay obs h =
      let own = keep (λ (o : Observation). o.observer == target) obs in
      ground (
        arith,
        lookup-newest target check max_age now target obs,
        lookup-newest target check max_age now target own,
        word_of-keep target obs none,
      )

  newest_loop-keep :
      (obs : List Observation) (m : Dict Observation)
      → newest_loop target check max_age now (keep (is_live target check max_age now) obs) m
        ≡ newest_loop target check max_age now obs m
  unfolding newest_loop keep
  newest_loop-keep [] m = refl
  newest_loop-keep (o ∷ obs) m =
      ground (arith, newest_loop-keep obs m, newest_loop-keep obs (note o m))

  -- Observations about other subjects, and those too old to vote, change nothing in the verdict.
  pub decide_reads_live :
      (obs : List Observation)
      → decide target check (keep (is_live target check max_age now) obs) size max_age now
        ≡ decide target check obs size max_age now
  unfolding decide newest
  decide_reads_live obs = rw (newest_loop-keep obs [])
