-- ===== src/Lantern/Flash/Pacing.antt =====
-- The pacing of slow checks in `flash` of internal/lantern/lantern.go.
use photinus.Prelude.{
  ℕ, ◌+◌, ◌*◌, ◌/◌, ◌≤◌, ◌<◌, ◌≡◌, refl, ap, ◌∙◌, String, true, false, not, Option, none, some,
  arith, ℤ, pos, ltb_ℤ, wrap64, wrap64_small, mul_pos, Time, Duration, second, since, since-ltb,
  max_duration, lookup, lookup-insert, eq_iff, if◌then◌else◌,
}
use photinus.Quorum.{is_stale, is_stale-ttl}
use photinus.Lantern.State.{Lantern, failed}
use photinus.Lantern.Status.{whole}
use photinus.Lantern.Flash.{
  Check, cadence, slower, ttl_at, check_ttl, check_observation, is_due, due_at, due_since, wait_for,
  after_run, paced_run, pace_key,
}

ltb_ℤ_trans : (a b d : ℤ) → ltb_ℤ a b ≡ false → ltb_ℤ b d ≡ false → ltb_ℤ a d ≡ false
ltb_ℤ_trans a b d h k = ground (arith, h, k)

module _ (l : Lantern) (c : Check) (n : ℕ) (now later : Time) where
  ttl-paced :
      cadence l c ≡ some (pos n) → 5 * n < max_duration → check_ttl l c ≡ pos (5 * n / second)
  unfolding check_ttl ttl_at whole
  ttl-paced h b =
      ap (ttl_at l) h
      ∙ ap (λ d. whole second (wrap64 d)) (mul_pos 5 n)
      ∙ ap (whole second) (wrap64_small (5 * n) (omega (arith, b)))

  -- A slow check never looks stale: its observation still counts when the next run is due, a whole
  -- cadence later, for a cadence of a second at least whose fivefold is a duration.
  pub paced_stays_fresh :
      (max_age : Duration) (state : String)
      → cadence l c ≡ some (pos n)
      → second ≤ n
      → 5 * n < max_duration
      → later ≤ now + n
      → is_stale max_age later (check_observation l now c state) ≡ false
  unfolding check_observation
  paced_stays_fresh max_age state h s b e =
      is_stale-ttl max_age later (check_observation l now c state) (5 * n / second) (ttl-paced h b)
        (omega (arith, s)) (omega (arith, b)) (omega (arith, e, s))

  last_run-after :
      cadence l c ≡ some (pos n) → lookup (pace_key c) (after_run now c l).last_run ≡ some now
  unfolding after_run paced_run
  last_run-after h =
      ap (λ k. lookup (pace_key c) (paced_run now c k l).last_run) h
      ∙ ground (
        arith,
        lookup-insert (pace_key c) (pace_key c) now l.last_run,
        eq_iff (pace_key c) (pace_key c),
      )

  last_verdict-after :
      cadence l c ≡ some (pos n)
      → lookup (pace_key c) (after_run now c l).last_verdict ≡ some c.result.verdict
  unfolding after_run paced_run
  last_verdict-after h =
      ap (λ k. lookup (pace_key c) (paced_run now c k l).last_verdict) h
      ∙ ground (
        arith,
        lookup-insert (pace_key c) (pace_key c) c.result.verdict l.last_verdict,
        eq_iff (pace_key c) (pace_key c),
      )

  interval-paced_run : (k : Option Duration) → (paced_run now c k l).interval ≡ l.interval
  unfolding paced_run
  interval-paced_run none = refl
  interval-paced_run (some p) = refl

  slower_same :
      (m : Lantern) → m.interval ≡ l.interval → (k : Option Duration) → slower m k ≡ slower l k
  slower_same m e none = refl
  slower_same m e (some p) = ap (λ i. if ltb_ℤ i p then some p else none) e

  cadence-after : cadence l c ≡ some (pos n) → cadence (after_run now c l) c ≡ some (pos n)
  unfolding after_run cadence
  cadence-after h = slower_same (after_run now c l) (interval-paced_run (cadence l c)) c.every ∙ h

  wait_for-failed :
      (m : Lantern)
      → lookup (pace_key c) m.last_verdict ≡ some failed
      → ltb_ℤ (pos (30 * second)) (wait_for m (pace_key c) (pos n)) ≡ false
  unfolding wait_for
  wait_for-failed m h = ground (arith, h)

  -- A check that said down runs again half a minute later, however slow its cadence.
  pub down_is_rechecked :
      cadence l c ≡ some (pos n)
      → c.result.verdict ≡ failed
      → now + 30 * second ≤ later
      → is_due (after_run now c l) later c ≡ true
  unfolding is_due due_at due_since
  down_is_rechecked h v e =
      let m = after_run now c l in
      let w = wait_for-failed m (last_verdict-after h ∙ ap some v) in
      let s = since-ltb later now (30 * second) e (omega arith) in
      ap (due_at m later c) (cadence-after h)
      ∙ ap (due_since m later c (pos n)) (last_run-after h)
      ∙ ap not
          (ltb_ℤ_trans (since later now) (pos (30 * second)) (wait_for m (pace_key c) (pos n)) s w)
