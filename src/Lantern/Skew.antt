-- ===== src/Lantern/Skew.antt =====
-- internal/lantern/skew.go: the clock offset to each peer, from the flashes that it sends. `show`
-- stands for Go's `Duration.String`.
pub mod Estimate
use photinus.Prelude.{
  ℕ, ◌+◌, ◌-◌, ◌%◌, ◌<◌, String, Bool, true, false, Option, none, some, List, [], ◌∷◌, ◌++◌, ℤ, pos,
  negsuc, ltb_ℤ, leb_ℤ, neg, ◌*ℤ◌, wrap64, ltb, Time, Duration, since, older_than, cat, ◌<>◌, Dict,
  lookup, insert, delete, if◌then◌else◌,
}
use photinus.Quorum.{Observation, state_up, state_warn}
use photinus.Lantern.State.{Lantern, PeerClock}

unfoldable pub skew_window : Lantern → Duration
skew_window l = wrap64 (pos 15 *ℤ l.interval)

-- The new estimate, once the peer has a clock: a window that is over starts again, and in a window
-- the smallest sample stays.
unfoldable pub sampled_clock : Duration → Time → Duration → PeerClock → PeerClock
sampled_clock window now sample c =
    if older_than now c.window window
    then record { offset = sample; window = now; sampled = now }
    else if ltb_ℤ sample c.offset
    then record { offset = sample; window = c.window; sampled = now }
    else record c { sampled = now }

fresh_clock : Time → Duration → Option PeerClock → PeerClock
fresh_clock now sample none = record { offset = sample; window = now; sampled = 0 }
fresh_clock now sample (some c) = c

unfoldable pub observe_clock : String → Time → Time → Lantern → Lantern
unfolding fresh_clock
observe_clock peer stamped now l =
    let sample = since now stamped in
    record l {
      clocks =
          insert peer
            (sampled_clock (skew_window l) now sample
              (fresh_clock now sample (lookup peer l.clocks)))
            l.clocks;
    }

unfoldable pub abs_duration : Duration → Duration
abs_duration d = if ltb_ℤ d (pos 0) then wrap64 (neg d) else d

-- `d.Round(m)` for a `d` that is not negative: half goes up.
unfoldable pub round_to : ℕ → Duration → Duration
round_to m (pos n) = let r = n % m in if ltb (r + r) m then pos (n - r) else pos (n + m - r)
round_to m (negsuc n) = negsuc n

module _ (show : Duration → String) where
  -- The verdict on one estimate: the state and the sentence.
  unfoldable pub skew_verdict : Duration → String → Duration → String × String
  unfolding round_to
  skew_verdict skew_max peer off =
      let a = abs_duration off in
      let about = show (round_to 100000000 a) in
      if leb_ℤ a skew_max
      then (
        state_up,
        cat ("clock of " ∷ peer ∷ " is in step with mine, within " ∷ show skew_max ∷ []),
      )
      else if ltb_ℤ (pos 0) off
      then (state_warn, cat ("clock of " ∷ peer ∷ " runs about " ∷ about ∷ " behind mine" ∷ []))
      else (state_warn, cat ("clock of " ∷ peer ∷ " runs about " ∷ about ∷ " ahead of mine" ∷ []))

  skew_observation : Lantern → Time → String → PeerClock → Observation
  skew_observation l now peer c =
      let (state, detail) = skew_verdict l.skew_max peer c.offset in
      record {
        observer = l.id;
        target = peer;
        check = "skew";
        state = state;
        detail = detail;
        seen = now;
        ttl = pos 0;
      }

  -- The loop over the clocks: the clocks that are kept, and an observation for each that is fresh.
  skew_loop : Lantern → Time → Dict PeerClock → Dict PeerClock × List Observation
  unfolding skew_observation
  skew_loop l now [] = ([], [])
  skew_loop l now ((peer, c) ∷ m) =
      let (kept, obs) = skew_loop l now m in
      if older_than now c.sampled (wrap64 (pos 4 *ℤ skew_window l))
      then (kept, obs)
      else if older_than now c.sampled (skew_window l)
      then ((peer, c) ∷ kept, obs)
      else ((peer, c) ∷ kept, skew_observation l now peer c ∷ obs)

  unfoldable pub skew_observations : Time → Lantern → Lantern × List Observation
  unfolding skew_loop
  skew_observations now l =
      let (kept, obs) = skew_loop l now l.clocks in
      if ltb_ℤ (pos 0) l.skew_max then (record l { clocks = kept }, obs) else (l, [])
