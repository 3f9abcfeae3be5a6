-- ===== src/Lantern/Pulse/Silence.antt =====
-- The votes of `pulseObservations` in internal/lantern/pulse.go.
use photinus.Prelude.{
  ℕ, ◌≤◌, ◌<◌, ◌+◌, ◌≡◌, refl, String, Bool, false, not, [], ◌∷◌, map, arith, eq_iff, eq_refl, pos,
  leb_ℤ, Time, Duration, since, Dict, lookup-insert, keep, if◌then◌else◌, max_duration,
  older_than-ltb, ltb, ◌==◌, ◌&&◌,
}
use photinus.Quorum.{Observation}
use photinus.Lantern.State.{Lantern}
use photinus.Lantern.Pulse.{pulse, baseline, silence, silences, pulse_observations}

-- The declared pulses that are silent.
abbrev pub is_silent : Lantern → Time → String × Duration → Bool
is_silent l now (name, window) = not (leb_ℤ (since now (baseline l name)) window)

silences-map :
    (show : Duration → String) (l : Lantern) (now : Time) (m : Dict Duration)
    → map (λ (o : Observation). o.target) (silences show l now m)
      ≡ map (λ (e : String × Duration). e.0) (keep (is_silent l now) m)
unfolding silences keep silence
silences-map show l now [] = refl
silences-map show l now ((name, window) ∷ m) = ground (arith, silences-map show l now m)

-- One vote for each declared pulse that is past its window, in the order of the declarations, and
-- none for any other.
pub silent_pulses_vote :
    (show : Duration → String) (l : Lantern) (now : Time)
    → map (λ (o : Observation). o.target) (pulse_observations show now l)
      ≡ map (λ (e : String × Duration). e.0) (keep (is_silent l now) l.pulses)
unfolding pulse_observations
silent_pulses_vote show l now = silences-map show l now l.pulses

-- A ping moves the baseline of its pulse to its own time, unless a later one is known, and leaves
-- that of every other pulse.
pub baseline-pulse :
    (stamp : Time → String) (name other : String) (now : Time) (l : Lantern)
    → l.start < now
    → baseline (pulse stamp name now l).0 other
      ≡ (if (name == other) && ltb (baseline l other) now then now else baseline l other)
unfolding pulse baseline
baseline-pulse stamp name other now l h =
    ground (arith, eq_iff name other, lookup-insert name other now l.last_pulse)

-- After a ping at `at` the pulse is not silent until its window has passed.
pub pulse_quiets :
    (stamp : Time → String) (name : String) (at now : Time) (l : Lantern) (window : ℕ)
    → l.start < at
    → window < max_duration
    → now ≤ at + window
    → is_silent (pulse stamp name at l).0 now (name, pos window) ≡ false
pulse_quiets stamp name at now l window s w h = ground (
  arith,
  baseline-pulse stamp name name at l s,
  eq_refl name,
  older_than-ltb now (baseline (pulse stamp name at l).0 name) window w,
)
