-- ===== src/Check/Remote/Expiry.antt =====
-- `certVerdict` of internal/check/cert.go by the instant at which the certificate ends.
use photinus.Prelude.{
  ℕ, ◌+◌, ◌≤◌, ◌<◌, ◌≡◌, arith, pos, leb, Time, since-leb, max_duration, if◌then◌else◌,
}
use photinus.Lantern.State.{Verdict, ok, warn, failed, not_applicable}
use photinus.Check.Floats.{Floats}
use photinus.Check.Remote.{Leaf, cert_verdict}

-- What is to be said of a certificate, by the clock alone.
abbrev pub due_verdict : Time → ℕ → Time → Verdict
due_verdict ends within now =
    if leb ends now then failed else if leb ends (now + within) then warn else ok

abbrev pub badness : Verdict → ℕ
badness ok = 0
badness warn = 1
badness failed = 2
badness not_applicable = 0

module _ {F : Type 0} (fl : Floats F) (leaf : Leaf) (within : ℕ)
    (fits : within < max_duration) where
  verdict_due :
      (now : Time)
      → (cert_verdict fl leaf (pos within) now).verdict ≡ due_verdict leaf.not_after within now
  unfolding cert_verdict
  verdict_due now =
      rw (since-leb leaf.not_after now 0 (omega arith), since-leb leaf.not_after now within fits)
        (ground arith)

  -- A certificate fails from the instant at which it ends, warns within the window before it and is fine
  -- before that, whatever the width of the clock's differences; its verdict never gets better with time.
  pub cert_expires_on_time :
      (now later : Time)
      → now ≤ later
      → ((cert_verdict fl leaf (pos within) now).verdict ≡ due_verdict leaf.not_after within now)
        × (badness (cert_verdict fl leaf (pos within) now).verdict
            ≤ badness (cert_verdict fl leaf (pos within) later).verdict)
  cert_expires_on_time now later h =
      (verdict_due now, rw (verdict_due now, verdict_due later) (ground arith))
