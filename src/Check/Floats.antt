-- ===== src/Check/Floats.antt =====
-- What the checks use of Go's float64, and `hysteresis` of internal/check/check.go.
pub mod Ripple
use photinus.Prelude.{ℕ, String, Bool, true, ◌&&◌, ℤ, Duration, if◌then◌else◌}

-- Go's float64 with its operations; `fixed n` prints `%.nf`. A number that is no number fails both
-- tests. `uint64` and `int` are the conversions, `round` the printed duration rounded to a unit.
pub record Floats (F : Type 0) : Type 0 where
  pub of : ℕ → F
  pub point_85 : F
  pub is_over : F → F → Bool
  pub is_at_most : F → F → Bool
  pub plus : F → F → F
  pub minus : F → F → F
  pub times : F → F → F
  pub over : F → F → F
  pub to_uint64 : F → ℕ
  pub to_int : F → ℤ
  pub fixed : ℕ → F → String
  pub hours : Duration → F
  pub minutes : Duration → F
  pub seconds : Duration → F
  pub nanoseconds : F → Duration
  pub rounded : Duration → Duration → String

module _ {F : Type 0} (fl : Floats F) where
  -- Tripped past `max`, it stays tripped until the value recedes to `clear`.
  unfoldable pub hysteresis : Bool → F → F → F → Bool
  hysteresis warned value max clear =
      if fl.is_over value max then true else warned && fl.is_over value clear

  -- `max <= 0` means the check's own default.
  unfoldable pub max_or : ℕ → F → F
  max_or default max = if fl.is_at_most max (fl.of 0) then fl.of default else max

  -- Ten points below, not below zero.
  unfoldable pub clear_of : F → F
  clear_of max =
      let clear = fl.minus max (fl.of 10) in if fl.is_over (fl.of 0) clear then fl.of 0 else clear
