-- ===== src/Prelude/Clock.antt =====
-- Go's clock: a `time.Time` is the nanoseconds since the zero time (1 January of year 1), so
-- `IsZero` is a test for 0; a `time.Duration` is a signed number of nanoseconds.
use Prim.Native.Nat.{ℕ, ◌+◌, ◌-◌, ◌*◌, ◌^◌, ◌<◌, ◌≤◌}
use mathlib.Core.Path.{◌≡◌}
use mathlib.Core.Bool.{Bool, false}
use native.Mathlib.Omega.{arith}
use photinus.Prelude.Tests.{ltb, leb, if◌then◌else◌}
use photinus.Prelude.Int.{ℤ, pos, negsuc, sub_ℕ, ltb_ℤ, leb_ℤ}

abbrev pub Time : Type 0
Time = ℕ

abbrev pub Duration : Type 0
Duration = ℤ

abbrev pub millisecond : ℕ
millisecond = 1000000

abbrev pub second : ℕ
second = 1000000000

abbrev pub minute : ℕ
minute = 60 * second

abbrev pub hour : ℕ
hour = 60 * minute

-- The largest `time.Duration`, at which `Sub` stops.
abbrev pub max_duration : ℕ
max_duration = 2 ^ 63 - 1

saturate : ℤ → ℤ
saturate (pos n) = if ltb max_duration n then pos max_duration else pos n
saturate (negsuc n) = if ltb max_duration n then negsuc max_duration else negsuc n

-- `t.Sub(u)`
unfoldable pub since : Time → Time → Duration
unfolding saturate
since t u = saturate (sub_ℕ t u)

-- `t.Sub(u) > d`
abbrev pub older_than : Time → Time → Duration → Bool
older_than t u d = ltb_ℤ d (since t u)

-- `t.After(u)`
abbrev pub after : Time → Time → Bool
after t u = ltb u t

-- Time that has passed is measured exactly, up to the largest duration.
pub older_than-ltb : (t u d : ℕ) → d < max_duration → older_than t u (pos d) ≡ ltb (u + d) t
unfolding since
older_than-ltb t u d h = ground arith

-- Time that has passed is not measured as less.
pub since-ltb : (t u d : ℕ) → u + d ≤ t → d < max_duration → ltb_ℤ (since t u) (pos d) ≡ false
unfolding since
since-ltb t u d h b = ground arith

-- A difference is compared with a duration as the instants are.
pub since-leb : (t u d : ℕ) → d < max_duration → leb_ℤ (since t u) (pos d) ≡ leb t (u + d)
unfolding since
since-leb t u d h = ground arith
