-- ===== src/Prelude/Format.antt =====
-- More of Go's strings package and fmt: replacing, and padding to a width.
use Prim.Native.Nat.{ℕ, zero, suc, ◌-◌}
use Prim.Native.String.{String}
use mathlib.Core.Path.{◌≡◌, refl}
use photinus.Prelude.Tests.{if◌then◌else◌}
use photinus.Prelude.Text.{◌<>◌, decimal}
use photinus.Prelude.Int.{ℤ, pos, negsuc}
use photinus.Prelude.Cut.{has_prefix}

-- The number of characters, and `strings.ReplaceAll(s, old, new)` for an `old` that is not empty: the
-- characters of a match are skipped.
chars : String → ℕ
chars String.[] = 0
chars (String.◌∷◌ c s) = suc (chars s)

replace_loop : String → String → ℕ → String → String
replace_loop old new skip String.[] = String.[]
replace_loop old new zero (String.◌∷◌ c s) =
    let matched = replace_loop old new (chars old - 1) s in
    let kept = replace_loop old new 0 s in
    if has_prefix (String.◌∷◌ c s) old then new <> matched else String.◌∷◌ c kept
replace_loop old new (suc skip) (String.◌∷◌ c s) = replace_loop old new skip s

unfoldable pub replace_all : String → String → String → String
unfolding replace_loop chars
replace_all s old new = replace_loop old new 0 s

-- `%-*s`: spaces up to the width in characters.
spaces : ℕ → String
spaces zero = ""
spaces (suc n) = " " <> spaces n

unfoldable pub pad : ℕ → String → String
unfolding spaces chars
pad width s = s <> spaces (width - chars s)

-- `%d` of an integer.
abbrev pub decimal_ℤ : ℤ → String
decimal_ℤ (pos n) = decimal n
decimal_ℤ (negsuc n) = "-" <> decimal (suc n)

runs :
    replace_all "clock of jawa runs 40s behind mine" "clock of jawa " "clock "
    ≡ "clock runs 40s behind mine"
unfolding replace_all photinus.Prelude.Scan.strip
runs = refl
