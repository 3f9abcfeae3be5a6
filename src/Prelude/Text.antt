-- ===== src/Prelude/Text.antt =====
-- Go strings as native texts: equality, the order of `<`, concatenation, decimal numbers.
-- The order is by code points, which is the order of the UTF-8 bytes.
use Prim.Native.Nat.{ℕ, zero, suc, ◌/◌, ◌%◌}
use Prim.Native.String
use Prim.Native.String.{String, compare}
use mathlib.Core.Path.{◌≡◌, refl}
use mathlib.Core.Bool.{Bool, not}
use mathlib.Core.List.{List, [], ◌∷◌}
use text.Mathlib.Text
use text.Mathlib.Text.{is_lt}
use photinus.Prelude.Tests.{if◌then◌else◌, eqb}

infix 50 ◌==◌ ◌!=◌
abbrev pub ◌==◌ : String → String → Bool
◌==◌ = Text.◌==◌

abbrev pub ◌!=◌ : String → String → Bool
s != t = not (s == t)

infixr 66 ◌<>◌
-- Go's `s + t`.
abbrev pub ◌<>◌ : String → String → String
◌<>◌ = String.◌++◌

-- Go's `s < t`.
unfoldable pub str_ltb : String → String → Bool
str_ltb s t = is_lt (compare s t)

-- Go's `strings.Join(parts, "")`, the way a sentence is put together.
abbrev pub cat : List String → String
cat [] = ""
cat (s ∷ ss) = s <> cat ss

-- One decimal digit, and `%d` of a number by its digits, the last first, with fuel for the rounds.
abbrev digit : ℕ → String
digit n =
    if eqb n 0
    then "0"
    else if eqb n 1
    then "1"
    else if eqb n 2
    then "2"
    else if eqb n 3
    then "3"
    else if eqb n 4
    then "4"
    else if eqb n 5
    then "5"
    else if eqb n 6
    then "6"
    else if eqb n 7
    then "7"
    else if eqb n 8
    then "8"
    else "9"

decimal_loop : ℕ → ℕ → String → String
decimal_loop zero n acc = acc
decimal_loop (suc f) n acc =
    let more = decimal_loop f (n / 10) (digit (n % 10) <> acc) in if eqb n 0 then acc else more

-- `%d`; a number has fewer digits than its value.
unfoldable pub decimal : ℕ → String
unfolding decimal_loop
decimal n = if eqb n 0 then "0" else decimal_loop n n ""

decimal_runs : decimal 1907 ≡ "1907"
unfolding decimal
decimal_runs = refl
