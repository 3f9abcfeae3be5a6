-- ===== src/Prelude/Scan.antt =====
-- Functions of Go's strings package, character by character.
use Prim.Native.Nat.{ℕ}
use Prim.Native.Char.{code}
use Prim.Native.String
use Prim.Native.String.{String}
use mathlib.Core.Path.{◌≡◌, refl}
use mathlib.Core.Option.{Option, none, some}
use photinus.Prelude.Tests.{if◌then◌else◌, eqb, get_or}
use photinus.Prelude.Text.{◌==◌}

-- What follows a prefix.
unfoldable pub strip : String → String → Option String
strip String.[] s = some s
strip (String.◌∷◌ c p) String.[] = none
strip (String.◌∷◌ c p) (String.◌∷◌ d s) =
    let rest = strip p s in if eqb (code c) (code d) then rest else none

-- `strings.TrimPrefix(s, p)`
unfoldable pub trim_prefix : String → String → String
trim_prefix s p = get_or (strip p s) s

-- `strings.TrimSuffix(s, p)`
unfoldable pub trim_suffix : String → String → String
trim_suffix String.[] p = String.[]
trim_suffix (String.◌∷◌ c s) p =
    let rest = trim_suffix s p in if String.◌∷◌ c s == p then String.[] else String.◌∷◌ c rest

-- `s[:i]` for the index `i` of the first such character, all of `s` if there is none.
unfoldable pub before : ℕ → String → String
before stop String.[] = String.[]
before stop (String.◌∷◌ c s) =
    let rest = before stop s in if eqb (code c) stop then String.[] else String.◌∷◌ c rest

-- The length in bytes, and `s[:n]` without a character that it cuts in two.
abbrev pub byte_length : String → ℕ
byte_length = String.len

abbrev pub take_bytes : ℕ → String → String
take_bytes n s = String.slice s 0 n

abbrev if_none : Option String → Option String → Option String
if_none none o = o
if_none (some a) o = some a

-- `s[idx+len(sep):]` for the last index of a separator that is not empty, if there is one.
unfoldable pub after_last : String → String → Option String
after_last sep String.[] = none
after_last sep (String.◌∷◌ c s) =
    let rest = after_last sep s in if_none rest (strip sep (String.◌∷◌ c s))

trims :
    trim_suffix (before b'/' (trim_prefix "https://a.example:443/x" "https://")) ":443"
    ≡ "a.example"
unfolding strip trim_prefix trim_suffix before
trims = refl
