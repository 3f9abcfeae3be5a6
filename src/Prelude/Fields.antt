-- ===== src/Prelude/Fields.antt =====
-- Go's strings package on white space: `strings.TrimSpace` and `strings.Fields`.
use Prim.Native.Nat.{ℕ}
use Prim.Native.Char.{Char, code}
use Prim.Native.String.{String}
use mathlib.Core.Path.{◌≡◌, refl}
use mathlib.Core.Bool.{Bool, true, false, ◌&&◌, ◌||◌}
use mathlib.Core.List.{List, [], ◌∷◌}
use photinus.Prelude.Tests.{if◌then◌else◌, eqb, leb}
use photinus.Prelude.Text.{◌==◌}

-- Unicode's white space.
abbrev pub is_space : ℕ → Bool
is_space r =
    leb 9 r && leb r 13
    || eqb r 32
    || eqb r 133
    || eqb r 160
    || eqb r 5760
    || leb 8192 r && leb r 8202
    || eqb r 8232
    || eqb r 8233
    || eqb r 8239
    || eqb r 8287
    || eqb r 12288

trim_left : String → String
trim_left String.[] = String.[]
trim_left (String.◌∷◌ c s) =
    let rest = trim_left s in if is_space (code c) then rest else String.◌∷◌ c s

trim_right : String → String
trim_right String.[] = String.[]
trim_right (String.◌∷◌ c s) =
    let rest = trim_right s in
    if is_space (code c) && rest == "" then String.[] else String.◌∷◌ c rest

unfoldable pub trim_space : String → String
unfolding trim_left trim_right
trim_space s = trim_right (trim_left s)

-- The word that a text begins with, empty before a space, and the words after it.
abbrev pub push_word : String → List String → List String
push_word w ws = if w == "" then ws else w ∷ ws

abbrev pub word_step : Bool → Char → String × List String → String × List String
word_step true c (w, ws) = ("", push_word w ws)
word_step false c (w, ws) = (String.◌∷◌ c w, ws)

unfoldable pub words_from : String → String × List String
words_from String.[] = ("", [])
words_from (String.◌∷◌ c s) = word_step (is_space (code c)) c (words_from s)

unfoldable pub fields : String → List String
fields s = let (w, ws) = words_from s in push_word w ws

fields_run : fields "  16314892  kB " ≡ "16314892" ∷ "kB" ∷ []
unfolding fields words_from
fields_run = refl
