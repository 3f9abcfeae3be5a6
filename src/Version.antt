-- ===== src/Version.antt =====
-- internal/version: the release, and the name of what the box runs. The file, GOOS and `strings.ToLower`
-- are input.
use photinus.Prelude.{
  ℕ, ◌≡◌, refl, String, Bool, ◌||◌, none, some, List, [], ◌∷◌, eqb, ◌==◌, ◌!=◌, strip,
  if◌then◌else◌,
}
use Prim.Native.Char.{code}

abbrev pub release : String
release = "0.1.14"

-- The quotes that `strings.Trim` takes off, and the characters from the first one that is none.
abbrev is_quote : ℕ → Bool
is_quote r = eqb r 34 || eqb r 39

quotes_left : String → String
quotes_left String.[] = String.[]
quotes_left (String.◌∷◌ c s) =
    let rest = quotes_left s in if is_quote (code c) then rest else String.◌∷◌ c s

quotes_right : String → String
quotes_right String.[] = String.[]
quotes_right (String.◌∷◌ c s) =
    let rest = quotes_right s in
    if is_quote (code c)
    then (if rest == "" then String.[] else String.◌∷◌ c rest)
    else String.◌∷◌ c rest

unfoldable pub trim_quotes : String → String
unfolding quotes_left quotes_right
trim_quotes s = quotes_right (quotes_left s)

-- `osReleaseID`, by the lines of the file; "" for one that cannot be opened.
unfoldable pub os_release_id : (String → String) → List String → String
os_release_id lower [] = ""
os_release_id lower (line ∷ lines) =
    let rest = os_release_id lower lines in
    elim (strip "ID=" line) [ none ↦ rest | some v ↦ lower (trim_quotes v) ]

unfoldable pub distro : (String → String) → String → List String → String
distro lower goos lines =
    let id = os_release_id lower lines in
    if goos == "darwin"
    then "macos"
    else if goos == "windows"
    then "windows"
    else if goos == "linux"
    then (if id != "" then id else "linux")
    else goos

debian :
    distro (λ s. s) "linux" ("NAME=\"Debian\"" ∷ "VERSION_ID=\"12\"" ∷ "ID=\"debian\"" ∷ [])
    ≡ "debian"
unfolding distro os_release_id strip trim_quotes
debian = refl
