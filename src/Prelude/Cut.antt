-- ===== src/Prelude/Cut.antt =====
-- More of Go's strings package: cutting a text at a character, the first or the last.
use Prim.Native.Nat.{ℕ, ◌+◌}
use Prim.Native.Char.{Char, code}
use text.Mathlib.TextEquality.{Char-path}
use Prim.Native.String.{String}
use Prim.Native.String.append
use mathlib.Core.Path.{◌≡◌, refl, sym, ap, ◌∙◌}
use mathlib.Core.Bool.{Bool, true, false, ◌||◌, ◌&&◌}
use mathlib.Core.Option.{Option, none, some}
use mathlib.Core.List.{List, [], ◌∷◌}
use native.Mathlib.Omega.{arith}
use photinus.Prelude.Tests.{if◌then◌else◌, eqb, leb, is_some, get_or}
use photinus.Prelude.Text.{◌<>◌, ◌==◌}
use photinus.Prelude.Scan.{strip}

-- `strings.Cut(s, ":")` for one character: what is before it and after it, all and nothing without one.
unfoldable pub cut : ℕ → String → String × String
cut stop String.[] = (String.[], String.[])
cut stop (String.◌∷◌ c s) =
    let (front, rest) = cut stop s in
    if eqb (code c) stop then (String.[], s) else (String.◌∷◌ c front, rest)

-- One step of the search from the back.
last_step : ℕ → Char → String → Option (String × String) → Option (String × String)
last_step stop c s none = if eqb (code c) stop then some (String.[], s) else none
last_step stop c s (some (front, rest)) = some (String.◌∷◌ c front, rest)

-- `strings.LastIndex(s, ":")`: the texts around the last such character, if there is one.
unfoldable pub cut_last : ℕ → String → Option (String × String)
unfolding last_step
cut_last stop String.[] = none
cut_last stop (String.◌∷◌ c s) = last_step stop c s (cut_last stop s)

-- `strings.Count(s, ":")` and `strings.Contains(s, ":")`
unfoldable pub count_char : ℕ → String → ℕ
count_char stop String.[] = 0
count_char stop (String.◌∷◌ c s) = (if eqb (code c) stop then 1 else 0) + count_char stop s

abbrev pub has_char : ℕ → String → Bool
has_char stop s = leb 1 (count_char stop s)

-- `strings.HasPrefix(s, p)` and `strings.Contains(s, p)`
abbrev pub has_prefix : String → String → Bool
has_prefix s p = is_some (strip p s)

unfoldable pub has_text : String → String → Bool
has_text String.[] p = p == ""
has_text (String.◌∷◌ c s) p = has_prefix (String.◌∷◌ c s) p || has_text s p

-- Every character passes the test.
unfoldable pub every : (ℕ → Bool) → String → Bool
every p String.[] = true
every p (String.◌∷◌ c s) = p (code c) && every p s

-- `strings.Split(s, ",")` for one character.
split_step : Bool → Char → List String → List String
split_step here c [] = []
split_step here c (part ∷ parts) =
    if here then String.[] ∷ part ∷ parts else String.◌∷◌ c part ∷ parts

unfoldable pub split : ℕ → String → List String
unfolding split_step
split stop String.[] = String.[] ∷ []
split stop (String.◌∷◌ c s) = split_step (eqb (code c) stop) c (split stop s)

runs :
    (cut b':' "tcp:db:5432" ≡ ("tcp", "db:5432"))
    × (cut_last b':' "a:b:c" ≡ some ("a:b", "c"))
    × (split b',' "x,,y" ≡ "x" ∷ "" ∷ "y" ∷ [])
unfolding cut cut_last split last_step split_step
runs = (refl, refl, refl)

-- Both parts of a text that was cut.
abbrev pub found : String × String → Option (String × String)
found parts = some parts

parts : {p q : String × String} → found p ≡ found q → p ≡ q
parts {p = p} {q = q} e = ap (λ o. get_or o p) e

join-last_step :
    (mark c : Char) (s front rest : String) (o : Option (String × String))
    → ((f r : String) → o ≡ found (f, r) → s ≡ f <> String.◌∷◌ mark r)
    → last_step (code mark) c s o ≡ found (front, rest)
    → String.◌∷◌ c s ≡ front <> String.◌∷◌ mark rest
unfolding last_step
join-last_step mark c s front rest none h k =
    here (eqb (code c) (code mark)) (λ e. Char-path c mark (ground (arith, e))) k
  where
    here :
        (b : Bool)
        → (b ≡ true → c ≡ mark)
        → (if b then found (String.[], s) else none) ≡ found (front, rest)
        → String.◌∷◌ c s ≡ front <> String.◌∷◌ mark rest
    here true at k =
        ap (λ d. String.◌∷◌ d s) (at refl)
        ∙ sym (append.nil (String.◌∷◌ mark s))
        ∙ ap (λ (q : String × String). q.0 <> String.◌∷◌ mark q.1) (parts k)
    here false at k = absurd (cc)
join-last_step mark c s front rest (some (f, r)) h k =
    ap (λ t. String.◌∷◌ c t) (h f r refl)
    ∙ sym (append.cons c f (String.◌∷◌ mark r))
    ∙ ap (λ (q : String × String). q.0 <> String.◌∷◌ mark q.1) (parts k)

-- What is cut at the last character, put together again, is the text.
pub join-cut_last :
    (mark : Char) (s front rest : String)
    → cut_last (code mark) s ≡ found (front, rest)
    → s ≡ front <> String.◌∷◌ mark rest
unfolding cut_last
join-cut_last mark String.[] front rest h = absurd (cc)
join-cut_last mark (String.◌∷◌ c s) front rest h =
    join-last_step mark c s front rest (cut_last (code mark) s) (join-cut_last mark s) h

-- A text without the character is one part; up to the first one is the first part.
pub split-whole : (stop : ℕ) (s : String) → count_char stop s ≡ 0 → split stop s ≡ s ∷ []
unfolding split split_step count_char
split-whole stop String.[] h = refl
split-whole stop (String.◌∷◌ c s) h = ground (arith, split-whole stop s)

-- Every text has a part.
split-parts : (stop : ℕ) (s : String) → (p : String) × (ps : List String) × (split stop s ≡ p ∷ ps)
unfolding split split_step
split-parts stop String.[] = (String.[], [], refl)
split-parts stop (String.◌∷◌ c s) =
    let (p, ps, e) = split-parts stop s in go p ps (eqb (code c) stop) e
  where
    go :
        (p : String) (ps : List String) (b : Bool)
        → split stop s ≡ p ∷ ps
        → (q : String) × (qs : List String) × (split_step b c (split stop s) ≡ q ∷ qs)
    go p ps true e = (String.[], p ∷ ps, rw e refl)
    go p ps false e = (String.◌∷◌ c p, ps, rw e refl)

pub split-first :
    (mark : Char) (s t : String)
    → count_char (code mark) s ≡ 0
    → split (code mark) (s <> String.◌∷◌ mark t) ≡ s ∷ split (code mark) t
unfolding split split_step count_char
split-first mark String.[] t h =
    let (p, ps, e) = split-parts (code mark) t in
    rw (append.nil (String.◌∷◌ mark t), split, e) (ground arith)
split-first mark (String.◌∷◌ c s) t h =
    rw (append.cons c s (String.◌∷◌ mark t), split, split-first mark s t (ground (arith, h)))
      (ground (arith, h))

-- The same with the mark as a text.
pub split-mark :
    (mark : Char) (s t : String)
    → count_char (code mark) s ≡ 0
    → split (code mark) (s <> String.◌∷◌ mark String.[] <> t) ≡ s ∷ split (code mark) t
split-mark mark s t h = rw (append.cons mark String.[] t, append.nil t) (split-first mark s t h)
