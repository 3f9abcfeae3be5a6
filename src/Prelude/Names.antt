-- ===== src/Prelude/Names.antt =====
-- Lists of names: membership as `slices.Contains`, distinct names, and counting by pigeonholes.
use Prim.Native.Nat.{suc, ◌+◌, ◌≤◌}
use Prim.Native.String.{String}
use mathlib.Core.Path.{◌≡◌, refl}
use mathlib.Core.Logic.{◌⊎◌, inl, inr}
use mathlib.Core.Bool.{Bool, true, false, not, ◌||◌}
use mathlib.Core.List.{List, [], ◌∷◌}
use native.Mathlib.Omega.{arith}
use text.Mathlib.TextEquality.{eq_iff}
use photinus.Prelude.Tests.{if◌then◌else◌}
use photinus.Prelude.Text.{◌==◌}
use photinus.Prelude.Lists.{length, count, All}

-- `slices.Contains(xs, s)`
unfoldable pub contains : List String → String → Bool
contains [] s = false
contains (x ∷ xs) s = x == s || contains xs s

abbrev pub Distinct : List String → Type 0
Distinct [] = Unit
Distinct (x ∷ xs) = (contains xs x ≡ false) × Distinct xs

-- One entry of the list has the property.
abbrev pub Any {ℓ} : {A : Type ℓ} → (A → Type 0) → List A → Type 0
Any P [] = ⊥
Any P (x ∷ xs) = P x ⊎ Any P xs

pub Any-map {ℓ} :
    {A : Type ℓ} (P : A → Type 0) (Q : A → Type 0) (xs : List A)
    → ((x : A) → P x → Q x)
    → Any P xs
    → Any Q xs
Any-map P Q [] f h = absurd h
Any-map P Q (x ∷ xs) f (inl p) = inl (f x p)
Any-map P Q (x ∷ xs) f (inr t) = inr (Any-map P Q xs f t)

-- The list without the first entry that is `s`.
drop_one : String → List String → List String
drop_one s [] = []
drop_one s (x ∷ xs) = if x == s then xs else x ∷ drop_one s xs

count-drop_one :
    (p : String → Bool) (s : String) (xs : List String)
    → contains xs s ≡ true
    → p s ≡ true
    → count p xs ≡ suc (count p (drop_one s xs))
unfolding drop_one contains count
count-drop_one p s [] h k = cc
count-drop_one p s (x ∷ xs) h k = ground (arith, eq_iff x s, count-drop_one p s xs)

contains-drop_one :
    (s t : String) (xs : List String)
    → (t == s) ≡ false
    → contains xs t ≡ true
    → contains (drop_one s xs) t ≡ true
unfolding drop_one contains
contains-drop_one s t [] h k = k
contains-drop_one s t (x ∷ xs) h k =
    ground (arith, eq_iff x s, eq_iff x t, eq_iff t s, contains-drop_one s t xs h)

contains_other :
    (x : String) (ws : List String) → contains ws x ≡ false → All (λ w. (w == x) ≡ false) ws
unfolding contains
contains_other x [] h = tt
contains_other x (w ∷ ws) h = (ground arith, contains_other x ws (ground arith))

All-zip {κ μ ν} :
    (P : String → Type κ) (Q : String → Type μ) (R : String → Type ν) (xs : List String)
    → ((x : String) → P x → Q x → R x)
    → All P xs
    → All Q xs
    → All R xs
All-zip P Q R [] f h k = tt
All-zip P Q R (x ∷ xs) f h k = (f x h.0 k.0, All-zip P Q R xs f h.1 k.1)

-- Distinct names, each a member that passes a test, are no more than the members that pass it.
pub length-le-count :
    (p : String → Bool) (ws members : List String)
    → Distinct ws
    → All (λ w. (contains members w ≡ true) × (p w ≡ true)) ws
    → length ws ≤ count p members
length-le-count p [] members d h = omega arith
length-le-count p (w ∷ ws) members d h = omega (
  arith,
  count-drop_one p w members h.0.0 h.0.1,
  length-le-count p ws (drop_one w members) d.1 (
      All-zip (λ v. (v == w) ≡ false) (λ v. (contains members v ≡ true) × (p v ≡ true))
        (λ v. (contains (drop_one w members) v ≡ true) × (p v ≡ true)) ws
        (λ v e k. (contains-drop_one w v members e k.0, k.1)) (contains_other w ws d.0) h.1),
)

-- A test and its opposite share the list out.
pub count-split :
    (p : String → Bool) (xs : List String) → count p xs + count (λ x. not (p x)) xs ≡ length xs
unfolding count
count-split p [] = refl
count-split p (x ∷ xs) = ground (arith, count-split p xs)
