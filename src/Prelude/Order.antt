-- ===== src/Prelude/Order.antt =====
-- `<` on texts is a strict total order.
use Prim.Native.Nat.{ℕ, Ordering, compare as compare_ℕ}
use Prim.Native.String.{String, compare, then as lexicographic}
use Prim.Native.String.compare as laws
use Prim.Native.Char.{code}
use mathlib.Core.Path.{◌≡◌, refl}
use mathlib.Core.Bool.{true, false}
use native.Mathlib.Omega.{arith}
use text.Mathlib.TextEquality.{path_by_compare}
use text.Mathlib.TextPositions.{compare_refl}
use photinus.Prelude.Text.{str_ltb}

flip : Ordering → Ordering
flip Ordering.lt = Ordering.gt
flip Ordering.eq = Ordering.eq
flip Ordering.gt = Ordering.lt

flip-compare_ℕ : (m n : ℕ) → compare_ℕ n m ≡ flip (compare_ℕ m n)
unfolding flip
flip-compare_ℕ m n = ground arith

flip-lexicographic : (o r : Ordering) → lexicographic (flip o) (flip r) ≡ flip (lexicographic o r)
unfolding flip
flip-lexicographic Ordering.lt r = refl
flip-lexicographic Ordering.eq r = refl
flip-lexicographic Ordering.gt r = refl

flip-compare : (s t : String) → compare t s ≡ flip (compare s t)
unfolding flip
flip-compare String.[] String.[] = rw laws.nil-nil
flip-compare String.[] (String.◌∷◌ d t) = rw (laws.cons-nil, laws.nil-cons)
flip-compare (String.◌∷◌ c s) String.[] = rw (laws.cons-nil, laws.nil-cons)
flip-compare (String.◌∷◌ c s) (String.◌∷◌ d t) =
    rw
      (
        laws.cons-cons d c t s,
        laws.cons-cons c d s t,
        flip-compare_ℕ (code c) (code d),
        flip-compare s t,
      )
      (flip-lexicographic (compare_ℕ (code c) (code d)) (compare s t))

lexicographic_trans :
    (a b c : ℕ) (r₁ r₂ r₃ : Ordering)
    → (r₁ ≡ Ordering.lt → r₂ ≡ Ordering.lt → r₃ ≡ Ordering.lt)
    → lexicographic (compare_ℕ a b) r₁ ≡ Ordering.lt
    → lexicographic (compare_ℕ b c) r₂ ≡ Ordering.lt
    → lexicographic (compare_ℕ a c) r₃ ≡ Ordering.lt
lexicographic_trans a b c r₁ r₂ r₃ h p q = ground arith

compare_trans :
    (s t u : String)
    → compare s t ≡ Ordering.lt
    → compare t u ≡ Ordering.lt
    → compare s u ≡ Ordering.lt
compare_trans String.[] String.[] u p q = let e = rw laws.nil-nil at p in cc
compare_trans String.[] (String.◌∷◌ d t) String.[] p q = let e = rw (laws.cons-nil d t) at q in cc
compare_trans String.[] (String.◌∷◌ d t) (String.◌∷◌ e u) p q = laws.nil-cons e u
compare_trans (String.◌∷◌ c s) String.[] u p q = let e = rw (laws.cons-nil c s) at p in cc
compare_trans (String.◌∷◌ c s) (String.◌∷◌ d t) String.[] p q =
    let e = rw (laws.cons-nil d t) at q in cc
compare_trans (String.◌∷◌ c s) (String.◌∷◌ d t) (String.◌∷◌ e u) p q = rw (laws.cons-cons c e s u) (
    lexicographic_trans (code c) (code d) (code e) (compare s t) (compare t u) (compare s u)
      (compare_trans s t u) (rw (laws.cons-cons c d s t) at p) (rw (laws.cons-cons d e t u) at q))

-- No text is below itself.
pub str_lt_irrefl : (s : String) → str_ltb s s ≡ false
unfolding str_ltb
str_lt_irrefl s = rw (compare_refl s)

pub str_lt_asymm : (s t : String) → str_ltb s t ≡ true → str_ltb t s ≡ false
unfolding str_ltb flip
str_lt_asymm s t h = ground (arith, flip-compare s t)

pub str_lt_total : (s t : String) → str_ltb s t ≡ false → str_ltb t s ≡ false → s ≡ t
unfolding str_ltb flip
str_lt_total s t h k = path_by_compare s t (ground (arith, flip-compare s t))

pub str_lt_trans : (s t u : String) → str_ltb s t ≡ true → str_ltb t u ≡ true → str_ltb s u ≡ true
unfolding str_ltb
str_lt_trans s t u p q = ground (arith, compare_trans s t u)

-- "Not above" is transitive.
pub str_le_trans :
    (s t u : String) → str_ltb t s ≡ false → str_ltb u t ≡ false → str_ltb u s ≡ false
str_le_trans s t u p q =
    ground (arith, str_lt_trans u s t, str_lt_total s t, str_lt_asymm s t, str_lt_irrefl s)
