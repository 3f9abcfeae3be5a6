-- ===== src/Prelude/Sets.antt =====
-- Sets of names, Go's `map[string]struct{}`: lists that hold each name once.
use Prim.Native.Nat.{◌≤◌}
use Prim.Native.String.{String}
use mathlib.Core.Path.{◌≡◌, refl, subst}
use mathlib.Core.Logic.{inl, inr}
use mathlib.Core.Bool.{true, not, ◌||◌, ◌&&◌}
use mathlib.Core.List.{List, [], ◌∷◌}
use native.Mathlib.Omega.{arith}
use text.Mathlib.TextEquality.{eq_iff}
use photinus.Prelude.Tests.{if◌then◌else◌, Bool-cases}
use photinus.Prelude.Text.{◌==◌}
use photinus.Prelude.Lists.{length, count, All}
use photinus.Prelude.Names.{contains, Distinct, length-le-count}

-- s[name] = struct{}{}
unfoldable pub add : String → List String → List String
add name s = if contains s name then s else name ∷ s

-- delete(s, name)
unfoldable pub remove : String → List String → List String
remove name [] = []
remove name (x ∷ s) = let rest = remove name s in if x == name then rest else x ∷ rest

pub contains-add :
    (name k : String) (s : List String) → contains (add name s) k ≡ (name == k || contains s k)
unfolding add contains
contains-add name k s = ground (arith, eq_iff name k)

pub contains-remove :
    (name k : String) (s : List String)
    → contains (remove name s) k ≡ (not (name == k) && contains s k)
unfolding remove contains
contains-remove name k [] = ground arith
contains-remove name k (x ∷ s) =
    ground (arith, eq_iff x name, eq_iff x k, eq_iff name k, contains-remove name k s)

pub add-Distinct : (name : String) (s : List String) → Distinct s → Distinct (add name s)
unfolding add
add-Distinct name s d = ground arith

pub remove-Distinct : (name : String) (s : List String) → Distinct s → Distinct (remove name s)
unfolding remove
remove-Distinct name [] d = tt
remove-Distinct name (x ∷ s) d =
    ground (arith, eq_iff name x, remove-Distinct name s d.1, contains-remove name x s)

pub length-add : (name : String) (s : List String) → length s ≤ length (add name s)
unfolding add
length-add name s = ground arith

pub All-contains {ℓ} :
    (P : String → Type ℓ) (s : List String) → ((x : String) → contains s x ≡ true → P x) → All P s
unfolding contains
All-contains P [] f = tt
All-contains P (x ∷ s) f =
    (f x (ground (arith, eq_iff x x)), All-contains P s (λ y h. f y (ground arith)))

count_all : (s : List String) → count (λ w. true) s ≡ length s
unfolding count
count_all [] = refl
count_all (x ∷ s) = ground (arith, count_all s)

-- A set within another is no larger.
pub length-le :
    (s members : List String)
    → Distinct s
    → ((x : String) → contains s x ≡ true → contains members x ≡ true)
    → length s ≤ length members
length-le s members d f = omega (
  arith,
  count_all members,
  length-le-count (λ w. true) s members d
      (All-contains (λ w. (contains members w ≡ true) × (true ≡ true)) s (λ x h. (f x h, refl))),
)

-- What holds of all entries holds of a member.
pub member_holds {ℓ} :
    (P : String → Type ℓ) (s : List String) (x : String) → All P s → contains s x ≡ true → P x
unfolding contains
member_holds P [] x h m = absurd (cc)
member_holds P (y ∷ s) x h m = elim (Bool-cases (y == x)) [
  | inl e ↦ subst P ((eq_iff y x).0 e) h.0
  | inr e ↦ member_holds P s x h.1 (ground arith)
]
