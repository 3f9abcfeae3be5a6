-- ===== src/Prelude/Maps.antt =====
-- Go maps with text keys, as association lists. A write replaces in place, so a map built by these
-- operations holds a key once; iteration is in the order of the list.
use mathlib.Core.Path.{◌≡◌, refl}
use mathlib.Core.Bool.{Bool}
use mathlib.Core.Option.{Option, none, some}
use mathlib.Core.List.{List, [], ◌∷◌}
use Prim.Native.String.{String}
use native.Mathlib.Omega.{arith}
use text.Mathlib.TextEquality.{eq_iff}
use photinus.Prelude.Tests.{if◌then◌else◌}
use photinus.Prelude.Text.{◌==◌}

abbrev pub Dict {ℓ} : Type ℓ → Type ℓ
Dict V = List (String × V)

-- The value that passes a test, if there is one.
abbrev pub only_if {ℓ} : {V : Type ℓ} → (V → Bool) → Option V → Option V
only_if p none = none
only_if p (some v) = if p v then some v else none

module _ {ℓ} {V : Type ℓ} where
  unfoldable pub lookup : String → Dict V → Option V
  lookup key [] = none
  lookup key ((at, x) ∷ rest) = if at == key then some x else lookup key rest

  -- m[key] = x
  unfoldable pub insert : String → V → Dict V → Dict V
  insert key x [] = (key, x) ∷ []
  insert key x ((at, y) ∷ rest) =
      let later = insert key x rest in if at == key then (key, x) ∷ rest else (at, y) ∷ later

  -- delete(m, k)
  unfoldable pub delete : String → Dict V → Dict V
  delete k [] = []
  delete k ((j, w) ∷ m) = let rest = delete k m in if j == k then rest else (j, w) ∷ rest

  -- A loop that deletes the entries that fail a test. An entry that an earlier one hides goes too.
  unfoldable pub keep_entries : (String → V → Bool) → Dict V → Dict V
  keep_entries p [] = []
  keep_entries p ((j, w) ∷ m) =
      let rest = delete j (keep_entries p m) in if p j w then (j, w) ∷ rest else rest

  unfoldable pub values : Dict V → List V
  values [] = []
  values ((j, w) ∷ m) = w ∷ values m

  unfoldable pub keys : Dict V → List String
  keys [] = []
  keys ((j, w) ∷ m) = j ∷ keys m

  pub lookup-insert :
      (key other : String) (x : V) (rest : Dict V)
      → lookup other (insert key x rest) ≡ (if key == other then some x else lookup other rest)
  unfolding lookup insert
  lookup-insert key other x [] = refl
  lookup-insert key other x ((at, y) ∷ rest) =
      ground
        (lookup-insert key other x rest, eq_iff at key, eq_iff at other, eq_iff key other, arith)

  pub lookup-delete :
      (k j : String) (m : Dict V) → lookup j (delete k m) ≡ (if k == j then none else lookup j m)
  unfolding lookup delete
  lookup-delete k j [] = ground arith
  lookup-delete k j ((i, w) ∷ m) =
      ground (arith, eq_iff k j, eq_iff i k, eq_iff i j, lookup-delete k j m)

  pub lookup-keep_entries :
      (p : String → V → Bool) (j : String) (m : Dict V)
      → lookup j (keep_entries p m) ≡ only_if (p j) (lookup j m)
  unfolding lookup keep_entries
  lookup-keep_entries p j [] = refl
  lookup-keep_entries p j ((i, w) ∷ m) =
      ground (arith, eq_iff i j, lookup-delete i j (keep_entries p m), lookup-keep_entries p j m)

pub ruleset dict_laws = (lookup-insert, lookup-delete, lookup-keep_entries)

-- A map holds each key once.
abbrev pub Unique {ℓ} : {V : Type ℓ} → Dict V → Type ℓ
Unique [] = Unit
Unique ((k, v) ∷ m) = (lookup k m ≡ none) × Unique m

module _ {ℓ} {V : Type ℓ} where
  pub insert-Unique : (k : String) (v : V) (m : Dict V) → Unique m → Unique (insert k v m)
  unfolding insert lookup
  insert-Unique k v [] u = (refl, tt)
  insert-Unique k v ((j, w) ∷ m) u =
      ground (arith, eq_iff j k, eq_iff k j, insert-Unique k v m u.1, lookup-insert k j v m)

  pub delete-Unique : (k : String) (m : Dict V) → Unique m → Unique (delete k m)
  unfolding delete lookup
  delete-Unique k [] u = tt
  delete-Unique k ((j, w) ∷ m) u =
      ground (arith, eq_iff j k, eq_iff k j, delete-Unique k m u.1, lookup-delete k j m)

  pub keep_entries-Unique : (p : String → V → Bool) (m : Dict V) → Unique (keep_entries p m)
  unfolding keep_entries
  keep_entries-Unique p [] = tt
  keep_entries-Unique p ((j, w) ∷ m) = ground (
    arith,
    eq_iff j j,
    lookup-delete j j (keep_entries p m),
    delete-Unique j (keep_entries p m) (keep_entries-Unique p m),
  )
