-- ===== src/Prelude/Keys.antt =====
-- The keys of a map whose values pass a test.
use Prim.Native.String.{String}
use mathlib.Core.Path.{◌≡◌, refl}
use mathlib.Core.Logic.{inl, inr}
use mathlib.Core.Bool.{Bool, true, false}
use mathlib.Core.Option.{none, some}
use mathlib.Core.List.{List, [], ◌∷◌}
use native.Mathlib.Omega.{arith}
use text.Mathlib.TextEquality.{eq_iff}
use photinus.Prelude.Tests.{if◌then◌else◌, Bool-cases}
use photinus.Prelude.Lists.{length, count, All}
use photinus.Prelude.Maps.{Dict, lookup, values, Unique}
use photinus.Prelude.Names.{contains, Distinct}

module _ {ℓ} {V : Type ℓ} where
  unfoldable pub keys_where : (V → Bool) → Dict V → List String
  keys_where p [] = []
  keys_where p ((k, v) ∷ m) = let rest = keys_where p m in if p v then k ∷ rest else rest

  pub length-keys_where : (p : V → Bool) (m : Dict V) → length (keys_where p m) ≡ count p (values m)
  unfolding keys_where count values
  length-keys_where p [] = refl
  length-keys_where p ((k, v) ∷ m) = ground (arith, length-keys_where p m)

  contains-keys_where :
      (p : V → Bool) (k : String) (m : Dict V)
      → lookup k m ≡ none
      → contains (keys_where p m) k ≡ false
  unfolding keys_where lookup contains
  contains-keys_where p k [] h = refl
  contains-keys_where p k ((j, v) ∷ m) h = ground (arith, contains-keys_where p k m)

  pub keys_where-Distinct : (p : V → Bool) (m : Dict V) → Unique m → Distinct (keys_where p m)
  unfolding keys_where
  keys_where-Distinct p [] u = tt
  keys_where-Distinct p ((k, v) ∷ m) u = elim (Bool-cases (p v)) [
    | inl e ↦ rw e (contains-keys_where p k m u.0, keys_where-Distinct p m u.1)
    | inr e ↦ rw e (keys_where-Distinct p m u.1)
  ]

  still_there :
      (j k : String) (w v : V) (m : Dict V)
      → lookup j m ≡ none
      → lookup k m ≡ some v
      → lookup k ((j, w) ∷ m) ≡ some v
  unfolding lookup
  still_there j k w v m h e = ground (arith, eq_iff j k)

  pub All-keys_where {κ} :
      (p : V → Bool) (m : Dict V)
      → Unique m
      → (Q : String → Type κ) → ((k : String) (v : V) → lookup k m ≡ some v → p v ≡ true → Q k)
      → All Q (keys_where p m)
  unfolding keys_where
  All-keys_where p [] u Q f = tt
  All-keys_where p ((j, w) ∷ m) u Q f =
      let rest = All-keys_where p m u.1 Q (λ k v h e. f k v (still_there j k w v m u.0 h) e) in
      elim (Bool-cases (p w)) [ inl e ↦ rw e (f j w first e, rest) | inr e ↦ rw e rest ]
    where
      first : lookup j ((j, w) ∷ m) ≡ some w
      first = unfold lookup in ground (arith, eq_iff j j)
