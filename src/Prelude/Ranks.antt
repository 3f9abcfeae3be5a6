-- ===== src/Prelude/Ranks.antt =====
-- Lists sorted by a rank, and sums over lists.
use Prim.Native.Nat.{ℕ, ◌+◌, ◌≤◌}
use mathlib.Core.Path.{◌≡◌, refl}
use mathlib.Core.Logic.{inl, inr}
use mathlib.Core.Bool.{Bool, true, false}
use mathlib.Core.List.{List, [], ◌∷◌}
use native.Mathlib.Omega.{arith}
use photinus.Prelude.Tests.{Bool-cases}
use photinus.Prelude.Lists.{All, All-map}
use photinus.Prelude.Sort.{insert_by, sort_by, All-insert_by}

module _ {ℓ} {A : Type ℓ} where
  -- No entry stands before one of a lower rank.
  abbrev pub Ranked : (A → ℕ) → List A → Type 0
  Ranked rank [] = Unit
  Ranked rank (x ∷ xs) = All (λ y. rank x ≤ rank y) xs × Ranked rank xs

  unfoldable pub sum : (A → ℕ) → List A → ℕ
  sum f [] = 0
  sum f (x ∷ xs) = f x + sum f xs

  sum-insert_by :
      (f : A → ℕ) (lt : A → A → Bool) (x : A) (ys : List A)
      → sum f (insert_by lt x ys) ≡ f x + sum f ys
  unfolding sum insert_by
  sum-insert_by f lt x [] = refl
  sum-insert_by f lt x (y ∷ ys) = ground (arith, sum-insert_by f lt x ys)

  pub sum-sort_by : (f : A → ℕ) (lt : A → A → Bool) (xs : List A) → sum f (sort_by lt xs) ≡ sum f xs
  unfolding sum sort_by
  sum-sort_by f lt [] = refl
  sum-sort_by f lt (x ∷ xs) =
      ground (arith, sum-insert_by f lt x (sort_by lt xs), sum-sort_by f lt xs)

  module _ (rank : A → ℕ) (lt : A → A → Bool) (lower : (x y : A) → lt x y ≡ true → rank x ≤ rank y)
      (higher : (x y : A) → lt x y ≡ false → rank y ≤ rank x) where
    insert_by-Ranked : (x : A) (ys : List A) → Ranked rank ys → Ranked rank (insert_by lt x ys)
    unfolding insert_by
    insert_by-Ranked x [] h = (tt, tt)
    insert_by-Ranked x (y ∷ ys) h = elim (Bool-cases (lt y x)) [
      | inl e ↦ rw e (
        All-insert_by (λ z. rank y ≤ rank z) lt x ys (lower y x e) h.0,
        insert_by-Ranked x ys h.1,
      )
      | inr e ↦
          let le = higher y x e in rw e ((le, All-map _ _ ys (λ z k. omega (arith, le, k)) h.0), h)
    ]

    -- Sorting by an order that respects the rank sorts by the rank.
    pub sort_by-Ranked : (xs : List A) → Ranked rank (sort_by lt xs)
    unfolding sort_by
    sort_by-Ranked [] = tt
    sort_by-Ranked (x ∷ xs) = insert_by-Ranked x (sort_by lt xs) (sort_by-Ranked xs)
