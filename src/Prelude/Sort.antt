-- ===== src/Prelude/Sort.antt =====
-- `sort.Slice` with a strict order: an insertion sort. Entries that the order cannot tell apart keep
-- their order here; Go leaves theirs open.
use Prim.Native.Nat.{suc, ◌+◌}
use mathlib.Core.Path.{◌≡◌, refl}
use mathlib.Core.Bool.{Bool}
use mathlib.Core.List.{List, [], ◌∷◌}
use native.Mathlib.Omega.{arith}
use photinus.Prelude.Tests.{if◌then◌else◌}
use photinus.Prelude.Lists.{length, count, All}

module _ {ℓ} {A : Type ℓ} where
  unfoldable pub insert_by : (A → A → Bool) → A → List A → List A
  insert_by lt x [] = x ∷ []
  insert_by lt x (y ∷ ys) = if lt y x then y ∷ insert_by lt x ys else x ∷ y ∷ ys

  unfoldable pub sort_by : (A → A → Bool) → List A → List A
  sort_by lt [] = []
  sort_by lt (x ∷ xs) = insert_by lt x (sort_by lt xs)

  count-insert_by :
      (lt : A → A → Bool) (p : A → Bool) (x : A) (ys : List A)
      → count p (insert_by lt x ys) ≡ (if p x then 1 else 0) + count p ys
  unfolding insert_by count
  count-insert_by lt p x [] = refl
  count-insert_by lt p x (y ∷ ys) = ground (arith, count-insert_by lt p x ys)

  -- Sorting counts no entry away and makes none up.
  pub count-sort_by :
      (lt : A → A → Bool) (p : A → Bool) (xs : List A) → count p (sort_by lt xs) ≡ count p xs
  unfolding sort_by count
  count-sort_by lt p [] = refl
  count-sort_by lt p (x ∷ xs) =
      ground (arith, count-insert_by lt p x (sort_by lt xs), count-sort_by lt p xs)

  length-insert_by :
      (lt : A → A → Bool) (x : A) (ys : List A) → length (insert_by lt x ys) ≡ suc (length ys)
  unfolding insert_by
  length-insert_by lt x [] = refl
  length-insert_by lt x (y ∷ ys) = ground (arith, length-insert_by lt x ys)

  pub length-sort_by : (lt : A → A → Bool) (xs : List A) → length (sort_by lt xs) ≡ length xs
  unfolding sort_by
  length-sort_by lt [] = refl
  length-sort_by lt (x ∷ xs) =
      ground (arith, length-insert_by lt x (sort_by lt xs), length-sort_by lt xs)

  pub All-insert_by {κ} :
      (P : A → Type κ) (lt : A → A → Bool) (x : A) (ys : List A)
      → P x
      → All P ys
      → All P (insert_by lt x ys)
  unfolding insert_by
  All-insert_by P lt x [] h k = (h, tt)
  All-insert_by P lt x (y ∷ ys) h k = ground (arith, All-insert_by P lt x ys h k.1)

  pub All-sort_by {κ} :
      (P : A → Type κ) (lt : A → A → Bool) (xs : List A) → All P xs → All P (sort_by lt xs)
  unfolding sort_by
  All-sort_by P lt [] h = tt
  All-sort_by P lt (x ∷ xs) h = All-insert_by P lt x _ h.0 (All-sort_by P lt xs h.1)
