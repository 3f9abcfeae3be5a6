-- ===== src/Prelude/Latest.antt =====
-- The newest of several things said, by a loop that keeps what it has unless something is newer, and
-- what the loop makes of them in another order.
use Prim.Native.Nat.{ℕ}
use mathlib.Core.Path.{◌≡◌, refl, sym, ◌∙◌, ap}
use mathlib.Core.Bool.{Bool, true, ◌&&◌}
use mathlib.Core.Option.{Option, none, some}
use mathlib.Core.List.{List, [], ◌∷◌}
use native.Mathlib.Omega.{arith}
use photinus.Prelude.Tests.{if◌then◌else◌, ltb}
use photinus.Prelude.Lists.{All}

-- The same entries, in another order.
pub data Shuffle (A : Type 0) : List A → List A → Type 0 where
  same : (xs : List A) → Shuffle A xs xs
  keep_first : (x : A) {xs ys : List A} → Shuffle A xs ys → Shuffle A (x ∷ xs) (x ∷ ys)
  swap : (x y : A) (xs : List A) → Shuffle A (x ∷ y ∷ xs) (y ∷ x ∷ xs)
  again : {xs ys zs : List A} → Shuffle A xs ys → Shuffle A ys zs → Shuffle A xs zs

pub All-Shuffle :
    {A : Type 0} (P : A → Type 0) {xs ys : List A} → Shuffle A xs ys → All P xs → All P ys
All-Shuffle P (same xs) h = h
All-Shuffle P (keep_first x s) h = (h.0, All-Shuffle P s h.1)
All-Shuffle P (swap x y xs) h = (h.1.0, (h.0, h.1.1))
All-Shuffle P (again s t) h = All-Shuffle P t (All-Shuffle P s h)

module _ {A : Type 0} (seen : A → ℕ) where
  abbrev pub newer : A → Option A → Bool
  newer a none = true
  newer a (some p) = ltb (seen p) (seen a)

  -- One round: `a` is taken if it counts and is newer.
  unfoldable pub choose : Bool → A → Option A → Option A
  choose counts a acc = if counts && newer a acc then some a else acc

  unfoldable pub latest : (A → Bool) → List A → Option A → Option A
  latest counts [] acc = acc
  latest counts (a ∷ as_) acc = latest counts as_ (choose (counts a) a acc)

  choose_swap :
      (b c : Bool) (x y : A) (acc : Option A)
      → (b ≡ true → c ≡ true → seen x ≡ seen y → x ≡ y)
      → choose b x (choose c y acc) ≡ choose c y (choose b x acc)
  unfolding choose
  choose_swap b c x y none h = ground arith
  choose_swap b c x y (some a) h = ground arith

  -- Whatever counts and was seen at one time is one thing: `said` tells what.
  abbrev pub IsHistory : (A → Bool) → (ℕ → A) → List A → Type 0
  IsHistory counts said = All (λ a. counts a ≡ true → said (seen a) ≡ a)

  -- The newest does not depend on the order in which things are heard.
  pub latest-Shuffle :
      (counts : A → Bool) (said : ℕ → A) {xs ys : List A} (acc : Option A)
      → Shuffle A xs ys
      → IsHistory counts said xs
      → latest counts xs acc ≡ latest counts ys acc
  unfolding latest
  latest-Shuffle counts said acc (same xs) h = refl
  latest-Shuffle counts said acc (keep_first x s) h =
      latest-Shuffle counts said (choose (counts x) x acc) s h.1
  latest-Shuffle counts said acc (swap x y xs) h =
      ap (latest counts xs)
        (choose_swap (counts y) (counts x) y x acc (λ c d e. sym (h.1.0 c) ∙ ap said e ∙ h.0 d))
  latest-Shuffle counts said acc (again s t) h =
      latest-Shuffle counts said acc s h
      ∙ latest-Shuffle counts said acc t
          (All-Shuffle (λ a. counts a ≡ true → said (seen a) ≡ a) s h)
