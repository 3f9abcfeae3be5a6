-- ===== src/Lantern/Merge/Newest.antt =====
-- The store of internal/lantern/lantern.go before and after a merge.
use photinus.Prelude.{
  ◌≤◌, ◌≡◌, sym, subst, ◌∙◌, ap, ◌⊎◌, inl, inr, String, Bool, false, not, ◌&&◌, Option, none, some,
  List, [], ◌∷◌, arith, eq_iff, ◌==◌, Dict, lookup, lookup-insert, Any, if◌then◌else◌, Bool-cases,
}
use photinus.Quorum.{Observation, supersedes}
use photinus.Lantern.State.{Lantern, store_key, is_receipt}
use photinus.Lantern.Merge.{file, back, accept, merge_one, merge}

-- The observation is written to the store, if it is newer there; or the store is as it was.
pub merge_one-store :
    (o : Observation) (l : Lantern)
    → ((merge_one o l).store ≡ l.store)
      ⊎ (((merge_one o l).store ≡ file o l.store)
          × ((o.observer == l.id && not (is_receipt o)) ≡ false))
unfolding merge_one accept back
merge_one-store o l = ground arith

-- No older word takes a key, and a key once filled stays filled.
abbrev pub NotOlder : Option Observation → Option Observation → Type 0
NotOlder none q = Unit
NotOlder (some a) none = ⊥
NotOlder (some a) (some b) = a.seen ≤ b.seen

NotOlder-refl : (p : Option Observation) → NotOlder p p
NotOlder-refl none = tt
NotOlder-refl (some a) = omega arith

NotOlder-trans : (p q r : Option Observation) → NotOlder p q → NotOlder q r → NotOlder p r
NotOlder-trans none q r h k = tt
NotOlder-trans (some a) none r h k = absurd h
NotOlder-trans (some a) (some b) none h k = absurd k
NotOlder-trans (some a) (some b) (some c) h k = omega arith

pub lookup-file :
    (k : String) (o : Observation) (m : Dict Observation)
    → lookup k (file o m)
      ≡ (if store_key o == k && supersedes o (lookup k m) then some o else lookup k m)
unfolding file
lookup-file k o m = ground (arith, eq_iff (store_key o) k, lookup-insert (store_key o) k o m)

choice-NotOlder :
    (b : Bool) (o : Observation) (p : Option Observation)
    → NotOlder p (if b && supersedes o p then some o else p)
choice-NotOlder b o none = tt
choice-NotOlder b o (some a) = ground arith

merge_one-NotOlder :
    (k : String) (o : Observation) (l : Lantern)
    → NotOlder (lookup k l.store) (lookup k (merge_one o l).store)
merge_one-NotOlder k o l = elim (merge_one-store o l) [
  | inl e ↦ subst (λ m. NotOlder (lookup k l.store) (lookup k m)) (sym e) (NotOlder-refl _)
  | inr (e, own) ↦
      subst (λ m. NotOlder (lookup k l.store) (lookup k m)) (sym e)
        (subst (NotOlder (lookup k l.store)) (sym (lookup-file k o l.store))
          (choice-NotOlder (store_key o == k) o (lookup k l.store)))
]

-- Merging a flash never replaces an observation by an older one and drops none: what a lantern holds
-- under a key only gets newer.
pub merge-NotOlder :
    (k : String) (obs : List Observation) (l : Lantern)
    → NotOlder (lookup k l.store) (lookup k (merge obs l).store)
unfolding merge
merge-NotOlder k [] l = NotOlder-refl (lookup k l.store)
merge-NotOlder k (o ∷ obs) l =
    NotOlder-trans (lookup k l.store) (lookup k (merge_one o l).store) _ (merge_one-NotOlder k o l)
      (merge-NotOlder k obs (merge_one o l))

id-merge_one : (o : Observation) (l : Lantern) → (merge_one o l).id ≡ l.id
unfolding merge_one accept back
id-merge_one o l = ground arith

-- A lantern is the sole authority on itself: after a flash, whatever it holds in its own name is a
-- pulse receipt or was in its store under that key before.
pub own_word_is_kept :
    (k : String) (obs : List Observation) (l : Lantern) (x : Observation)
    → lookup k (merge obs l).store ≡ some x
    → x.observer ≡ l.id
    → is_receipt x ≡ false
    → lookup k l.store ≡ some x
unfolding merge
own_word_is_kept k [] l x h by r = h
own_word_is_kept k (o ∷ obs) l x h by r =
    kept (own_word_is_kept k obs (merge_one o l) x h (by ∙ sym (id-merge_one o l)) r)
  where
    kept : lookup k (merge_one o l).store ≡ some x → lookup k l.store ≡ some x
    kept e = elim (merge_one-store o l) [
      | inl same ↦ sym (ap (lookup k) same) ∙ e
      | inr (filed, own) ↦ ground (
        arith,
        e,
        ap (lookup k) filed,
        lookup-file k o l.store,
        own,
        by,
        r,
        eq_iff x.observer l.id,
      )
    ]

-- What a lantern holds after a flash it held before or the flash brought.
pub merge_brings :
    (k : String) (obs : List Observation) (l : Lantern) (x : Observation)
    → lookup k (merge obs l).store ≡ some x
    → (lookup k l.store ≡ some x) ⊎ Any (λ o. (o ≡ x) × (store_key o ≡ k)) obs
unfolding merge
merge_brings k [] l x h = inl h
merge_brings k (o ∷ obs) l x h = elim (merge_brings k obs (merge_one o l) x h) [
  | inl e ↦ elim (merge_one-store o l) [
    | inl same ↦ inl (sym (ap (lookup k) same) ∙ e)
    | inr (filed, own) ↦ elim (Bool-cases (store_key o == k && supersedes o (lookup k l.store))) [
      | inl y ↦ inr (
          inl (
            ground
              (arith, e, ap (lookup k) filed, lookup-file k o l.store, eq_iff (store_key o) k)))
      | inr n ↦ inl (ground (arith, e, ap (lookup k) filed, lookup-file k o l.store))
    ]
  ]
  | inr b ↦ inr (inr b)
]
