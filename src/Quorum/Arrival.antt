-- ===== src/Quorum/Arrival.antt =====
-- `Decide` of internal/quorum/quorum.go on one set of observations heard in different orders.
use photinus.Prelude.{
  ℕ, ◌≡◌, refl, sym, ap, subst, ◌∙◌, String, Bool, true, false, Option, none, some, List, [], ◌∷◌,
  inl, inr, arith, eq_iff, Time, Duration, ◌==◌, Dict, lookup, values, Unique, All, All-map,
  All-insert_by, sort_by, insert_by, str_ltb, str_lt_irrefl, str_lt_trans, str_lt_total,
  if◌then◌else◌, Bool-cases, Shuffle, latest, latest-Shuffle, choose,
}
use photinus.Quorum.{Observation, decide, conclude, hearsay, ordered, is_live, newest}
use photinus.Quorum.Newest.{Keyed, newest-Keyed, newest-Unique, lookup-newest, word_of, is_word}

-- Ordered by observer, each observer once.
abbrev pub IsSorted : List Observation → Type 0
IsSorted [] = Unit
IsSorted (x ∷ xs) = All (λ y. str_ltb x.observer y.observer ≡ true) xs × IsSorted xs

-- The entry of an observer.
find : String → List Observation → Option Observation
find k [] = none
find k (x ∷ xs) = let rest = find k xs in if x.observer == k then some x else rest

abbrev by_observer : Observation → Observation → Bool
by_observer x y = str_ltb x.observer y.observer

find_later :
    (k : String) (xs : List Observation)
    → All (λ y. str_ltb k y.observer ≡ true) xs
    → find k xs ≡ none
unfolding find
find_later k [] h = refl
find_later k (x ∷ xs) h =
    ground (arith, h.0, eq_iff x.observer k, str_lt_irrefl k, find_later k xs h.1)

later_trans :
    (j k : String) (xs : List Observation)
    → str_ltb j k ≡ true
    → All (λ y. str_ltb k y.observer ≡ true) xs
    → All (λ y. str_ltb j y.observer ≡ true) xs
later_trans j k xs h = All-map _ _ xs (λ y l. str_lt_trans j k y.observer h l)

find-insert_by :
    (k : String) (x : Observation) (ys : List Observation)
    → find x.observer ys ≡ none
    → find k (insert_by by_observer x ys) ≡ (if x.observer == k then some x else find k ys)
unfolding find insert_by
find-insert_by k x [] n = refl
find-insert_by k x (y ∷ ys) n = ground (
  arith,
  n,
  eq_iff x.observer k,
  eq_iff y.observer k,
  eq_iff y.observer x.observer,
  find-insert_by k x ys,
)

is_above :
    (x y : Observation) (ys : List Observation)
    → find x.observer (y ∷ ys) ≡ none
    → by_observer y x ≡ false
    → str_ltb x.observer y.observer ≡ true
unfolding find
is_above x y ys n e =
    ground (arith, n, e, eq_iff y.observer x.observer, str_lt_total x.observer y.observer)

insert_by-IsSorted :
    (x : Observation) (ys : List Observation)
    → find x.observer ys ≡ none
    → IsSorted ys
    → IsSorted (insert_by by_observer x ys)
unfolding find insert_by
insert_by-IsSorted x [] n s = (tt, tt)
insert_by-IsSorted x (y ∷ ys) n s = elim (Bool-cases (by_observer y x)) [
  | inl e ↦ rw e (
    All-insert_by (λ z. by_observer y z ≡ true) by_observer x ys e s.0,
    insert_by-IsSorted x ys (ground (arith, n)) s.1,
  )
  | inr e ↦
      let above = is_above x y ys n e in
      rw e ((above, later_trans x.observer y.observer ys above s.0), s)
]

fresh_observer :
    (j : String) (o : Observation) (m : Dict Observation)
    → j ≡ o.observer
    → lookup j m ≡ none
    → find o.observer (ordered m) ≡ lookup o.observer m
    → find o.observer (ordered m) ≡ none
fresh_observer j o m e n f = f ∙ subst (λ k. lookup k m ≡ none) e n

none_left :
    (xs ys : List Observation) (k : String)
    → find k xs ≡ none
    → find k ys ≡ none
    → find k xs ≡ find k ys
none_left xs ys k e f = e ∙ sym f

-- A map's values in order, and what it holds.
find-ordered :
    (k : String) (m : Dict Observation) → Keyed m → Unique m → find k (ordered m) ≡ lookup k m
unfolding ordered sort_by values find lookup
find-ordered k [] h u = refl
find-ordered k ((j, o) ∷ m) h u =
    let fresh = fresh_observer j o m h.0 u.0 (find-ordered o.observer m h.1 u.1) in
    ground (
      arith,
      find-insert_by k o (ordered m) fresh,
      find-ordered k m h.1 u.1,
      h.0,
      eq_iff j k,
      eq_iff o.observer k,
    )

ordered-IsSorted : (m : Dict Observation) → Keyed m → Unique m → IsSorted (ordered m)
unfolding ordered sort_by values
ordered-IsSorted [] h u = tt
ordered-IsSorted ((j, o) ∷ m) h u =
    insert_by-IsSorted o (ordered m)
      (fresh_observer j o m h.0 u.0 (find-ordered o.observer m h.1 u.1))
      (ordered-IsSorted m h.1 u.1)

find_head : (x : Observation) (xs : List Observation) → find x.observer (x ∷ xs) ≡ some x
unfolding find
find_head x xs = ground (arith, eq_iff x.observer x.observer)

-- Where one list begins below the other, the other lacks that entry.
find_below :
    (x y : Observation) (ys : List Observation)
    → str_ltb x.observer y.observer ≡ true
    → IsSorted (y ∷ ys)
    → find x.observer (y ∷ ys) ≡ none
find_below x y ys l t =
    find_later x.observer (y ∷ ys) (l, later_trans x.observer y.observer ys l t.0)

same_heads :
    (x y : Observation) (xs ys : List Observation)
    → IsSorted (x ∷ xs)
    → IsSorted (y ∷ ys)
    → ((k : String) → find k (x ∷ xs) ≡ find k (y ∷ ys))
    → x.observer ≡ y.observer
same_heads x y xs ys s t f = elim (Bool-cases (by_observer x y)) [
  | inl l ↦ absurd (ground (arith, f x.observer, find_head x xs, find_below x y ys l t))
  | inr n ↦ elim (Bool-cases (by_observer y x)) [
    | inl l ↦ absurd (ground (arith, f y.observer, find_head y ys, find_below y x xs l s))
    | inr m ↦ str_lt_total x.observer y.observer n m
  ]
]

tail_entry :
    (x y : Observation) (xs ys : List Observation)
    → IsSorted (x ∷ xs)
    → IsSorted (y ∷ ys)
    → x.observer ≡ y.observer
    → (k : String) → find k (x ∷ xs) ≡ find k (y ∷ ys)
    → find k xs ≡ find k ys
unfolding find
tail_entry x y xs ys s t e k h = elim (Bool-cases (x.observer == k)) [
  | inl at ↦
      let same : x.observer ≡ k = (eq_iff x.observer k).0 at in
      none_left xs ys k
        (find_later k xs (subst (λ j. All (λ z. str_ltb j z.observer ≡ true) xs) same s.0))
        (find_later k ys
          (subst (λ j. All (λ z. str_ltb j z.observer ≡ true) ys) (sym e ∙ same) t.0))
  | inr at ↦ ground (arith, h, at, e)
]

-- Two ordered lists with the same entries are one list.
same_entries :
    (xs ys : List Observation)
    → IsSorted xs
    → IsSorted ys
    → ((k : String) → find k xs ≡ find k ys)
    → xs ≡ ys
unfolding find
same_entries [] [] s t f = refl
same_entries [] (y ∷ ys) s t f = absurd (ground (arith, f y.observer, eq_iff y.observer y.observer))
same_entries (x ∷ xs) [] s t f = absurd (ground (arith, f x.observer, eq_iff x.observer x.observer))
same_entries (x ∷ xs) (y ∷ ys) s t f =
    let e = same_heads x y xs ys s t f in
    let rest = same_entries xs ys s.1 t.1 (λ k. tail_entry x y xs ys s t e k (f k)) in
    ground
      (arith, rest, f x.observer, e, eq_iff x.observer x.observer, eq_iff y.observer x.observer)

module _ (target check : String) (max_age : Duration) (now : Time) where
  latest-word_of :
      (k : String) (obs : List Observation) (acc : Option Observation)
      → word_of target check max_age now k obs acc
        ≡ latest (λ o. o.seen) (is_word target check max_age now k) obs acc
  unfolding word_of latest choose
  latest-word_of k [] acc = refl
  latest-word_of k (o ∷ obs) none =
      ground (arith, latest-word_of k obs none, latest-word_of k obs (some o))
  latest-word_of k (o ∷ obs) (some p) =
      ground (arith, latest-word_of k obs (some p), latest-word_of k obs (some o))

  -- On one subject, what a lantern said at a time is one observation.
  word-history :
      (said : String → String → String → Time → Observation) (k : String) (o : Observation)
      → said o.observer o.check o.target o.seen ≡ o
      → is_word target check max_age now k o ≡ true
      → said k check target o.seen ≡ o
  unfolding is_live
  word-history said k o e w =
      ground (arith, e, w, eq_iff o.observer k, eq_iff o.check check, eq_iff o.target target)

  same_words :
      (said : String → String → String → Time → Observation) (k : String)
      {obs obs' : List Observation}
      → Shuffle Observation obs obs'
      → All (λ o. said o.observer o.check o.target o.seen ≡ o) obs
      → lookup k (newest target check obs max_age now)
        ≡ lookup k (newest target check obs' max_age now)
  same_words said k {obs = obs} {obs' = obs'} s h =
      lookup-newest target check max_age now k obs
      ∙ latest-word_of k obs none
      ∙ latest-Shuffle (λ o. o.seen) (is_word target check max_age now k) (said k check target) none
          s (All-map _ _ obs (λ o e. word-history said k o e) h)
      ∙ sym (lookup-newest target check max_age now k obs' ∙ latest-word_of k obs' none)

  same_order :
      (obs obs' : List Observation)
      → ((k : String)
          → lookup k (newest target check obs max_age now)
            ≡ lookup k (newest target check obs' max_age now))
      → ordered (newest target check obs max_age now)
        ≡ ordered (newest target check obs' max_age now)
  same_order obs obs' f =
      let m = newest target check obs max_age now in
      let m' = newest target check obs' max_age now in
      let h = newest-Keyed target check max_age now obs in
      let h' = newest-Keyed target check max_age now obs' in
      let u = newest-Unique target check max_age now obs in
      let u' = newest-Unique target check max_age now obs' in
      same_entries (ordered m) (ordered m') (ordered-IsSorted m h u) (ordered-IsSorted m' h' u')
        (λ k. find-ordered k m h u ∙ f k ∙ sym (find-ordered k m' h' u'))

  conclude_same :
      (size : ℕ) (m m' : Dict Observation) (own : Option Observation)
      → ordered m ≡ ordered m'
      → conclude target check size m own ≡ conclude target check size m' own
  unfolding conclude
  conclude_same size m m' (some o) e = refl
  conclude_same size m m' none e = ap (hearsay target check size) e

  -- The verdict does not depend on the order in which word came in: lanterns that hold the same
  -- observations decide the same, as long as no lantern said two things about one subject at one time.
  pub decide_any_order :
      (said : String → String → String → Time → Observation) (obs obs' : List Observation)
      (size : ℕ)
      → Shuffle Observation obs obs'
      → All (λ o. said o.observer o.check o.target o.seen ≡ o) obs
      → decide target check obs size max_age now ≡ decide target check obs' size max_age now
  unfolding decide
  decide_any_order said obs obs' size s h =
      let f = λ (k : String). same_words said k s h in
      ap (conclude target check size (newest target check obs max_age now)) (f target)
      ∙ conclude_same size _ _ (lookup target (newest target check obs' max_age now))
          (same_order obs obs' f)
