-- ===== src/Lantern/Merge/Tombstones.antt =====
-- The tombstones of `forget` and `forgetSubject` in internal/lantern/lantern.go, against the stale
-- observations that peers still share.
use photinus.Prelude.{
  ◌≤◌, ◌≡◌, sym, subst, ◌∙◌, ap, inl, inr, String, true, false, not, ◌&&◌, some, List, [], ◌∷◌,
  arith, eq_iff, Time, ◌==◌, lookup, lookup-insert, lookup-delete, lookup-keep_entries, All,
  Bool-cases, eq_refl,
}
use photinus.Quorum.{Observation, supersedes}
use photinus.Lantern.State.{Lantern, store_key}
use photinus.Lantern.Merge.{subject_of, file, back, accept, merge_one, merge}
use photinus.Lantern.Merge.Newest.{lookup-file, merge_one-store}
use photinus.Lantern.Forget.{forget, forget_subject, mentions}

-- Nothing in the store but receipts is by the departed lantern or about it, and its tombstone stands.
pub record IsGone (name : String) (at : Time) (l : Lantern) : Type 0 where
  pub stone : lookup name l.departed ≡ some at
  pub absent : (k : String) (x : Observation) → lookup k l.store ≡ some x → mentions name x ≡ false

forget-IsGone : (name : String) (now : Time) (l : Lantern) → IsGone name now (forget name now l)
unfolding forget
forget-IsGone name now l = record {
  stone = ground (arith, lookup-insert name name now l.departed, eq_refl name);
  absent = λ k x h. ground (arith, h, lookup-keep_entries (λ j o. not (mentions name o)) k l.store);
}

module _ (name : String) (at : Time) (o : Observation) (l : Lantern) where
  -- Stale word of the departed lantern, or about it, leaves the store alone.
  stale-store :
      lookup name l.departed ≡ some at
      → mentions name o ≡ true
      → o.seen ≤ at
      → (merge_one o l).store ≡ l.store
  unfolding merge_one back
  stale-store g m h = ground (
    arith,
    lookup-delete o.observer o.target l.departed,
    eq_iff o.observer name,
    eq_iff o.target name,
    eq_iff o.observer o.target,
  )

  stale-stone :
      (mentions name o ≡ true → o.seen ≤ at)
      → lookup name l.departed ≡ some at
      → lookup name (merge_one o l).departed ≡ some at
  unfolding merge_one accept back
  stale-stone old g =
      ground (arith, lookup-delete o.observer name l.departed, eq_iff o.observer name)

  fresh-absent :
      (k : String) (x : Observation)
      → (lookup k l.store ≡ some x → mentions name x ≡ false)
      → mentions name o ≡ false
      → lookup k (file o l.store) ≡ some x
      → mentions name x ≡ false
  fresh-absent k x g m h = elim (Bool-cases (store_key o == k && supersedes o (lookup k l.store))) [
    | inl y ↦
        let e : o ≡ x = ground (arith, h, lookup-file k o l.store) in
        subst (λ z. mentions name z ≡ false) e m
    | inr n ↦ g (ground (arith, h, lookup-file k o l.store))
  ]

  merge_one-IsGone :
      (mentions name o ≡ true → o.seen ≤ at) → IsGone name at l → IsGone name at (merge_one o l)
  merge_one-IsGone old g = record {
    stone = stale-stone old g.stone;
    absent = λ k x h. elim (Bool-cases (mentions name o)) [
      | inl m ↦ g.absent k x (sym (ap (lookup k) (stale-store g.stone m (old m))) ∙ h)
      | inr m ↦ elim (merge_one-store o l) [
        | inl same ↦ g.absent k x (sym (ap (lookup k) same) ∙ h)
        | inr (filed, own) ↦ fresh-absent k x (g.absent k x) m (sym (ap (lookup k) filed) ∙ h)
      ]
    ];
  }

merge-IsGone :
    (name : String) (at : Time) (obs : List Observation) (l : Lantern)
    → All (λ o. mentions name o ≡ true → o.seen ≤ at) obs
    → IsGone name at l
    → IsGone name at (merge obs l)
unfolding merge
merge-IsGone name at [] l old g = g
merge-IsGone name at (o ∷ obs) l old g =
    merge-IsGone name at obs (merge_one o l) old.1 (merge_one-IsGone name at o l old.0 g)

-- No resurrection of a lantern: once a farewell is heard, no flash whose word of that lantern, and
-- about it, was seen before the farewell brings any of it back, pulse receipts aside.
pub no_ghosts :
    (name : String) (now : Time) (obs : List Observation) (l : Lantern)
    → All (λ o. mentions name o ≡ true → o.seen ≤ now) obs
    → (k : String) (x : Observation) → lookup k (merge obs (forget name now l)).store ≡ some x
    → mentions name x ≡ false
no_ghosts name now obs l old k x h =
    (merge-IsGone name now obs (forget name now l) old (forget-IsGone name now l)).absent k x h

-- The same for one subject that the operator retired.
pub record IsRetired (subject : String) (at : Time) (l : Lantern) : Type 0 where
  pub stone : lookup subject l.forgotten ≡ some at
  pub absent :
      (k : String) (x : Observation) → lookup k l.store ≡ some x → (subject_of x == subject) ≡ false

forget_subject-IsRetired :
    (subject : String) (now : Time) (l : Lantern)
    → IsRetired subject now (forget_subject subject now l)
unfolding forget_subject
forget_subject-IsRetired subject now l = record {
  stone = ground (arith, lookup-insert subject subject now l.forgotten, eq_refl subject);
  absent = λ k x h.
      ground (arith, h, lookup-keep_entries (λ j o. not (subject_of o == subject)) k l.store);
}

module _ (subject : String) (at : Time) (o : Observation) (l : Lantern) where
  -- An observation of the retired subject that is not newer is refused, a pulse receipt too.
  pub retired_is_refused :
      lookup subject l.forgotten ≡ some at
      → (subject_of o == subject) ≡ true
      → o.seen ≤ at
      → ((merge_one o l).store ≡ l.store)
        × ((merge_one o l).last_pulse ≡ l.last_pulse)
        × (lookup subject (merge_one o l).forgotten ≡ some at)
  unfolding merge_one back
  retired_is_refused g m h =
      let e = (eq_iff (subject_of o) subject).0 m in
      ground (arith, ap (λ s. lookup s l.forgotten) e)

  other-stone :
      (subject_of o == subject) ≡ false
      → lookup subject (merge_one o l).forgotten ≡ lookup subject l.forgotten
  unfolding merge_one accept back
  other-stone m = ground (arith, lookup-delete (subject_of o) subject l.forgotten)

  other-absent :
      (k : String) (x : Observation)
      → (lookup k l.store ≡ some x → (subject_of x == subject) ≡ false)
      → (subject_of o == subject) ≡ false
      → lookup k (file o l.store) ≡ some x
      → (subject_of x == subject) ≡ false
  other-absent k x g m h = elim (Bool-cases (store_key o == k && supersedes o (lookup k l.store))) [
    | inl y ↦
        let e : o ≡ x = ground (arith, h, lookup-file k o l.store) in
        subst (λ z. (subject_of z == subject) ≡ false) e m
    | inr n ↦ g (ground (arith, h, lookup-file k o l.store))
  ]

  merge_one-IsRetired :
      ((subject_of o == subject) ≡ true → o.seen ≤ at)
      → IsRetired subject at l
      → IsRetired subject at (merge_one o l)
  merge_one-IsRetired old g = elim (Bool-cases (subject_of o == subject)) [
    | inl m ↦
        let (same, pulses, stone) = retired_is_refused g.stone m (old m) in
        record { stone = stone; absent = λ k x h. g.absent k x (sym (ap (lookup k) same) ∙ h) }
    | inr m ↦ record {
      stone = other-stone m ∙ g.stone;
      absent = λ k x h. elim (merge_one-store o l) [
        | inl same ↦ g.absent k x (sym (ap (lookup k) same) ∙ h)
        | inr (filed, own) ↦ other-absent k x (g.absent k x) m (sym (ap (lookup k) filed) ∙ h)
      ];
    }
  ]

merge-IsRetired :
    (subject : String) (at : Time) (obs : List Observation) (l : Lantern)
    → All (λ o. (subject_of o == subject) ≡ true → o.seen ≤ at) obs
    → IsRetired subject at l
    → IsRetired subject at (merge obs l)
unfolding merge
merge-IsRetired subject at [] l old g = g
merge-IsRetired subject at (o ∷ obs) l old g =
    merge-IsRetired subject at obs (merge_one o l) old.1
      (merge_one-IsRetired subject at o l old.0 g)

-- A retired subject stays gone: no flash of observations seen before the forget brings it back.
pub retired_stays_gone :
    (subject : String) (now : Time) (obs : List Observation) (l : Lantern)
    → All (λ o. (subject_of o == subject) ≡ true → o.seen ≤ now) obs
    → (k : String) (x : Observation)
    → lookup k (merge obs (forget_subject subject now l)).store ≡ some x
    → (subject_of x == subject) ≡ false
retired_stays_gone subject now obs l old k x h =
    (merge-IsRetired subject now obs (forget_subject subject now l) old
        (forget_subject-IsRetired subject now l)).absent
      k x h
