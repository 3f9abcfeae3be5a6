-- ===== src/Lantern/Blackout/Total.antt =====
-- What a decision of internal/lantern/blackout.go says of the subjects at its address.
use photinus.Prelude.{
  ℕ, ◌+◌, ◌≤◌, ◌≡◌, refl, ap, String, Bool, true, false, ◌&&◌, none, some, List, [], ◌∷◌, pos, eqb,
  arith, eq_iff, inl, inr, ◌==◌, Dict, lookup, get_or, lookup-insert, Unique, insert-Unique, count,
  count_mono, All, All-sort_by, When, When_intro, Bool-cases, if◌then◌else◌,
}
use photinus.Quorum.{Decision, state_up, state_down}
use photinus.Lantern.Blackout.{
  SubjectStatus, Group, no_group, address, is_dark, join_group, group_all, group_verdict, verdicts,
  all_dark, too_small, blackout, step_group, group_at,
}

module _ (addrs : Dict String) where
  -- A subject lives at an address, and one that is down there.
  abbrev pub lives_at : String → SubjectStatus → Bool
  lives_at at s = address addrs s == at

  abbrev pub dark_at : String → SubjectStatus → Bool
  dark_at at s = lives_at at s && is_dark s

  step_group-at :
      (at : String) (s : SubjectStatus) (m : Dict Group)
      → (at == "") ≡ false
      → group_at at (step_group addrs s m)
        ≡ (if lives_at at s then join_group s (group_at at m) else group_at at m)
  unfolding step_group
  step_group-at at s m n = ground (
    arith,
    eq_iff (address addrs s) at,
    eq_iff (address addrs s) "",
    eq_iff at "",
    lookup-insert (address addrs s) at (join_group s (group_at (address addrs s) m)) m,
  )

  known-join_group : (s : SubjectStatus) (g : Group) → (join_group s g).known ≡ g.known + 1
  unfolding join_group
  known-join_group s g = ground arith

  down-join_group :
      (s : SubjectStatus) (g : Group)
      → (join_group s g).down ≡ (if is_dark s then g.down + 1 else g.down)
  unfolding join_group
  down-join_group s g = ground arith

  group_all-known :
      (at : String) (ss : List SubjectStatus) (m : Dict Group)
      → (at == "") ≡ false
      → (group_at at (group_all addrs ss m)).known ≡ count (lives_at at) ss + (group_at at m).known
  unfolding group_all count
  group_all-known at [] m n = omega arith
  group_all-known at (s ∷ ss) m n = ground (
    arith,
    group_all-known at ss (step_group addrs s m) n,
    step_group-at at s m n,
    known-join_group s (group_at at m),
  )

  group_all-down :
      (at : String) (ss : List SubjectStatus) (m : Dict Group)
      → (at == "") ≡ false
      → (group_at at (group_all addrs ss m)).down ≡ count (dark_at at) ss + (group_at at m).down
  unfolding group_all count
  group_all-down at [] m n = omega arith
  group_all-down at (s ∷ ss) m n = ground (
    arith,
    group_all-down at ss (step_group addrs s m) n,
    step_group-at at s m n,
    down-join_group s (group_at at m),
  )

  group_all-Unique :
      (ss : List SubjectStatus) (m : Dict Group) → Unique m → Unique (group_all addrs ss m)
  unfolding group_all step_group
  group_all-Unique [] m u = u
  group_all-Unique (s ∷ ss) m u = group_all-Unique ss (step_group addrs s m) (
      ground (
        arith,
        insert-Unique (address addrs s) (join_group s (group_at (address addrs s) m)) m u,
        u,
      ))

  -- No group has the empty address.
  group_all-named :
      (ss : List SubjectStatus) (m : Dict Group)
      → lookup "" m ≡ none
      → lookup "" (group_all addrs ss m) ≡ none
  unfolding group_all step_group
  group_all-named [] m h = h
  group_all-named (s ∷ ss) m h = group_all-named ss (step_group addrs s m) (
      ground (
        arith,
        h,
        eq_iff (address addrs s) "",
        lookup-insert (address addrs s) "" (join_group s (group_at (address addrs s) m)) m,
      ))

-- What holds of the verdict on each entry holds of all verdicts.
All-verdicts :
    (P : Decision → Type 0) (min : ℕ) (m : Dict Group)
    → Unique m
    → ((at : String) (g : Group) → lookup at m ≡ some g → P (group_verdict min at g))
    → All P (verdicts min m)
unfolding verdicts
All-verdicts P min [] u f = tt
All-verdicts P min ((at, g) ∷ m) u f =
    let rest = All-verdicts P min m u.1 (λ j h e. f j h (later at g m j h u.0 e)) in
    elim (Bool-cases (too_small min g)) [
      | inl e ↦ rw e rest
      | inr e ↦ rw e (f at g (here at g m), rest)
    ]
  where
    here : (at : String) (g : Group) (m : Dict Group) → lookup at ((at, g) ∷ m) ≡ some g
    here at g m = unfold lookup in ground (arith, eq_iff at at)

    later :
        (at : String) (g : Group) (m : Dict Group) (j : String) (h : Group)
        → lookup at m ≡ none
        → lookup j m ≡ some h
        → lookup j ((at, g) ∷ m) ≡ some h
    later at g m j h n e = unfold lookup in ground (arith, eq_iff at j)

-- Where as many pass both tests as pass the first, whatever passes the first passes the second.
All-of_count :
    (p q : SubjectStatus → Bool) (ss : List SubjectStatus)
    → count (λ s. p s && q s) ss ≡ count p ss
    → All (λ s. When (p s) (q s ≡ true)) ss
unfolding count
All-of_count p q [] e = tt
All-of_count p q (s ∷ ss) e =
    let narrow = count_mono (λ x. p x && q x) p ss (λ x h. ground arith) in
    (When_intro (p s) (λ h. ground (arith, narrow)), All-of_count p q ss (ground (arith, narrow)))

-- A decision of down is about an address where every watched subject is down, and at least `min` are.
abbrev pub IsTotal : Dict String → List SubjectStatus → ℕ → Decision → Type 0
IsTotal addrs ss min d = When (d.state == state_down) (
    All (λ s. When (lives_at addrs d.target s) (is_dark s ≡ true)) ss
    × (min ≤ count (lives_at addrs d.target) ss))

module _ (addrs : Dict String) (ss : List SubjectStatus) (min : ℕ) (at : String) (g : Group) where
  group-named : lookup at (group_all addrs ss []) ≡ some g → (at == "") ≡ false
  unfolding lookup
  group-named e = elim (Bool-cases (at == "")) [
    | inl b ↦ cc (
      e,
      ap (λ k. lookup k (group_all addrs ss [])) ((eq_iff at "").0 b),
      group_all-named addrs ss [] refl,
    )
    | inr n ↦ n
  ]

  group-counts :
      lookup at (group_all addrs ss []) ≡ some g
      → (g.known ≡ count (lives_at addrs at) ss) × (g.down ≡ count (dark_at addrs at) ss)
  unfolding lookup
  group-counts e =
      let same = ap (λ o. get_or o no_group) e in
      let named = group-named e in
      (
        ground (arith, ap (λ x. x.known) same, group_all-known addrs at ss [] named),
        ground (arith, ap (λ x. x.down) same, group_all-down addrs at ss [] named),
      )

  state-group_verdict :
      (group_verdict min at g).state ≡ (if all_dark min g then state_down else state_up)
  unfolding group_verdict
  state-group_verdict = refl

  down_is_dark : ((group_verdict min at g).state == state_down) ≡ true → all_dark min g ≡ true
  down_is_dark h = ground (
    arith,
    h,
    state-group_verdict,
    eq_iff state_up state_down,
    eq_iff (group_verdict min at g).state state_down,
  )

  all_dark-full : all_dark min g ≡ true → (g.down ≡ g.known) × (min ≤ g.down)
  unfolding all_dark
  all_dark-full h = ground (arith, h)

  group_verdict-IsTotal :
      lookup at (group_all addrs ss []) ≡ some g → IsTotal addrs ss min (group_verdict min at g)
  unfolding group_verdict
  group_verdict-IsTotal e =
      let (known, down) = group-counts e in
      When_intro ((group_verdict min at g).state == state_down) (λ h.
        let (full, many) = all_dark-full (down_is_dark h) in
        (
          All-of_count (lives_at addrs at) is_dark ss (ground (arith, known, down, full)),
          omega (arith, known, full, many),
        ))

-- A blackout is total: it is said only of an address where every watched subject is down, at least
-- `min` of them. One service that answers there is enough for the swarm not to say it.
pub blackout-IsTotal :
    (subjects : List SubjectStatus) (addrs : Dict String) (min : ℕ)
    → All (IsTotal addrs subjects min) (blackout subjects addrs (pos min))
unfolding blackout
blackout-IsTotal subjects addrs min = elim (Bool-cases (eqb min 0)) [
  | inl z ↦ rw z tt
  | inr z ↦ rw z (
      All-sort_by _ _ _ (
        All-verdicts (IsTotal addrs subjects min) min (group_all addrs subjects [])
          (group_all-Unique addrs subjects [] tt) (group_verdict-IsTotal addrs subjects min)))
]
