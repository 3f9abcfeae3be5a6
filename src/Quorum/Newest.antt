-- ===== src/Quorum/Newest.antt =====
-- The map that `Decide` of internal/quorum/quorum.go builds.
use photinus.Prelude.{
  ◌≤◌, ◌≡◌, refl, sym, subst, String, Bool, true, ◌&&◌, Option, none, some, List, [], ◌∷◌, ◌⊎◌, inl,
  inr, arith, eq_iff, Time, Duration, ◌==◌, Dict, lookup, insert, values, Unique, lookup-insert,
  insert-Unique, All, Any, Any-map, Distinct, length, count, keys_where, keys_where-Distinct,
  All-keys_where, length-keys_where, if◌then◌else◌, Bool-cases, keep, after,
}
use photinus.Quorum.{Observation, is_live, note, newest, newest_loop, supersedes}

-- Every entry is filed under its observer.
abbrev pub Keyed : Dict Observation → Type 0
Keyed [] = Unit
Keyed ((k, o) ∷ m) = (k ≡ o.observer) × Keyed m

insert-Keyed : (o : Observation) (m : Dict Observation) → Keyed m → Keyed (insert o.observer o m)
unfolding insert
insert-Keyed o [] h = (refl, tt)
insert-Keyed o ((j, w) ∷ m) h = ground (arith, insert-Keyed o m h.1)

note-Keyed : (o : Observation) (m : Dict Observation) → Keyed m → Keyed (note o m)
unfolding note
note-Keyed o m h = ground (arith, insert-Keyed o m h)

note-Unique : (o : Observation) (m : Dict Observation) → Unique m → Unique (note o m)
unfolding note
note-Unique o m u = ground (arith, insert-Unique o.observer o m u)

-- The same word as one choice for one observer, with no map.
abbrev pick : String → Observation → Option Observation → Option Observation
pick k o acc = if o.observer == k && supersedes o acc then some o else acc

lookup-note :
    (k : String) (o : Observation) (m : Dict Observation)
    → lookup k (note o m) ≡ pick k o (lookup k m)
unfolding note
lookup-note k o m =
    ground
      (arith, eq_iff o.observer k, lookup-insert o.observer k o m, eq_iff o.observer o.observer)

module _ (target check : String) (max_age : Duration) (now : Time) where
  newest_loop-Keyed :
      (obs : List Observation) (m : Dict Observation)
      → Keyed m
      → Keyed (newest_loop target check max_age now obs m)
  unfolding newest_loop
  newest_loop-Keyed [] m h = h
  newest_loop-Keyed (o ∷ obs) m h = newest_loop-Keyed obs _ (ground (arith, note-Keyed o m h))

  newest_loop-Unique :
      (obs : List Observation) (m : Dict Observation)
      → Unique m
      → Unique (newest_loop target check max_age now obs m)
  unfolding newest_loop
  newest_loop-Unique [] m u = u
  newest_loop-Unique (o ∷ obs) m u = newest_loop-Unique obs _ (ground (arith, note-Unique o m u))

  -- The newest word of one observer, by a plain loop over what was said.
  unfoldable pub word_of : String → List Observation → Option Observation → Option Observation
  word_of k [] acc = acc
  word_of k (o ∷ obs) acc =
      word_of k obs (if is_live target check max_age now o then pick k o acc else acc)

  lookup-newest_loop :
      (k : String) (obs : List Observation) (m : Dict Observation)
      → lookup k (newest_loop target check max_age now obs m) ≡ word_of k obs (lookup k m)
  unfolding newest_loop word_of
  lookup-newest_loop k [] m = refl
  lookup-newest_loop k (o ∷ obs) m = elim (Bool-cases (is_live target check max_age now o)) [
    | inl e ↦ rw (e, lookup-newest_loop k obs (note o m), lookup-note k o m)
    | inr e ↦ rw (e, lookup-newest_loop k obs m)
  ]

  pub lookup-newest :
      (k : String) (obs : List Observation)
      → lookup k (newest target check obs max_age now) ≡ word_of k obs none
  unfolding newest lookup
  lookup-newest k obs = lookup-newest_loop k obs []

  pub newest-Keyed : (obs : List Observation) → Keyed (newest target check obs max_age now)
  unfolding newest
  newest-Keyed obs = newest_loop-Keyed obs [] tt

  pub newest-Unique : (obs : List Observation) → Unique (newest target check obs max_age now)
  unfolding newest
  newest-Unique obs = newest_loop-Unique obs [] tt

  -- `o` is a live observation by `k`.
  pub record Word (k : String) (o : Observation) : Type 0 where
    pub by : o.observer ≡ k
    pub live : is_live target check max_age now o ≡ true

  abbrev pub step : String → Observation → Option Observation → Option Observation
  step k x acc = if is_live target check max_age now x then pick k x acc else acc

  step-said :
      (k : String) (x : Observation) (acc : Option Observation) (o : Observation)
      → step k x acc ≡ some o
      → (acc ≡ some o) ⊎ ((x ≡ o) × Word k o)
  step-said k x acc o h = ground (arith, eq_iff x.observer k)

  -- The chosen word was said, or was there before.
  word_of-said :
      (k : String) (obs : List Observation) (acc : Option Observation) (o : Observation)
      → word_of k obs acc ≡ some o
      → (acc ≡ some o) ⊎ Any (λ x. (x ≡ o) × Word k o) obs
  unfolding word_of
  word_of-said k [] acc o h = inl h
  word_of-said k (x ∷ obs) acc o h = elim (word_of-said k obs (step k x acc) o h) [
    | inl e ↦ elim (step-said k x acc o e) [ inl a ↦ inl a | inr w ↦ inr (inl w) ]
    | inr t ↦ inr (inr t)
  ]

  -- A later choice is no older than an earlier one.
  step-le :
      (k : String) (x : Observation) (acc : Option Observation) (a : Observation)
      → acc ≡ some a
      → (b : Observation) × (step k x acc ≡ some b) × (a.seen ≤ b.seen)
  step-le k x acc a h = elim (Bool-cases (is_live target check max_age now x)) [
    | inl l ↦ elim (Bool-cases (x.observer == k && after x.seen a.seen)) [
      | inl y ↦ (x, ground arith, ground arith)
      | inr n ↦ (a, ground arith, ground arith)
    ]
    | inr l ↦ (a, ground arith, ground arith)
  ]

  word_of-le :
      (k : String) (obs : List Observation) (acc : Option Observation) (a o : Observation)
      → acc ≡ some a
      → word_of k obs acc ≡ some o
      → a.seen ≤ o.seen
  unfolding word_of
  word_of-le k [] acc a o h e = ground arith
  word_of-le k (x ∷ obs) acc a o h e =
      let (b, p, q) = step-le k x acc a h in omega (arith, word_of-le k obs (step k x acc) b o p e)

  step-hears :
      (k : String) (x : Observation) (acc : Option Observation)
      → Word k x
      → (b : Observation) × (step k x acc ≡ some b) × (x.seen ≤ b.seen)
  step-hears k x none w = (x, ground (arith, w.live, eq_iff x.observer k, w.by), ground arith)
  step-hears k x (some a) w = elim (Bool-cases (after x.seen a.seen)) [
    | inl y ↦ (x, ground (arith, w.live, eq_iff x.observer k, w.by), ground arith)
    | inr n ↦ (a, ground (arith, w.live, eq_iff x.observer k, w.by), ground arith)
  ]

  -- The word that is chosen is at least as new as every live word of the observer.
  word_of-newest :
      (k : String) (obs : List Observation) (acc : Option Observation) (o : Observation)
      → word_of k obs acc ≡ some o
      → All (λ x. Word k x → x.seen ≤ o.seen) obs
  unfolding word_of
  word_of-newest k [] acc o h = tt
  word_of-newest k (x ∷ obs) acc o h = (
    λ w.
        let (b, p, q) = step-hears k x acc w in
        omega (arith, word_of-le k obs (step k x acc) b o p h),
    word_of-newest k obs (step k x acc) o h,
  )

  -- An observer with a live word is heard.
  word_of-hears :
      (k : String) (obs : List Observation) (acc : Option Observation)
      → word_of k obs acc ≡ none
      → (acc ≡ none) × All (λ x. ¬ Word k x) obs
  unfolding word_of
  word_of-hears k [] acc h = (h, tt)
  word_of-hears k (x ∷ obs) acc h =
      let (e, rest) = word_of-hears k obs (step k x acc) h in
      (silent acc e, ((λ w. let (b, p, q) = step-hears k x acc w in cc), rest))
    where
      silent : (a : Option Observation) → step k x a ≡ none → a ≡ none
      silent none e = refl
      silent (some a) e = ground arith

  -- A live observation by `k`, as a test.
  abbrev pub is_word : String → Observation → Bool
  is_word k x = is_live target check max_age now x && x.observer == k

  among_words :
      (k : String) (obs : List Observation) (o : Observation)
      → All (λ x. Word k x → x.seen ≤ o.seen) obs
      → All (λ x. x.seen ≤ o.seen) (keep (is_word k) obs)
  unfolding keep
  among_words k [] o h = tt
  among_words k (x ∷ obs) o h =
      let rest = among_words k obs o h.1 in
      elim (Bool-cases (is_word k x)) [
        | inl e ↦ rw e (
          h.0 (record { by = ground (arith, e, eq_iff x.observer k); live = ground (arith, e) }),
          rest,
        )
        | inr e ↦ rw e rest
      ]

  -- What the map files under `k` is the newest live word of `k`: it was said, and no live word of
  -- `k` is newer.
  pub newest-IsNewest :
      (k : String) (obs : List Observation) (o : Observation)
      → lookup k (newest target check obs max_age now) ≡ some o
      → Any (λ x. (x ≡ o) × Word k o) obs × All (λ x. x.seen ≤ o.seen) (keep (is_word k) obs)
  newest-IsNewest k obs o h =
      let e : word_of k obs none ≡ some o = rw (lookup-newest k obs) at h in
      (
        elim (word_of-said k obs none o e) [ inl f ↦ absurd (cc) | inr t ↦ t ],
        among_words k obs o (word_of-newest k obs none o e),
      )

  pub newest-none :
      (k : String) (obs : List Observation)
      → lookup k (newest target check obs max_age now) ≡ none
      → All (λ x. ¬ Word k x) obs
  newest-none k obs h = (word_of-hears k obs none (rw (lookup-newest k obs) at h)).1

  -- The observers whose newest live word passes a test: distinct, each with a live word that passes
  -- it, and as many as the entries of the map that pass.
  pub backers :
      (p : Observation → Bool) (obs : List Observation)
      → (ws : List String) × Distinct ws
        × All (λ k. Any (λ x. Word k x × (p x ≡ true)) obs) ws
        × (length ws ≡ count p (values (newest target check obs max_age now)))
  backers p obs =
      let m = newest target check obs max_age now in
      let u = newest-Unique obs in
      (
        keys_where p m,
        keys_where-Distinct p m u,
        All-keys_where p m u (λ k. Any (λ x. Word k x × (p x ≡ true)) obs)
            (λ k o found passes.
              Any-map (λ x. (x ≡ o) × Word k o) (λ x. Word k x × (p x ≡ true)) obs
                (λ x w. (subst (Word k) (sym w.0) w.1, rw (w.0) passes))
                (newest-IsNewest k obs o found).0),
        length-keys_where p m,
      )
