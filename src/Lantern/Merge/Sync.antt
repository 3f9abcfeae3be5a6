-- ===== src/Lantern/Merge/Sync.antt =====
-- `ReceiveFlash` of internal/lantern/lantern.go on what two lanterns hold: the store as the newest word
-- of each key, whatever the order of arrival.
use photinus.Prelude.{
  ◌≡◌, refl, sym, subst, ◌∙◌, ap, inl, inr, String, Bool, true, false, not, ◌&&◌, Option, none,
  some, List, [], ◌∷◌, arith, eq_iff, ◌==◌, Time, Dict, lookup, lookup-delete, values, delete,
  Unique, All, All-map, if◌then◌else◌, Bool-cases, Shuffle, All-Shuffle, latest, choose,
  latest-Shuffle, newer,
}
use photinus.Quorum.{Observation, supersedes}
use photinus.Lantern.State.{Lantern, store_key, is_receipt}
use photinus.Lantern.Merge.{refuses, subject_of, file, back, accept, merge_one, merge}
use photinus.Lantern.Merge.Newest.{NotOlder, lookup-file}

-- No tombstone speaks against the observation.
abbrev pub IsWelcome : Lantern → Observation → Type 0
IsWelcome l o =
    (refuses (lookup o.observer l.departed) o ≡ false)
    × (refuses (lookup o.target l.departed) o ≡ false)
    × (refuses (lookup (subject_of o) l.forgotten) o ≡ false)

-- A lantern's opinion under its own name, which it takes from nobody.
abbrev pub is_own : String → Observation → Bool
is_own id o = o.observer == id && not (is_receipt o)

-- The observation is one for the key, and not the lantern's own.
abbrev pub counts_at : String → String → Observation → Bool
counts_at id k o = store_key o == k && not (is_own id o)

refuses-delete :
    (k j : String) (m : Dict Time) (o : Observation)
    → refuses (lookup j m) o ≡ false
    → refuses (lookup j (delete k m)) o ≡ false
refuses-delete k j m o h = ground (arith, h, lookup-delete k j m)

back-IsWelcome : (x o : Observation) (l : Lantern) → IsWelcome l o → IsWelcome (back x l) o
unfolding back
back-IsWelcome x o l (h, k, m) = elim (Bool-cases (is_receipt x)) [
  | inl e ↦ rw e (h, k, m)
  | inr e ↦ rw e (
    refuses-delete x.observer o.observer l.departed o h,
    refuses-delete x.observer o.target l.departed o k,
    m,
  )
]

accept-IsWelcome : (x o : Observation) (l : Lantern) → IsWelcome l o → IsWelcome (accept x l) o
unfolding accept
accept-IsWelcome x o l (h, k, m) =
    (h, k, refuses-delete (subject_of x) (subject_of o) l.forgotten o m)

-- What is welcome is filed, unless it is the lantern's own.
merge_one_welcome :
    (x : Observation) (l : Lantern)
    → IsWelcome l x
    → merge_one x l ≡ (if is_own l.id x then l else accept x (back x l))
unfolding merge_one
merge_one_welcome x l h =
    let (a, b, c) = h in let (d, e, f) = back-IsWelcome x x l h in ground (arith, a, e, f)

either-IsWelcome :
    (b : Bool) (l l' : Lantern) (o : Observation)
    → IsWelcome l o
    → IsWelcome l' o
    → IsWelcome (if b then l else l') o
either-IsWelcome true l l' o h k = h
either-IsWelcome false l l' o h k = k

merge_one-IsWelcome :
    (x o : Observation) (l : Lantern) → IsWelcome l x → IsWelcome l o → IsWelcome (merge_one x l) o
merge_one-IsWelcome x o l h k =
    subst (λ (m : Lantern). IsWelcome m o) (sym (merge_one_welcome x l h))
      (either-IsWelcome (is_own l.id x) l (accept x (back x l)) o k
        (accept-IsWelcome x o (back x l) (back-IsWelcome x o l k)))

id-merge_one : (o : Observation) (l : Lantern) → (merge_one o l).id ≡ l.id
unfolding merge_one accept back
id-merge_one o l = ground arith

store_welcome :
    (k : String) (x : Observation) (l : Lantern)
    → IsWelcome l x
    → lookup k (merge_one x l).store
      ≡ choose (λ o. o.seen) (counts_at l.id k x) x (lookup k l.store)
unfolding choose back accept
store_welcome k x l h =
    ap (λ (m : Lantern). lookup k m.store) (merge_one_welcome x l h)
    ∙ filed (lookup k l.store) refl (lookup-file k x l.store)
  where
    filed :
        (p : Option Observation)
        → lookup k l.store ≡ p
        → lookup k (file x l.store) ≡ (
            if store_key x == k && supersedes x (lookup k l.store)
            then some x
            else lookup k l.store)
        → lookup k (if is_own l.id x then l else accept x (back x l)).store
          ≡ (if counts_at l.id k x && newer (λ o. o.seen) x p then some x else p)
    filed none q e = ground (arith, q, e)
    filed (some a) q e = ground (arith, q, e)

-- The merge implements its specification: where no tombstone speaks against what a flash brings, each
-- key then holds the newest word of it, out of what was there and what came and is not the lantern's
-- own.
pub merge_is_latest :
    (k : String) (obs : List Observation) (l : Lantern)
    → All (IsWelcome l) obs
    → lookup k (merge obs l).store ≡ latest (λ o. o.seen) (counts_at l.id k) obs (lookup k l.store)
unfolding merge latest
merge_is_latest k [] l h = refl
merge_is_latest k (o ∷ obs) l h =
    merge_is_latest k obs (merge_one o l) (
      All-map (IsWelcome l) (IsWelcome (merge_one o l)) obs (λ p w. merge_one-IsWelcome o p l h.0 w)
        h.1)
    ∙ rw (id-merge_one o l, store_welcome k o l h.0) refl

-- The order of arrival does not matter: lanterns that start alike and hear the same observations in
-- different orders hold the same under each key, where no tombstone speaks against one and no two
-- words of one key have one time.
pub merge_any_order :
    (said : String → Time → Observation) (k : String) (obs obs' : List Observation) (l : Lantern)
    → Shuffle Observation obs obs'
    → All (IsWelcome l) obs
    → All (λ o. said (store_key o) o.seen ≡ o) obs
    → lookup k (merge obs l).store ≡ lookup k (merge obs' l).store
merge_any_order said k obs obs' l s w h =
    merge_is_latest k obs l w
    ∙ latest-Shuffle (λ o. o.seen) (counts_at l.id k) (said k) (lookup k l.store) s
        (All-map _ _ obs (λ o e c. ground (arith, e, c, eq_iff (store_key o) k)) h)
    ∙ sym (merge_is_latest k obs' l (All-Shuffle (IsWelcome l) s w))

-- Each entry stands under its own key.
abbrev pub IsFiled : Dict Observation → Type 0
IsFiled [] = Unit
IsFiled ((k, o) ∷ m) = (k ≡ store_key o) × IsFiled m

-- What the newest of a store's entries comes to for one key.
abbrev joined : String → Option Observation → Option Observation → Option Observation
joined id none acc = acc
joined id (some a) acc = choose (λ o. o.seen) (not (is_own id a)) a acc

latest-none :
    (id k : String) (m : Dict Observation) (acc : Option Observation)
    → IsFiled m
    → lookup k m ≡ none
    → latest (λ o. o.seen) (counts_at id k) (values m) acc ≡ acc
unfolding latest values lookup choose
latest-none id k [] acc f e = refl
latest-none id k ((j, o) ∷ m) acc f e =
    ground (arith, e, f.0, eq_iff j k, latest-none id k m acc f.1)

latest-values :
    (id k : String) (m : Dict Observation) (acc : Option Observation)
    → IsFiled m
    → Unique m
    → latest (λ o. o.seen) (counts_at id k) (values m) acc ≡ joined id (lookup k m) acc
unfolding latest values lookup choose
latest-values id k [] acc f u = refl
latest-values id k ((j, o) ∷ m) acc f u = elim (Bool-cases (j == k)) [
  | inl e ↦
      let gone = subst (λ i. lookup i m ≡ none) ((eq_iff j k).0 e) u.0 in
      ground (
        arith,
        e,
        f.0,
        eq_iff j k,
        eq_iff (store_key o) k,
        latest-none id k m (choose (λ o. o.seen) (counts_at id k o) o acc) f.1 gone,
      )
  | inr e ↦ ground (arith, e, f.0, eq_iff j k, latest-values id k m acc f.1 u.1)
]

-- What another holds in a lantern's name, the lantern holds, or something newer.
abbrev pub IsHonest : Lantern → Lantern → Type 0
IsHonest l other =
    (k : String) (o : Observation)
    → lookup k other.store ≡ some o
    → is_own l.id o ≡ true
    → NotOlder (some o) (lookup k l.store)

-- The two stores are parts of one history: a key's words of one time are one word.
abbrev pub AreOne : Option Observation → Option Observation → Type 0
AreOne (some a) (some b) = a.seen ≡ b.seen → a ≡ b
AreOne p q = Unit

joined_same :
    (id id' : String) (p q : Option Observation)
    → AreOne p q
    → ((o : Observation) → q ≡ some o → is_own id o ≡ true → NotOlder (some o) p)
    → ((o : Observation) → p ≡ some o → is_own id' o ≡ true → NotOlder (some o) q)
    → joined id q p ≡ joined id' p q
unfolding choose
joined_same id id' none none one h k = refl
joined_same id id' none (some b) one h k = ground (arith, h b)
joined_same id id' (some a) none one h k = ground (arith, k a)
joined_same id id' (some a) (some b) one h k = ground (arith, h b, k a, one)

-- Two lanterns that merge each other's store hold the same under each key.
pub merge_agree :
    (k : String) (l l' : Lantern)
    → IsFiled l.store
    → Unique l.store
    → IsFiled l'.store
    → Unique l'.store
    → All (IsWelcome l) (values l'.store)
    → All (IsWelcome l') (values l.store)
    → IsHonest l l'
    → IsHonest l' l
    → AreOne (lookup k l.store) (lookup k l'.store)
    → lookup k (merge (values l'.store) l).store ≡ lookup k (merge (values l.store) l').store
merge_agree k l l' f u f' u' w w' h h' one =
    merge_is_latest k (values l'.store) l w
    ∙ latest-values l.id k l'.store (lookup k l.store) f' u'
    ∙ joined_same l.id l'.id (lookup k l.store) (lookup k l'.store) one (h k) (h' k)
    ∙ sym (latest-values l'.id k l.store (lookup k l'.store) f u)
    ∙ sym (merge_is_latest k (values l.store) l' w')
