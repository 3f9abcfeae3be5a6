-- ===== src/Swarm/Runs.antt =====
-- Runs of the ledger of internal/swarm/swarm.go: memberlist's callbacks, farewells and the reaper in
-- any order, from the memory that `Join` starts with.
use photinus.Prelude.{
  ◌∙◌, ℕ, ◌≡◌, refl, String, Bool, true, false, ◌&&◌, ◌||◌, none, List, [], ◌∷◌, arith, eq_iff,
  ◌==◌, ◌!=◌, Time, Dict, lookup, Unique, Distinct, lookup-delete, lookup-insert, delete-Unique,
  insert-Unique, contains, contains-add, contains-remove, add-Distinct, remove-Distinct,
}
use photinus.Swarm.{
  Swarm, reap_one, reap_all, reap, notify_leave, failed, left, declare, declare_all, new_swarm,
  forget_member, notify_join, warn_backlog,
}

pub data Step : Swarm → Swarm → Type 0 where
  joins : (name : String) (s : Swarm) → Step s (notify_join name s)
  leaves :
      (graceful : Bool) (name : String) (now : Time) (s : Swarm)
      → Step s (notify_leave graceful name now s)
  farewell : (name : String) (s : Swarm) → Step s (forget_member name s)
  reaps : (now : Time) (alive : List String) (s : Swarm) → Step s (reap now alive s)
  warns : (queued : ℕ) (now : Time) (s : Swarm) → Step s (warn_backlog queued now s).0

pub data Reach (s : Swarm) : Swarm → Type 0 where
  here : Reach s s
  next : {t u : Swarm} → Reach s t → Step t u → Reach s u

-- Every declared lantern is counted and has no reap clock; no lantern is counted twice.
pub record IsSound (s : Swarm) : Type 0 where
  pub counted : (n : String) → contains s.expected n ≡ true → contains s.ever_seen n ≡ true
  pub spared : (n : String) → contains s.expected n ≡ true → lookup n s.died ≡ none
  pub distinct : Distinct s.ever_seen
  pub unique : Unique s.died

joins-IsSound : (name : String) (s : Swarm) → IsSound s → IsSound (notify_join name s)
unfolding notify_join
joins-IsSound name s i = record {
  counted = λ n h. ground (arith, contains-add name n s.ever_seen, i.counted n);
  spared = λ n h. ground (arith, lookup-delete name n s.died, i.spared n);
  distinct = add-Distinct name s.ever_seen i.distinct;
  unique = delete-Unique name s.died i.unique;
}

left-IsSound : (name : String) (s : Swarm) → IsSound s → IsSound (left name s)
unfolding left
left-IsSound name s i = record {
  counted = λ n h. ground (arith, eq_iff name n, contains-remove name n s.ever_seen, i.counted n);
  spared = λ n h. ground (arith, lookup-delete name n s.died, i.spared n);
  distinct = ground (arith, remove-Distinct name s.ever_seen i.distinct, i.distinct);
  unique = delete-Unique name s.died i.unique;
}

failed-IsSound : (name : String) (now : Time) (s : Swarm) → IsSound s → IsSound (failed name now s)
unfolding failed
failed-IsSound name now s i = record {
  counted = λ n h. ground (arith, i.counted n);
  spared = λ n h. ground (arith, eq_iff name n, lookup-insert name n now s.died, i.spared n);
  distinct = ground (arith, i.distinct);
  unique = ground (arith, insert-Unique name now s.died i.unique, i.unique);
}

farewell-IsSound : (name : String) (s : Swarm) → IsSound s → IsSound (forget_member name s)
unfolding forget_member
farewell-IsSound name s i = record {
  counted = λ n h. ground (arith, eq_iff name n, contains-remove name n s.ever_seen, i.counted n);
  spared = λ n h. ground (arith, i.spared n);
  distinct = ground (arith, remove-Distinct name s.ever_seen i.distinct, i.distinct);
  unique = ground (arith, i.unique);
}

reap_one-IsSound :
    (now : Time) (alive : List String) (name : String) (at : Time) (s : Swarm)
    → IsSound s
    → IsSound (reap_one now alive name at s)
unfolding reap_one
reap_one-IsSound now alive name at s i = record {
  counted = λ n h. ground (arith, eq_iff name n, contains-remove name n s.ever_seen, i.counted n);
  spared = λ n h. ground (arith, lookup-delete name n s.died, i.spared n);
  distinct = ground (arith, remove-Distinct name s.ever_seen i.distinct, i.distinct);
  unique = ground (arith, delete-Unique name s.died i.unique, i.unique);
}

reap_all-IsSound :
    (now : Time) (alive : List String) (m : Dict Time) (s : Swarm)
    → IsSound s
    → IsSound (reap_all now alive m s)
unfolding reap_all
reap_all-IsSound now alive [] s i = i
reap_all-IsSound now alive ((name, at) ∷ m) s i =
    reap_all-IsSound now alive m (reap_one now alive name at s)
      (reap_one-IsSound now alive name at s i)

warns-IsSound :
    (queued : ℕ) (now : Time) (s : Swarm) → IsSound s → IsSound (warn_backlog queued now s).0
unfolding warn_backlog
warns-IsSound queued now s i = record {
  counted = λ n h. ground (arith, i.counted n);
  spared = λ n h. ground (arith, i.spared n);
  distinct = ground (arith, i.distinct);
  unique = ground (arith, i.unique);
}

Step-IsSound : {s t : Swarm} → Step s t → IsSound s → IsSound t
unfolding notify_leave reap
Step-IsSound (joins name s) i = joins-IsSound name s i
Step-IsSound (leaves true name now s) i = left-IsSound name s i
Step-IsSound (leaves false name now s) i = failed-IsSound name now s i
Step-IsSound (farewell name s) i = farewell-IsSound name s i
Step-IsSound (reaps now alive s) i = reap_all-IsSound now alive s.died s i
Step-IsSound (warns queued now s) i = warns-IsSound queued now s i

pub Reach-IsSound : {s t : Swarm} → IsSound s → Reach s t → IsSound t
Reach-IsSound i here = i
Reach-IsSound i (next r st) = Step-IsSound st (Reach-IsSound i r)

expected-reap_all :
    (now : Time) (alive : List String) (m : Dict Time) (s : Swarm)
    → (reap_all now alive m s).expected ≡ s.expected
unfolding reap_all reap_one
expected-reap_all now alive [] s = refl
expected-reap_all now alive ((name, at) ∷ m) s =
    ground (arith, expected-reap_all now alive m (reap_one now alive name at s))

expected-Step : {s t : Swarm} → Step s t → t.expected ≡ s.expected
unfolding notify_join notify_leave left failed forget_member reap warn_backlog
expected-Step (joins name s) = refl
expected-Step (leaves true name now s) = refl
expected-Step (leaves false name now s) = ground arith
expected-Step (farewell name s) = ground arith
expected-Step (reaps now alive s) = expected-reap_all now alive s.died s
expected-Step (warns queued now s) = ground arith

pub expected-Reach : {s t : Swarm} → Reach s t → t.expected ≡ s.expected
expected-Reach here = refl
expected-Reach (next r st) = expected-Step st ∙ expected-Reach r

declare-IsSound : (name : String) (s : Swarm) → IsSound s → s.died ≡ [] → IsSound (declare name s)
unfolding declare lookup
declare-IsSound name s i e = record {
  counted = λ n h.
      ground (arith, contains-add name n s.ever_seen, contains-add name n s.expected, i.counted n);
  spared = λ n h. ground (arith, e);
  distinct = ground (arith, add-Distinct name s.ever_seen i.distinct, i.distinct);
  unique = ground (arith, i.unique);
}

declare_all-IsSound :
    (names : List String) (s : Swarm) → IsSound s → s.died ≡ [] → IsSound (declare_all names s)
unfolding declare_all declare
declare_all-IsSound [] s i e = i
declare_all-IsSound (name ∷ names) s i e =
    declare_all-IsSound names (declare name s) (declare-IsSound name s i e) (ground (arith, e))

pub new_swarm-IsSound : (id : String) (expect : List String) → IsSound (new_swarm id expect)
unfolding new_swarm contains lookup
new_swarm-IsSound id expect =
    declare_all-IsSound expect _
      (record {
        counted = λ n h. ground arith;
        spared = λ n h. refl;
        distinct = (refl, tt);
        unique = tt;
      })
      refl

expected-declare_all :
    (n : String) (names : List String) (s : Swarm)
    → contains (declare_all names s).expected n
      ≡ ((contains names n && n != "") || contains s.expected n)
unfolding declare_all declare contains
expected-declare_all n [] s = ground arith
expected-declare_all n (name ∷ names) s = ground (
  arith,
  eq_iff name n,
  contains-add name n s.expected,
  expected-declare_all n names (declare name s),
)

pub expected-new_swarm :
    (id : String) (expect : List String) (n : String)
    → contains expect n ≡ true
    → (n == "") ≡ false
    → contains (new_swarm id expect).expected n ≡ true
unfolding new_swarm contains
expected-new_swarm id expect n h k = ground (
  arith,
  expected-declare_all n expect
      (record { ever_seen = id ∷ []; expected = []; died = []; backlog_warned = 0 }),
)
