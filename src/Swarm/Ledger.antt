-- ===== src/Swarm/Ledger.antt =====
-- What the operations of internal/swarm/swarm.go do to the ledger of lanterns.
use photinus.Prelude.{
  ◌≡◌, String, Bool, false, not, ◌&&◌, ◌||◌, Option, none, some, List, [], ◌∷◌, arith, eq_iff, ◌==◌,
  Time, older_than, Dict, lookup, Unique, contains, contains-remove,
}
use photinus.Swarm.{Swarm, reap_one, reap_all, reap, reap_dead_after, failed}

-- An entry that the reaper forgets: undeclared, not a member now, and dead for longer than the grace.
abbrev pub is_lost : Time → List String → Swarm → String → Time → Bool
is_lost now alive s name at =
    not (contains s.expected name || contains alive name) && older_than now at reap_dead_after

abbrev pub lost_entry : Time → List String → Swarm → String → Option Time → Bool
lost_entry now alive s name none = false
lost_entry now alive s name (some at) = is_lost now alive s name at

module _ (now : Time) (alive : List String) (name : String) where
  reap_one-expected :
      (k : String) (at : Time) (s : Swarm) → (reap_one now alive k at s).expected ≡ s.expected
  unfolding reap_one
  reap_one-expected k at s = ground arith

  reap_one-seen :
      (k : String) (at : Time) (s : Swarm)
      → contains (reap_one now alive k at s).ever_seen name
        ≡ (contains s.ever_seen name && not (k == name && is_lost now alive s k at))
  unfolding reap_one
  reap_one-seen k at s = ground (arith, contains-remove k name s.ever_seen)

  reap_all-seen :
      (m : Dict Time) (s : Swarm)
      → Unique m
      → contains (reap_all now alive m s).ever_seen name
        ≡ (contains s.ever_seen name && not (lost_entry now alive s name (lookup name m)))
  unfolding reap_all lookup
  reap_all-seen [] s u = ground arith
  reap_all-seen ((k, at) ∷ m) s u = ground (
    arith,
    eq_iff k name,
    reap_all-seen m (reap_one now alive k at s) u.1,
    reap_one-seen k at s,
    reap_one-expected k at s,
  )

  -- What the reaper forgets: a lantern leaves the roster exactly when it was never declared, is not
  -- a member now, and died longer ago than the grace of an hour.
  pub reap-forgets :
      (s : Swarm)
      → Unique s.died
      → contains (reap now alive s).ever_seen name
        ≡ (contains s.ever_seen name && not (lost_entry now alive s name (lookup name s.died)))
  unfolding reap
  reap-forgets s u = reap_all-seen s.died s u

-- Failures in the order they are noticed.
unfoldable pub fail_all : List (String × Time) → Swarm → Swarm
fail_all [] s = s
fail_all ((n, t) ∷ rest) s = fail_all rest (failed n t s)
