-- ===== src/Swarm/Denominator.antt =====
-- The quorum's denominator in any run of the swarm's ledger (internal/swarm/swarm.go), and what it
-- means for the decisions of internal/quorum/quorum.go.
use photinus.Prelude.{
  ◌≤◌, ◌≡◌, ◌≢◌, refl, ap, ◌∙◌, String, Bool, true, false, not, List, [], ◌∷◌, arith, ◌==◌, Time,
  Duration, older_than, Dict, Distinct, contains, length-add, length-le, length, member_holds, All,
}
use photinus.Quorum.{Observation, decide, state_up}
use photinus.Quorum.Majority.{OnSide, no_split_brain}
use photinus.Swarm.{
  Swarm, reap_one, reap_all, reap, reap_dead_after, failed, new_swarm, notify_join, notify_leave,
  last_known_size, roster,
}
use photinus.Swarm.Runs.{
  Reach, Reach-IsSound, new_swarm-IsSound, expected-Reach, expected-new_swarm,
}

-- A declared lantern never drops out: whatever joins, leaves, fails, says farewell or is reaped, in
-- any order, it stays on the roster.
pub declared_stays_counted :
    (id : String) (expect : List String) (s : Swarm) (name : String)
    → Reach (new_swarm id expect) s
    → contains expect name ≡ true
    → (name == "") ≡ false
    → contains (roster s) name ≡ true
unfolding roster
declared_stays_counted id expect s name r h k =
    (Reach-IsSound (new_swarm-IsSound id expect) r).counted name
      (ap (λ e. contains e name) (expected-Reach r) ∙ expected-new_swarm id expect name h k)

-- The declared lanterns with names, each counted once, are at most the last known size.
pub declared-le-size :
    (id : String) (expect members : List String) (s : Swarm)
    → Reach (new_swarm id expect) s
    → Distinct members
    → All (λ name. (contains expect name ≡ true) × ((name == "") ≡ false)) members
    → length members ≤ last_known_size s
unfolding last_known_size roster
declared-le-size id expect members s r d f = length-le members s.ever_seen d (λ name h.
    let (declared, named) = member_holds _ members name f h in
    declared_stays_counted id expect s name r declared named)

-- No split brain in a declared swarm: where each box declares all members, two lanterns on different
-- sides of a partition, each after any run of its own ledger, never both raise an alarm about a
-- subject that is no lantern's own.
pub declared_never_splits :
    (id id' : String) (expect members : List String) (s s' : Swarm) (target check : String)
    (max_age : Duration) (side : String → Bool) (here there : List Observation) (now now' : Time)
    → Reach (new_swarm id expect) s
    → Reach (new_swarm id' expect) s'
    → Distinct members
    → All (λ name. (contains expect name ≡ true) × ((name == "") ≡ false)) members
    → OnSide members side here
    → OnSide members (λ k. not (side k)) there
    → (decide target check here (last_known_size s) max_age now).authority ≡ false
    → (decide target check there (last_known_size s') max_age now').authority ≡ false
    → (decide target check here (last_known_size s) max_age now).state ≢ state_up
    → (decide target check there (last_known_size s') max_age now').state ≡ state_up
declared_never_splits id id' expect members s s' target check max_age side here there now now' r r'
      d f h h' a a' alarm =
    no_split_brain target check max_age members side here there (last_known_size s)
      (last_known_size s') now now' h h' (declared-le-size id expect members s r d f)
      (declared-le-size id' expect members s' r' d f) a a' alarm

-- What happens in an outage: lanterns fail and join, and the reaper runs while every death is within
-- the grace.
pub data Outage : Swarm → Swarm → Type 0 where
  over : (s : Swarm) → Outage s s
  fails :
      (name : String) (now : Time) {s t : Swarm}
      → Outage s t
      → Outage s (notify_leave false name now t)
  joins : (name : String) {s t : Swarm} → Outage s t → Outage s (notify_join name t)
  reaps :
      (now : Time) (alive : List String) {s t : Swarm}
      → All (λ (e : String × Time). older_than now e.1 reap_dead_after ≡ false) t.died
      → Outage s t
      → Outage s (reap now alive t)

reap_all-keeps :
    (now : Time) (alive : List String) (m : Dict Time) (s : Swarm)
    → All (λ (e : String × Time). older_than now e.1 reap_dead_after ≡ false) m
    → (reap_all now alive m s).ever_seen ≡ s.ever_seen
unfolding reap_all reap_one
reap_all-keeps now alive [] s h = refl
reap_all-keeps now alive ((name, at) ∷ m) s h =
    ground (arith, h.0, reap_all-keeps now alive m (reap_one now alive name at s) h.1)

-- An outage never lowers the quorum: lanterns that only fail stay counted, so that a minority which
-- sees all others fail still needs the votes of the whole swarm.
pub size-Outage : (s t : Swarm) → Outage s t → last_known_size s ≤ last_known_size t
unfolding last_known_size notify_leave failed notify_join reap
size-Outage s _ (over _) = omega arith
size-Outage s _ (fails name now o) = ground (arith, size-Outage _ _ o)
size-Outage s _ (joins name {t = t} o) =
    omega (arith, length-add name t.ever_seen, size-Outage _ _ o)
size-Outage s _ (reaps now alive {t = t} h o) =
    ground (arith, reap_all-keeps now alive t.died t h, size-Outage _ _ o)
