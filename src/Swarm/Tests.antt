-- ===== src/Swarm/Tests.antt =====
-- The swarm's theorems at concrete inputs.
use photinus.Prelude.{
  ℕ, ◌+◌, ◌≤◌, ◌<◌, ◌≡◌, refl, String, Bool, true, false, not, List, [], ◌∷◌, arith, eq_iff, pos,
  Time, Duration, ◌==◌, Option, none, some, contains, hour, length, Distinct, older_than, All, ◌∙◌,
  negsuc, lookup, ◌*◌, ◌&&◌, ◌≢◌,
}
use photinus.Quorum.{Observation, decide, state_up, state_down}
use photinus.Swarm.{
  Swarm, new_swarm, notify_join, notify_leave, forget_member, reap, roster, last_known_size,
  reap_dead_after,
}
use photinus.Swarm.Runs.{Reach, here, next, leaves, farewell, reaps}
use photinus.Swarm.Denominator.{declared_never_splits}
use photinus.Swarm.Advertise.{Ip}

abbrev trio : List String
trio = "one" ∷ "two" ∷ "three" ∷ []

abbrev fresh_one : Swarm
fresh_one = new_swarm "one" trio

-- "two" fails, says farewell, and the reaper passes a day later.
abbrev battered : Swarm
battered =
    reap (5 + 24 * hour) ("one" ∷ []) (forget_member "two" (notify_leave false "two" 5 fresh_one))

battered_run : Reach fresh_one battered
battered_run =
    next (next (next here (leaves false "two" 5 _)) (farewell "two" _))
      (reaps (5 + 24 * hour) ("one" ∷ []) _)

-- "one" alone says down, on its side of the partition; the others on theirs say down, and are three.
abbrev says : String → Observation
says who = record {
  observer = who;
  target = "db";
  check = "tcp";
  state = state_down;
  detail = "";
  seen = 5;
  ttl = pos 0;
}

majority_alarm :
    (decide "db" "tcp"
      (says "two" ∷ says "three" ∷ [])
      (last_known_size (new_swarm "two" trio))
      (pos 10)
      6).state
    ≡ state_down
unfolding decide lookup photinus.Quorum.is_live photinus.Prelude.since photinus.Quorum.note
    photinus.Prelude.insert last_known_size new_swarm photinus.Swarm.declare_all
    photinus.Swarm.declare photinus.Prelude.add contains photinus.Prelude.sort_by
    photinus.Prelude.values photinus.Prelude.insert_by photinus.Prelude.str_ltb
majority_alarm = refl

declared_never_splits_example :
    (decide "db" "tcp" (says "one" ∷ []) (last_known_size battered) (pos 10) 6).state ≡ state_up
unfolding contains decide lookup photinus.Quorum.is_live photinus.Prelude.since photinus.Quorum.note
    photinus.Prelude.insert
declared_never_splits_example =
    declared_never_splits "two" "one" trio trio (new_swarm "two" trio) battered "db" "tcp" (pos 10)
      (λ k. not (k == "one")) (says "two" ∷ says "three" ∷ []) (says "one" ∷ []) 6 6 here
      battered_run (refl, (refl, (refl, tt))) ((refl, refl), ((refl, refl), ((refl, refl), tt)))
      ((refl, refl), ((refl, refl), tt)) ((refl, refl), tt) refl refl
      (λ e. absurd (ground (arith, majority_alarm, e, eq_iff state_down state_up)))

abbrev pair : Swarm
pair = record { ever_seen = "one" ∷ "two" ∷ []; expected = []; died = []; backlog_warned = 0 }

abbrev ip : String → Bool → Bool → Ip
ip text loopback v4 = record { text = text; loopback = loopback; link_local = false; v4 = v4 }
