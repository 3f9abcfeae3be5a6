-- ===== src/Notify/Tracker/Tests.antt =====
-- Runs of the election and the tracker, and the theorems at concrete inputs. The hash of the runs is
-- the length of the text, so ties are settled by name.
use Prim.Native.String.{len}
use photinus.Prelude.{
  ℕ, ◌*◌, ◌≤◌, ◌≡◌, refl, ◌≢◌, String, true, false, List, [], ◌∷◌, arith, eq_iff, pos, Time, second,
  ◌==◌, All, Distinct, contains, length, count, lookup, insert, str_ltb, since, map, keys_where,
}
use photinus.Quorum.{Decision, state_down}
use photinus.Notify.Event.{Event, event, kind_for}
use photinus.Notify.Elect.{elect, Named, Within}
use photinus.Notify.Tracker.{Tracker, observe, observe_one, observe_all, hold, speak, changed}
use photinus.Notify.Tracker.Once.{
  Flash, as_self, only_for, remember, page_exactly_once, remember-as_self,
}
use photinus.Notify.Tracker.Rules.{IsTrue, events_are-IsTrue}

abbrev hash : String → ℕ
hash s = len s

abbrev swarm : List String
swarm = "one" ∷ "two" ∷ "three" ∷ []

swarm-Named : Named swarm
swarm-Named = (refl, (refl, (refl, tt)))

swarm-Distinct : Distinct swarm
unfolding contains
swarm-Distinct = (refl, (refl, (refl, tt)))

not-empty : swarm ≢ []
not-empty e = cc

abbrev verdict : String → Decision
verdict state = record {
  target = "db";
  check = "tcp";
  state = state;
  detail = "refused";
  authority = false;
  votes = 2;
  voters = 3;
  needed = 2;
  swarm_size = 3;
}

abbrev quiet : Tracker
quiet = record {
  self = "three";
  warmup = pos 0;
  hold_down = pos (60 * second);
  start = 1;
  state = [];
  elected = [];
  transitions = [];
  flapping = [];
  last_seen = [];
  down_since = [];
}

-- A subject that is damped, and known to be up.
abbrev damped : Tracker
damped = record quiet { flapping = ("tcp db", true) ∷ [] }

-- One minute later than `now`, the delay is over.
abbrev now : Time
now = 5 * second

abbrev waiting : Tracker
waiting = record quiet { down_since = ("tcp db", 5 * second) ∷ [] }

abbrev later : Time
later = 65 * second

elects_three : elect hash "tcp db" swarm ≡ "three"
unfolding elect str_ltb
elects_three = refl

survivors-Within : Within ("three" ∷ "one" ∷ []) swarm
unfolding contains
survivors-Within s h = ground (arith, eq_iff "three" s, eq_iff "one" s, eq_iff "two" s)

page_exactly_once_example :
    ((observe_one hash swarm later (verdict state_down) (as_self "two" waiting)).1
      ≡ only_for
          (elect hash "tcp db" swarm == "two")
          (observe_one hash swarm later
            (verdict state_down)
            (as_self (elect hash "tcp db" swarm) waiting)).1)
    × (length
          (observe_one hash swarm later
            (verdict state_down)
            (as_self (elect hash "tcp db" swarm) waiting)).1
        ≤ 1)
    × (count (λ id. id == elect hash "tcp db" swarm) swarm ≡ 1)
page_exactly_once_example =
    page_exactly_once hash swarm later (verdict state_down) waiting "two" swarm-Named swarm-Distinct
      not-empty

abbrev run : List Flash
run =
    record { decisions = verdict state_down ∷ []; alive = swarm; at = now }
    ∷ record { decisions = verdict state_down ∷ []; alive = swarm; at = later }
    ∷ []

remember-as_self_example :
    remember hash run (as_self "two" quiet) ≡ as_self "two" (remember hash run quiet)
remember-as_self_example = remember-as_self hash "two" run quiet

events_are-IsTrue_example :
    All
      (IsTrue hash swarm later (verdict state_down) waiting)
      (observe_one hash swarm later (verdict state_down) waiting).1
events_are-IsTrue_example = events_are-IsTrue hash swarm later (verdict state_down) waiting

-- Down for a minute: nothing at first, then the one page.
pages_after_a_minute :
    let first = observe hash (verdict state_down ∷ []) swarm now quiet in
    let second = observe hash (verdict state_down ∷ []) swarm later first.0 in
    (first.1 ≡ []) × (map (λ (e : Event). e.kind) second.1 ≡ "down" ∷ [])
unfolding observe observe_all since observe_one speak hold keys_where insert lookup changed elect
    str_ltb event kind_for
pages_after_a_minute = (refl, refl)
