-- ===== src/Quorum/Tests.antt =====
-- Runs of `Decide`, and the theorems at concrete inputs.
use photinus.Prelude.{
  ◌≡◌, refl, String, List, [], ◌∷◌, arith, eq_iff, pos, Time, ◌==◌, ◌||◌, contains, lookup, str_ltb,
  sort_by, insert_by, values, insert, since, if◌then◌else◌, swap,
}
use photinus.Quorum.{
  Observation, decide, note, is_live, state_up, state_warn, state_down, says_down,
}
use photinus.Quorum.Majority.{Backed, no_split_brain, down-has-majority}
use photinus.Quorum.Arrival.{decide_any_order}

abbrev said : String → String → Time → Observation
said who state at = record {
  observer = who;
  target = "db";
  check = "tcp";
  state = state;
  detail = "refused";
  seen = at;
  ttl = pos 0;
}

-- Three of five say down, one of them twice, and one has a stale word.
abbrev outage : List Observation
outage =
    said "a" state_down 90
    ∷ said "b" state_down 95
    ∷ said "c" state_up 91
    ∷ said "c" state_down 96
    ∷ said "d" state_up 5
    ∷ []

-- One warns and one says down.
abbrev mixed : List Observation
mixed = said "a" state_warn 90 ∷ said "b" state_down 95 ∷ []

abbrev lone : List Observation
lone = said "d" state_down 90 ∷ said "e" state_down 95 ∷ []

abbrev own : List Observation
own = said "a" state_down 90 ∷ said "db" state_warn 95 ∷ said "db" state_up 94 ∷ []

outage_runs :
    ((decide "db" "tcp" outage 5 (pos 50) 100).state ≡ state_down)
    × ((decide "db" "tcp" outage 5 (pos 50) 100).voters ≡ 3)
unfolding decide is_live note lookup insert values sort_by insert_by str_ltb since
outage_runs = (refl, refl)

mixed_runs : (decide "db" "tcp" mixed 3 (pos 50) 100).state ≡ state_warn
unfolding decide is_live note lookup insert values sort_by insert_by str_ltb since
mixed_runs = refl

down-has-majority_example : Backed "db" "tcp" outage (pos 50) 100 says_down 3
unfolding decide is_live note lookup insert values sort_by insert_by str_ltb since
down-has-majority_example = down-has-majority "db" "tcp" outage 5 (pos 50) 100 refl refl

no_split_brain_example : (decide "db" "tcp" lone 5 (pos 50) 100).state ≡ state_up
unfolding decide is_live note lookup insert values sort_by insert_by str_ltb since contains
no_split_brain_example =
    no_split_brain "db" "tcp" (pos 50) ("a" ∷ "b" ∷ "c" ∷ "d" ∷ "e" ∷ [])
      (λ k. k == "a" || (k == "b" || k == "c"))
      (said "a" state_down 90 ∷ said "b" state_down 95 ∷ said "c" state_down 96 ∷ []) lone 5 5 100
      100 ((refl, refl), ((refl, refl), ((refl, refl), tt))) ((refl, refl), ((refl, refl), tt))
      (omega arith) (omega arith) refl refl (ground (arith, eq_iff state_down state_up))

decide_any_order_example :
    decide "db" "tcp" mixed 3 (pos 50) 100
    ≡ decide "db" "tcp" (said "b" state_down 95 ∷ said "a" state_warn 90 ∷ []) 3 (pos 50) 100
decide_any_order_example =
    decide_any_order "db" "tcp" (pos 50) 100
      (λ who check target at. if who == "a" then said "a" state_warn 90 else said "b" state_down 95)
      mixed (said "b" state_down 95 ∷ said "a" state_warn 90 ∷ []) 3
      (swap (said "a" state_warn 90) (said "b" state_down 95) []) (refl, (refl, tt))
