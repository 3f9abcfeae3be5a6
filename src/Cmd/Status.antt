-- ===== src/Cmd/Status.antt =====
-- `photinus status`, cmd/photinus/status.go from the decoded answer on: the lines that are printed.
pub mod Sections
pub mod Print
use photinus.Prelude.{
  ℕ, zero, suc, ◌+◌, ◌-◌, ◌≤◌, ◌≡◌, String, Bool, true, false, not, ◌&&◌, ◌||◌, Option, none, some,
  List, [], ◌∷◌, ◌++◌, map, ltb, leb, eqb, ◌==◌, ◌!=◌, ◌<>◌, cat, decimal, str_ltb, Dict, lookup,
  values, keep, any, count, length, get_or, is_some, sort_by, add, contains, byte_length, strip,
  has_prefix, trim_prefix, trim_suffix, if◌then◌else◌,
}
use Prim.Native.String
use photinus.Quorum.{Observation, Decision, state_up, state_warn, state_down}
use photinus.Lantern.Blackout.{SubjectStatus, join_names}
use photinus.Lantern.Status.{Status}

-- The escape sequences of the colours, empty where there are none.
pub record Palette : Type 0 where
  pub down : String
  pub warn : String
  pub up : String
  pub dim : String
  pub bold : String
  pub reset : String

unfoldable pub state_rank : SubjectStatus → ℕ
state_rank s =
    if eqb s.decision.voters 0
    then 3
    else if s.decision.state == state_down
    then 0
    else if s.decision.state == state_warn
    then 1
    else if ltb 0 s.decision.votes
    then 2
    else 4

-- What is known about one box.
pub record HostSection : Type 0 where
  pub target : String
  pub live : Option SubjectStatus
  pub skew : Option SubjectStatus
  pub rows : List SubjectStatus

abbrev pub counts_as : String → SubjectStatus → Bool
counts_as state s = not (eqb s.decision.voters 0) && s.decision.state == state

-- The two counts of the headline: each subject counts once, as down if it is.
abbrev pub downs : List SubjectStatus → ℕ
downs = count (counts_as state_down)

abbrev pub warns : List SubjectStatus → ℕ
warns = count (counts_as state_warn)

-- A target is a box when the swarm holds host-shaped knowledge about it.
abbrev pub makes_box : SubjectStatus → Bool
makes_box s = s.decision.check == "lantern" || s.decision.check == "skew" || s.decision.authority

-- The names of the sections.
unfoldable pub boxes : List SubjectStatus → List String
boxes [] = []
boxes (s ∷ ss) = let rest = boxes ss in if makes_box s then add s.decision.target rest else rest

abbrev pub is_in : String → SubjectStatus → Bool
is_in name s = s.decision.target == name

-- The last one wins, as the loop assigns.
last_of : (SubjectStatus → Bool) → List SubjectStatus → Option SubjectStatus
last_of p [] = none
last_of p (s ∷ ss) =
    let rest = last_of p ss in if is_some rest then rest else if p s then some s else none

abbrev pub is_row : String → SubjectStatus → Bool
is_row name s = is_in name s && not (s.decision.check == "lantern" || s.decision.check == "skew")

abbrev pub row_before : SubjectStatus → SubjectStatus → Bool
row_before a b =
    if not (eqb (state_rank a) (state_rank b))
    then ltb (state_rank a) (state_rank b)
    else str_ltb a.decision.check b.decision.check

-- One section, its rows worst first.
unfoldable pub section : List SubjectStatus → String → HostSection
unfolding last_of
section ss name = record {
  target = name;
  live = last_of (λ s. is_in name s && s.decision.check == "lantern") ss;
  skew = last_of (λ s. is_in name s && s.decision.check == "skew") ss;
  rows = sort_by row_before (keep (is_row name) ss);
}

unfoldable pub sections : List SubjectStatus → List HostSection
sections ss = map (section ss) (sort_by str_ltb (boxes ss))

abbrev pub service_before : SubjectStatus → SubjectStatus → Bool
service_before a b =
    if not (eqb (state_rank a) (state_rank b))
    then ltb (state_rank a) (state_rank b)
    else str_ltb a.decision.target b.decision.target

abbrev pub is_service : List SubjectStatus → SubjectStatus → Bool
is_service ss s = not (contains (boxes ss) s.decision.target)

-- What is watched and no box, worst first.
unfoldable pub services : List SubjectStatus → List SubjectStatus
services ss = sort_by service_before (keep (is_service ss) ss)
