-- ===== src/Lantern/Blackout.antt =====
-- internal/lantern/blackout.go: an address that has gone entirely dark is a subject of its own.
pub mod Total
use photinus.Prelude.{
  ℕ, ◌+◌, String, Bool, true, false, not, ◌||◌, ◌&&◌, Option, none, some, List, [], ◌∷◌, ℤ, pos,
  negsuc, eqb, leb, ltb, ◌==◌, ◌!=◌, ◌<>◌, cat, decimal, str_ltb, Dict, lookup, insert, get_or, add,
  length, sort_by, trim_prefix, trim_suffix, before, if◌then◌else◌,
}
use photinus.Quorum.{Observation, Decision, state_up, state_down, subject}

-- `SubjectStatus` of internal/lantern/lantern.go
pub record SubjectStatus : Type 0 where
  pub decision : Decision
  pub observations : List Observation
  pub critical : Bool

abbrev pub blackout_sites : ℕ
blackout_sites = 2

unfoldable pub site_of : String → String
site_of target =
    trim_suffix (before b'/' (trim_prefix (trim_prefix target "https://") "http://")) ":443"

pub record Group : Type 0 where
  pub down : ℕ
  pub known : ℕ
  pub sites : List String
  pub dark_sites : List String

abbrev pub no_group : Group
no_group = record { down = 0; known = 0; sites = []; dark_sites = [] }

-- Where a subject lives, "" if no check ever reached it.
abbrev pub address : Dict String → SubjectStatus → String
address addrs s = get_or (lookup (subject s.decision.check s.decision.target) addrs) ""

abbrev pub is_dark : SubjectStatus → Bool
is_dark s = s.decision.state == state_down

-- One subject more in its group.
unfoldable pub join_group : SubjectStatus → Group → Group
join_group s g =
    let site = site_of s.decision.target in
    let met = record g { known = g.known + 1; sites = add site g.sites } in
    if is_dark s then record met { down = g.down + 1; dark_sites = add site g.dark_sites } else met

abbrev pub group_at : String → Dict Group → Group
group_at at groups = get_or (lookup at groups) no_group

-- The body of the loop over the subjects.
unfoldable pub step_group : Dict String → SubjectStatus → Dict Group → Dict Group
step_group addrs s groups =
    let at = address addrs s in
    if at == "" then groups else insert at (join_group s (group_at at groups)) groups

unfoldable pub group_all : Dict String → List SubjectStatus → Dict Group → Dict Group
group_all addrs [] groups = groups
group_all addrs (s ∷ ss) groups = group_all addrs ss (step_group addrs s groups)

-- `strings.Join(names, ", ")`
unfoldable pub join_names : List String → String
join_names [] = ""
join_names (n ∷ []) = n
join_names (n ∷ m ∷ ns) = n <> ", " <> join_names (m ∷ ns)

-- Too small to ever be a blackout.
unfoldable pub too_small : ℕ → Group → Bool
too_small min g = ltb g.known min || ltb (length g.sites) blackout_sites

unfoldable pub all_dark : ℕ → Group → Bool
all_dark min g = eqb g.down g.known && leb min g.down && leb blackout_sites (length g.dark_sites)

unfoldable pub group_verdict : ℕ → String → Group → Decision
unfolding join_names
group_verdict min addr g = record {
  target = addr;
  check = "blackout";
  state = (if all_dark min g then state_down else state_up);
  detail =
      (if all_dark min g
        then cat (
            "every watched service at this address is down, "
            ∷ decimal g.down
            ∷ " across "
            ∷ decimal (length g.dark_sites)
            ∷ " sites: "
            ∷ join_names (sort_by str_ltb g.dark_sites)
            ∷ [])
        else "");
  authority = false;
  votes = g.down;
  voters = g.known;
  needed = min;
  swarm_size = 0;
}

-- The loop over the groups.
unfoldable pub verdicts : ℕ → Dict Group → List Decision
verdicts min [] = []
verdicts min ((addr, g) ∷ groups) =
    let rest = verdicts min groups in
    if too_small min g then rest else group_verdict min addr g ∷ rest

unfoldable pub blackout : List SubjectStatus → Dict String → ℤ → List Decision
blackout subjects addrs (negsuc n) = []
blackout subjects addrs (pos min) =
    if eqb min 0
    then []
    else sort_by (λ a b. str_ltb a.target b.target) (verdicts min (group_all addrs subjects []))
