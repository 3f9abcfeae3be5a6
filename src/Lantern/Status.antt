-- ===== src/Lantern/Status.antt =====
-- `Status` and `statusAndBlackouts` of internal/lantern/lantern.go: everything one lantern knows, from
-- its own memory. What the swarm answers is a record here, or nothing where none is attached.
use photinus.Prelude.{
  ℕ, suc, ◌/◌, String, Bool, true, false, ◌||◌, ◌&&◌, Option, List, [], ◌∷◌, ◌++◌, map, ℤ, pos,
  negsuc, neg, ◌==◌, ◌!=◌, Time, Duration, Dict, lookup, insert, values, get_or, str_ltb, sort_by,
  keep, if◌then◌else◌,
}
use photinus.Quorum.{Observation, Decision, decide, subject, state_down}
use photinus.Lantern.State.{Lantern}
use photinus.Lantern.Blackout.{SubjectStatus, blackout}

pub record View : Type 0 where
  pub members : List String
  pub last_known : ℕ
  pub roster : List String
  pub versions : Dict String
  pub endpoints : Dict String

pub record Status : Type 0 where
  pub id : String
  pub swarm : List String
  pub last_known_size : ℕ
  pub versions : Dict String
  pub endpoints : Dict String
  pub subjects : List SubjectStatus
  pub interval_ms : ℤ

-- Go's division of a duration, which drops the fraction toward zero.
unfoldable pub whole : ℕ → Duration → ℤ
whole unit (pos n) = pos (n / unit)
whole unit (negsuc n) = neg (pos (suc n / unit))

-- The loop that collects the subjects: a key to its target and check.
unfoldable pub subjects_of : List Observation → Dict (String × String) → Dict (String × String)
subjects_of [] m = m
subjects_of (o ∷ os) m = subjects_of os (insert (subject o.check o.target) (o.target, o.check) m)

abbrev pub is_about : String → String → Observation → Bool
is_about target check o = o.target == target && o.check == check

unfoldable pub subject_status :
    Lantern → ℕ → Time → List Observation → String × String → SubjectStatus
subject_status l last_known now all (target, check) = record {
  decision = decide target check all last_known l.max_age now;
  observations = sort_by (λ a b. str_ltb a.observer b.observer) (keep (is_about target check) all);
  critical = get_or (lookup (subject check target) l.critical) false || check == "lantern";
}

-- By check, then by target.
abbrev pub subject_before : SubjectStatus → SubjectStatus → Bool
subject_before a b =
    if a.decision.check != b.decision.check
    then str_ltb a.decision.check b.decision.check
    else str_ltb a.decision.target b.decision.target

unfoldable pub status_subjects : Lantern → ℕ → Time → List SubjectStatus
status_subjects l last_known now =
    let all = values l.store in
    sort_by subject_before (map (subject_status l last_known now all) (values (subjects_of all [])))

no_view : View
no_view = record { members = []; last_known = 1; roster = []; versions = []; endpoints = [] }

unfoldable pub status_and_blackouts : Lantern → Option View → Time → Status × List Decision
unfolding no_view
status_and_blackouts l view now =
    let v = get_or view no_view in
    let subjects = status_subjects l v.last_known now in
    (
      record {
        id = l.id;
        swarm = sort_by str_ltb v.members;
        last_known_size = v.last_known;
        versions = v.versions;
        endpoints = v.endpoints;
        subjects = subjects;
        interval_ms = whole 1000000 l.interval;
      },
      blackout subjects l.addrs l.blackout_min,
    )

-- A blackout as a subject of its own, always critical.
abbrev pub as_subject : Decision → SubjectStatus
as_subject d = record { decision = d; observations = []; critical = true }

-- `Status`: a blackout is shown only while it is dark.
unfoldable pub status : Lantern → Option View → Time → Status
status l view now =
    let (st, blackouts) = status_and_blackouts l view now in
    record st {
      subjects = st.subjects ++ map as_subject (keep (λ d. d.state == state_down) blackouts);
    }
