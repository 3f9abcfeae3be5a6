-- ===== src/Lantern/Flash.antt =====
-- `flash` of internal/lantern/lantern.go: run the checks that are due, look at the clocks, the pulses
-- and the members, and speak. What a check's `Run` reports in this flash is part of the input.
pub mod Pacing
use photinus.Prelude.{
  ℕ, ◌+◌, ◌*◌, String, Bool, true, false, not, ◌&&◌, ◌||◌, Option, none, some, List, [], ◌∷◌, ◌++◌,
  map, ℤ, pos, negsuc, ltb_ℤ, leb, eqb, ltb, ◌*ℤ◌, wrap64, ◌==◌, ◌!=◌, ◌<>◌, Time, Duration, second,
  since, Dict, lookup, insert, values, get_or, is_some, keep, if◌then◌else◌,
}
use photinus.Quorum.{Observation, Decision, state_up, state_warn, state_down}
use photinus.Lantern.State.{Lantern, Verdict, ok, warn, failed, not_applicable, store_key}
use photinus.Lantern.Skew.{skew_observations}
use photinus.Lantern.Pulse.{pulse_observations}
use photinus.Lantern.Liveness.{liveness_observations}
use photinus.Lantern.Forget.{prune}
use photinus.Lantern.Gossip.{fit_for_gossip, chunk_flash, flash_obs_limit}
use photinus.Lantern.Blackout.{SubjectStatus}
use photinus.Lantern.Status.{Status, View, whole, status_and_blackouts}

-- `check.Result`
pub record CheckResult : Type 0 where
  pub verdict : Verdict
  pub detail : String
  pub addr : String

-- A check of this flash: `every` is there for a check that is `check.Paced`.
pub record Check : Type 0 where
  pub name : String
  pub target : String
  pub every : Option Duration
  pub result : CheckResult

abbrev pub recheck_while_down : Duration
recheck_while_down = pos (30 * second)

-- The cadence of a check that is slower than the flashes.
abbrev slower : Lantern → Option Duration → Option Duration
slower l none = none
slower l (some p) = if ltb_ℤ l.interval p then some p else none

unfoldable pub cadence : Lantern → Check → Option Duration
cadence l c = slower l c.every

abbrev pub is_failed : Verdict → Bool
is_failed ok = false
is_failed warn = false
is_failed failed = true
is_failed not_applicable = false

abbrev pub pace_key : Check → String
pace_key c = c.name <> "|" <> c.target

-- How long a paced check waits: its cadence, less while it is down.
unfoldable pub wait_for : Lantern → String → Duration → Duration
wait_for l key nominal =
    if is_failed (get_or (lookup key l.last_verdict) ok) && ltb_ℤ recheck_while_down nominal
    then recheck_while_down
    else nominal

unfoldable pub due_since : Lantern → Time → Check → Duration → Option Time → Bool
due_since l now c nominal none = true
due_since l now c nominal (some last) =
    not (ltb_ℤ (since now last) (wait_for l (pace_key c) nominal))

unfoldable pub due_at : Lantern → Time → Check → Option Duration → Bool
due_at l now c none = true
due_at l now c (some nominal) = due_since l now c nominal (lookup (pace_key c) l.last_run)

unfoldable pub is_due : Lantern → Time → Check → Bool
is_due l now c = due_at l now c (cadence l c)

abbrev pub state_of : Verdict → Option String
state_of ok = some state_up
state_of warn = some state_warn
state_of failed = some state_down
state_of not_applicable = none

-- The TTL in seconds: by the nominal cadence, or three aging windows.
unfoldable pub ttl_at : Lantern → Option Duration → ℤ
ttl_at l none = whole second (wrap64 (pos 3 *ℤ l.max_age))
ttl_at l (some nominal) = whole second (wrap64 (pos 5 *ℤ nominal))

unfoldable pub check_ttl : Lantern → Check → ℤ
check_ttl l c = ttl_at l (cadence l c)

unfoldable pub check_observation : Lantern → Time → Check → String → Observation
check_observation l now c state = record {
  observer = l.id;
  target = c.target;
  check = c.name;
  state = state;
  detail = c.result.detail;
  seen = now;
  ttl = check_ttl l c;
}

abbrev pub verdict_said : Lantern → Time → Check → Option String → List Observation
verdict_said l now c none = []
verdict_said l now c (some state) = check_observation l now c state ∷ []

-- What a run of the check leaves in the memory: the pace of a paced one, and where the subject lives.
unfoldable pub paced_run : Time → Check → Option Duration → Lantern → Lantern
paced_run now c none l = l
paced_run now c (some nominal) l = record l {
  last_run = insert (pace_key c) now l.last_run;
  last_verdict = insert (pace_key c) c.result.verdict l.last_verdict;
}

unfoldable pub after_run : Time → Check → Lantern → Lantern
after_run now c l = record (paced_run now c (cadence l c) l) {
  addrs =
      (if c.result.addr != ""
        then insert (c.name <> " " <> c.target) c.result.addr l.addrs
        else l.addrs);
}

-- The body of the loop over the checks.
unfoldable pub run_check : Time → Check → Lantern → Lantern × List Observation
run_check now c l =
    if is_due l now c
    then (after_run now c l, verdict_said l now c (state_of c.result.verdict))
    else (l, [])

unfoldable pub run_checks : Time → List Check → Lantern → Lantern × List Observation
run_checks now [] l = (l, [])
run_checks now (c ∷ cs) l =
    let (l', said) = run_check now c l in
    let (l'', more) = run_checks now cs l' in (l'', said ++ more)

-- `l.store[storeKey(o)] = o` for each observation.
unfoldable pub store_all : List Observation → Dict Observation → Dict Observation
store_all [] m = m
store_all (o ∷ os) m = store_all os (insert (store_key o) o m)

-- The lantern's own observations that fit a packet.
unfoldable pub own_fit :
    (Observation → Option String) → String → List Observation → List Observation
own_fit encode id [] = []
own_fit encode id (o ∷ os) =
    let rest = own_fit encode id os in
    let (fit, goes) = fit_for_gossip encode flash_obs_limit o in
    if o.observer == id && goes then fit ∷ rest else rest

abbrev peers_seen : Option View → String → Time → List Observation
peers_seen none id now = []
peers_seen (some v) id now = liveness_observations id v.members v.roster now

-- The memory after the checks and the looks around, with everything fresh filed and pruned.
unfoldable pub observe_self :
    (Duration → String) → Time → List Check → Option View → Lantern → Lantern
observe_self show now checks view l =
    let (checked, said) = run_checks now checks l in
    let (timed, skewed) = skew_observations show now checked in
    let fresh = said ++ skewed ++ pulse_observations show now timed ++ peers_seen view l.id now in
    prune now (record timed { store = store_all fresh timed.store })

-- What the tracker hears: the decisions on all subjects, then the blackouts.
unfoldable pub decisions_of : Status × List Decision → List Decision
decisions_of (st, blackouts) = map (λ (s : SubjectStatus). s.decision) st.subjects ++ blackouts

abbrev pub packet_limit : ℕ
packet_limit = 1000

-- `warnUnderDeclaredPulses` for one subject: the memory, and whether a line is logged.
unfoldable pub warn_pulse : SubjectStatus → Lantern → Lantern × Bool
warn_pulse s l =
    let d = s.decision in
    let name = d.target in
    let declared = is_some (lookup name l.pulses) in
    let stuck = ltb 0 d.votes && eqb d.votes d.voters && ltb d.votes d.needed in
    let n = get_or (lookup name l.pulse_stuck) 0 + 1 in
    let counted = record l { pulse_stuck = insert name n l.pulse_stuck } in
    if d.check != "pulse" || not declared || get_or (lookup name l.pulse_warned) false
    then (l, false)
    else if not stuck
    then (record l { pulse_stuck = insert name 0 l.pulse_stuck }, false)
    else if leb 15 n
    then (record counted { pulse_warned = insert name true l.pulse_warned }, true)
    else (counted, false)

unfoldable pub warn_pulses : List SubjectStatus → Lantern → Lantern × List String
warn_pulses [] l = (l, [])
warn_pulses (s ∷ ss) l =
    let (l', logged) = warn_pulse s l in
    let (l'', more) = warn_pulses ss l' in (l'', if logged then s.decision.target ∷ more else more)

-- One flash: the memory, the payloads of observations that are gossiped, and the decisions for the
-- tracker. Under which names the payloads go out, with that of the registrations, is `flash_sends`.
unfoldable pub flash :
    (Duration → String)
    → (Observation → Option String)
    → (List Observation → Option String)
    → Time
    → List Check
    → Option View
    → Lantern
    → Lantern × List String × List Decision
flash show encode wrap now checks view l =
    let l' = observe_self show now checks view l in
    let sent = chunk_flash encode wrap packet_limit (own_fit encode l.id (values l'.store)) in
    let st = status_and_blackouts l' view now in
    ((warn_pulses st.0.subjects l').0, (elim view [ none ↦ [] | some v ↦ sent ]), decisions_of st)
