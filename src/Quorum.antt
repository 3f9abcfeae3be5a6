-- ===== src/Quorum.antt =====
-- internal/quorum/quorum.go: when the swarm agrees that something is broken. The children prove.
mod Newest
pub mod Majority
mod Authority
mod Arrival
mod Tests
use photinus.Prelude.{
  ◌<◌, ◌≤◌, ◌≡◌, arith, mul_pos, wrap64_small, older_than-ltb, max_duration, ℕ, zero, suc, ◌+◌, ◌*◌,
  ◌/◌, ◌≡◌, refl, String, Bool, true, false, not, ◌&&◌, ◌||◌, Option, none, some, List, [], ◌∷◌, ℤ,
  pos, ltb_ℤ, ◌*ℤ◌, wrap64, Time, Duration, second, older_than, after, leb, eqb, ◌==◌, ◌!=◌, ◌<>◌,
  str_ltb, Dict, lookup, insert, values, sort_by, if◌then◌else◌,
}

abbrev pub state_up : String
state_up = "up"

abbrev pub state_warn : String
state_warn = "warn"

abbrev pub state_down : String
state_down = "down"

-- One lantern's opinion. `state` is a text, since peers send it; `ttl` is in seconds, 0 for none.
pub record Observation : Type 0 where
  pub observer : String
  pub target : String
  pub check : String
  pub state : String
  pub detail : String
  pub seen : Time
  pub ttl : ℤ

-- `Observation.Subject` of its two parts, the check and the target.
abbrev pub subject : String → String → String
subject check target = check <> " " <> target

pub record Decision : Type 0 where
  pub target : String
  pub check : String
  pub state : String
  pub detail : String
  pub authority : Bool
  pub votes : ℕ
  pub voters : ℕ
  pub needed : ℕ
  pub swarm_size : ℕ

-- The age past which an observation is no vote: its TTL, or the caller's window.
cutoff : Duration → Observation → Duration
cutoff max_age o = if ltb_ℤ (pos 0) o.ttl then wrap64 (o.ttl *ℤ pos second) else max_age

pub is_stale : Duration → Time → Observation → Bool
unfolding cutoff
is_stale max_age now o = let c = cutoff max_age o in ltb_ℤ (pos 0) c && older_than now o.seen c

-- About this check on this target, and young enough to vote.
unfoldable pub is_live : String → String → Duration → Time → Observation → Bool
unfolding is_stale
is_live target check max_age now o =
    (o.target == target && o.check == check) && not (is_stale max_age now o)

-- An observation with a TTL counts until that many seconds have passed.
pub is_stale-ttl :
    (max_age : Duration) (now : Time) (o : Observation) (q : ℕ)
    → o.ttl ≡ pos q
    → 0 < q
    → q * second < max_duration
    → now ≤ o.seen + q * second
    → is_stale max_age now o ≡ false
unfolding is_stale cutoff
is_stale-ttl max_age now o q t p b h =
    ground (
      arith,
      t,
      mul_pos q second,
      wrap64_small (q * second),
      older_than-ltb now o.seen (q * second),
    )

-- `prev, ok := newest[o.Observer]; !ok || o.Seen.After(prev.Seen)`
abbrev pub supersedes : Observation → Option Observation → Bool
supersedes o none = true
supersedes o (some prev) = after o.seen prev.seen

unfoldable pub note : Observation → Dict Observation → Dict Observation
note o m = if supersedes o (lookup o.observer m) then insert o.observer o m else m

-- The loop of `Decide` over the observations.
unfoldable pub newest_loop :
    String → String → Duration → Time → List Observation → Dict Observation → Dict Observation
newest_loop target check max_age now [] m = m
newest_loop target check max_age now (o ∷ obs) m =
    newest_loop target check max_age now obs
      (if is_live target check max_age now o then note o m else m)

unfoldable pub newest : String → String → List Observation → Duration → Time → Dict Observation
unfolding newest_loop
newest target check obs max_age now = newest_loop target check max_age now obs []

abbrev pub complains : Observation → Bool
complains o = o.state != state_up

abbrev pub says_down : Observation → Bool
says_down o = o.state == state_down

-- The variables of the counting loop.
pub record Tally : Type 0 where
  pub voters : ℕ
  pub votes : ℕ
  pub down_votes : ℕ
  pub detail : String

-- One round of the loop.
abbrev tally_one : Observation → Tally → Tally
tally_one o t =
    if complains o
    then record {
      voters = t.voters + 1;
      votes = t.votes + 1;
      down_votes = (if says_down o then t.down_votes + 1 else t.down_votes);
      detail = (if t.detail == "" then o.detail else t.detail);
    }
    else record t { voters = t.voters + 1 }

tally : List Observation → Tally → Tally
tally [] t = t
tally (o ∷ os) t = tally os (tally_one o t)

abbrev empty_tally : Tally
empty_tally = record { voters = 0; votes = 0; down_votes = 0; detail = "" }

-- The first entry's detail, where no complaint gave one.
abbrev first_detail : List Observation → String → String
first_detail [] d = d
first_detail (o ∷ os) d = if d == "" then o.detail else d

abbrev quorum_state : ℕ → Tally → String
quorum_state needed t =
    if leb needed t.down_votes
    then state_down
    else if leb needed t.votes
    then state_warn
    else state_up

-- The target's own word decides alone.
abbrev own_word : String → String → ℕ → Observation → Decision
own_word target check size auth = record {
  target = target;
  check = check;
  state = auth.state;
  detail = auth.detail;
  authority = true;
  votes = (if complains auth then 1 else 0);
  voters = 1;
  needed = 1;
  swarm_size = size;
}

pub ordered : Dict Observation → List Observation
ordered m = sort_by (λ a b. str_ltb a.observer b.observer) (values m)

-- The count of the other lanterns' words.
hearsay : String → String → ℕ → List Observation → Decision
unfolding tally
hearsay target check size os =
    let t = tally os empty_tally in
    record {
      target = target;
      check = check;
      state = quorum_state (size / 2 + 1) t;
      detail = first_detail os t.detail;
      authority = false;
      votes = t.votes;
      voters = t.voters;
      needed = size / 2 + 1;
      swarm_size = size;
    }

conclude : String → String → ℕ → Dict Observation → Option Observation → Decision
unfolding hearsay ordered
conclude target check size m (some auth) = own_word target check size auth
conclude target check size m none = hearsay target check size (ordered m)

unfoldable pub decide : String → String → List Observation → ℕ → Duration → Time → Decision
unfolding conclude newest
decide target check obs size max_age now =
    let m = newest target check obs max_age now in conclude target check size m (lookup target m)
