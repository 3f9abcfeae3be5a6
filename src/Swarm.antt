-- ===== src/Swarm.antt =====
-- internal/swarm/swarm.go: the ledger of the lanterns ever seen, whose size is the quorum's
-- denominator. memberlist is not modelled: its callbacks are the operations here.
pub mod Ledger
pub mod Runs
pub mod Denominator
pub mod Advertise
pub mod Rejoin
pub mod Mux
pub mod Join
mod Tests
mod MuxTests
use photinus.Prelude.{
  ℕ, ◌*◌, String, Bool, true, false, ◌||◌, not, Option, none, some, List, [], ◌∷◌, pos, leb, leb_ℤ,
  eqb, Time, Duration, since, older_than, hour, minute, ◌!=◌, ◌==◌, Dict, lookup, insert, delete,
  get_or, contains, add, remove, length, if◌then◌else◌,
}

-- The fields of `Swarm` that are memory. `backlog_warned` is 0 before the first warning.
pub record Swarm : Type 0 where
  pub ever_seen : List String
  pub expected : List String
  pub died : Dict Time
  pub backlog_warned : Time

abbrev pub reap_dead_after : Duration
reap_dead_after = pos hour

-- One round of the loop over `cfg.Expect` in `Join`.
unfoldable pub declare : String → Swarm → Swarm
declare name s =
    if name != ""
    then record s { ever_seen = add name s.ever_seen; expected = add name s.expected }
    else s

unfoldable pub declare_all : List String → Swarm → Swarm
declare_all [] s = s
declare_all (name ∷ names) s = declare_all names (declare name s)

-- The memory that `Join` starts with.
unfoldable pub new_swarm : String → List String → Swarm
new_swarm id expect =
    declare_all expect
      (record { ever_seen = id ∷ []; expected = []; died = []; backlog_warned = 0 })

-- The body of the loop in `reap`.
unfoldable pub reap_one : Time → List String → String → Time → Swarm → Swarm
reap_one now alive name at s =
    if contains s.expected name || contains alive name
    then record s { died = delete name s.died }
    else if older_than now at reap_dead_after
    then record s { ever_seen = remove name s.ever_seen; died = delete name s.died }
    else s

unfoldable pub reap_all : Time → List String → Dict Time → Swarm → Swarm
reap_all now alive [] s = s
reap_all now alive ((name, at) ∷ rest) s = reap_all now alive rest (reap_one now alive name at s)

unfoldable pub reap : Time → List String → Swarm → Swarm
reap now alive s = reap_all now alive s.died s

-- `LastKnownSize` and `Roster`
unfoldable pub last_known_size : Swarm → ℕ
last_known_size s = length s.ever_seen

unfoldable pub roster : Swarm → List String
roster s = s.ever_seen

-- `Forget`
unfoldable pub forget_member : String → Swarm → Swarm
forget_member name s =
    if contains s.expected name then s else record s { ever_seen = remove name s.ever_seen }

unfoldable pub notify_join : String → Swarm → Swarm
notify_join name s = record s { ever_seen = add name s.ever_seen; died = delete name s.died }

-- `NotifyLeave` of a lantern in the state `StateLeft`.
unfoldable pub left : String → Swarm → Swarm
left name s = record s {
  ever_seen = (if contains s.expected name then s.ever_seen else remove name s.ever_seen);
  died = delete name s.died;
}

-- `NotifyLeave` of a lantern that stopped answering.
unfoldable pub failed : String → Time → Swarm → Swarm
failed name now s =
    if contains s.expected name
    then s
    else if eqb (get_or (lookup name s.died) 0) 0
    then record s { died = insert name now s.died }
    else s

unfoldable pub notify_leave : Bool → String → Time → Swarm → Swarm
notify_leave graceful name now s = if graceful then left name s else failed name now s

abbrev pub backlog_warn : ℕ
backlog_warn = 200

-- `warnBacklog`, with the length of the queue and the time: the memory, and whether it logs.
unfoldable pub warn_backlog : ℕ → Time → Swarm → Swarm × Bool
warn_backlog queued now s =
    if not (leb backlog_warn queued)
    then (s, false)
    else if leb_ℤ (pos minute) (since now s.backlog_warned)
    then (record s { backlog_warned = now }, true)
    else (s, false)
