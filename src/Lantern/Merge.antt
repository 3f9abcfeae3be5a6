-- ===== src/Lantern/Merge.antt =====
-- The loop of `ReceiveFlash` in internal/lantern/lantern.go: a peer's observations, merged into the
-- memory one by one.
pub mod Newest
pub mod Tombstones
pub mod Sync
use photinus.Prelude.{
  ℕ, String, Bool, true, false, not, ◌&&◌, ◌||◌, Option, none, some, List, [], ◌∷◌, Time, after,
  ◌==◌, Dict, lookup, insert, delete, get_or, if◌then◌else◌,
}
use photinus.Quorum.{Observation, subject, supersedes}
use photinus.Lantern.State.{Lantern, store_key, is_receipt}

-- A tombstone refuses what was seen no later than it was set.
abbrev pub refuses : Option Time → Observation → Bool
refuses none o = false
refuses (some at) o = not (after o.seen at)

-- The key and subject an observation is filed and forgotten under.
abbrev pub subject_of : Observation → String
subject_of o = subject o.check o.target

-- Its place in the store, if it is newer than what is there.
unfoldable pub file : Observation → Dict Observation → Dict Observation
file o m = if supersedes o (lookup (store_key o) m) then insert (store_key o) o m else m

unfoldable pub remember_pulse : Observation → Dict Time → Dict Time
remember_pulse o m =
    if is_receipt o && after o.seen (get_or (lookup o.target m) 0)
    then insert o.target o.seen m
    else m

-- Word from the observer after its departure: it is back.
unfoldable pub back : Observation → Lantern → Lantern
back o l = if is_receipt o then l else record l { departed = delete o.observer l.departed }

unfoldable pub accept : Observation → Lantern → Lantern
accept o l = record l {
  forgotten = delete (subject_of o) l.forgotten;
  store = file o l.store;
  last_pulse = remember_pulse o l.last_pulse;
}

-- The body of the loop.
unfoldable pub merge_one : Observation → Lantern → Lantern
merge_one o l =
    let l' = back o l in
    if (o.observer == l.id) && not (is_receipt o)
    then l
    else if refuses (lookup o.observer l.departed) o && not (is_receipt o)
    then l
    else if refuses (lookup o.target l'.departed) o && not (is_receipt o)
    then l'
    else if refuses (lookup (subject_of o) l'.forgotten) o
    then l'
    else accept o l'

unfoldable pub merge : List Observation → Lantern → Lantern
merge [] l = l
merge (o ∷ obs) l = merge obs (merge_one o l)
