-- ===== src/Notify/Tracker.antt =====
-- `Tracker` of internal/notify/notify.go: quorum decisions in, events out. A sent event is a result;
-- the log lines are left out. `hash` is that of the election.
mod Once
mod Rules
mod Tests
use photinus.Prelude.{
  ℕ, ◌+◌, ◌*◌, ◌≡◌, refl, String, Bool, true, false, not, ◌&&◌, ◌||◌, Option, none, some, List, [],
  ◌∷◌, ◌++◌, map, ℤ, pos, ltb_ℤ, leb_ℤ, eqb, leb, ltb, Time, Duration, since, older_than, minute,
  hour, ◌==◌, ◌!=◌, ◌<>◌, cat, decimal, Dict, lookup, insert, delete, keys_where, get_or, is_some,
  contains, length, if◌then◌else◌,
}
use photinus.Quorum.{Decision, state_up, state_down, subject}
use photinus.Notify.Event.{Event, event, kind_for, state_word}
use photinus.Notify.Elect.{elect}

abbrev pub flap_window : Duration
flap_window = pos (10 * minute)

abbrev pub flap_count : ℕ
flap_count = 4

abbrev pub settle_after : Duration
settle_after = pos (5 * minute)

abbrev pub forget_after : Duration
forget_after = pos (72 * hour)

-- A `start` of 0 is the zero time: nothing observed yet.
pub record Tracker : Type 0 where
  pub self : String
  pub warmup : Duration
  pub hold_down : Duration
  pub start : Time
  pub state : Dict String
  pub elected : Dict String
  pub transitions : Dict (List Time)
  pub flapping : Dict Bool
  pub last_seen : Dict Time
  pub down_since : Dict Time

unfoldable pub new_tracker : String → Duration → Duration → Tracker
new_tracker self warmup hold_down = record {
  self = self;
  warmup = warmup;
  hold_down = hold_down;
  start = 0;
  state = [];
  elected = [];
  transitions = [];
  flapping = [];
  last_seen = [];
  down_since = [];
}

abbrev pub Step : Type 0
Step = Tracker × List Event

-- The subject of a decision, its last known state, and whether it is damped.
abbrev pub subject_of : Decision → String
subject_of d = subject d.check d.target

abbrev pub known_state : Tracker → String → String
known_state t s = get_or (lookup s t.state) state_up

abbrev pub is_flapping : Tracker → String → Bool
is_flapping t s = get_or (lookup s t.flapping) false

abbrev pub history : Tracker → String → List Time
history t s = get_or (lookup s t.transitions) []

-- The alert delay: the tracker, and whether the decision is held back.
unfoldable pub hold : String → String → String → Time → Tracker → Tracker × Bool
hold s prev cur now t =
    let begun = get_or (lookup s t.down_since) 0 in
    let began = if eqb begun 0 then now else begun in
    let waiting = if eqb begun 0 then record t { down_since = insert s now t.down_since } else t in
    if not (ltb_ℤ (pos 0) t.hold_down)
    then (t, false)
    else if cur != state_down
    then (record t { down_since = delete s t.down_since }, false)
    else if prev == state_down
    then (t, false)
    else if ltb_ℤ (since now began) t.hold_down
    then (waiting, true)
    else (record waiting { down_since = delete s waiting.down_since }, false)

-- `hist[len(hist)-1]`
last_time : Time → List Time → Time
last_time x [] = x
last_time x (y ∷ ys) = last_time y ys

has_settled : Time → List Time → Bool
unfolding last_time
has_settled now [] = false
has_settled now (x ∷ xs) = leb_ℤ settle_after (since now (last_time x xs))

-- The loop that drops the oldest changes while they are outside the window.
pub recent : Time → List Time → List Time
recent now [] = []
recent now (x ∷ xs) =
    let rest = recent now xs in if older_than now x flap_window then rest else x ∷ xs

settled_event : Decision → Event
unfolding state_word
settled_event d = record {
  kind = "settled";
  check = d.check;
  target = d.target;
  detail =
      cat
        (d.check ∷ " on " ∷ d.target ∷ " settled: " ∷ state_word d.state ∷ ", after flapping" ∷ []);
  critical = false;
}

flapping_event : Decision → ℕ → Event
flapping_event d changes = record {
  kind = "flapping";
  check = d.check;
  target = d.target;
  detail = cat (
      d.check
      ∷ " on "
      ∷ d.target
      ∷ " is flapping: "
      ∷ decimal changes
      ∷ " state changes in 10m0s, holding pages until it settles"
      ∷ []);
  critical = false;
}

module _ (hash : String → ℕ) where
  -- The winner of the election sends, every other lantern keeps quiet.
  abbrev pub if_elected : Tracker → List String → Decision → Event → List Event
  if_elected t alive d e = if elect hash (subject_of d) alive == t.self then e ∷ [] else []

  -- The branch `cur == prev`.
  unfoldable pub unchanged : List String → Time → Decision → String → Tracker → Step
  unfolding has_settled settled_event
  unchanged alive now d prev t =
      let s = subject_of d in
      let calm = record t {
        flapping = delete s t.flapping;
        transitions = delete s t.transitions;
      } in
      let taken = record t { elected = insert s (elect hash s alive) t.elected } in
      if is_flapping t s
      then (if has_settled now (history t s)
          then (calm, if_elected t alive d (settled_event d))
          else (t, []))
      else if d.state != state_up && not (contains alive (get_or (lookup s t.elected) ""))
      then (taken, if_elected t alive d (event d (kind_for prev d.state)))
      else (t, [])

  -- The branch of a transition.
  unfoldable pub changed : List String → Time → Decision → String → Tracker → Step
  unfolding recent flapping_event
  changed alive now d prev t =
      let s = subject_of d in
      let hist = recent now (history t s ++ now ∷ []) in
      let noted = record t {
        state = insert s d.state t.state;
        transitions = insert s hist t.transitions;
      } in
      let winner = elect hash s alive in
      let damped = record noted {
        flapping = insert s true t.flapping;
        elected = insert s winner t.elected;
      } in
      let told = record noted {
        elected = (if d.state == state_up then delete s t.elected else insert s winner t.elected);
      } in
      if is_flapping t s
      then (noted, [])
      else if leb flap_count (length hist)
      then (damped, if_elected t alive d (flapping_event d (length hist)))
      else (told, if_elected t alive d (event d (kind_for prev d.state)))

  unfoldable pub speak : List String → Time → Decision → String → Tracker × Bool → Step
  speak alive now d prev (t, true) = (t, [])
  speak alive now d prev (t, false) =
      if d.state == prev then unchanged alive now d prev t else changed alive now d prev t

  -- The body of the loop over the decisions.
  unfoldable pub observe_one : List String → Time → Decision → Tracker → Step
  observe_one alive now d t =
      let s = subject_of d in
      let prev = known_state t s in
      let said = speak alive now d prev (hold s prev d.state now t) in
      if eqb d.voters 0 then (t, []) else said

  unfoldable pub observe_all : List String → Time → List Decision → Tracker → Step
  observe_all alive now [] t = (t, [])
  observe_all alive now (d ∷ ds) t =
      let (t', sent) = observe_one alive now d t in
      let (t'', rest) = observe_all alive now ds t' in (t'', sent ++ rest)

-- `t.lastSeen[d.Check+" "+d.Target] = now` for each decision.
touch : Time → List Decision → Dict Time → Dict Time
touch now [] m = m
touch now (d ∷ ds) m = touch now ds (insert (subject_of d) now m)

-- A subject with a state and no entry gets one.
adopt : Time → Dict String → Dict Time → Dict Time
adopt now [] m = m
adopt now ((s, st) ∷ rest) m = adopt now rest (if is_some (lookup s m) then m else insert s now m)

drop_subject : String → Tracker → Tracker
drop_subject s t = record t {
  state = delete s t.state;
  elected = delete s t.elected;
  transitions = delete s t.transitions;
  flapping = delete s t.flapping;
  last_seen = delete s t.last_seen;
  down_since = delete s t.down_since;
}

drop_subjects : List String → Tracker → Tracker
unfolding drop_subject
drop_subjects [] t = t
drop_subjects (s ∷ ss) t = drop_subjects ss (drop_subject s t)

-- What `Observe` does before its loop, once the warmup is over.
unfoldable pub tidy : Time → List Decision → Tracker → Tracker
unfolding touch adopt drop_subjects
tidy now ds t =
    let seen = adopt now t.state (touch now ds t.last_seen) in
    let gone = keys_where (λ at. older_than now at forget_after) seen in
    drop_subjects gone (record t { last_seen = seen })

abbrev started : Time → Tracker → Tracker
started now t = record t { start = (if eqb t.start 0 then now else t.start) }

unfoldable pub observe : (String → ℕ) → List Decision → List String → Time → Tracker → Step
unfolding tidy observe_all
observe hash ds alive now t =
    let t' = started now t in
    let done = observe_all hash alive now ds (tidy now ds t') in
    if ltb_ℤ (since now t'.start) t'.warmup then (t', []) else done
