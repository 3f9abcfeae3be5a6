-- ===== src/Notify/Tracker/Once.antt =====
-- `Observe` of internal/notify/notify.go on several lanterns that see the same decisions.
use photinus.Prelude.{
  ℕ, ◌≤◌, ◌≡◌, refl, ◌∙◌, ap, ◌≢◌, String, Bool, true, false, List, [], ◌∷◌, arith, eq_iff, Time,
  ◌==◌, length, count, Distinct, eqb, if◌then◌else◌, keys_where, older_than,
}
use photinus.Quorum.{Decision}
use photinus.Notify.Event.{Event}
use photinus.Notify.Elect.{elect, Named, elect_exactly_one}
use photinus.Notify.Tracker.{
  Tracker, hold, speak, changed, unchanged, observe_one, observe_all, observe, tidy, subject_of,
  known_state, drop_subject, drop_subjects, adopt, touch, forget_after,
}

-- The same memory in another lantern's process.
abbrev pub as_self : String → Tracker → Tracker
as_self id t = record t { self = id }

-- What a lantern says if it is the winner.
abbrev pub only_for : Bool → List Event → List Event
only_for elected es = if elected then es else []

hold-as_self :
    (id s prev cur : String) (now : Time) (t : Tracker)
    → hold s prev cur now (as_self id t)
      ≡ (as_self id (hold s prev cur now t).0, (hold s prev cur now t).1)
unfolding hold
hold-as_self id s prev cur now t = ground arith

module _ (hash : String → ℕ) (alive : List String) (now : Time) (d : Decision) where
  abbrev winner : String
  winner = elect hash (subject_of d) alive

  unchanged-as_self :
      (id prev : String) (t : Tracker)
      → ((unchanged hash alive now d prev (as_self id t)).0
          ≡ as_self id (unchanged hash alive now d prev t).0)
        × ((unchanged hash alive now d prev (as_self id t)).1
            ≡ only_for (winner == id) (unchanged hash alive now d prev (as_self winner t)).1)
  unfolding unchanged
  unchanged-as_self id prev t = ground (arith, eq_iff winner winner)

  changed-as_self :
      (id prev : String) (t : Tracker)
      → ((changed hash alive now d prev (as_self id t)).0
          ≡ as_self id (changed hash alive now d prev t).0)
        × ((changed hash alive now d prev (as_self id t)).1
            ≡ only_for (winner == id) (changed hash alive now d prev (as_self winner t)).1)
  unfolding changed
  changed-as_self id prev t = ground (arith, eq_iff winner winner)

  speak-as_self :
      (id prev : String) (t : Tracker) (held : Bool)
      → ((speak hash alive now d prev (as_self id t, held)).0
          ≡ as_self id (speak hash alive now d prev (t, held)).0)
        × ((speak hash alive now d prev (as_self id t, held)).1
            ≡ only_for (winner == id) (speak hash alive now d prev (as_self winner t, held)).1)
  unfolding speak
  speak-as_self id prev t true = (refl, ground arith)
  speak-as_self id prev t false =
      ground (arith, unchanged-as_self id prev t, changed-as_self id prev t)

  -- What one lantern keeps and sends for one decision, by what the elected one would.
  observe_one-as_self :
      (id : String) (t : Tracker)
      → ((observe_one hash alive now d (as_self id t)).0
          ≡ as_self id (observe_one hash alive now d t).0)
        × ((observe_one hash alive now d (as_self id t)).1
            ≡ only_for (winner == id) (observe_one hash alive now d (as_self winner t)).1)
  unfolding observe_one
  observe_one-as_self id t =
      let s = subject_of d in
      let prev = known_state t s in
      let (t', held) = hold s prev d.state now t in
      ground (
        arith,
        hold-as_self id s prev d.state now t,
        hold-as_self winner s prev d.state now t,
        speak-as_self id prev t' held,
      )

  speak-length : (prev : String) (r : Tracker × Bool) → length (speak hash alive now d prev r).1 ≤ 1
  unfolding speak changed unchanged
  speak-length prev (t, true) = omega arith
  speak-length prev (t, false) = ground arith

  observe_one-length : (t : Tracker) → length (observe_one hash alive now d t).1 ≤ 1
  unfolding observe_one
  observe_one-length t = ground (
    arith,
    speak-length (known_state t (subject_of d))
        (hold (subject_of d) (known_state t (subject_of d)) d.state now t),
  )

  -- Exactly one page. Where all lanterns hold one memory and agree on who is alive, a decision makes
  -- the elected lantern send what it sends (at most one event) and every other lantern send nothing,
  -- and exactly one of the living is elected.
  pub page_exactly_once :
      (t : Tracker) (id : String)
      → Named alive
      → Distinct alive
      → alive ≢ []
      → ((observe_one hash alive now d (as_self id t)).1
          ≡ only_for (winner == id) (observe_one hash alive now d (as_self winner t)).1)
        × (length (observe_one hash alive now d (as_self winner t)).1 ≤ 1)
        × (count (λ id. id == winner) alive ≡ 1)
  page_exactly_once t id n u h = (
    (observe_one-as_self id t).1,
    observe_one-length (as_self winner t),
    elect_exactly_one hash (subject_of d) alive n u h,
  )

drop_subjects-as_self :
    (id : String) (ss : List String) (t : Tracker)
    → drop_subjects ss (as_self id t) ≡ as_self id (drop_subjects ss t)
unfolding drop_subjects drop_subject
drop_subjects-as_self id [] t = refl
drop_subjects-as_self id (s ∷ ss) t = drop_subjects-as_self id ss (drop_subject s t)

tidy-as_self :
    (id : String) (now : Time) (ds : List Decision) (t : Tracker)
    → tidy now ds (as_self id t) ≡ as_self id (tidy now ds t)
unfolding tidy
tidy-as_self id now ds t =
    let seen = adopt now t.state (touch now ds t.last_seen) in
    drop_subjects-as_self id (keys_where (λ at. older_than now at forget_after) seen)
      (record t { last_seen = seen })

-- One call of `Observe`, as all lanterns see it.
pub record Flash : Type 0 where
  pub decisions : List Decision
  pub alive : List String
  pub at : Time

-- A run of `Observe` calls, and the memory that it leaves.
unfoldable pub remember : (String → ℕ) → List Flash → Tracker → Tracker
remember hash [] t = t
remember hash (f ∷ fs) t = remember hash fs (observe hash f.decisions f.alive f.at t).0

module _ (hash : String → ℕ) (id : String) where
  observe_all-as_self :
      (alive : List String) (now : Time) (ds : List Decision) (t : Tracker)
      → (observe_all hash alive now ds (as_self id t)).0
        ≡ as_self id (observe_all hash alive now ds t).0
  unfolding observe_all
  observe_all-as_self alive now [] t = refl
  observe_all-as_self alive now (d ∷ ds) t =
      let next = (observe_one-as_self hash alive now d id t).0 in
      ap (λ u. (observe_all hash alive now ds u).0) next
      ∙ observe_all-as_self alive now ds (observe_one hash alive now d t).0

  observe-as_self :
      (alive : List String) (now : Time) (ds : List Decision) (t : Tracker)
      → (observe hash ds alive now (as_self id t)).0 ≡ as_self id (observe hash ds alive now t).0
  unfolding observe
  observe-as_self alive now ds t =
      let t' = record t { start = (if eqb t.start 0 then now else t.start) } in
      ground (arith, tidy-as_self id now ds t', observe_all-as_self alive now ds (tidy now ds t'))

  -- The lanterns' memories never part: after any run of the same decisions the trackers of any two
  -- lanterns differ in nothing but whose they are, whoever was elected on the way.
  pub remember-as_self :
      (flashes : List Flash) (t : Tracker)
      → remember hash flashes (as_self id t) ≡ as_self id (remember hash flashes t)
  unfolding remember
  remember-as_self [] t = refl
  remember-as_self (f ∷ fs) t =
      ap (remember hash fs) (observe-as_self f.alive f.at f.decisions t)
      ∙ remember-as_self fs (observe hash f.decisions f.alive f.at t).0
