-- ===== src/Notify/Tracker/Rules.antt =====
-- What one decision makes `Observe` of internal/notify/notify.go say and keep.
use photinus.Prelude.{
  ℕ, ◌<◌, ◌≡◌, refl, ◌≢◌, String, Bool, true, false, List, [], ◌∷◌, ◌++◌, arith, eq_iff, Time, ◌==◌,
  lookup, lookup-insert, length, eqb, leb, ltb_ℤ, since, pos, get_or, if◌then◌else◌, All, When,
  When_intro,
}
use photinus.Quorum.{Decision, state_warn, state_down}
use photinus.Notify.Event.{Event, event, kind_for, kind_for_means}
use photinus.Notify.Elect.{elect}
use photinus.Notify.Tracker.{
  Tracker, hold, speak, changed, unchanged, observe_one, subject_of, known_state, is_flapping,
  history, recent, flap_count, settled_event, flapping_event,
}

-- When the down that the tracker is waiting on began.
abbrev pub began : Tracker → String → Time → Time
began t s now = let b = get_or (lookup s t.down_since) 0 in if eqb b 0 then now else b

module _ (hash : String → ℕ) (alive : List String) (now : Time) (d : Decision) (t : Tracker) where
  abbrev s : String
  s = subject_of d

  abbrev prev : String
  prev = known_state t s

  abbrev next : Tracker
  next = (observe_one hash alive now d t).0

  abbrev sent : List Event
  sent = (observe_one hash alive now d t).1

  -- A new down that has not lasted the alert delay sends nothing and changes no known state; the
  -- tracker remembers when it began.
  pub down_is_held :
      (d.voters ≢ 0)
      → d.state ≡ state_down
      → prev ≢ state_down
      → ltb_ℤ (pos 0) t.hold_down ≡ true
      → ltb_ℤ (since now (began t s now)) t.hold_down ≡ true
      → 0 < now
      → (sent ≡ []) × (next.state ≡ t.state) × (began next s now ≡ began t s now)
  unfolding observe_one hold speak
  down_is_held v e p h w z = ground (
    arith,
    eq_iff d.state state_down,
    eq_iff prev state_down,
    lookup-insert s s now t.down_since,
    eq_iff s s,
  )

  -- A subject that is damped says nothing when its state changes.
  pub flapping_is_silent :
      is_flapping t s ≡ true → d.state ≢ prev → (sent ≡ []) × (is_flapping next s ≡ true)
  unfolding observe_one hold speak changed
  flapping_is_silent f c = ground (arith, eq_iff d.state prev)

  -- A decision about a subject nobody has a live word on changes nothing and says nothing.
  pub unknown_holds : d.voters ≡ 0 → observe_one hash alive now d t ≡ (t, [])
  unfolding observe_one
  unknown_holds v = ground arith

  -- A decision that is not held back sets the known state.
  pub state_follows :
      (d.voters ≢ 0) → (hold s prev d.state now t).1 ≡ false → known_state next s ≡ d.state
  unfolding observe_one hold speak changed unchanged
  state_follows v h =
      ground (arith, eq_iff d.state prev, eq_iff s s, lookup-insert s s d.state t.state)

  -- The change that makes four in the window starts the damping; with fewer the subject stays free.
  pub fourth_change_damps :
      (d.voters ≢ 0)
      → d.state ≢ prev
      → (hold s prev d.state now t).1 ≡ false
      → is_flapping t s ≡ false
      → is_flapping next s ≡ leb flap_count (length (recent now (history t s ++ now ∷ [])))
  unfolding observe_one hold speak changed
  fourth_change_damps v c h f =
      ground (arith, eq_iff d.state prev, eq_iff s s, lookup-insert s s true t.flapping)

  -- Word of a recovery comes only after a known down, and word of a down only of a subject that is
  -- down.
  abbrev pub IsTrue : Event → Type 0
  IsTrue e =
      (e.check ≡ d.check)
      × (e.target ≡ d.target)
      × When (e.kind == "recovered") ((prev ≡ state_down) × (d.state ≢ state_down))
      × When (e.kind == "down") (d.state ≡ state_down)
      × When (e.kind == "warning") (d.state ≡ state_warn)

  event-IsTrue : IsTrue (event d (kind_for prev d.state))
  unfolding event
  event-IsTrue =
      let (r, w, v) = kind_for_means prev d.state in
      (refl, refl, When_intro _ r, When_intro _ w, When_intro _ v)

  settled_event-IsTrue : IsTrue (settled_event d)
  unfolding settled_event
  settled_event-IsTrue = ground arith

  flapping_event-IsTrue : (n : ℕ) → IsTrue (flapping_event d n)
  unfolding flapping_event
  flapping_event-IsTrue n = ground arith

  if-IsTrue : (b : Bool) (e : Event) → IsTrue e → All IsTrue (if b then e ∷ [] else [])
  if-IsTrue true e h = (h, tt)
  if-IsTrue false e h = tt

  unchanged-IsTrue : (u : Tracker) → All IsTrue (unchanged hash alive now d prev u).1
  unfolding unchanged
  unchanged-IsTrue u =
      let mine = elect hash s alive == u.self in
      ground (
        arith,
        if-IsTrue mine (settled_event d) settled_event-IsTrue,
        if-IsTrue mine (event d (kind_for prev d.state)) event-IsTrue,
      )

  changed-IsTrue : (u : Tracker) → All IsTrue (changed hash alive now d prev u).1
  unfolding changed
  changed-IsTrue u =
      let mine = elect hash s alive == u.self in
      let n = length (recent now (history u s ++ now ∷ [])) in
      ground (
        arith,
        if-IsTrue mine (flapping_event d n) (flapping_event-IsTrue n),
        if-IsTrue mine (event d (kind_for prev d.state)) event-IsTrue,
      )

  speak-IsTrue : (r : Tracker × Bool) → All IsTrue (speak hash alive now d prev r).1
  unfolding speak
  speak-IsTrue (u, true) = tt
  speak-IsTrue (u, false) = ground (arith, unchanged-IsTrue u, changed-IsTrue u)

  -- Every event is about the decision's subject, and its kind is true: "recovered" comes only after a
  -- known down and of a subject that is down no more, "down" only of one that is down, and "warning"
  -- only of one that warns.
  pub events_are-IsTrue : All IsTrue sent
  unfolding observe_one
  events_are-IsTrue = ground (arith, speak-IsTrue (hold s prev d.state now t))
