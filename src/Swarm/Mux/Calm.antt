-- ===== src/Swarm/Mux/Calm.antt =====
-- Once memberlist's transport is down, its listener holds no connection.
use photinus.Prelude.{◌≡◌, refl, inl, inr, Bool-cases, Bool, Option, none, some, List}
use photinus.Swarm.Mux.{
  Conn, Phase, serving, draining, down, stopped, shut, Mux, Side, unread, to_http, to_gossip,
  MuxEvent, dial, route, inner_down, close_stop, close_http, shut_down, give_up, hand_over, refuse,
  taken, is_routing, is_shut, route_step, give_up_step, hand_over_step, refuse_step, classified,
  dial_step, inner_step, shut_down_step, stop_step, close_step, step, Reached, started, went,
}

-- The goroutine is idle once memberlist's transport is down.
abbrev pub IsCalm : Phase → Option Conn → Type 0
IsCalm serving busy = Unit
IsCalm draining busy = Unit
IsCalm down busy = busy ≡ none
IsCalm stopped busy = busy ≡ none
IsCalm shut busy = busy ≡ none

CalmAfter : Option Mux → Type 0
CalmAfter none = Unit
CalmAfter (some n) = IsCalm n.phase n.handing

none-IsCalm : (q : Phase) → IsCalm q none
none-IsCalm serving = tt
none-IsCalm draining = tt
none-IsCalm down = refl
none-IsCalm stopped = refl
none-IsCalm shut = refl

module _ (m : Mux) (still : IsCalm m.phase m.handing) where
  still_at : (q : Phase) → m.phase ≡ q → IsCalm q m.handing
  still_at q e = rw (← e) still

  dial-Calm : (c : Conn) (q : Phase) (o : Option Conn) → m.phase ≡ q → CalmAfter (dial_step c m q o)
  unfolding dial_step CalmAfter
  dial-Calm c serving none e = rw e tt
  dial-Calm c serving (some d) e = tt
  dial-Calm c draining o e = tt
  dial-Calm c down o e = tt
  dial-Calm c stopped o e = tt
  dial-Calm c shut o e = tt

  route-Calm : (o : Option Conn) → CalmAfter (route_step m o)
  unfolding route_step CalmAfter
  route-Calm none = tt
  route-Calm (some c) = elim (Bool-cases (is_routing m.phase)) [
    | inl y ↦ rw y (none-IsCalm m.phase)
    | inr n ↦ rw n tt
  ]

  inner-Calm : (q : Phase) (o : Option Conn) → m.handing ≡ o → CalmAfter (inner_step m q o)
  unfolding inner_step CalmAfter
  inner-Calm draining none e = e
  inner-Calm draining (some c) e = tt
  inner-Calm serving o e = tt
  inner-Calm down o e = tt
  inner-Calm stopped o e = tt
  inner-Calm shut o e = tt

  shut_down-Calm : (q : Phase) → CalmAfter (shut_down_step m q)
  unfolding shut_down_step CalmAfter
  shut_down-Calm serving = tt
  shut_down-Calm draining = tt
  shut_down-Calm down = tt
  shut_down-Calm stopped = tt
  shut_down-Calm shut = tt

  stop-Calm : (q : Phase) → m.phase ≡ q → CalmAfter (stop_step m q)
  unfolding stop_step CalmAfter
  stop-Calm down e = still_at down e
  stop-Calm serving e = tt
  stop-Calm draining e = tt
  stop-Calm stopped e = tt
  stop-Calm shut e = tt

  close-Calm : (q : Phase) → m.phase ≡ q → CalmAfter (close_step m q)
  unfolding close_step CalmAfter
  close-Calm stopped e = still_at stopped e
  close-Calm serving e = tt
  close-Calm draining e = tt
  close-Calm down e = tt
  close-Calm shut e = tt

  give_up-Calm : (c : Conn × List Conn) (s : Side) → CalmAfter (give_up_step m c s)
  unfolding give_up_step CalmAfter
  give_up-Calm (c, rest) unread = still
  give_up-Calm (c, rest) to_http = tt
  give_up-Calm (c, rest) to_gossip = tt

  hand_over-Calm : (c : Conn × List Conn) (s : Side) → CalmAfter (hand_over_step m c s)
  unfolding hand_over_step CalmAfter
  hand_over-Calm (c, rest) unread = tt
  hand_over-Calm (c, rest) to_http = still
  hand_over-Calm (c, rest) to_gossip = still

  refuse-Calm : (c : Conn × List Conn) (s : Side) → CalmAfter (refuse_step m c s)
  unfolding refuse_step CalmAfter
  refuse-Calm (c, rest) unread = tt
  refuse-Calm (c, rest) to_http = elim (Bool-cases (is_shut m.phase)) [
    | inl y ↦ rw y still
    | inr n ↦ rw n tt
  ]
  refuse-Calm (c, rest) to_gossip = elim (Bool-cases (is_routing m.phase)) [
    | inl y ↦ rw y tt
    | inr n ↦ rw n still
  ]

  classified-Calm :
      (f : Mux → Conn × List Conn → Side → Option Mux)
      → ((c : Conn × List Conn) (s : Side) → CalmAfter (f m c s))
      → (o : Option (Conn × List Conn)) → CalmAfter (classified f m o)
  unfolding classified CalmAfter
  classified-Calm f keeps none = tt
  classified-Calm f keeps (some (c, rest)) = keeps (c, rest) _

  step-Calm : (e : MuxEvent) → CalmAfter (step m e)
  unfolding step
  step-Calm (dial c) = dial-Calm c m.phase m.handing refl
  step-Calm route = route-Calm m.handing
  step-Calm inner_down = inner-Calm m.phase m.handing refl
  step-Calm close_stop = stop-Calm m.phase refl
  step-Calm close_http = close-Calm m.phase refl
  step-Calm shut_down = shut_down-Calm m.phase
  step-Calm (give_up n) = classified-Calm give_up_step give_up-Calm (taken n m.pending)
  step-Calm (hand_over n) = classified-Calm hand_over_step hand_over-Calm (taken n m.pending)
  step-Calm (refuse n) = classified-Calm refuse_step refuse-Calm (taken n m.pending)

  step_to-Calm : (e : MuxEvent) (n : Mux) → step m e ≡ some n → CalmAfter (some n)
  step_to-Calm e n h = rw (← h) (step-Calm e)

pub reached-IsCalm : (http : Bool) (m : Mux) → Reached http m → IsCalm m.phase m.handing
unfolding CalmAfter
reached-IsCalm http m started = tt
reached-IsCalm http m (went before after e r h) =
    step_to-Calm before (reached-IsCalm http before r) e m h
