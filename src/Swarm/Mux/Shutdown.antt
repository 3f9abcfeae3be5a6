-- ===== src/Swarm/Mux/Shutdown.antt =====
-- `Shutdown` of the transport comes to its end from every state, and leaves no connection behind.
use photinus.Prelude.{◌≡◌, refl, Bool, true, false, ◌&&◌, Option, none, some, List, [], ◌∷◌}
use photinus.Swarm.Mux.{
  Conn, Phase, serving, draining, down, stopped, shut, Mux, Side, unread, to_http, to_gossip,
  side_of, MuxEvent, route, inner_down, close_stop, close_http, shut_down, give_up, refuse, taken,
  is_shut, route_step, step, steps, Reached,
}
use photinus.Swarm.Mux.Calm.{IsCalm, reached-IsCalm}

-- How a goroutine ends after the shutdown.
drop : Side → MuxEvent
drop unread = give_up 0
drop to_http = refuse 0
drop to_gossip = refuse 0

drain : Bool → List Conn → List MuxEvent
drain http [] = []
drain http (c ∷ cs) = drop (side_of http c) ∷ drain http cs

-- The listener's goroutine has handed over what it accepted; memberlist's transport may be down.
from_down : Mux → List Conn → List MuxEvent
from_down m waiting = close_stop ∷ close_http ∷ drain m.http waiting

from_draining : Mux → Option Conn → List MuxEvent
from_draining m none = inner_down ∷ from_down m m.pending
from_draining m (some c) = route ∷ inner_down ∷ from_down m (c ∷ m.pending)

rest_of : Mux → Phase → List MuxEvent
rest_of m serving = shut_down ∷ from_draining m m.handing
rest_of m draining = from_draining m m.handing
rest_of m down = from_down m m.pending
rest_of m stopped = close_http ∷ drain m.http m.pending
rest_of m shut = drain m.http m.pending

-- The calls that are left of `Shutdown`, and the ends of the goroutines.
unfoldable pub finish : Mux → List MuxEvent
unfolding rest_of from_down from_draining drain drop
finish m = rest_of m m.phase

all_gone : Option Conn → List Conn → Bool
all_gone none [] = true
all_gone none (c ∷ cs) = false
all_gone (some c) cs = false

-- The transport is shut and holds no connection.
unfoldable pub is_over : Option Mux → Bool
unfolding all_gone
is_over none = false
is_over (some m) = is_shut m.phase && all_gone m.handing m.pending

abbrev at_phase : Mux → Phase → Option Conn → List Conn → Mux
at_phase m q busy waiting = record m { phase = q; handing = busy; pending = waiting }

-- After the shutdown, any goroutine ends.
step-drop :
    (m : Mux) (c : Conn) (cs : List Conn) (s : Side)
    → side_of m.http c ≡ s
    → step (at_phase m shut none (c ∷ cs)) (drop s)
      ≡ some (at_phase (record m { closed = c ∷ m.closed }) shut none cs)
unfolding step drop taken
step-drop m c cs unread e = rw e refl
step-drop m c cs to_http e = rw e refl
step-drop m c cs to_gossip e = rw e refl

steps-some :
    (m n : Mux) (e : MuxEvent) (es : List MuxEvent)
    → step m e ≡ some n
    → steps m (e ∷ es) ≡ steps n es
unfolding steps
steps-some m n e es h = rw (steps, h) refl

drained :
    (m : Mux) (cs : List Conn) → is_over (steps (at_phase m shut none cs) (drain m.http cs)) ≡ true
unfolding is_over steps drain all_gone
drained m [] = refl
drained m (c ∷ cs) =
    rw
      (steps-some _ _ (drop (side_of m.http c)) (drain m.http cs)
        (step-drop m c cs (side_of m.http c) refl))
      (drained (record m { closed = c ∷ m.closed }) cs)

from_down-ends :
    (m : Mux) (cs : List Conn) → is_over (steps (at_phase m down none cs) (from_down m cs)) ≡ true
unfolding steps step from_down
from_down-ends m cs = drained m cs

from_draining-ends :
    (m : Mux) (o : Option Conn) (q : Phase)
    → is_over (steps (at_phase m draining o m.pending) (from_draining m o)) ≡ true
unfolding steps step from_draining route_step
from_draining-ends m none q = from_down-ends m m.pending
from_draining-ends m (some c) q = from_down-ends m (c ∷ m.pending)

over :
    (m : Mux) (q : Phase) (o : Option Conn)
    → IsCalm q o
    → is_over (steps (at_phase m q o m.pending) (rest_of (at_phase m q o m.pending) q)) ≡ true
unfolding rest_of steps step from_draining from_down
over m serving o still = from_draining-ends m o draining
over m draining o still = from_draining-ends m o draining
over m down o still = rw still (from_down-ends m m.pending)
over m stopped o still = rw still (drained m m.pending)
over m shut o still = rw still (drained m m.pending)

-- From every state that the transport comes to, with `Shutdown` called or not, the calls that are left of
-- it can be made in their order, none of them blocked for good, and every goroutine can then end: the
-- transport is shut and holds no connection.
pub shutdown_completes :
    (http : Bool) (m : Mux) → Reached http m → is_over (steps m (finish m)) ≡ true
unfolding finish
shutdown_completes http m r = over m m.phase m.handing (reached-IsCalm http m r)
