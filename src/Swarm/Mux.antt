-- ===== src/Swarm/Mux.antt =====
-- internal/swarm/mux.go: one port for gossip and HTTP. The goroutines of the transport, its listener
-- and its consumers are the steps of one state; a `select` is a choice of steps. memberlist's own
-- transport hands its connections over one at a time, and its Shutdown waits for that (`handing`).
pub mod Sides
pub mod Calm
pub mod Shutdown
use photinus.Prelude.{
  ℕ, zero, suc, Bool, true, false, not, ◌&&◌, ◌||◌, Option, none, some, List, [], ◌∷◌, ◌++◌, eqb,
  ◌≡◌, if◌then◌else◌,
}

-- A connection, by the bytes that its peer sends; none at all for one that is silent for 2 seconds.
pub record Conn : Type 0 where
  pub id : ℕ
  pub stream : List ℕ

-- How far `Shutdown` is: memberlist's transport is being shut down, is down, `stop` is closed, and the
-- HTTP listener too.
pub data Phase : Type 0 where
  serving draining down stopped shut : Phase

-- `http` tells whether there is an HTTP listener. A connection is in the hands of memberlist's
-- listener, of a `classify` goroutine, of memberlist, of the HTTP server, or closed.
pub record Mux : Type 0 where
  pub http : Bool
  pub phase : Phase
  pub handing : Option Conn
  pub pending : List Conn
  pub gossip : List Conn
  pub served : List Conn
  pub closed : List Conn

abbrev pub new_mux : Bool → Mux
new_mux http = record {
  http = http;
  phase = serving;
  handing = none;
  pending = [];
  gossip = [];
  served = [];
  closed = [];
}

-- `isHTTPStart`
unfoldable pub is_http_start : ℕ → Bool
is_http_start b =
    eqb b b'G' || eqb b b'P' || eqb b b'H' || eqb b b'D' || eqb b b'O' || eqb b b'C' || eqb b b'T'

-- What `Peek(1)` sees, if it sees anything.
abbrev pub first_byte : Conn → Option ℕ
first_byte c = peek c.stream
  where
    peek : List ℕ → Option ℕ
    peek [] = none
    peek (b ∷ bs) = some b

pub data Side : Type 0 where
  unread to_http to_gossip : Side

abbrev pub side_at : Bool → Option ℕ → Side
side_at http none = unread
side_at http (some b) = if is_http_start b && http then to_http else to_gossip

-- Where `classify` sends a connection.
abbrev pub side_of : Bool → Conn → Side
side_of http c = side_at http (first_byte c)

-- What can happen: a peer connects, `route` takes a connection, a `classify` goroutine (the one at a
-- place in the list) fails to read, hands over or gives up, and the calls of `Shutdown` in their order.
pub data MuxEvent : Type 0 where
  dial : Conn → MuxEvent
  route inner_down close_stop close_http shut_down : MuxEvent
  give_up hand_over refuse : ℕ → MuxEvent

-- The goroutine at a place, and the others.
unfoldable pub taken : ℕ → List Conn → Option (Conn × List Conn)
taken n [] = none
taken zero (c ∷ cs) = some (c, cs)
taken (suc n) (c ∷ cs) = elim (taken n cs) [ none ↦ none | some (d, rest) ↦ some (d, c ∷ rest) ]

-- `route` returns once `stop` is closed.
abbrev pub is_routing : Phase → Bool
is_routing serving = true
is_routing draining = true
is_routing down = true
is_routing stopped = false
is_routing shut = false

abbrev pub is_shut : Phase → Bool
is_shut serving = false
is_shut draining = false
is_shut down = false
is_shut stopped = false
is_shut shut = true

-- The connection is closed; the goroutine ends.
abbrev pub closes : Mux → Conn → List Conn → Mux
closes m c rest = record m { pending = rest; closed = c ∷ m.closed }

unfoldable pub route_step : Mux → Option Conn → Option Mux
route_step m none = none
route_step m (some c) =
    if is_routing m.phase then some (record m { handing = none; pending = c ∷ m.pending }) else none

give_up_step : Mux → Conn × List Conn → Side → Option Mux
give_up_step m (c, rest) unread = some (closes m c rest)
give_up_step m (c, rest) to_http = none
give_up_step m (c, rest) to_gossip = none

hand_over_step : Mux → Conn × List Conn → Side → Option Mux
hand_over_step m (c, rest) unread = none
hand_over_step m (c, rest) to_http = some (record m { pending = rest; served = c ∷ m.served })
hand_over_step m (c, rest) to_gossip = some (record m { pending = rest; gossip = c ∷ m.gossip })

-- `deliver` fails once the listener is done; the other branch waits for `stop`.
refuse_step : Mux → Conn × List Conn → Side → Option Mux
refuse_step m (c, rest) unread = none
refuse_step m (c, rest) to_http = if is_shut m.phase then some (closes m c rest) else none
refuse_step m (c, rest) to_gossip = if is_routing m.phase then none else some (closes m c rest)

classified :
    (Mux → Conn × List Conn → Side → Option Mux) → Mux → Option (Conn × List Conn) → Option Mux
classified f m none = none
classified f m (some (c, rest)) = f m (c, rest) (side_of m.http c)

dial_step : Conn → Mux → Phase → Option Conn → Option Mux
dial_step c m serving none = some (record m { handing = some c })
dial_step c m serving (some d) = none
dial_step c m draining busy = none
dial_step c m down busy = none
dial_step c m stopped busy = none
dial_step c m shut busy = none

-- `NetTransport.Shutdown` returns when its listener has handed over what it accepted.
inner_step : Mux → Phase → Option Conn → Option Mux
inner_step m draining none = some (record m { phase = down })
inner_step m draining (some c) = none
inner_step m serving busy = none
inner_step m down busy = none
inner_step m stopped busy = none
inner_step m shut busy = none

shut_down_step : Mux → Phase → Option Mux
shut_down_step m serving = some (record m { phase = draining })
shut_down_step m draining = none
shut_down_step m down = none
shut_down_step m stopped = none
shut_down_step m shut = none

stop_step : Mux → Phase → Option Mux
stop_step m down = some (record m { phase = stopped })
stop_step m serving = none
stop_step m draining = none
stop_step m stopped = none
stop_step m shut = none

close_step : Mux → Phase → Option Mux
close_step m stopped = some (record m { phase = shut })
close_step m serving = none
close_step m draining = none
close_step m down = none
close_step m shut = none

-- One step; none where it cannot happen.
unfoldable pub step : Mux → MuxEvent → Option Mux
unfolding give_up_step hand_over_step refuse_step classified dial_step inner_step shut_down_step
    stop_step close_step
step m (dial c) = dial_step c m m.phase m.handing
step m route = route_step m m.handing
step m (give_up n) = classified give_up_step m (taken n m.pending)
step m (hand_over n) = classified hand_over_step m (taken n m.pending)
step m (refuse n) = classified refuse_step m (taken n m.pending)
step m shut_down = shut_down_step m m.phase
step m inner_down = inner_step m m.phase m.handing
step m close_stop = stop_step m m.phase
step m close_http = close_step m m.phase

unfoldable pub steps : Mux → List MuxEvent → Option Mux
steps m [] = some m
steps m (e ∷ es) = elim (step m e) [ none ↦ none | some n ↦ steps n es ]

-- The states that a transport comes to.
pub data Reached (http : Bool) : Mux → Type 0 where
  started : Reached http (new_mux http)
  went : (m n : Mux) (e : MuxEvent) → Reached http m → step m e ≡ some n → Reached http n
