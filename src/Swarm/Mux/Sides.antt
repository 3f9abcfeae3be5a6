-- ===== src/Swarm/Mux/Sides.antt =====
-- No protocol meets the other's consumer, and no connection is lost or handed over twice.
use photinus.Prelude.{
  ℕ, zero, suc, ◌+◌, ◌<◌, ◌≡◌, ◌∙◌, refl, ap, arith, inl, inr, Bool, true, false, Bool-cases,
  Option, none, some, List, [], ◌∷◌, All, count, if◌then◌else◌,
}
use Prim.Native.Char.{code}
use Prim.Native.String.{String}
use photinus.Swarm.Mux.{
  Conn, Phase, serving, draining, down, stopped, shut, Mux, is_http_start, Side, unread, to_http,
  to_gossip, side_of, side_at, MuxEvent, dial, route, inner_down, close_stop, close_http, shut_down,
  give_up, hand_over, refuse, taken, is_routing, is_shut, route_step, give_up_step, hand_over_step,
  refuse_step, classified, dial_step, inner_step, shut_down_step, stop_step, close_step, step,
  Reached, started, went,
}

-- Every connection that a consumer has is on its side.
abbrev pub IsSorted : Mux → Type 0
IsSorted m =
    All (λ c. side_of m.http c ≡ to_http) m.served
    × All (λ c. side_of m.http c ≡ to_gossip) m.gossip

-- How many of the connections pass a test, wherever they are.
abbrev pub held : (Conn → Bool) → Option Conn → ℕ
held p none = 0
held p (some c) = count p (c ∷ [])

unfoldable pub places : (Conn → Bool) → Mux → ℕ
places p m =
    held p m.handing + count p m.pending + count p m.gossip + count p m.served + count p m.closed

-- Those that an event brings.
abbrev pub brought : (Conn → Bool) → MuxEvent → ℕ
brought p (dial c) = count p (c ∷ [])
brought p route = 0
brought p inner_down = 0
brought p close_stop = 0
brought p close_http = 0
brought p shut_down = 0
brought p (give_up n) = 0
brought p (hand_over n) = 0
brought p (refuse n) = 0

Counted : (Conn → Bool) → List Conn → Option (Conn × List Conn) → Type 0
Counted p cs none = Unit
Counted p cs (some (c, rest)) = count p cs ≡ count p (c ∷ rest)

taken-Counted : (p : Conn → Bool) (n : ℕ) (cs : List Conn) → Counted p cs (taken n cs)
unfolding Counted taken count
taken-Counted p n [] = tt
taken-Counted p zero (c ∷ cs) = refl
taken-Counted p (suc n) (c ∷ cs) = later (taken n cs) (taken-Counted p n cs)
  where
    later :
        (o : Option (Conn × List Conn))
        → Counted p cs o
        → Counted p (c ∷ cs) (elim o [ none ↦ none | some (d, rest) ↦ some (d, c ∷ rest) ])
    later none h = tt
    later (some (d, rest)) h = omega (arith, h)

module _ (m : Mux) (sorted : IsSorted m) (p : Conn → Bool) where
  Good : ℕ → Option Mux → Type 0
  Good extra none = Unit
  Good extra (some n) = (n.http ≡ m.http) × IsSorted n × (places p n ≡ places p m + extra)

  route_step-Good : (o : Option Conn) → m.handing ≡ o → Good 0 (route_step m o)
  unfolding route_step Good places count
  route_step-Good none e = tt
  route_step-Good (some c) e = elim (Bool-cases (is_routing m.phase)) [
    | inl y ↦ rw y (refl, sorted, omega (arith, ap (held p) e))
    | inr n ↦ rw n tt
  ]

  give_up-Good :
      (c : Conn) (rest : List Conn) (s : Side)
      → count p m.pending ≡ count p (c ∷ rest)
      → Good 0 (give_up_step m (c, rest) s)
  unfolding give_up_step Good places count
  give_up-Good c rest unread h = (refl, sorted, omega (arith, h))
  give_up-Good c rest to_http h = tt
  give_up-Good c rest to_gossip h = tt

  hand_over-Good :
      (c : Conn) (rest : List Conn) (s : Side)
      → side_of m.http c ≡ s
      → count p m.pending ≡ count p (c ∷ rest)
      → Good 0 (hand_over_step m (c, rest) s)
  unfolding hand_over_step Good places count
  hand_over-Good c rest unread e h = tt
  hand_over-Good c rest to_http e h = (refl, ((e, sorted.0), sorted.1), omega (arith, h))
  hand_over-Good c rest to_gossip e h = (refl, (sorted.0, (e, sorted.1)), omega (arith, h))

  refuse-Good :
      (c : Conn) (rest : List Conn) (s : Side)
      → count p m.pending ≡ count p (c ∷ rest)
      → Good 0 (refuse_step m (c, rest) s)
  unfolding refuse_step Good places count
  refuse-Good c rest unread h = tt
  refuse-Good c rest to_http h = elim (Bool-cases (is_shut m.phase)) [
    | inl y ↦ rw y (refl, sorted, omega (arith, h))
    | inr n ↦ rw n tt
  ]
  refuse-Good c rest to_gossip h = elim (Bool-cases (is_routing m.phase)) [
    | inl y ↦ rw y tt
    | inr n ↦ rw n (refl, sorted, omega (arith, h))
  ]

  classified-Good :
      (f : Mux → Conn × List Conn → Side → Option Mux)
      → ((c : Conn) (rest : List Conn)
          → count p m.pending ≡ count p (c ∷ rest)
          → Good 0 (f m (c, rest) (side_of m.http c)))
      → (o : Option (Conn × List Conn)) → Counted p m.pending o
      → Good 0 (classified f m o)
  unfolding classified Good Counted
  classified-Good f good none h = tt
  classified-Good f good (some (c, rest)) h = good c rest h

  dial-Good :
      (c : Conn) (q : Phase) (o : Option Conn)
      → m.handing ≡ o
      → Good (count p (c ∷ [])) (dial_step c m q o)
  unfolding dial_step Good places
  dial-Good c serving none e = (refl, sorted, omega (arith, ap (held p) e))
  dial-Good c serving (some d) e = tt
  dial-Good c draining o e = tt
  dial-Good c down o e = tt
  dial-Good c stopped o e = tt
  dial-Good c shut o e = tt

  inner-Good : (q : Phase) (o : Option Conn) → Good 0 (inner_step m q o)
  unfolding inner_step Good places
  inner-Good draining none = (refl, sorted, omega arith)
  inner-Good draining (some c) = tt
  inner-Good serving o = tt
  inner-Good down o = tt
  inner-Good stopped o = tt
  inner-Good shut o = tt

  shut_down-Good : (q : Phase) → Good 0 (shut_down_step m q)
  unfolding shut_down_step Good places
  shut_down-Good serving = (refl, sorted, omega arith)
  shut_down-Good draining = tt
  shut_down-Good down = tt
  shut_down-Good stopped = tt
  shut_down-Good shut = tt

  stop-Good : (q : Phase) → Good 0 (stop_step m q)
  unfolding stop_step Good places
  stop-Good down = (refl, sorted, omega arith)
  stop-Good serving = tt
  stop-Good draining = tt
  stop-Good stopped = tt
  stop-Good shut = tt

  close-Good : (q : Phase) → Good 0 (close_step m q)
  unfolding close_step Good places
  close-Good stopped = (refl, sorted, omega arith)
  close-Good serving = tt
  close-Good draining = tt
  close-Good down = tt
  close-Good shut = tt

  step-Good : (e : MuxEvent) → Good (brought p e) (step m e)
  unfolding step
  step-Good (dial c) = dial-Good c m.phase m.handing refl
  step-Good route = route_step-Good m.handing refl
  step-Good inner_down = inner-Good m.phase m.handing
  step-Good close_stop = stop-Good m.phase
  step-Good close_http = close-Good m.phase
  step-Good shut_down = shut_down-Good m.phase
  step-Good (give_up n) =
      classified-Good give_up_step (λ c rest. give_up-Good c rest _) (taken n m.pending)
        (taken-Counted p n m.pending)
  step-Good (hand_over n) =
      classified-Good hand_over_step (λ c rest. hand_over-Good c rest _ refl) (taken n m.pending)
        (taken-Counted p n m.pending)
  step-Good (refuse n) =
      classified-Good refuse_step (λ c rest. refuse-Good c rest _) (taken n m.pending)
        (taken-Counted p n m.pending)

  step-some : (e : MuxEvent) (n : Mux) → step m e ≡ some n → Good (brought p e) (some n)
  step-some e n h = rw (← h) (step-Good e)

reached-IsSorted : (http : Bool) (m : Mux) → Reached http m → (m.http ≡ http) × IsSorted m
unfolding Good
reached-IsSorted http m started = (refl, (tt, tt))
reached-IsSorted http m (went before after e r h) =
    let (same, sorted) = reached-IsSorted http before r in
    let good = step-some before sorted (λ c. true) e m h in (good.0 ∙ same, good.1)

pub consumers_meet_their_own : (http : Bool) (m : Mux) → Reached http m → IsSorted m
consumers_meet_their_own http m r = (reached-IsSorted http m r).1

-- No step of a transport loses a connection or hands it over twice: whichever connections are counted,
-- as many are held, handed over or closed after the step as before, and one that is dialled.
pub nothing_is_lost :
    (http : Bool) (m n : Mux) (e : MuxEvent) (p : Conn → Bool)
    → Reached http m
    → step m e ≡ some n
    → places p n ≡ places p m + brought p e
unfolding Good
nothing_is_lost http m n e p r h = (step-some m (consumers_meet_their_own http m r) p e n h).2

-- The methods that `isHTTPStart` names, and the first byte of a text.
abbrev pub methods : List String
methods =
    "GET" ∷ "PUT" ∷ "POST" ∷ "HEAD" ∷ "PATCH" ∷ "DELETE" ∷ "OPTIONS" ∷ "CONNECT" ∷ "TRACE" ∷ []

abbrev pub starts : String → Option ℕ
starts String.[] = none
starts (String.◌∷◌ c s) = some (code c)

-- A first byte below 0x20, as memberlist's message types are, always goes to memberlist; the first byte
-- of every HTTP method goes to the HTTP server, where there is one.
pub first_bytes_tell :
    (http : Bool) (b : ℕ)
    → b < 32
    → (side_at http (some b) ≡ to_gossip)
      × All (λ m. side_at http (starts m) ≡ (if http then to_http else to_gossip)) methods
unfolding is_http_start
first_bytes_tell http b h = (low http b h, letters http)
  where
    low : (http : Bool) (b : ℕ) → b < 32 → side_at http (some b) ≡ to_gossip
    low http b h = ground arith

    letters :
        (http : Bool)
        → All (λ m. side_at http (starts m) ≡ (if http then to_http else to_gossip)) methods
    letters true = (refl, (refl, (refl, (refl, (refl, (refl, (refl, (refl, (refl, tt)))))))))
    letters false = (refl, (refl, (refl, (refl, (refl, (refl, (refl, (refl, (refl, tt)))))))))
