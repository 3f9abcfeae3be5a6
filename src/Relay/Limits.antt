-- ===== src/Relay/Limits.antt =====
-- The counters of cmd/relay/server.go and their limits.
use photinus.Prelude.{
  ℕ, ◌+◌, ◌≤◌, String, Bool, true, false, not, Option, none, some, List, [], ◌∷◌, arith, eq_iff,
  Time, Dict, lookup, insert, lookup-insert, length, ◌!=◌, if◌then◌else◌,
}
use photinus.Relay.{
  Request, Relay, new_server, renew, charge, allow, spent, per_ip_hourly, per_token_hourly,
  max_tracked, handle_request, handle_relay, validate, Call, serve_all,
}

length-insert : (k : String) (v : ℕ) (m : Dict ℕ) → length (insert k v m) ≤ length m + 1
unfolding insert
length-insert k v [] = omega arith
length-insert k v ((j, w) ∷ m) = ground (arith, length-insert k v m)

-- No client and no token is over its limit, and the memory is bounded.
pub record IsBounded (s : Relay) : Type 0 where
  pub ips : (k : String) → spent k s.by_ip ≤ per_ip_hourly
  pub tokens : (k : String) → spent k s.by_token ≤ per_token_hourly
  pub ip_room : length s.by_ip ≤ max_tracked + 1
  pub token_room : length s.by_token ≤ max_tracked + 1

pub new_server-IsBounded : (now : Time) → IsBounded (new_server now)
unfolding new_server lookup
new_server-IsBounded now = record {
  ips = λ k. omega arith;
  tokens = λ k. omega arith;
  ip_room = omega arith;
  token_room = omega arith;
}

abbrev HasRoom : Relay → Type 0
HasRoom s = (length s.by_ip ≤ max_tracked) × (length s.by_token ≤ max_tracked)

renew-IsBounded : (now : Time) (s : Relay) → IsBounded s → IsBounded (renew now s)
unfolding renew new_server lookup
renew-IsBounded now s b = record {
  ips = λ k. ground (arith, b.ips k);
  tokens = λ k. ground (arith, b.tokens k);
  ip_room = ground (arith, b.ip_room);
  token_room = ground (arith, b.token_room);
}

renew-HasRoom : (now : Time) (s : Relay) → HasRoom (renew now s)
unfolding renew new_server
renew-HasRoom now s = ground arith

charge-IsBounded :
    (ip token : String) (s : Relay) → HasRoom s → IsBounded s → IsBounded (charge ip token s).0
unfolding charge
charge-IsBounded ip token s r b = record {
  ips =
      λ k. ground (arith, b.ips k, lookup-insert ip k (spent ip s.by_ip + 1) s.by_ip, eq_iff ip k);
  tokens = λ k. ground (
    arith,
    b.tokens k,
    lookup-insert token k (spent token s.by_token + 1) s.by_token,
    eq_iff token k,
  );
  ip_room = ground (arith, r.0, length-insert ip (spent ip s.by_ip + 1) s.by_ip);
  token_room = ground (arith, r.1, length-insert token (spent token s.by_token + 1) s.by_token);
}

if-IsBounded :
    (c : Bool) (x y : Relay × ℕ) → IsBounded x.0 → IsBounded y.0 → IsBounded (if c then x else y).0
if-IsBounded true x y a b = a
if-IsBounded false x y a b = b

module _ (encode : Request → Option String) (push : Request → String → Option ℕ) where
  handle_relay-IsBounded :
      (now : Time) (ip method : String) (req : Option Request) (s : Relay)
      → IsBounded s
      → IsBounded (handle_relay encode push now ip method req s).0
  unfolding handle_relay handle_request allow
  handle_relay-IsBounded now ip method none s b = b
  handle_relay-IsBounded now ip method (some req) s b =
      let b' =
        charge-IsBounded ip req.token (renew now s) (renew-HasRoom now s)
          (renew-IsBounded now s b) in
      if-IsBounded (method != "POST") _ _ b (
        if-IsBounded (validate req != "") _ _ b
          (if-IsBounded (not (charge ip req.token (renew now s)).1) _ _ b' b'))

  -- The relay cannot be exhausted: from a server within its limits, after any calls at any times, no
  -- client's and no token's counter is over its hourly limit, and neither map holds more than one
  -- entry over its bound.
  pub serve_all-IsBounded :
      (calls : List Call) (s : Relay) → IsBounded s → IsBounded (serve_all encode push calls s)
  unfolding serve_all
  serve_all-IsBounded [] s b = b
  serve_all-IsBounded (c ∷ calls) s b =
      serve_all-IsBounded calls _ (handle_relay-IsBounded c.now c.ip c.method c.req s b)
