-- ===== src/Relay.antt =====
-- cmd/relay/server.go: the push relay. The decoded request, Apple's answer and the client's address
-- are input; `encode` stands for the JSON of the alert.
pub mod Limits
mod Tests
pub mod Client
use Prim.Native.Char.{code}
use Prim.Native.String
use photinus.Prelude.{
  ℕ, ◌+◌, ◌*◌, ◌-◌, String, Bool, true, false, not, ◌&&◌, ◌||◌, Option, none, some, List, [], ◌∷◌,
  pos, leb, ltb, Time, hour, older_than, ◌==◌, ◌!=◌, Dict, lookup, insert, get_or, contains, length,
  byte_length, if◌then◌else◌,
}

-- `RelayRequest` of internal/notify/relay.go
pub record Request : Type 0 where
  pub token : String
  pub env : String
  pub title : String
  pub body : String
  pub kind : String
  pub collapse : String

pub record Relay : Type 0 where
  pub windows : Time
  pub by_ip : Dict ℕ
  pub by_token : Dict ℕ

abbrev pub per_ip_hourly : ℕ
per_ip_hourly = 120

abbrev pub per_token_hourly : ℕ
per_token_hourly = 60

abbrev pub max_tracked : ℕ
max_tracked = 4096

unfoldable pub new_server : Time → Relay
new_server now = record { windows = now; by_ip = []; by_token = [] }

abbrev pub known_kinds : List String
known_kinds = "" ∷ "down" ∷ "warning" ∷ "recovered" ∷ "cleared" ∷ "flapping" ∷ "settled" ∷ []

abbrev is_hex : ℕ → Bool
is_hex c = (leb b'0' c && leb c b'9') || (leb b'a' c && leb c b'f') || (leb b'A' c && leb c b'F')

all_hex : String → Bool
all_hex String.[] = true
all_hex (String.◌∷◌ c s) = let rest = all_hex s in is_hex (code c) && rest

unfoldable pub hex_token : String → Bool
unfolding all_hex
hex_token t = not (ltb (byte_length t) 16 || ltb 200 (byte_length t)) && all_hex t

-- `validate`: the reason for a refusal, "" where there is none.
unfoldable pub validate : Request → String
validate req =
    if not (hex_token req.token)
    then "token must be 16..200 hex characters"
    else if req.env != "sandbox" && req.env != "production"
    then "env must be \"sandbox\" or \"production\""
    else if req.title == "" || ltb 128 (byte_length req.title)
    then "title must be 1..128 bytes"
    else if req.body == "" || ltb 1024 (byte_length req.body)
    then "body must be 1..1024 bytes"
    else if ltb 64 (byte_length req.collapse)
    then "collapse is capped at 64 bytes"
    else if not (contains known_kinds req.kind)
    then "unknown kind"
    else ""

abbrev pub spent : String → Dict ℕ → ℕ
spent k m = get_or (lookup k m) 0

-- A new window, when the hour is over or a map has grown past its bound.
unfoldable pub renew : Time → Relay → Relay
renew now s =
    if older_than now s.windows (pos hour)
      || ltb max_tracked (length s.by_ip)
      || ltb max_tracked (length s.by_token)
    then new_server now
    else s

unfoldable pub charge : String → String → Relay → Relay × Bool
charge ip token s =
    if leb per_ip_hourly (spent ip s.by_ip) || leb per_token_hourly (spent token s.by_token)
    then (s, false)
    else (
      record s {
        by_ip = insert ip (spent ip s.by_ip + 1) s.by_ip;
        by_token = insert token (spent token s.by_token + 1) s.by_token;
      },
      true,
    )

unfoldable pub allow : Time → String → String → Relay → Relay × Bool
allow now ip token s = charge ip token (renew now s)

-- What remains of `handleRelay` once a request is allowed: the status that it answers.
forward : (Request → Option String) → (Request → String → Option ℕ) → Request → ℕ
forward encode push req = elim (encode req) [ none ↦ 500 | some body ↦ get_or (push req body) 502 ]

unfoldable pub handle_request :
    (Request → Option String)
    → (Request → String → Option ℕ)
    → Time
    → String
    → Request
    → Relay
    → Relay × ℕ
unfolding forward
handle_request encode push now ip req s =
    let (s', allowed) = allow now ip req.token s in
    if validate req != ""
    then (s, 400)
    else if not allowed
    then (s', 429)
    else (s', forward encode push req)

-- `handleRelay`, from the method and what the decoder makes of the body.
unfoldable pub handle_relay :
    (Request → Option String)
    → (Request → String → Option ℕ)
    → Time
    → String
    → String
    → Option Request
    → Relay
    → Relay × ℕ
handle_relay encode push now ip method none s = (s, if method != "POST" then 405 else 400)
handle_relay encode push now ip method (some req) s =
    let done = handle_request encode push now ip req s in
    if method != "POST" then (s, 405) else done

-- A call of the handler: its time, the client, the method and the decoded request.
pub record Call : Type 0 where
  pub now : Time
  pub ip : String
  pub method : String
  pub req : Option Request

-- The handler's calls, one after the other.
unfoldable pub serve_all :
    (Request → Option String) → (Request → String → Option ℕ) → List Call → Relay → Relay
serve_all encode push [] s = s
serve_all encode push (c ∷ calls) s =
    serve_all encode push calls (handle_relay encode push c.now c.ip c.method c.req s).0
