-- ===== src/Relay/Tests.antt =====
-- The relay's theorem at a concrete input, and refusals of `validate`.
use photinus.Prelude.{ℕ, ◌≡◌, refl, String, Option, none, some, List, [], ◌∷◌}
use photinus.Relay.{Request, Relay, Call, new_server, serve_all, validate}
use photinus.Relay.Limits.{IsBounded, new_server-IsBounded, serve_all-IsBounded}

abbrev page : Request
page = record {
  token = "00112233445566778899aAbBcCdDeEfF";
  env = "sandbox";
  title = "db is down";
  body = "tcp on db is down";
  kind = "down";
  collapse = "";
}

valid_page : validate page ≡ ""
unfolding validate photinus.Relay.hex_token photinus.Prelude.contains
valid_page = refl

short_token : validate (record page { token = "0011" }) ≡ "token must be 16..200 hex characters"
unfolding validate photinus.Relay.hex_token
short_token = refl

unknown_kind : validate (record page { kind = "up" }) ≡ "unknown kind"
unfolding validate photinus.Relay.hex_token photinus.Prelude.contains
unknown_kind = refl

abbrev calls : List Call
calls =
    record { now = 7; ip = "192.0.2.7"; method = "POST"; req = some page }
    ∷ record { now = 8; ip = "192.0.2.7"; method = "GET"; req = none }
    ∷ []

serve_all-IsBounded_example :
    IsBounded (serve_all (λ r. some r.body) (λ r b. some 200) calls (new_server 5))
serve_all-IsBounded_example =
    serve_all-IsBounded (λ r. some r.body) (λ r b. some 200) calls (new_server 5)
      (new_server-IsBounded 5)
