-- ===== src/Notify/RelaySender.antt =====
-- internal/notify/relay.go: a page through the first relay that answers. What each relay would answer,
-- a status or nothing, is input.
pub mod Once
pub mod Accepted
use photinus.Prelude.{
  ℕ, String, Bool, true, false, not, ◌&&◌, ◌||◌, Option, none, some, List, [], ◌∷◌, leb, eqb, ◌<>◌,
  trim_suffix, if◌then◌else◌,
}
use photinus.Notify.Event.{Event}
use photinus.Notify.Apns.{title_of, collapse_id}
use photinus.Lantern.State.{PushRegistration}
use photinus.Relay.{Request}

-- The one request for one phone.
unfoldable pub relay_request : PushRegistration → Event → Request
relay_request r e = record {
  token = r.token;
  env = r.env;
  title = title_of e;
  body = e.detail;
  kind = e.kind;
  collapse = collapse_id e;
}

abbrev pub relay_url : String → String
relay_url u = trim_suffix u "/" <> "/relay"

-- What comes of a page: it was sent, the phone is gone, it was refused, or no relay answered.
pub data Outcome : Type 0 where
  pushed : Outcome
  gone : Outcome
  refused : ℕ → Outcome
  unanswered : Outcome

-- A transport error or a failure of the relay itself moves on to the next.
abbrev pub moves_on : Option ℕ → Bool
moves_on none = true
moves_on (some code) = not (eqb code 200) && leb 500 code

abbrev outcome_of : ℕ → Outcome
outcome_of code = if eqb code 200 then pushed else if eqb code 410 then gone else refused code

abbrev final_outcome : Option ℕ → Outcome
final_outcome none = unanswered
final_outcome (some code) = outcome_of code

-- `relayOne`: the urls that are posted to, in order, and the outcome.
unfoldable pub relay_one : List (String × Option ℕ) → List (String × Option ℕ) × Outcome
relay_one [] = ([], unanswered)
relay_one ((u, answer) ∷ rest) =
    let (tried, outcome) = relay_one rest in
    if moves_on answer
    then ((relay_url u, answer) ∷ tried, outcome)
    else ((relay_url u, answer) ∷ [], final_outcome answer)

-- `Relay`: one walk for each phone, with the request that it carries.
unfoldable pub relay_all :
    (Request → List (String × Option ℕ)) → Event → List PushRegistration → List (Request × Outcome)
relay_all answers e [] = []
relay_all answers e (r ∷ rs) =
    let req = relay_request r e in (req, (relay_one (answers req)).1) ∷ relay_all answers e rs
