-- ===== src/Notify/Apns.antt =====
-- internal/notify/apns.go: what a push to Apple says, where it goes, and the token that signs it. The
-- signature is a parameter, as is Apple's answer.
pub mod Signed
use photinus.Prelude.{
  ℕ, ◌*◌, String, Bool, true, false, not, ◌&&◌, ◌||◌, Option, none, some, List, [], ◌∷◌, ltb, leb,
  pos, ltb_ℤ, Time, minute, since, ◌==◌, ◌!=◌, ◌<>◌, cat, byte_length, take_bytes, if◌then◌else◌,
}
use photinus.Notify.Event.{Event}
use photinus.Lantern.State.{PushRegistration}

-- `AlertPayload`: the one shape of a notification.
pub record Alert : Type 0 where
  pub title : String
  pub body : String
  pub sound : String
  pub interruption_level : Option String

unfoldable pub alert_payload : String → String → String → Alert
alert_payload title body kind = record {
  title = title;
  body = body;
  sound = "default";
  interruption_level = (if kind == "down" then some "time-sensitive" else none);
}

-- The title of an event, and its payload.
abbrev pub title_of : Event → String
title_of e = cat (e.kind ∷ ": " ∷ e.check ∷ " " ∷ e.target ∷ [])

unfoldable pub payload : Event → Alert
payload e = alert_payload (title_of e) e.detail e.kind

unfoldable pub apns_priority : String → String
apns_priority kind = if kind == "down" || kind == "flapping" then "10" else "5"

-- The subject, cut at 64 bytes.
unfoldable pub collapse_id : Event → String
collapse_id e =
    let id = cat (e.check ∷ " " ∷ e.target ∷ []) in
    if ltb 64 (byte_length id) then take_bytes 64 id else id

-- The signing token that is kept, "" before the first, and when it was signed.
pub record Signer : Type 0 where
  pub jwt : String
  pub jwt_at : Time

-- What signing comes to.
resigned : Time → Signer → Option String → Signer × Option String
resigned now s none = (s, none)
resigned now s (some jwt) = (record { jwt = jwt; jwt_at = now }, some jwt)

-- `bearer`: the kept token, or a new one where signing works.
unfoldable pub bearer : (Time → Option String) → Time → Signer → Signer × Option String
unfolding resigned
bearer sign now s =
    if s.jwt != "" && ltb_ℤ (since now s.jwt_at) (pos (50 * minute))
    then (s, some s.jwt)
    else resigned now s (sign now)

abbrev pub host_of : String → Option String
host_of env =
    if env == "sandbox"
    then some "https://api.sandbox.push.apple.com"
    else if env == "production"
    then some "https://api.push.apple.com"
    else none

pub record Wire : Type 0 where
  pub url : String
  pub bearer : String
  pub topic : String
  pub priority : String
  pub collapse : String
  pub body : String

-- `doPush` up to the wire: nothing goes out to an unknown environment.
unfoldable pub wire : String → String → String → String → String → String → String → Option Wire
wire topic env token jwt body priority collapse = elim (host_of env) [
  | none ↦ none
  | some host ↦ some (record {
    url = cat (host ∷ "/3/device/" ∷ token ∷ []);
    bearer = "Bearer " <> jwt;
    topic = topic;
    priority = priority;
    collapse = collapse;
    body = body;
  })
]

wires : String → String → String → Event → List PushRegistration → List Wire
wires topic jwt body e [] = []
wires topic jwt body e (r ∷ rs) =
    let rest = wires topic jwt body e rs in
    elim (wire topic r.env r.token jwt body (apns_priority e.kind) (collapse_id e)) [
      | none ↦ rest
      | some w ↦ w ∷ rest
    ]

-- `send`: one request for each registration, if there is one and the token can be signed.
unfoldable pub send :
    (Time → Option String)
    → (Alert → Option String)
    → String
    → Time
    → Event
    → List PushRegistration
    → Signer
    → Signer × List Wire
unfolding wires
send sign encode topic now e [] s = (s, [])
send sign encode topic now e (r ∷ rs) s =
    let (s', token) = bearer sign now s in
    elim token [
      | none ↦ (s', [])
      | some jwt ↦ elim (encode (payload e)) [
        | none ↦ (s', [])
        | some body ↦ (s', wires topic jwt body e (r ∷ rs))
      ]
    ]
