-- ===== src/Cmd/Panel.antt =====
-- `statusHandler` of cmd/photinus/panel.go: what each door of the panel answers and what it does to the
-- lantern, and the `/forget` door of the local socket in run.go. The JSON of a status, the decoder of a
-- registration, `%q` and the embedded files are parameters.
pub mod Guard
pub mod Writes
use photinus.Prelude.{
  ℕ, String, Bool, true, false, not, ◌&&◌, ◌||◌, Option, none, some, List, [], ◌∷◌, leb, ltb, ◌==◌,
  ◌!=◌, ◌<>◌, cat, Time, strip, has_prefix, trim_prefix, replace_all, every, byte_length,
  take_bytes, contains, if◌then◌else◌,
}
use photinus.Lantern.State.{Lantern}
use photinus.Lantern.Pulse.{pulse}
use photinus.Lantern.Push.{register_push}
use photinus.Lantern.Status.{View, Status, status}
use photinus.Lantern.Receive.{Envelope}
use photinus.Lantern.Words.{forget_everywhere}
use photinus.Cmd.Watch.{valid_pulse_name}

pub record HttpRequest : Type 0 where
  pub method : String
  pub path : String
  pub authorization : String
  pub body : String

pub record Response : Type 0 where
  pub code : ℕ
  pub headers : List (String × String)
  pub text : String

-- `http.Error`
abbrev http_error : List (String × String) → String → ℕ → Response
http_error headers text code = record {
  code = code;
  headers =
      ("Content-Type", "text/plain; charset=utf-8")
      ∷ ("X-Content-Type-Options", "nosniff")
      ∷ headers;
  text = text <> "\n";
}

abbrev pub is_hex_char : ℕ → Bool
is_hex_char r = leb b'0' r && leb r b'9' || leb b'a' r && leb r b'f' || leb b'A' r && leb r b'F'

unfoldable pub valid_push_token : String → Bool
valid_push_token token =
    not (ltb (byte_length token) 16 || ltb 200 (byte_length token)) && every is_hex_char token

-- What is wrong with a token, and with a pulse's name; `quote` stands for `%q`.
push_token_error : (String → String) → String → String
push_token_error quote token =
    if ltb (byte_length token) 16 || ltb 200 (byte_length token)
    then "a device token is 16 to 200 hex characters"
    else cat ("a device token is hex; " ∷ quote token ∷ " is not" ∷ [])

pulse_name_error : (String → String) → String → String
pulse_name_error quote name =
    if name == "" || ltb 100 (byte_length name)
    then "a pulse name is 1 to 100 characters"
    else cat (
        "a pulse name uses letters, digits, dot, dash, underscore; "
        ∷ quote name
        ∷ " does not"
        ∷ [])

-- What follows "Bearer " is the token, and something follows.
bearer_is : Option String → String → Bool
bearer_is none token = false
bearer_is (some rest) token = rest != "" && rest == token

unfoldable pub bearer_ok : HttpRequest → String → Bool
unfolding bearer_is
bearer_ok r token = bearer_is (strip "Bearer " r.authorization) token

abbrev cors : String → List (String × String)
cors allowed =
    ("Access-Control-Allow-Origin", "*")
    ∷ ("Access-Control-Allow-Headers", allowed)
    ∷ ("Access-Control-Max-Age", "86400")
    ∷ []

-- The start of every door: a preflight passes, then the token is asked for.
unfoldable pub door : {A : Type 0} → String → String → HttpRequest → A → A × Response → A × Response
door allowed token r l inside =
    if r.method == "OPTIONS"
    then (l, record { code = 204; headers = cors allowed; text = "" })
    else if token != "" && not (bearer_ok r token)
    then (
      l,
      http_error (("WWW-Authenticate", "Bearer") ∷ cors allowed) "a bearer token is required" 401,
    )
    else inside

-- What the panel is built from.
pub record Panel : Type 0 where
  pub token : String
  pub release : String
  pub asset : String → String
  pub show_status : Status → String
  pub stamp : Time → String
  pub quote : String → String
  pub decode : String → Option (String × String)

module _ (p : Panel) (now : Time) (view : Option View) where
  status_door : HttpRequest → Lantern → Lantern × Response
  status_door r l = door "Authorization" p.token r l (
    l,
    record {
      code = 200;
      headers = ("Content-Type", "application/json") ∷ cors "Authorization";
      text = p.show_status (status l view now);
    },
  )

  recorded : String → Lantern × Bool → Lantern × Response
  recorded name (l, declared) = (
    l,
    record {
      code = 200;
      headers = ("Content-Type", "text/plain; charset=utf-8") ∷ cors "Authorization";
      text = cat (
          "pulse "
          ∷ name
          ∷ (if declared then " recorded\n" else " recorded, not declared on this lantern\n")
          ∷ []);
    },
  )

  pulse_inside : HttpRequest → String → Lantern → Lantern × Response
  unfolding recorded pulse_name_error
  pulse_inside r name l =
      if r.method != "GET" && r.method != "POST"
      then (l, http_error (cors "Authorization") "ping a pulse with GET or POST" 405)
      else if not (valid_pulse_name name)
      then (l, http_error (cors "Authorization") (pulse_name_error p.quote name) 400)
      else recorded name (pulse p.stamp name now l)

  pulse_door : HttpRequest → Lantern → Lantern × Response
  unfolding pulse_inside
  pulse_door r l =
      door "Authorization" p.token r l (pulse_inside r (trim_prefix r.path "/pulse/") l)

  register : Option (String × String) → Lantern → Lantern × Response
  unfolding push_token_error
  register none l = (
    l,
    http_error (cors "Authorization, Content-Type")
        "the body is JSON: {\"token\": hex, \"env\": \"sandbox\"|\"production\"}" 400,
  )
  register (some (token, env)) l =
      if not (valid_push_token token)
      then (l, http_error (cors "Authorization, Content-Type") (push_token_error p.quote token) 400)
      else if env != "sandbox" && env != "production"
      then (
        l,
        http_error (cors "Authorization, Content-Type") "env is \"sandbox\" or \"production\"" 400,
      )
      else (
        register_push token env now l,
        record {
          code = 200;
          headers =
              ("Content-Type", "text/plain; charset=utf-8") ∷ cors "Authorization, Content-Type";
          text = "push registration recorded\n";
        },
      )

  push_inside : HttpRequest → Lantern → Lantern × Response
  unfolding register
  push_inside r l =
      if r.method != "POST"
      then (
        l,
        http_error (cors "Authorization, Content-Type") "register a push token with POST" 405,
      )
      else register (p.decode (take_bytes 4096 r.body)) l

  push_door : HttpRequest → Lantern → Lantern × Response
  unfolding push_inside
  push_door r l = door "Authorization, Content-Type" p.token r l (push_inside r l)

  abbrev asset_answer : String → String → Response
  asset_answer content_type text = record {
    code = 200;
    headers = ("Content-Type", content_type) ∷ [];
    text = text;
  }

  -- The files and the page, which carry no data.
  static_answer : String → Response
  static_answer path =
      if path == "/manifest.json"
      then asset_answer "application/manifest+json" (p.asset "manifest.json")
      else if path == "/sw.js"
      then asset_answer "text/javascript" (replace_all (p.asset "sw.js") "@RELEASE@" p.release)
      else if contains ("/icon-180.png" ∷ "/icon-192.png" ∷ "/icon-512.png" ∷ []) path
      then asset_answer "image/png" (p.asset (trim_prefix path "/"))
      else if path == "/"
      then asset_answer "text/html; charset=utf-8" (p.asset "panel.html")
      else http_error [] "404 page not found" 404

  -- The mux: the door that a path leads to.
  unfoldable pub serve : HttpRequest → Lantern → Lantern × Response
  unfolding status_door pulse_door push_door static_answer
  serve r l =
      if r.path == "/status.json"
      then status_door r l
      else if has_prefix r.path "/pulse/"
      then pulse_door r l
      else if r.path == "/push/register"
      then push_door r l
      else (l, static_answer r.path)

-- The `/forget` door of the local socket: the new memory, what is flashed, and the answer.
unfoldable pub forget_door :
    (Envelope → Option String)
    → Bool
    → Time
    → String
    → String
    → String
    → Lantern
    → (Lantern × Option String) × Response
forget_door encode attached now method check target l =
    if method != "POST"
    then ((l, none), http_error [] "POST only" 405)
    else if check == "" || target == ""
    then ((l, none), http_error [] "need check and target" 400)
    else (
      forget_everywhere encode attached check target now l,
      record {
        code = 200;
        headers = [];
        text = cat ("forgetting " ∷ check ∷ " " ∷ target ∷ " across the swarm\n" ∷ []);
      },
    )
