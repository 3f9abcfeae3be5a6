-- ===== src/Check/Remote.antt =====
-- The checks of other machines: `Run` and `Every` of internal/check/tcp.go, http.go and cert.go, and
-- `hostOf` of check.go. What the dialer, the HTTP client, the TLS handshake and the clock answer is
-- input, given the timeout that the check asks for.
pub mod Expiry
pub mod Address
use photinus.Prelude.{
  ℕ, ◌*◌, String, Bool, true, false, ◌&&◌, Option, none, some, List, [], ◌∷◌, ℤ, pos, neg, wrap64,
  leb, leb_ℤ, eqb, ◌==◌, ◌<>◌, cat, Time, Duration, second, millisecond, minute, hour, since,
  get_or, trim_prefix, after_last, if◌then◌else◌,
}
use photinus.Lantern.State.{Verdict, ok, warn, failed, not_applicable}
use photinus.Lantern.Flash.{CheckResult}
use photinus.Check.Floats.{Floats}
use photinus.Check.Local.{said, human_duration}

-- The host of `net.SplitHostPort`, or its error.
pub data HostPort : Type 0 where
  no_host : String → HostPort
  has_host : String → HostPort

-- The error of a dialer: its text, and that of the error in a `net.OpError`.
pub record DialError : Type 0 where
  pub text : String
  pub inner : Option String

-- A dial; the remote address of a connection may be nil.
pub data Dialed : Type 0 where
  unreachable : DialError → Dialed
  connected : Option String → Dialed

pub record Tcp : Type 0 where
  pub addr : String
  pub timeout : Duration

pub record Http : Type 0 where
  pub url : String
  pub timeout : Duration

pub record Cert : Type 0 where
  pub addr : String
  pub warn_within : Duration
  pub timeout : Duration

-- An answer: its status code, its status line and the time it took.
pub record HttpAnswer : Type 0 where
  pub code : ℕ
  pub status : String
  pub elapsed : Duration

pub data Fetched : Type 0 where
  no_answer : String → Fetched
  answered : HttpAnswer → Fetched

-- A request that was not one, or the connections that were made for it, in order, and its end.
pub data HttpRequest : Type 0 where
  bad_url : String → HttpRequest
  asked : List (Option String) → Fetched → HttpRequest

-- The leaf certificate of a handshake.
pub record Leaf : Type 0 where
  pub not_after : Time
  pub common_name : String
  pub organization : List String

pub data Handshake : Type 0 where
  broken : String → Handshake
  shaken : List Leaf → Handshake

-- A zero or negative setting means the default.
abbrev pub or_default : Duration → ℕ → Duration
or_default d default = if leb_ℤ d (pos 0) then pos default else d

module _ (split : String → HostPort) where
  host_in : HostPort → String
  host_in (no_host e) = ""
  host_in (has_host h) = h

  unfoldable pub host_of : Option String → String
  unfolding host_in
  host_of none = ""
  host_of (some a) = host_in (split a)

  abbrev dial_reason : DialError → String
  dial_reason e = get_or e.inner e.text

  tcp_result : Tcp → Dialed → CheckResult
  tcp_result t (unreachable e) = said failed ("cannot connect: " <> dial_reason e)
  tcp_result t (connected a) = record {
    verdict = ok;
    detail = "connected to " <> t.addr;
    addr = host_of a;
  }

  unfoldable pub run_tcp : Tcp → (Duration → Dialed) → CheckResult
  unfolding tcp_result
  run_tcp t dial = tcp_result t (dial (or_default t.timeout (3 * second)))

  -- The last connection that was made, for a chain of redirects.
  last_host : String → List (Option String) → String
  last_host addr [] = addr
  last_host addr (a ∷ hops) = last_host (host_of a) hops

  unfoldable pub answer_result : {F : Type 0} → Floats F → String → Fetched → CheckResult
  answer_result fl addr (no_answer e) = record {
    verdict = failed;
    detail = "cannot fetch: " <> get_or (after_last ": " e) e;
    addr = addr;
  }
  answer_result fl addr (answered r) =
      if leb 400 r.code
      then record { verdict = failed; detail = "answered " <> r.status; addr = addr }
      else record {
        verdict = ok;
        detail = cat (r.status ∷ " in " ∷ fl.rounded r.elapsed (pos millisecond) ∷ []);
        addr = addr;
      }

  http_result : {F : Type 0} → Floats F → HttpRequest → CheckResult
  unfolding last_host
  http_result fl (bad_url e) = said failed ("bad url: " <> e)
  http_result fl (asked hops end) = answer_result fl (last_host "" hops) end

  unfoldable pub run_http : {F : Type 0} → Floats F → Http → (Duration → HttpRequest) → CheckResult
  unfolding http_result
  run_http fl h get = http_result fl (get (or_default h.timeout (10 * second)))

-- Who issued the certificate.
abbrev first_or : String → List String → String
first_or s [] = s
first_or s (o ∷ os) = o

unfoldable pub issuer : Leaf → String
issuer leaf =
    let named =
      if leaf.common_name == "" then first_or "" leaf.organization else leaf.common_name in
    if named == "" then "unknown issuer" else named

abbrev pub warn_within : Cert → Duration
warn_within c = or_default c.warn_within (7 * 24 * hour)

unfoldable pub cert_verdict : {F : Type 0} → Floats F → Leaf → Duration → Time → CheckResult
cert_verdict fl leaf within now =
    let left = since leaf.not_after now in
    if leb_ℤ left (pos 0)
    then said failed
        (cat ("certificate expired " ∷ human_duration fl (wrap64 (neg left)) ∷ " ago" ∷ []))
    else if leb_ℤ left within
    then said warn (
        cat (
          "certificate expires in "
          ∷ human_duration fl left
          ∷ ", renew now ("
          ∷ issuer leaf
          ∷ ")"
          ∷ []))
    else said ok (cat ("valid, " ∷ human_duration fl left ∷ " left (" ∷ issuer leaf ∷ ")" ∷ []))

module _ {F : Type 0} (fl : Floats F) (split : String → HostPort) where
  presented : Cert → Time → String → List Leaf → CheckResult
  presented c now addr [] = record {
    verdict = failed;
    detail = "no certificate presented";
    addr = addr;
  }
  presented c now addr (leaf ∷ chain) = record (cert_verdict fl leaf (warn_within c) now) {
    addr = addr;
  }

  shake : Cert → Time → String → Handshake → CheckResult
  unfolding presented
  shake c now addr (broken e) = record {
    verdict = failed;
    detail = "certificate refused: " <> trim_prefix e "tls: failed to verify certificate: ";
    addr = addr;
  }
  shake c now addr (shaken certs) = presented c now addr certs

  reached : Cert → Time → (String → Handshake) → String → Dialed → CheckResult
  unfolding shake
  reached c now handshake host (unreachable e) = said failed ("cannot connect: " <> e.text)
  reached c now handshake host (connected a) = shake c now (host_of split a) (handshake host)

  cert_result : Cert → Time → (Duration → Dialed) → (String → Handshake) → HostPort → CheckResult
  unfolding reached
  cert_result c now dial handshake (no_host e) = said failed ("bad address: " <> e)
  cert_result c now dial handshake (has_host host) =
      reached c now handshake host (dial (or_default c.timeout (10 * second)))

  unfoldable pub run_cert : Cert → Time → (Duration → Dialed) → (String → Handshake) → CheckResult
  unfolding cert_result
  run_cert c now dial handshake = cert_result c now dial handshake (split c.addr)
