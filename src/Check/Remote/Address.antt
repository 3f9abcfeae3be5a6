-- ===== src/Check/Remote/Address.antt =====
-- The address of a result: `Result.Addr` of internal/check/check.go, "filled whenever a connection got
-- far enough to know it".
use photinus.Prelude.{
  ◌*◌, ◌≡◌, ◌∙◌, refl, arith, String, Option, List, [], ◌∷◌, Time, Duration, second,
}
use photinus.Check.Floats.{Floats}
use photinus.Check.Remote.{
  HostPort, no_host, has_host, Dialed, unreachable, connected, Tcp, Http, Cert, Fetched, no_answer,
  answered, HttpRequest, bad_url, asked, Handshake, or_default, host_of, run_tcp, run_http,
  run_cert, last_host, answer_result, tcp_result, http_result, shake, presented, reached,
  cert_result, broken, shaken,
}

module _ (split : String → HostPort) where
  -- The host that a dial reached.
  abbrev pub reached_host : Dialed → String
  reached_host (unreachable e) = ""
  reached_host (connected a) = host_of split a

  abbrev pub cert_host : HostPort → Dialed → String
  cert_host (no_host e) d = ""
  cert_host (has_host h) d = reached_host d

  abbrev pub last_hop : List (Option String) → String
  last_hop [] = ""
  last_hop (a ∷ []) = host_of split a
  last_hop (a ∷ b ∷ hops) = last_hop (b ∷ hops)

  abbrev pub asked_host : HttpRequest → String
  asked_host (bad_url e) = ""
  asked_host (asked hops end) = last_hop hops

  last_host-last_hop :
      (addr : String) (a : Option String) (hops : List (Option String))
      → last_host split addr (a ∷ hops) ≡ last_hop (a ∷ hops)
  unfolding last_host
  last_host-last_hop addr a [] = refl
  last_host-last_hop addr a (b ∷ hops) = last_host-last_hop (host_of split a) b hops

  tcp_addr : (t : Tcp) (d : Dialed) → (tcp_result split t d).addr ≡ reached_host d
  unfolding tcp_result
  tcp_addr t (unreachable e) = refl
  tcp_addr t (connected a) = refl

  module _ {F : Type 0} (fl : Floats F) where
    answer_addr : (addr : String) (f : Fetched) → (answer_result split fl addr f).addr ≡ addr
    unfolding answer_result
    answer_addr addr (no_answer e) = refl
    answer_addr addr (answered r) = ground arith

    http_addr : (r : HttpRequest) → (http_result split fl r).addr ≡ asked_host r
    unfolding http_result last_host
    http_addr (bad_url e) = refl
    http_addr (asked [] end) = answer_addr "" end
    http_addr (asked (a ∷ hops) end) = answer_addr _ end ∙ last_host-last_hop "" a hops

    shake_addr :
        (c : Cert) (now : Time) (addr : String) (h : Handshake)
        → (shake fl split c now addr h).addr ≡ addr
    unfolding shake presented
    shake_addr c now addr (broken e) = refl
    shake_addr c now addr (shaken []) = refl
    shake_addr c now addr (shaken (leaf ∷ chain)) = refl

    cert_reached :
        (c : Cert) (now : Time) (handshake : String → Handshake) (host : String) (d : Dialed)
        → (reached fl split c now handshake host d).addr ≡ reached_host d
    unfolding reached
    cert_reached c now handshake host (unreachable e) = refl
    cert_reached c now handshake host (connected a) = shake_addr c now _ (handshake host)

    cert_addr :
        (c : Cert) (now : Time) (dial : Duration → Dialed) (handshake : String → Handshake)
        (h : HostPort)
        → (cert_result fl split c now dial handshake h).addr
          ≡ cert_host h (dial (or_default c.timeout (10 * second)))
    unfolding cert_result
    cert_addr c now dial handshake (no_host e) = refl
    cert_addr c now dial handshake (has_host h) = cert_reached c now handshake h _

    -- A tcp, http or cert check carries the host that its connection reached (an http check that of the
    -- last connection, where a redirect led), whatever its verdict; one that never connected carries none.
    pub addresses_are_reached :
        (t : Tcp) (h : Http) (c : Cert) (now : Time) (dial : Duration → Dialed)
        (get : Duration → HttpRequest) (handshake : String → Handshake)
        → ((run_tcp split t dial).addr ≡ reached_host (dial (or_default t.timeout (3 * second))))
          × ((run_http split fl h get).addr ≡ asked_host (get (or_default h.timeout (10 * second))))
          × ((run_cert fl split c now dial handshake).addr
              ≡ cert_host (split c.addr) (dial (or_default c.timeout (10 * second))))
    unfolding run_tcp run_http run_cert
    addresses_are_reached t h c now dial get handshake = (
      tcp_addr t (dial (or_default t.timeout (3 * second))),
      http_addr (get (or_default h.timeout (10 * second))),
      cert_addr c now dial handshake (split c.addr),
    )
