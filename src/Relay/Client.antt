-- ===== src/Relay/Client.antt =====
-- `clientIP` of cmd/relay/server.go: which address a request is charged to. The parsers of Go's net
-- package are parameters.
use photinus.Prelude.{
  ◌≡◌, refl, String, Bool, false, ◌&&◌, Option, ◌!=◌, cut, ◌<>◌, get_or, trim_space, if◌then◌else◌,
}
use photinus.Version.{release}

-- `r.RemoteAddr`, and the header X-Forwarded-For, "" without one.
pub record Peer : Type 0 where
  pub remote_addr : String
  pub forwarded : String

-- `split` is the host of `net.SplitHostPort`; `is_loopback` tests an address that `net.ParseIP` reads.
unfoldable pub client_ip : (String → Option String) → (String → Bool) → Peer → String
client_ip split is_loopback r =
    let host = get_or (split r.remote_addr) r.remote_addr in
    if is_loopback host && r.forwarded != "" then trim_space (cut b',' r.forwarded).0 else host

-- A peer that is not the box's own proxy is charged by its address, whatever header it sends.
pub header_is_ignored :
    (split : String → Option String) (is_loopback : String → Bool) (addr forged other : String)
    → is_loopback (get_or (split addr) addr) ≡ false
    → client_ip split is_loopback (record { remote_addr = addr; forwarded = forged })
      ≡ client_ip split is_loopback (record { remote_addr = addr; forwarded = other })
unfolding client_ip
header_is_ignored split is_loopback addr forged other h = rw h refl

-- The page /healthz.
abbrev pub health : String
health = "ok photinus-relay " <> release <> "\n"
