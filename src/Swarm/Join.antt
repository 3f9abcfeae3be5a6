-- ===== src/Swarm/Join.antt =====
-- The configuration in `Join` of internal/swarm/swarm.go, the maps of the members, what a lantern
-- announces, and the way of a payload to its handler. The resolver, the parsers and the hash are a
-- record; whether the transport and memberlist start is input.
pub mod Reachable
use photinus.Prelude.{
  ℕ, String, Bool, true, false, not, ◌&&◌, ◌||◌, Option, none, some, List, [], ◌∷◌, ℤ, ltb, map,
  ◌==◌, ◌!=◌, ◌<>◌, cat, decimal_ℤ, Time, Dict, insert, has_text, trim_space, byte_length,
  take_bytes, if◌then◌else◌,
}
use photinus.Swarm.{Swarm, new_swarm, reap}
use photinus.Swarm.Advertise.{Ip, pick, or_else}
use photinus.Version.{release}

-- `net.SplitHostPort`, `strconv.Atoi`, `net.ParseIP`, `net.LookupIP` (no address for an error),
-- `outboundIP` and `sha256.Sum256`.
pub record Network : Type 0 where
  pub split_host_port : String → Option (String × String)
  pub atoi : String → Option ℤ
  pub is_ip : String → Bool
  pub lookup_ip : String → List Ip
  pub outbound : Option Ip
  pub sha256 : String → String
  pub mux_starts : Bool
  pub gossip_starts : Bool

-- The fields of `swarm.Config` that are data; `http` tells whether there is a handler.
pub record JoinConfig : Type 0 where
  pub id : String
  pub bind : String
  pub advertise : String
  pub key : String
  pub expect : List String
  pub http : Bool

-- What memberlist is configured with.
pub record GossipConfig : Type 0 where
  pub name : String
  pub bind_addr : String
  pub bind_port : ℤ
  pub advertise_addr : Option String
  pub advertise_port : ℤ
  pub secret_key : Option String
  pub shares_port : Bool

pub data JoinError : Type 0 where
  bad_bind bad_bind_port bad_advertise_port no_address no_route no_shared_port no_gossip : JoinError

pub data Joined : Type 0 where
  unjoined : JoinError → Joined
  joined : GossipConfig → Swarm → Joined

-- An address for the peers, none to let memberlist guess.
pub data Advertised : Type 0 where
  unknown : JoinError → Advertised
  known : Option String → ℤ → Advertised

module _ (lib : Network) where
  picked_text : ℤ → Option Ip → Advertised
  picked_text port none = unknown no_route
  picked_text port (some ip) = known (some ip.text) port

  resolved : ℤ → List Ip → Advertised
  unfolding picked_text
  resolved port [] = unknown no_address
  resolved port (ip ∷ ips) = picked_text port (or_else (pick (ip ∷ ips) none) lib.outbound)

  at_host : String → ℤ → Advertised
  unfolding resolved
  at_host host port =
      if lib.is_ip host then known (some host) port else resolved port (lib.lookup_ip host)

  at_port : String → Option ℤ → Advertised
  unfolding at_host
  at_port host none = unknown bad_advertise_port
  at_port host (some port) = at_host host port

  at_parts : String → ℤ → Option (String × String) → Advertised
  unfolding at_port
  at_parts given port none = at_host given port
  at_parts given port (some (host, p)) = at_port host (lib.atoi p)

  unfoldable pub advertised : String → ℤ → Advertised
  unfolding at_parts
  advertised given port =
      if given == "" then known none port else at_parts given port (lib.split_host_port given)

  abbrev secret : String → Option String
  secret key = if key != "" then some (lib.sha256 key) else none

  begin : JoinConfig → String → ℤ → Advertised → Joined
  begin c host port (unknown e) = unjoined e
  begin c host port (known addr aport) =
      if c.http && not lib.mux_starts
      then unjoined no_shared_port
      else if not lib.gossip_starts
      then unjoined no_gossip
      else joined
          (record {
            name = c.id;
            bind_addr = host;
            bind_port = port;
            advertise_addr = addr;
            advertise_port = aport;
            secret_key = secret c.key;
            shares_port = c.http;
          })
          (new_swarm c.id c.expect)

  on_port : JoinConfig → String → Option ℤ → Joined
  unfolding begin
  on_port c host none = unjoined bad_bind_port
  on_port c host (some port) = begin c host port (advertised c.advertise port)

  on_bind : JoinConfig → Option (String × String) → Joined
  unfolding on_port
  on_bind c none = unjoined bad_bind
  on_bind c (some (host, p)) = on_port c host (lib.atoi p)

  unfoldable pub join : JoinConfig → Joined
  unfolding on_bind
  join c = on_bind c (lib.split_host_port c.bind)

-- A live member, its port as it is written.
pub record Node : Type 0 where
  pub name : String
  pub addr : String
  pub port : ℕ
  pub meta : String

-- `Members`, `MemberAddrs` (with `net.JoinHostPort`) and `MemberVersions`
unfoldable pub members : List Node → List String
members nodes = map (λ (n : Node). n.name) nodes

unfoldable pub member_addrs : (String → ℕ → String) → List Node → Dict String → Dict String
member_addrs join_host_port [] out = out
member_addrs join_host_port (n ∷ nodes) out =
    member_addrs join_host_port nodes (insert n.name (join_host_port n.addr n.port) out)

unfoldable pub member_versions : List Node → Dict String → Dict String
member_versions [] out = out
member_versions (n ∷ nodes) out = member_versions nodes (insert n.name n.meta out)

-- A tick of `reapLoop`: whoever is a member is alive.
unfoldable pub reap_tick : Time → List Node → Swarm → Swarm
unfolding members
reap_tick now nodes s = reap now (members nodes) s

-- `NodeMeta`: the release, the platform and the distribution, cut at the limit.
unfoldable pub node_meta : String → String → String → ℕ → String
node_meta goos goarch distro limit =
    let v = cat (release ∷ " " ∷ goos ∷ "/" ∷ goarch ∷ " " ∷ distro ∷ []) in
    if ltb limit (byte_length v) then take_bytes limit v else v

-- `warnFilter.Write`: the line for the log, if it is one.
unfoldable pub warn_filter : String → Option String
warn_filter line =
    if has_text line "[WARN]" || has_text line "[ERR]"
    then some ("gossip: " <> trim_space line)
    else none

-- The handlers, `onFlash` and `state`: `SetOnFlash`, `SetState`, `NotifyMsg` and `MergeRemoteState`
-- (which treat a payload alike), and `LocalState`.
pub record Handlers (H : Type 0) : Type 0 where
  pub on_flash : Option H
  pub state : Option String

module _ {H : Type 0} where
  unfoldable pub set_on_flash : H → Handlers H → Handlers H
  set_on_flash fn h = record h { on_flash = some fn }

  unfoldable pub set_state : String → Handlers H → Handlers H
  set_state snapshot h = record h { state = some snapshot }

  called : String → Option H → Option (H × String)
  called msg none = none
  called msg (some fn) = some (fn, msg)

  -- The handler that is called, if any, with the payload.
  unfoldable pub notify_msg : Handlers H → String → Option (H × String)
  unfolding called
  notify_msg h msg = if msg == "" then none else called msg h.on_flash

  unfoldable pub merge_remote_state : Handlers H → String → Option (H × String)
  unfolding called
  merge_remote_state h buf = if buf == "" then none else called buf h.on_flash

  unfoldable pub local_state : Handlers H → Option String
  local_state h = h.state
