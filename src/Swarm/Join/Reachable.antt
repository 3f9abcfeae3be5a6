-- ===== src/Swarm/Join/Reachable.antt =====
-- What peers are told of a lantern: `Join` and `NodeMeta` of internal/swarm/swarm.go.
use photinus.Prelude.{
  ℕ, ◌≤◌, ◌≡◌, arith, String, true, Option, none, some, List, [], ◌∷◌, ℤ, ◌==◌, cat, byte_length,
  byte_length-take_bytes,
}
use photinus.Version.{release}
use photinus.Swarm.{new_swarm}
use photinus.Swarm.Advertise.{Ip, is_routable}
use photinus.Swarm.Join.{
  Network, JoinConfig, GossipConfig, Joined, unjoined, joined, Advertised, unknown, known,
  JoinError, node_meta,
}

-- Some address of the list passes the test and reads so.
pub data Among (text : String) : List Ip → Type 0 where
  here : (ip : Ip) (ips : List Ip) → is_routable ip ≡ true → ip.text ≡ text → Among text (ip ∷ ips)
  later : (ip : Ip) (ips : List Ip) → Among text ips → Among text (ip ∷ ips)

module _ (lib : Network) (c : JoinConfig) where
  -- Where an address that peers are told comes from.
  pub data Source : Option String → Type 0 where
    left_to_memberlist : (c.advertise == "") ≡ true → Source none
    by_ip : (a : String) → lib.is_ip a ≡ true → Source (some a)
    by_name : (host a : String) → Among a (lib.lookup_ip host) → Source (some a)
    by_route : (ip : Ip) → lib.outbound ≡ some ip → Source (some ip.text)

  data Sourced : Advertised → Type 0 where
    fails : (e : JoinError) → Sourced (unknown e)
    works : (a : Option String) (port : ℤ) → Source a → Sourced (known a port)

  -- A lantern that joined goes by its name, starts with the memory of its declared members, and tells
  -- peers an address from such a source.
  pub data IsReachable : Joined → Type 0 where
    refused : (e : JoinError) → IsReachable (unjoined e)
    reaches :
        (g : GossipConfig)
        → g.name ≡ c.id
        → Source g.advertise_addr
        → IsReachable (joined g (new_swarm c.id c.expect))

-- What a lantern announces of its release fits the limit of memberlist's metadata.
pub node_meta_fits :
    (goos goarch distro : String) (limit : ℕ)
    → byte_length (node_meta goos goarch distro limit) ≤ limit
unfolding node_meta
node_meta_fits goos goarch distro limit = ground (
  arith,
  byte_length-take_bytes limit (cat (release ∷ " " ∷ goos ∷ "/" ∷ goarch ∷ " " ∷ distro ∷ [])),
)
