-- ===== src/Swarm/MuxTests.antt =====
-- The theorems on the shared port and on joining at concrete inputs.
use photinus.Prelude.{
  pos, false, none, ◌==◌, if◌then◌else◌, ◌+◌, ◌≡◌, refl, true, some, [], ◌∷◌, eqb,
}
use photinus.Swarm.{new_swarm}
use photinus.Swarm.Join.{Network, JoinConfig, GossipConfig, Joined, joined, join}
use photinus.Swarm.Mux.{
  Conn, Mux, new_mux, Side, to_http, to_gossip, side_at, side_of, MuxEvent, dial, route, hand_over,
  inner_down, shut_down, step, steps, Reached, started, went,
}
use photinus.Swarm.Mux.Sides.{nothing_is_lost, places}
use photinus.Swarm.Mux.Shutdown.{finish, is_over, shutdown_completes}

-- A browser.
abbrev browser : Conn
browser = record { id = 7; stream = b'G' ∷ b'E' ∷ b'T' ∷ [] }

abbrev dialled : Mux
dialled = record (new_mux true) { handing = some browser }

abbrev routed : Mux
routed = record (new_mux true) { pending = browser ∷ [] }

abbrev served : Mux
served = record (new_mux true) { served = browser ∷ [] }

reached_dialled : Reached true dialled
unfolding step
reached_dialled = went (new_mux true) dialled (dial browser) started refl

reached_routed : Reached true routed
unfolding step photinus.Swarm.Mux.route_step
reached_routed = went dialled routed route reached_dialled refl

nothing_is_lost_example : places (λ c. eqb c.id 7) served ≡ places (λ c. eqb c.id 7) routed + 0
unfolding step photinus.Swarm.Mux.taken photinus.Swarm.Mux.is_http_start
nothing_is_lost_example =
    nothing_is_lost true routed served (hand_over 0) (λ c. eqb c.id 7) reached_routed refl

shutdown_completes_example : is_over (steps dialled (finish dialled)) ≡ true
shutdown_completes_example = shutdown_completes true dialled reached_dialled

-- A Debian box, whose name is 127.0.1.1 to itself.
abbrev network : Network
network = record {
  split_host_port = λ s. if s == ":7946" then some ("", "7946") else none;
  atoi = λ s. if s == "7946" then some (pos 7946) else none;
  is_ip = λ s. s == "10.0.0.7";
  lookup_ip = λ host.
      record { text = "127.0.1.1"; loopback = true; link_local = false; v4 = true }
      ∷ record { text = "10.0.0.7"; loopback = false; link_local = false; v4 = true }
      ∷ [];
  outbound = none;
  sha256 = λ s. s;
  mux_starts = true;
  gossip_starts = true;
}

abbrev box : JoinConfig
box = record {
  id = "box";
  bind = ":7946";
  advertise = "box.example";
  key = "";
  expect = "jawa" ∷ [];
  http = true;
}

abbrev gossip : GossipConfig
gossip = record {
  name = "box";
  bind_addr = "";
  bind_port = pos 7946;
  advertise_addr = some "10.0.0.7";
  advertise_port = pos 7946;
  secret_key = none;
  shares_port = true;
}

join_runs : join network box ≡ joined gossip (new_swarm "box" ("jawa" ∷ []))
unfolding join photinus.Swarm.Join.advertised photinus.Swarm.Advertise.pick
join_runs = refl
